-- ===== src/FileNames/Path.antt =====
-- Python's posixpath, as bin/cpplint.py uses it.

use power_judge.Prelude.{
  ℕ, suc, Bool, false, ◌&&◌, ◌||◌, not, Option, none, some, List, [], ◌∷◌, ◌++◌, reverse, ◌==◌,
  if◌then◌else◌, take, drop, is_nil, all,
}
use power_judge.Text.{
  Text, codes, text_eq, text_in, starts_with, ends_with, rfind, rstrip_char, split, join,
}

pub is_slash : ℕ → Bool
is_slash c = c == b'/'

-- p.rfind('/') + 1
unfoldable pub base_at : Text → ℕ
unfolding rfind
base_at p = elim (rfind p b'/') [ none ↦ 0 | some k ↦ suc k ]

-- os.path.split(p)
unfoldable pub split_path : Text → Text × Text
unfolding base_at rstrip_char is_slash
split_path p =
    let i = base_at p in
    let head = take i p in (if all is_slash head then head else rstrip_char b'/' head, drop i p)

unfoldable pub dirname : Text → Text
unfolding split_path
dirname p = (split_path p).0

is_dot : ℕ → Bool
is_dot c = c == b'.'

-- A dot makes an extension if something other than dots stands before it in the last component.
split_at_dot : Text → Text → Option ℕ → Text × Text
unfolding is_dot
split_at_dot head rest none = (head ++ rest, [])
split_at_dot head rest (some i) =
    if all is_dot (take i rest) then (head ++ rest, []) else (head ++ take i rest, drop i rest)

-- os.path.splitext(p)
unfoldable pub splitext : Text → Text × Text
unfolding split_at_dot base_at rfind
splitext p = let i = base_at p in split_at_dot (take i p) (drop i p) (rfind (drop i p) b'.')

-- os.path.join(a, b), for two components
unfoldable pub join_path : Text → Text → Text
unfolding starts_with ends_with
join_path a b =
    if starts_with b (codes "/")
    then b
    else if is_nil a || ends_with a (codes "/")
    then a ++ b
    else a ++ (codes "/" ++ b)

-- The components that `normpath` keeps, last first.
keep_components : Bool → List Text → List Text → List Text
unfolding text_eq text_in
keep_components rooted kept [] = kept
keep_components rooted kept (w ∷ ws) =
    let top_up : Bool = elim kept [ [] ↦ false | k ∷ _ ↦ text_eq k (codes "..") ] in
    let skips = text_in w ([] ∷ codes "." ∷ []) in
    let stays = not (text_eq w (codes "..")) || (not rooted && is_nil kept) || top_up in
    let dropped : List Text = elim kept [ [] ↦ [] | k ∷ ks ↦ ks ] in
    keep_components rooted (if skips then kept else if stays then w ∷ kept else dropped) ws

-- os.path.normpath(p); two slashes in front, and no third, stay two
unfoldable pub normpath : Text → Text
unfolding keep_components split join starts_with
normpath p =
    let slashes =
      if starts_with p (codes "//") && not (starts_with p (codes "///"))
      then codes "//"
      else if starts_with p (codes "/")
      then codes "/"
      else [] in
    let kept =
      slashes
      ++ join (codes "/") (reverse (keep_components (not (is_nil slashes)) [] (split p b'/'))) in
    if is_nil kept then codes "." else kept

-- os.path.abspath(p)
unfoldable pub abspath : Text → Text → Text
unfolding join_path normpath
abspath cwd p = normpath (join_path cwd p)

-- os.path.commonprefix([a, b])
unfoldable pub common_prefix : Text → Text → Text
common_prefix [] b = []
common_prefix (x ∷ a) [] = []
common_prefix (x ∷ a) (y ∷ b) = if x == y then x ∷ common_prefix a b else []
