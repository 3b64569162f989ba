-- ===== src/FileNames/Root.antt =====
-- The searches upwards in `FileInfo.RepositoryName` of bin/cpplint.py.
use power_judge.Prelude.{
  ℕ, zero, suc, ◌<◌, Bool, true, false, none, some, List, [], ◌∷◌, ◌++◌, ◌≡◌, ◌≢◌, ◌⊎◌, inl, inr,
  refl, sym, ap, ◌∙◌, subst, arith, append-nil, append_assoc, length, length-append, take, drop,
  take-append-drop, all, if◌then◌else◌, Bool-cases,
}
use power_judge.Text.{Text, codes, text_eq, rstrip_char}
use power_judge.Text.Laws.{text_eq_iff, rstrip_char-prefix}
use power_judge.FileNames.Path.{dirname, split_path, join_path, base_at, is_slash}
use power_judge.FileNames.{FileSystem, holds, svn_root, has_repository, repository_root}

dirname-slash : dirname (codes "/") ≡ codes "/"
unfolding dirname split_path
dirname-slash = refl

-- Where the top directory has an entry `.svn`, the first loop, once it looks there, never ends:
-- no number of rounds is enough.
pub svn_root-slash :
    (fs : FileSystem) (rounds : ℕ) (root_dir : Text)
    → fs.exists (codes "/.svn") ≡ true
    → svn_root fs rounds root_dir (codes "/") ≡ none
unfolding svn_root holds join_path
svn_root-slash fs zero root_dir h = refl
svn_root-slash fs (suc rounds) root_dir h =
    rw (h, dirname-slash) (svn_root-slash fs rounds (dirname root_dir) h)

-- A directory on the way up, and the one that the second loop stops at: all below it hold no
-- repository and are not the top.
pub data Upward (fs : FileSystem) : Text → Text → Type 0 where
  stops :
      {dir r : Text}
      → (dirname dir ≡ dir) ⊎ (has_repository fs dir ≡ true)
      → r ≡ dir
      → Upward fs dir r
  climbs :
      {dir r : Text}
      → dirname dir ≢ dir
      → has_repository fs dir ≡ false
      → Upward fs (dirname dir) r
      → Upward fs dir r

prefix_shorter {ℓ} : {A : Type ℓ} (p q : List A) → p ≢ p ++ q → length p < length (p ++ q)
prefix_shorter p [] h = absurd (h (sym (append-nil p)))
prefix_shorter p (x ∷ q) h = omega (arith, length-append p (x ∷ q))

head-prefix :
    (p : Text) (i : ℕ) (b : Bool)
    → (q : Text) × (p ≡ (if b then take i p else rstrip_char b'/' (take i p)) ++ q)
head-prefix p i true = (drop i p, sym (take-append-drop i p))
head-prefix p i false =
    let (q, e) = rstrip_char-prefix b'/' (take i p) in
    (
      q ++ drop i p,
      sym (take-append-drop i p) ∙ ap (λ h. h ++ drop i p) e ∙ append_assoc _ q (drop i p),
    )

dirname-prefix : (p : Text) → (q : Text) × (p ≡ dirname p ++ q)
unfolding dirname split_path
dirname-prefix p = head-prefix p (base_at p) (all is_slash (take (base_at p) p))

dirname_shorter : (p : Text) → dirname p ≢ p → length (dirname p) < length p
dirname_shorter p h =
    let (q, e) = dirname-prefix p in
    subst (λ s. length (dirname p) < length s) (sym e)
      (prefix_shorter (dirname p) q (λ k. h (k ∙ sym e)))

-- With more rounds than the path has characters, the second loop of `RepositoryName` ends, at the
-- nearest directory upwards that holds a repository, or at the top if none does.
pub repository_root-Upward :
    (fs : FileSystem) (rounds : ℕ) (dir : Text)
    → length dir < rounds
    → (r : Text) × (repository_root fs rounds dir ≡ some r) × Upward fs dir r
unfolding repository_root
repository_root-Upward fs zero dir l = absurd (omega arith)
repository_root-Upward fs (suc rounds) dir l = elim (Bool-cases (text_eq dir (dirname dir))) [
  | inl t ↦ (dir, rw t refl, stops (inl (sym ((text_eq_iff dir (dirname dir)).0 t))) refl)
  | inr f ↦ elim (Bool-cases (has_repository fs dir)) [
    | inl h ↦ (dir, rw (f, h) refl, stops (inr h) refl)
    | inr n ↦
        let up : dirname dir ≢ dir =
          λ e. absurd (ground (arith, f, e, text_eq_iff dir (dirname dir))) in
        let (r, run, path) =
          repository_root-Upward fs rounds (dirname dir) (omega (arith, dirname_shorter dir up)) in
        (r, rw (f, n) run, climbs up n path)
  ]
]
