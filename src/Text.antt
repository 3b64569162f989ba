-- ===== src/Text.antt =====
-- Python's text values and the methods of `str` and `unicode` that bin/cpplint.py calls.
-- A text is the list of its code points. `find` is `none` where Python returns -1. Letters and
-- digits are the ASCII ones; white space is Unicode's, as `strip`, `split` and `isspace` have it.

pub mod Laws
use Prim.Native.Char.{code}
use power_judge.Prelude.{
  ℕ, zero, suc, ◌+◌, ◌-◌, ◌/◌, ◌%◌, String, Bool, true, false, ◌&&◌, ◌||◌, not, Option, none, some,
  List, [], ◌∷◌, ◌++◌, reverse, ltb, leb, ◌==◌, if◌then◌else◌, length, take, drop, any, is_nil,
}
use mathlib.Core.Option

abbrev pub Text : Type 0
Text = List ℕ

abbrev pub codes : String → Text
codes String.[] = []
codes (String.◌∷◌ c s) = code c ∷ codes s

-- ''.join(ts)
abbrev pub concat : List Text → Text
concat [] = []
concat (t ∷ ts) = t ++ concat ts

-- a == b
unfoldable pub text_eq : Text → Text → Bool
text_eq [] [] = true
text_eq (a ∷ s) (b ∷ t) = a == b && text_eq s t
text_eq _ _ = false

-- `t in ts`, for a list or a tuple of texts
unfoldable pub text_in : Text → List Text → Bool
unfolding text_eq
text_in t ts = any (text_eq t) ts

-- s < t, by code points
unfoldable pub text_lt : Text → Text → Bool
text_lt s [] = false
text_lt [] (b ∷ t) = true
text_lt (a ∷ s) (b ∷ t) = ltb a b || (a == b && text_lt s t)

-- s.startswith(p)
unfoldable pub starts_with : Text → Text → Bool
starts_with s [] = true
starts_with [] (a ∷ p) = false
starts_with (b ∷ s) (a ∷ p) = a == b && starts_with s p

-- s.endswith(p)
unfoldable pub ends_with : Text → Text → Bool
unfolding starts_with
ends_with s p = starts_with (reverse s) (reverse p)

-- s.find(p)
unfoldable pub find : Text → Text → Option ℕ
unfolding starts_with
find [] p = if is_nil p then some 0 else none
find (c ∷ s) p =
    let later = Option.map suc (find s p) in if starts_with (c ∷ s) p then some 0 else later

-- p in s
unfoldable pub has : Text → Text → Bool
unfolding find
has s p = elim (find s p) [ none ↦ false | some _ ↦ true ]

-- s.find(p, start)
unfoldable pub find_from : Text → Text → ℕ → Option ℕ
unfolding find
find_from s p start = Option.map (λ i. start + i) (find (drop start s) p)

-- s.rfind(c), for one character
unfoldable pub rfind : Text → ℕ → Option ℕ
rfind [] c = none
rfind (a ∷ s) c = elim (rfind s c) [
  | none ↦ if a == c then some 0 else none
  | some i ↦ some (suc i)
]

-- s.count(p), without overlaps; `skip` characters are still inside the last occurrence
unfoldable pub count_from : ℕ → Text → Text → ℕ
unfolding starts_with
count_from skip [] p = 0
count_from (suc k) (c ∷ s) p = count_from k s p
count_from zero (c ∷ s) p =
    let hit = starts_with (c ∷ s) p in
    (if hit then 1 else 0) + count_from (if hit then length p - 1 else 0) s p

unfoldable pub count : Text → Text → ℕ
unfolding count_from
count s p = count_from 0 s p

-- s.replace(old, new), for a nonempty `old`
unfoldable pub replace_from : ℕ → Text → Text → Text → Text
unfolding starts_with
replace_from skip [] old new = []
replace_from (suc k) (c ∷ s) old new = replace_from k s old new
replace_from zero (c ∷ s) old new =
    let hit = starts_with (c ∷ s) old in
    (if hit then new else c ∷ []) ++ replace_from (if hit then length old - 1 else 0) s old new

unfoldable pub replace : Text → Text → Text → Text
unfolding replace_from
replace s old new = replace_from 0 s old new

unfoldable pub add_to_first : ℕ → List Text → List Text
add_to_first c [] = (c ∷ []) ∷ []
add_to_first c (w ∷ ws) = (c ∷ w) ∷ ws

-- s.split(sep), for one character
unfoldable pub split : Text → ℕ → List Text
unfolding add_to_first
split [] sep = [] ∷ []
split (c ∷ s) sep = let rest = split s sep in if c == sep then [] ∷ rest else add_to_first c rest

-- sep.join(ws)
unfoldable pub join : Text → List Text → Text
join sep [] = []
join sep (w ∷ []) = w
join sep (w ∷ v ∷ ws) = w ++ (sep ++ join sep (v ∷ ws))

-- c.isspace()
unfoldable pub is_space : ℕ → Bool
is_space c =
    (leb 9 c && leb c 13)
    || (leb 28 c && leb c 32)
    || c == 0x85
    || c == 0xa0
    || c == 0x1680
    || c == 0x180e
    || (leb 0x2000 c && leb c 0x200a)
    || c == 0x2028
    || c == 0x2029
    || c == 0x202f
    || c == 0x205f
    || c == 0x3000

-- s.split(): the words between runs of white space
unfoldable pub words_onto : Text → Text → List Text
unfolding is_space
words_onto word [] = if is_nil word then [] else reverse word ∷ []
words_onto word (c ∷ s) =
    let gap = is_space c in
    let rest = words_onto (if gap then [] else c ∷ word) s in
    if gap && not (is_nil word) then reverse word ∷ rest else rest

unfoldable pub words : Text → List Text
unfolding words_onto
words s = words_onto [] s

unfoldable pub lstrip : Text → Text
unfolding is_space
lstrip [] = []
lstrip (c ∷ s) = if is_space c then lstrip s else c ∷ s

unfoldable pub rstrip : Text → Text
unfolding lstrip
rstrip s = reverse (lstrip (reverse s))

unfoldable pub strip : Text → Text
unfolding lstrip rstrip
strip s = lstrip (rstrip s)

-- s.rstrip(c), for one character
unfoldable pub drop_leading : ℕ → Text → Text
drop_leading c [] = []
drop_leading c (a ∷ s) = if a == c then drop_leading c s else a ∷ s

unfoldable pub rstrip_char : ℕ → Text → Text
unfolding drop_leading
rstrip_char c s = reverse (drop_leading c (reverse s))

unfoldable pub is_lower : ℕ → Bool
is_lower c = leb b'a' c && leb c b'z'

unfoldable pub is_upper : ℕ → Bool
is_upper c = leb b'A' c && leb c b'Z'

unfoldable pub is_digit : ℕ → Bool
is_digit c = leb b'0' c && leb c b'9'

-- c.isalnum()
unfoldable pub is_alnum : ℕ → Bool
unfolding is_lower is_upper is_digit
is_alnum c = is_lower c || is_upper c || is_digit c

-- s.lower(), s.upper()
unfoldable pub lower : Text → Text
unfolding is_upper
lower [] = []
lower (c ∷ s) = (if is_upper c then c + 32 else c) ∷ lower s

unfoldable pub upper : Text → Text
unfolding is_lower
upper [] = []
upper (c ∷ s) = (if is_lower c then c - 32 else c) ∷ upper s

-- s[a:b], for a ≤ b
abbrev pub slice : Text → ℕ → ℕ → Text
slice s a b = take (b - a) (drop a s)

-- `%d`; a number has at most as many digits as its value plus one
digits_onto : ℕ → ℕ → Text → Text
digits_onto zero n out = out
digits_onto (suc f) n out =
    let rest = digits_onto f (n / 10) ((b'0' + n % 10) ∷ out) in
    if ltb n 10 then (b'0' + n) ∷ out else rest

unfoldable pub decimal : ℕ → Text
unfolding digits_onto
decimal n = digits_onto (suc n) n []
