-- ===== src/Regex/Scan.antt =====
-- `match`, `search`, `finditer` and `sub` of a compiled pattern. Where the source's patterns are
-- used with `sub` or `finditer`, none of them matches the empty text.
use mathlib.Core.Option
use power_judge.Prelude.{
  ℕ, zero, suc, ◌-◌, ◌≤◌, ◌<◌, Option, none, some, List, [], ◌∷◌, ◌++◌, ◌≡◌, refl, arith, length,
  subst,
}
use power_judge.Text.{Text}
use power_judge.Regex.Syntax.{Regex}
use power_judge.Regex.Run.{Position, run, between, find_group}
use power_judge.Regex.Meaning.{Means}
use power_judge.Regex.Correct.{run_sound, run_complete}

pub record Match : Type 0 where
  pub from : Position
  pub to : Position

-- Index `k` of a text, as a position.
abbrev pub shift : ℕ → Text → Text → Position
shift zero b a = record { before = b; after = a; groups = [] }
shift (suc k) b [] = record { before = b; after = []; groups = [] }
shift (suc k) b (c ∷ a) = shift k (c ∷ b) a

abbrev pub position : ℕ → Text → Position
position k s = shift k [] s

unfoldable pub try_at : Regex → Position → Option Match
unfolding run
try_at r p = elim (run r p some) [ none ↦ none | some t ↦ some (record { from = p; to = t }) ]

unfoldable pub first : Option Match → Option Match → Option Match
first none later = later
first (some m) later = some m

-- The first index, from here on, at which the pattern matches.
unfoldable pub scan : Regex → Text → Text → Option Match
unfolding try_at first
scan r b [] = try_at r (shift 0 b [])
scan r b (c ∷ a) = let later = scan r (c ∷ b) a in first (try_at r (shift 0 b (c ∷ a))) later

-- pattern.match(s)
unfoldable pub match_start : Regex → Text → Option Match
unfolding try_at
match_start r s = try_at r (position 0 s)

-- pattern.search(s)
unfoldable pub search : Regex → Text → Option Match
unfolding scan
search r s = scan r [] s

-- m.start(0), m.end(0), m.group(0)
unfoldable pub match_from : Match → ℕ
match_from m = length m.from.before

unfoldable pub match_to : Match → ℕ
match_to m = length m.to.before

unfoldable pub matched_text : Match → Text
unfolding between
matched_text m = between m.from m.to

-- m.group(n), `none` for a group that took no part
unfoldable pub group? : ℕ → Match → Option Text
unfolding find_group
group? n m = find_group n m.to.groups

-- m.group(n) of a group that takes part in every match
unfoldable pub group_text : ℕ → Match → Text
unfolding group?
group_text n m = Option.get_or (group? n m) []

-- The width of a match at a position; 0 for none.
unfoldable pub width : Option Match → ℕ
width none = 0
width (some m) = length m.from.after - length m.to.after

unfoldable pub replaced : (Match → Text) → ℕ → Option Match → Text
replaced rep c none = c ∷ []
replaced rep c (some m) = rep m

-- pattern.sub(rep, s); `skip` characters are still inside the last match.
unfoldable pub sub_from : Regex → (Match → Text) → ℕ → Text → Text → Text
unfolding try_at width replaced
sub_from r rep skip b [] = []
sub_from r rep (suc k) b (c ∷ a) = sub_from r rep k (c ∷ b) a
sub_from r rep zero b (c ∷ a) =
    let m = try_at r (shift 0 b (c ∷ a)) in
    replaced rep c m ++ sub_from r rep (width m - 1) (c ∷ b) a

unfoldable pub sub : Regex → (Match → Text) → Text → Text
unfolding sub_from
sub r rep s = sub_from r rep 0 [] s

unfoldable pub found : Option Match → List Match → List Match
found none ms = ms
found (some m) ms = m ∷ ms

-- pattern.finditer(s)
unfoldable pub matches_from : Regex → ℕ → Text → Text → List Match
unfolding try_at width found
matches_from r skip b [] = []
matches_from r (suc k) b (c ∷ a) = matches_from r k (c ∷ b) a
matches_from r zero b (c ∷ a) =
    let m = try_at r (shift 0 b (c ∷ a)) in found m (matches_from r (width m - 1) (c ∷ b) a)

unfoldable pub find_iter : Regex → Text → List Match
unfolding matches_from
find_iter r s = matches_from r 0 [] s

-- The pattern matches nowhere before index `k`, counted from a position.
abbrev pub NoneBefore : Regex → ℕ → Text → Text → Type 0
NoneBefore r k b a = (j : ℕ) (t : Position) → j < k → ¬ Means r (shift j b a) t

abbrev FirstFrom : Regex → Text → Text → Option Match → Type 0
FirstFrom r b a none = NoneBefore r (suc (length a)) b a
FirstFrom r b a (some m) =
    (k : ℕ) × (k ≤ length a) × (m.from ≡ shift k b a) × Means r m.from m.to × NoneBefore r k b a

-- What a search has to find: the leftmost index at which the pattern has a match, if any.
abbrev pub IsFirstMatch : Regex → Text → Option Match → Type 0
IsFirstMatch r s o = FirstFrom r [] s o

abbrev pub StartsHere : Regex → Position → Option Match → Type 0
StartsHere r p none = (t : Position) → ¬ Means r p t
StartsHere r p (some m) = (m.from ≡ p) × Means r p m.to

pub try_at-StartsHere : (r : Regex) (p : Position) → StartsHere r p (try_at r p)
unfolding try_at
try_at-StartsHere r p = go (run r p some) refl
  where
    go :
        (o : Option Position)
        → run r p some ≡ o
        → StartsHere r p (elim o [ none ↦ none | some t ↦ some (record { from = p; to = t }) ])
    go none e = λ t m. let (w, e') = run_complete r p t some t m refl in cc
    go (some v) e = let (t, m, e') = run_sound r p some v e in (refl, subst (Means r p) (cc) m)

first-FirstFrom :
    (r : Regex) (b : Text) (c : ℕ) (a : Text) (here later : Option Match)
    → StartsHere r (shift 0 b (c ∷ a)) here
    → FirstFrom r (c ∷ b) a later
    → FirstFrom r b (c ∷ a) (first here later)
unfolding first
first-FirstFrom r b c a (some m) later (e, h) l =
    (0, omega arith, e, rw e h, λ j t lt. absurd (omega arith))
first-FirstFrom r b c a none none h l = go
  where
    go : NoneBefore r (suc (suc (length a))) b (c ∷ a)
    go zero t lt = h t
    go (suc j) t lt = l j t (omega arith)
first-FirstFrom r b c a none (some m) h (k, le, e, means, before) =
    (suc k, omega arith, e, means, go)
  where
    go : NoneBefore r (suc k) b (c ∷ a)
    go zero t lt = h t
    go (suc j) t lt = before j t (omega arith)

last-FirstFrom :
    (r : Regex) (b : Text) (here : Option Match)
    → StartsHere r (shift 0 b []) here
    → FirstFrom r b [] here
last-FirstFrom r b (some m) (e, h) = (0, omega arith, e, rw e h, λ j t lt. absurd (omega arith))
last-FirstFrom r b none h = go
  where
    go : NoneBefore r 1 b []
    go zero t lt = h t
    go (suc j) t lt = absurd (omega arith)

scan-FirstFrom : (r : Regex) (b a : Text) → FirstFrom r b a (scan r b a)
unfolding scan
scan-FirstFrom r b [] = last-FirstFrom r b _ (try_at-StartsHere r _)
scan-FirstFrom r b (c ∷ a) =
    first-FirstFrom r b c a _ _ (try_at-StartsHere r _) (scan-FirstFrom r (c ∷ b) a)

pub search-FirstMatch : (r : Regex) (s : Text) → IsFirstMatch r s (search r s)
unfolding search
search-FirstMatch r s = scan-FirstFrom r [] s
