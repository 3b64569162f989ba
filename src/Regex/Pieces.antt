-- ===== src/Regex/Pieces.antt =====
-- `re.split` and `re.findall` of a compiled pattern, and the flag `re.I` for a pattern in small
-- letters. None of the patterns matches the empty text.
use power_judge.Prelude.{ℕ, zero, suc, ◌-◌, Option, none, some, List, [], ◌∷◌, map, reverse}
use power_judge.Text.{Text, lower}
use power_judge.Regex.Syntax.{Regex}
use power_judge.Regex.Scan.{Match, shift, try_at, width, search, find_iter, group_text}

-- `skip` characters are still inside the last match; `word` is the piece so far, latest first.
unfoldable pub split_from : Regex → ℕ → Text → Text → Text → List Text
unfolding try_at width
split_from r skip b [] word = reverse word ∷ []
split_from r (suc k) b (c ∷ a) word = split_from r k (c ∷ b) a word
split_from r zero b (c ∷ a) word =
    let m = try_at r (shift 0 b (c ∷ a)) in
    elim m [
      | none ↦ split_from r zero (c ∷ b) a (c ∷ word)
      | some n ↦ reverse word ∷ split_from r (width (some n) - 1) (c ∷ b) a []
    ]

-- re.split(pattern, s), for a pattern with no groups
unfoldable pub split_by : Regex → Text → List Text
unfolding split_from
split_by r s = split_from r 0 [] s []

-- re.findall(pattern, s), for a pattern with one group
unfoldable pub find_all : Regex → Text → List Text
unfolding find_iter group_text
find_all r s = map (group_text 1) (find_iter r s)

-- The groups of the match are those of the text in small letters; the indices are the same.
unfoldable pub search_ignoring_case : Regex → Text → Option Match
unfolding search lower
search_ignoring_case r s = search r (lower s)
