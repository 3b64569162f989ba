-- ===== src/Regex/Run.antt =====
-- Backtracking, in the order in which Python's engine tries: a run takes what is to follow, so that
-- it can come back and try the next way.

use power_judge.Prelude.{
  ℕ, zero, suc, ◌-◌, Bool, true, false, not, Option, none, some, List, [], ◌∷◌, reverse, ltb, ◌==◌,
  if◌then◌else◌, length, take, drop, ◌++◌,
}
use power_judge.Text.{Text, starts_with}
use power_judge.Regex.Syntax.{
  Regex, chars, any_char, line_start, line_end, boundary, empty, broken, seq, alt, star, group,
  look, back, is_word, fits,
}

-- A position: what lies before it (nearest first), what lies behind it, and the groups so far,
-- latest first.
pub record Position : Type 0 where
  pub before : Text
  pub after : Text
  pub groups : List (ℕ × Text)

abbrev pub Follow : Type 0
Follow = Position → Option Position

unfoldable pub eat : (ℕ → Bool) → Position → Option Position
eat test s = elim s.after [
  | [] ↦ none
  | c ∷ cs ↦ if test c then some (record s { before = c ∷ s.before; after = cs }) else none
]

unfoldable pub then_follow : Option Position → Follow → Option Position
then_follow none k = none
then_follow (some t) k = k t

unfoldable pub or_else : Option Position → Option Position → Option Position
or_else none o = o
or_else (some t) o = some t

unfoldable pub head_is_word : Text → Bool
unfolding is_word
head_is_word [] = false
head_is_word (c ∷ _) = is_word c

-- `^`, `$` (also before a last newline) and `\b`
unfoldable pub at_start : Position → Bool
at_start s = elim s.before [ [] ↦ true | _ ∷ _ ↦ false ]

unfoldable pub at_end : Position → Bool
at_end s = elim s.after [ [] ↦ true | c ∷ [] ↦ c == 10 | c ∷ d ∷ _ ↦ false ]

unfoldable pub at_boundary : Position → Bool
unfolding head_is_word
at_boundary s = if head_is_word s.before then not (head_is_word s.after) else head_is_word s.after

-- The text from `s` to `t`, and `t` with that text as group `n`.
unfoldable pub between : Position → Position → Text
between s t = reverse (take (length t.before - length s.before) t.before)

unfoldable pub set_group : ℕ → Position → Position → Position
unfolding between
set_group n s t = record t { groups = (n, between s t) ∷ t.groups }

unfoldable pub find_group : ℕ → List (ℕ × Text) → Option Text
find_group n [] = none
find_group n ((k, t) ∷ gs) = if k == n then some t else find_group n gs

-- A given text, and on.
unfoldable pub read_text : Text → Position → Option Position
unfolding starts_with
read_text g s =
    if starts_with s.after g
    then some (record s { before = reverse g ++ s.before; after = drop (length g) s.after })
    else none

unfoldable pub recall : ℕ → Position → Option Position
unfolding find_group read_text
recall n s = elim (find_group n s.groups) [ none ↦ none | some g ↦ read_text g s ]

-- `r*`: each round of the body has to move on. `rounds` is more than the characters that are left.
unfoldable pub loop :
    Bool → (Position → Follow → Option Position) → ℕ → Position → Follow → Option Position
unfolding or_else
loop greedy body zero s k = none
loop greedy body (suc rounds) s k =
    let again =
      body s (λ t.
        if ltb (length t.after) (length s.after) then loop greedy body rounds t k else none) in
    if greedy then or_else again (k s) else or_else (k s) again

unfoldable pub look_at : Bool → Option Position → Position → Follow → Option Position
look_at true (some _) s k = k s
look_at true none s k = none
look_at false (some _) s k = none
look_at false none s k = k s

unfoldable pub is_other : ℕ → ℕ → Bool
is_other a c = not (a == c)

unfoldable pub run : Regex → Position → Follow → Option Position
unfolding eat then_follow or_else at_start at_end at_boundary set_group loop look_at is_other fits
    recall
run (chars negated items) s k = then_follow (eat (fits negated items) s) k
run any_char s k = then_follow (eat (is_other 10) s) k
run line_start s k = if at_start s then k s else none
run line_end s k = if at_end s then k s else none
run boundary s k = if at_boundary s then k s else none
run empty s k = k s
run broken s k = none
run (seq r q) s k = run r s (λ t. run q t k)
run (alt r q) s k = or_else (run r s k) (run q s k)
run (star greedy r) s k = loop greedy (run r) (suc (length s.after)) s k
run (group n r) s k = run r s (λ t. k (set_group n s t))
run (back n) s k = then_follow (recall n s) k
run (look b r) s k = look_at b (run r s some) s k
