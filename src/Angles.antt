-- ===== src/Angles.antt =====
-- bin/cpplint.py, `FindNextMatchingAngleBracket` and `FindPreviousMatchingAngleBracket`. The source
-- takes the line apart by a pattern up to the next operator; here the loop goes over the
-- characters, and a character that is no operator changes nothing. The bottom of `nesting_stack`,
-- which is all that the loop began with, is left out.
pub mod Template
use power_judge.Prelude.{
  ℕ, suc, Bool, true, false, ◌||◌, List, [], ◌∷◌, map, reverse, ◌==◌, if◌then◌else◌, drop, take,
}
use power_judge.Text.{Text}

-- `[<>(),;\[\]]`
unfoldable pub is_operator : ℕ → Bool
is_operator c =
    c == b'<'
    || c == b'>'
    || c == b'('
    || c == b')'
    || c == b','
    || c == b';'
    || c == b'['
    || c == b']'

-- What the loop does next: return, or go on with a stack.
pub data Verdict : Type 0 where
  returns : Bool → Verdict
  goes_on : List ℕ → Verdict

-- Whether the innermost bracket is the angle bracket of the search.
top_is : ℕ → List ℕ → Bool
top_is own [] = true
top_is own (c ∷ _) = c == own

pop_bracket : List ℕ → Verdict
pop_bracket [] = returns true
pop_bracket (_ ∷ stack) = goes_on stack

-- One operator on the way to the closing `>`.
unfoldable pub next_operator : ℕ → List ℕ → Verdict
unfolding top_is pop_bracket
next_operator c stack =
    if c == b'<' || c == b'(' || c == b'['
    then goes_on (c ∷ stack)
    else if top_is b'<' stack
    then (if c == b'>' then pop_bracket stack else returns (c == b','))
    else if c == b')' || c == b']'
    then pop_bracket stack
    else goes_on stack

-- One operator on the way back to the opening `<`.
unfoldable pub previous_operator : ℕ → List ℕ → Verdict
unfolding top_is pop_bracket
previous_operator c stack =
    if c == b'>' || c == b')' || c == b']'
    then goes_on (c ∷ stack)
    else if top_is b'>' stack
    then (if c == b'<' then pop_bracket stack else returns (c == b','))
    else if c == b'(' || c == b'['
    then pop_bracket stack
    else goes_on stack

-- The characters of a line, by one of the two steps; `returns` stops.
unfoldable pub scan_line : (ℕ → List ℕ → Verdict) → Text → List ℕ → Verdict
unfolding is_operator
scan_line step [] stack = goes_on stack
scan_line step (c ∷ line) stack = elim (if is_operator c then step c stack else goes_on stack) [
  | returns b ↦ returns b
  | goes_on stack' ↦ scan_line step line stack'
]

-- The lines in the order of the search; `otherwise` where all are exhausted.
unfoldable pub scan_lines : (ℕ → List ℕ → Verdict) → Bool → List Text → List ℕ → Bool
unfolding scan_line
scan_lines step otherwise [] stack = otherwise
scan_lines step otherwise (line ∷ lines) stack = elim (scan_line step line stack) [
  | returns b ↦ b
  | goes_on stack' ↦ scan_lines step otherwise lines stack'
]

-- `FindNextMatchingAngleBracket`, over the elided lines
unfoldable pub find_next_matching_angle_bracket : List Text → ℕ → Text → Bool
unfolding scan_lines next_operator
find_next_matching_angle_bracket elided linenum init_suffix =
    scan_lines next_operator true (init_suffix ∷ drop (suc linenum) elided) []

-- `FindPreviousMatchingAngleBracket`
unfoldable pub find_previous_matching_angle_bracket : List Text → ℕ → Text → Bool
unfolding scan_lines previous_operator
find_previous_matching_angle_bracket elided linenum init_prefix =
    scan_lines previous_operator false
      (reverse init_prefix ∷ map reverse (reverse (take linenum elided))) []
