-- ===== src/Brackets.antt =====
-- bin/cpplint.py, `FindEndOfExpressionInLine`, `CloseExpression`, `FindStartOfExpressionInLine` and
-- `ReverseCloseExpression`. A position is `none` where the source has -1. A result is `none` where
-- the source raises an `IndexError`: the position to start from is not on the line.
pub mod Grammar
pub mod Forward
pub mod Close
use power_judge.Prelude.{
  ℕ, zero, suc, ◌+◌, ◌-◌, Bool, true, false, Option, none, some, List, [], ◌∷◌, ◌==◌, if◌then◌else◌,
  length, drop, take, get_elem?, get_or, reverse,
}
use power_judge.Prelude.Int.{ℤ, pos, negsuc, ◌+ℤ◌, eq_ℤ}
use power_judge.Text.{Text}

-- The depth after a character, given what opens and what closes.
unfoldable pub next_depth : ℕ → ℕ → ℕ → ℤ → ℤ
next_depth opens closes c depth =
    if c == opens then depth +ℤ pos 1 else if c == closes then depth +ℤ negsuc 0 else depth

-- Whether this character is the one that is looked for.
unfoldable pub closes_here : ℕ → ℕ → ℕ → ℤ → Bool
closes_here opens closes c depth =
    if c == opens then false else if c == closes then eq_ℤ depth (pos 1) else false

-- The loop of `FindEndOfExpressionInLine` over the characters from index `i` on.
unfoldable pub find_end_from : ℕ → ℕ → ℕ → Text → ℤ → Option ℕ × ℤ
unfolding next_depth closes_here
find_end_from opens closes i [] depth = (none, depth)
find_end_from opens closes i (c ∷ line) depth =
    let later = find_end_from opens closes (suc i) line (next_depth opens closes c depth) in
    if closes_here opens closes c depth then (some (suc i), pos 0) else later

-- `FindEndOfExpressionInLine`
unfoldable pub find_end_of_expression_in_line : Text → ℕ → ℤ → ℕ → ℕ → Option ℕ × ℤ
unfolding find_end_from
find_end_of_expression_in_line line startpos depth startchar endchar =
    find_end_from startchar endchar startpos (drop startpos line) depth

-- What closes an opening character, if it is one of `({[<`.
unfoldable pub closer : ℕ → Option ℕ
closer c =
    if c == b'('
    then some b')'
    else if c == b'['
    then some b']'
    else if c == b'{'
    then some b'}'
    else if c == b'<'
    then some b'>'
    else none

-- A line, its number, and a position on it.
pub record Place : Type 0 where
  pub line : Text
  pub linenum : ℕ
  pub column : Option ℕ

-- The loop `while linenum < clean_lines.NumLines() - 1`, over the lines that are left.
unfoldable pub scan_forward : ℕ → ℕ → Text → ℕ → List Text → ℤ → Place
unfolding find_end_from
scan_forward opens closes line linenum [] depth = record {
  line = line;
  linenum = suc linenum;
  column = none;
}
scan_forward opens closes line linenum (next ∷ rest) depth =
    let (end, num_open) = find_end_from opens closes 0 next depth in
    let later = scan_forward opens closes next (suc linenum) rest num_open in
    elim end [
      | none ↦ later
      | some p ↦ record { line = next; linenum = suc linenum; column = some p }
    ]

close_from : List Text → Text → ℕ → ℕ → ℕ → Option ℕ → Place
unfolding find_end_of_expression_in_line scan_forward
close_from lines line linenum start opens none = record {
  line = line;
  linenum = length lines;
  column = none;
}
close_from lines line linenum start opens (some closes) =
    let (end, num_open) = find_end_of_expression_in_line line start (pos 0) opens closes in
    elim end [
      | none ↦ scan_forward opens closes line linenum (drop (suc linenum) lines) num_open
      | some p ↦ record { line = line; linenum = linenum; column = some p }
    ]

-- `CloseExpression`, over the elided lines.
unfoldable pub close_expression : List Text → ℕ → ℕ → Option Place
unfolding closer close_from
close_expression lines linenum start =
    let line = get_or lines linenum [] in
    elim (get_elem? line start) [
      | none ↦ none
      | some c ↦ some (close_from lines line linenum start c (closer c))
    ]

-- The loop of `FindStartOfExpressionInLine`, over the characters from index `i` down to 0, the
-- nearest first.
unfoldable pub find_start_from : ℕ → ℕ → Text → ℤ → Option ℕ × ℤ
unfolding next_depth closes_here
find_start_from opens closes [] depth = (none, depth)
find_start_from opens closes (c ∷ before) depth =
    let earlier = find_start_from opens closes before (next_depth closes opens c depth) in
    if closes_here closes opens c depth then (some (length before), pos 0) else earlier

-- `FindStartOfExpressionInLine`; `endpos` is on the line, or -1 for an empty line.
unfoldable pub find_start_of_expression_in_line : Text → Option ℕ → ℤ → ℕ → ℕ → Option ℕ × ℤ
unfolding find_start_from
find_start_of_expression_in_line line none depth startchar endchar = (none, depth)
find_start_of_expression_in_line line (some endpos) depth startchar endchar =
    find_start_from startchar endchar (reverse (take (suc endpos) line)) depth

unfoldable pub opener : ℕ → Option ℕ
opener c =
    if c == b')'
    then some b'('
    else if c == b']'
    then some b'['
    else if c == b'}'
    then some b'{'
    else if c == b'>'
    then some b'<'
    else none

-- The loop `while linenum > 0`, over the lines before, the nearest first.
unfoldable pub scan_backward : ℕ → ℕ → Text → List Text → ℤ → Place
unfolding find_start_from
scan_backward opens closes line [] depth = record { line = line; linenum = 0; column = none }
scan_backward opens closes line (prev ∷ before) depth =
    let (start, num_open) = find_start_from opens closes (reverse prev) depth in
    let earlier = scan_backward opens closes prev before num_open in
    elim start [
      | none ↦ earlier
      | some p ↦ record { line = prev; linenum = length before; column = some p }
    ]

reverse_close_from : List Text → Text → ℕ → ℕ → ℕ → Option ℕ → Place
unfolding find_start_of_expression_in_line scan_backward
reverse_close_from lines line linenum endpos closes none = record {
  line = line;
  linenum = 0;
  column = none;
}
reverse_close_from lines line linenum endpos closes (some opens) =
    let (start, num_open) =
      find_start_of_expression_in_line line (some endpos) (pos 0) opens closes in
    elim start [
      | none ↦ scan_backward opens closes line (reverse (take linenum lines)) num_open
      | some p ↦ record { line = line; linenum = linenum; column = some p }
    ]

-- `ReverseCloseExpression`, over the elided lines.
unfoldable pub reverse_close_expression : List Text → ℕ → ℕ → Option Place
unfolding opener reverse_close_from
reverse_close_expression lines linenum start =
    let line = get_or lines linenum [] in
    elim (get_elem? line start) [
      | none ↦ none
      | some c ↦ some (reverse_close_from lines line linenum start c (opener c))
    ]
