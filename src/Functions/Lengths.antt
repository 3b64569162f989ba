-- ===== src/Functions/Lengths.antt =====
-- bin/cpplint.py, `CheckForFunctionLengths`. A result is `none` where the source raises an error:
-- the line of a function's name, found by one pattern, does not match the other, or the name found
-- is blank.

use power_judge.Prelude.{
  ℕ, Bool, false, ◌||◌, not, Option, none, some, List, [], ◌∷◌, ◌++◌, if◌then◌else◌, get_or, drop,
  last?,
}
use power_judge.Prelude.Maybe.{◌>>=◌}
use power_judge.Text.{Text, codes, text_eq, words, lstrip}
use power_judge.Regex.Scan.{Match, group_text}
use power_judge.Patterns.{re_match, re_search, matches, searches}
use power_judge.Lint.{Diagnostic}
use power_judge.Cleanse.{CleansedLines}
use power_judge.FileChecks.{diagnostic}
use power_judge.Functions.{FunctionState, begin, count_line, end, check}

is_starting_name : Text → Bool
unfolding text_eq matches
is_starting_name name =
    text_eq name (codes "TEST") || text_eq name (codes "TEST_F") || not (matches "[A-Z_]+$" name)

starting_name : Option Match → Option Bool
unfolding is_starting_name group_text words
starting_name none = some false
starting_name (some m) = do name ← last? (words (group_text 1 m)); some (is_starting_name name)

-- Whether a function starts at the line.
unfoldable pub starts_function : Text → Option Bool
unfolding starting_name re_match
starts_function line = starting_name (re_match "(\\w(\\w|::|\\*|\\&|\\s)*)\\(" line)

with_parameters : Text → Option Match → Text
unfolding group_text
with_parameters function none = function
with_parameters function (some m) = function ++ group_text 1 m

function_name : Text → Option Match → Option Text
unfolding matches re_search with_parameters group_text
function_name joined none = none
function_name joined (some m) =
    let function = group_text 1 m in
    some (
      if matches "TEST" function
      then with_parameters function (re_search "(\\(.*\\))" joined)
      else function ++ codes "()")

no_body : ℕ → FunctionState → FunctionState × List Diagnostic
no_body linenum st = (
  st,
  diagnostic linenum "readability/fn_size" 5 (codes "Lint failed to find start of function body.")
      ∷ [],
)

-- The loop that looks for the body, over the lines from the function's first one on.
unfoldable pub find_body :
    ℕ → Text → Text → List Text → FunctionState → Option (FunctionState × List Diagnostic)
unfolding searches lstrip re_search function_name begin no_body
find_body linenum line joined [] st = some (no_body linenum st)
find_body linenum line joined (start_line ∷ rest) st =
    let joined' = joined ++ (codes " " ++ lstrip start_line) in
    let later = find_body linenum line joined' rest st in
    if searches "(;|})" start_line
    then some (st, [])
    else if searches "{" start_line
    then (do
      function ← function_name joined' (re_search "((\\w|:)*)\\(" line)
      some (begin function st, []))
    else later

body_line : ℕ → ℕ → Text → FunctionState → FunctionState × List Diagnostic
unfolding matches check count_line end
body_line verbosity linenum line st =
    if matches "^\\}\\s*$" line
    then (end st, check verbosity linenum st)
    else if matches "^\\s*$" line
    then (st, [])
    else (count_line st, [])

-- `CheckForFunctionLengths`, at a verbosity
unfoldable pub check_for_function_lengths :
    ℕ → CleansedLines → ℕ → FunctionState → Option (FunctionState × List Diagnostic)
unfolding starts_function find_body body_line
check_for_function_lengths verbosity clean_lines linenum st =
    let line = get_or clean_lines.lines linenum [] in
    do
      starting ← starts_function line
      if starting
          then find_body linenum line [] (drop linenum clean_lines.lines) st
          else some (body_line verbosity linenum line st)
