-- ===== src/Language/Calls.antt =====
-- bin/cpplint.py, `_GetTextInside` and the part of `CheckLanguage` on types, on the functions of C
-- and on operators.
pub mod Nested
pub mod Inside
use mathlib.Core.Option
use power_judge.Prelude.{
  ℕ, ◌-◌, Bool, true, ◌||◌, not, Option, none, some, List, [], ◌∷◌, ◌++◌, ◌==◌, if◌then◌else◌,
  length, take, drop, get_or, flatten,
}
use power_judge.Text.{Text, codes, text_eq}
use power_judge.Regex.Parse.{re}
use power_judge.Regex.Scan.{Match, match_from, match_to, group_text}
use power_judge.Regex.Pieces.{search_ignoring_case}
use power_judge.Patterns.{re_match, re_search, matches, searches}
use power_judge.Lint.{Diagnostic}
use power_judge.FileChecks.{report_if, report_text}

-- `matching_punctuation`, and the closing ones
unfoldable pub matching_punctuation : ℕ → Option ℕ
matching_punctuation c =
    if c == b'('
    then some b')'
    else if c == b'{'
    then some b'}'
    else if c == b'['
    then some b']'
    else none

unfoldable pub is_closing : ℕ → Bool
is_closing c = c == b')' || c == b'}' || c == b']'

unfoldable pub opened : ℕ → List ℕ → List ℕ
unfolding matching_punctuation
opened c stack = elim (matching_punctuation c) [ none ↦ stack | some q ↦ q ∷ stack ]

-- The stack behind a character; `none` for a closing one that is not expected.
unfoldable pub next_punctuation : ℕ → List ℕ → Option (List ℕ)
unfolding is_closing opened
next_punctuation c [] = some []
next_punctuation c (top ∷ stack) =
    if c == top then some stack else if is_closing c then none else some (opened c (top ∷ stack))

-- The loop over the characters: the text before the one that empties the stack.
unfoldable pub inside_from : List ℕ → Text → Option Text
unfolding next_punctuation
inside_from stack [] = none
inside_from stack (c ∷ s) = elim (next_punctuation c stack) [
  | none ↦ none
  | some [] ↦ some []
  | some (t ∷ ts) ↦ Option.map (◌∷◌ c) (inside_from (t ∷ ts) s)
]

unfoldable pub inside_punctuation : Text → Option ℕ → Option Text
unfolding inside_from
inside_punctuation rest none = none
inside_punctuation rest (some q) = inside_from (q ∷ []) rest

-- `_GetTextInside`, for a start pattern that is found; the result is also `none` where the pattern
-- does not end with an opening character, which the source asserts.
unfoldable pub get_text_inside : Text → Match → Option Text
unfolding match_to matching_punctuation inside_punctuation
get_text_inside text m =
    inside_punctuation (drop (match_to m) text)
      (matching_punctuation (get_or text (match_to m - 1) 0))

-- The C types.
type_errors : ℕ → Option Match → List Diagnostic
unfolding group_text
type_errors linenum none = []
type_errors linenum (some m) =
    report_text true linenum "runtime/int" 4
      (codes "Use int16/int64/etc, rather than the C type " ++ group_text 1 m)

unfoldable pub check_types : ℕ → Text → List Diagnostic
unfolding searches type_errors re_search
check_types linenum line =
    if searches "\\bshort port\\b" line
    then report_if (not (searches "\\bunsigned short port\\b" line)) linenum "runtime/int" 4
        "Use \"unsigned short\" for ports, not \"short\""
    else type_errors linenum (re_search "\\b(short|long(?! +double)|long long)\\b" line)

snprintf_errors : ℕ → Option Match → List Diagnostic
unfolding group_text text_eq
snprintf_errors linenum none = []
snprintf_errors linenum (some m) =
    report_text (not (text_eq (group_text 2 m) (codes "0"))) linenum "runtime/printf" 3 (
      codes "If you can, use sizeof("
      ++ (group_text 1 m
          ++ (codes ") instead of " ++ (group_text 2 m ++ codes " as the 2nd arg to snprintf."))))

copy_errors : ℕ → Option Match → List Diagnostic
unfolding group_text
copy_errors linenum none = []
copy_errors linenum (some m) =
    report_text true linenum "runtime/printf" 4
      (codes "Almost always, snprintf is better than " ++ group_text 1 m)

unfoldable pub check_c_functions : ℕ → Text → List Diagnostic
unfolding snprintf_errors copy_errors re_search searches
check_c_functions linenum line = flatten (
    snprintf_errors linenum (re_search "snprintf\\s*\\(([^,]*),\\s*([0-9]*)\\s*," line)
    ∷ report_if (searches "\\bsprintf\\b" line) linenum "runtime/printf" 5
        "Never use sprintf.  Use snprintf instead."
    ∷ copy_errors linenum (re_search "\\b(strcpy|strcat)\\b" line)
    ∷ report_if (searches "\\boperator\\s*&\\s*\\(\\s*\\)" line) linenum "runtime/operator" 4
        "Unary operator& is dangerous.  Do not use it."
    ∷ report_if (searches "\\}\\s*if\\s*\\(" line) linenum "readability/braces" 4
        "Did you mean \"else if\"? If not, start a new line for \"if\"."
    ∷ [])

-- The name of the function as the line spells it: the group begins where the match does.
function_name : Text → Option Match → Text
unfolding match_from group_text
function_name line none = []
function_name line (some m) = take (length (group_text 1 m)) (drop (match_from m) line)

format_errors : ℕ → Text → Option Match → List Diagnostic
unfolding group_text text_eq function_name search_ignoring_case re
format_errors linenum line none = []
format_errors linenum line (some m) =
    report_text (not (text_eq (group_text 1 m) (codes "__VA_ARGS__"))) linenum "runtime/printf" 4 (
      codes "Potential format string bug. Do "
      ++ (function_name line (search_ignoring_case (re "\\b((?:string)?printf)\\s*\\(") line)
          ++ (codes "(\"%s\", " ++ (group_text 1 m ++ codes ") instead."))))

printf_errors : ℕ → Text → Option Text → List Diagnostic
unfolding format_errors re_match
printf_errors linenum line none = []
printf_errors linenum line (some []) = []
printf_errors linenum line (some (c ∷ args)) =
    format_errors linenum line (re_match "([\\w.\\->()]+)$" (c ∷ args))

printf_arguments : Text → Option Match → Option Text
unfolding get_text_inside
printf_arguments line none = none
printf_arguments line (some m) = get_text_inside line m

memset_errors : ℕ → Option Match → List Diagnostic
unfolding group_text matches
memset_errors linenum none = []
memset_errors linenum (some m) =
    report_text (not (matches "^''|-?[0-9]+|0x[0-9A-Fa-f]$" (group_text 2 m))) linenum
      "runtime/memset" 4
      (codes "Did you mean \"memset("
        ++ (group_text 1 m ++ (codes ", 0, " ++ (group_text 2 m ++ codes ")\"?"))))

unfoldable pub check_formats : ℕ → Text → List Diagnostic
unfolding printf_errors printf_arguments search_ignoring_case re memset_errors re_search searches
check_formats linenum line =
    printf_errors linenum line
      (printf_arguments line (search_ignoring_case (re "\\b(string)?printf\\s*\\(") line))
    ++ (memset_errors linenum (re_search "memset\\s*\\(([^,]*),\\s*([^,]*),\\s*0\\s*\\)" line)
        ++ report_if (searches "\\busing namespace\\b" line) linenum "build/namespaces" 5
            "Do not use namespace using-directives.  Use using-declarations instead.")
