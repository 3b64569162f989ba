-- ===== src/Language/Arrays.antt =====
-- bin/cpplint.py, the part of `CheckLanguage` on variable-length arrays and on the end of a class.
use power_judge.Prelude.{
  ℕ, ◌+◌, Bool, true, false, ◌&&◌, ◌||◌, not, Option, none, some, List, [], ◌∷◌, ◌++◌, ltb, ◌==◌,
  if◌then◌else◌, length, get_or, is_nil, last?,
}
use power_judge.Text.{Text, codes, text_eq, has, starts_with, drop_leading, rstrip_char}
use power_judge.Regex.Parse.{re}
use power_judge.Regex.Scan.{Match, group_text}
use power_judge.Regex.Pieces.{split_by}
use power_judge.Patterns.{re_match, matches, searches}
use power_judge.Lint.{Diagnostic}
use power_judge.FileChecks.{report_if, report_text}

-- What the loop does at a token: go on, go on behind the next token, or stop.
pub data Token : Type 0 where
  constant skipping variable : Token

stripped_token : Text → Token
unfolding matches starts_with
stripped_token tok =
    if is_nil tok
      || matches "\\d+" tok
      || matches "0[xX][0-9a-fA-F]+" tok
      || matches "k[A-Z0-9]\\w*" tok
      || matches "(.+::)?k[A-Z0-9]\\w*" tok
      || matches "(.+::)?[A-Z][A-Z0-9_]*" tok
    then constant
    else if starts_with tok (codes "sizeof")
    then skipping
    else variable

unfoldable pub classify_token : Text → Token
unfolding searches stripped_token drop_leading rstrip_char
classify_token tok =
    if searches "sizeof\\(.+\\)" tok || searches "arraysize\\(\\w+\\)" tok
    then constant
    else stripped_token (rstrip_char b')' (drop_leading b'(' tok))

-- The loop over the tokens; the flag is `skip_next`.
unfoldable pub is_const : Bool → List Text → Bool
unfolding classify_token
is_const skip_next [] = true
is_const true (tok ∷ tokens) = is_const false tokens
is_const false (tok ∷ tokens) = elim (classify_token tok) [
  | constant ↦ is_const false tokens
  | skipping ↦ is_const true tokens
  | variable ↦ false
]

array_errors : ℕ → Option Match → List Diagnostic
unfolding group_text text_eq has is_const split_by re
array_errors linenum none = []
array_errors linenum (some m) =
    report_if
      (not (text_eq (group_text 2 m) (codes "return"))
        && not (text_eq (group_text 2 m) (codes "delete"))
        && not (has (group_text 3 m) (codes "]"))
        && not (is_const false (split_by (re "\\s|\\+|\\-|\\*|\\/|<<|>>]") (group_text 3 m))))
      linenum "runtime/arrays" 1
      "Do not use variable-length arrays.  Use an appropriately named ('k' followed by CamelCase) compile-time constant for the size."

unfoldable pub check_arrays : ℕ → Text → List Diagnostic
unfolding array_errors re_match
check_arrays linenum line =
    array_errors linenum (re_match "\\s*(.+::)?(\\w+) [a-z]\\w*\\[(.+)];" line)

macro_errors : List Text → ℕ → Option Match → List Diagnostic
unfolding group_text searches
macro_errors elided linenum none = []
macro_errors elided linenum (some m) =
    report_text
      (ltb (linenum + 1) (length elided)
        && not (searches "^\\s*}[\\w\\*,\\s]*;" (get_or elided (linenum + 1) [])))
      linenum "readability/constructors" 3
      (group_text 1 m ++ codes " should be the last thing in the class")

unfoldable pub check_class_end : List Text → ℕ → Text → List Diagnostic
unfolding macro_errors re_match
check_class_end elided linenum line = macro_errors elided linenum (
    re_match "\\s*(DISALLOW_(EVIL_CONSTRUCTORS|COPY_AND_ASSIGN|IMPLICIT_CONSTRUCTORS))\\(.*\\);$"
      line)

is_backslash : Option ℕ → Bool
is_backslash none = false
is_backslash (some c) = c == b'\\'

-- Unnamed namespaces in a header.
unfoldable pub check_unnamed_namespace : ℕ → Text → Text → List Diagnostic
unfolding text_eq searches is_backslash
check_unnamed_namespace linenum file_extension line =
    report_if
      (text_eq file_extension (codes "h")
        && (searches "\\bnamespace\\s*{" line && not (is_backslash (last? line))))
      linenum "build/namespaces" 4
      "Do not use unnamed namespaces in header files.  See http://google-styleguide.googlecode.com/svn/trunk/cppguide.xml#Namespaces for more information."
