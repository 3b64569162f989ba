-- ===== src/Language.antt =====
-- bin/cpplint.py, `CheckLanguage`. Its parts are the children. A result is `none` where
-- `CheckIncludeLine` has none.
pub mod Casts
pub mod Calls
pub mod Arrays
use power_judge.Prelude.{
  ℕ, Bool, true, false, ◌&&◌, not, Option, none, some, List, [], ◌∷◌, ◌++◌, if◌then◌else◌, flatten,
  get_or, is_nil,
}
use power_judge.Text.{Text, codes}
use power_judge.Regex.Scan.{Match, group_text}
use power_judge.Patterns.{re_match, matches, searches}
use power_judge.Lint.{Diagnostic}
use power_judge.Cleanse.{CleansedLines, include_pattern}
use power_judge.FileNames.{FileSystem}
use power_judge.FileChecks.{report_if, report_text}
use power_judge.Includes.{IncludeState, reset_section}
use power_judge.Includes.Line.{check_include_line}
use power_judge.Language.Casts.{check_casts}
use power_judge.Language.Calls.{check_types, check_c_functions, check_formats}
use power_judge.Language.Arrays.{check_arrays, check_class_end, check_unnamed_namespace}

string_errors : ℕ → Text → Option Match → List Diagnostic
unfolding group_text matches searches
string_errors linenum line none = []
string_errors linenum line (some m) =
    report_text
      (not (searches "\\boperator\\W" line)
        && not (matches "\\s*(<.*>)?(::[a-zA-Z0-9_]+)?\\s*\\(([^\"]|$)" (group_text 3 m)))
      linenum "runtime/string" 4
      (codes "For a static/global string constant, use a C style string instead: \""
        ++ (group_text 1 m ++ (codes "char " ++ (group_text 2 m ++ codes "[]\"."))))

-- Global strings, and members that are initialized with themselves.
unfoldable pub check_initialization : ℕ → Text → List Diagnostic
unfolding string_errors re_match searches
check_initialization linenum line =
    string_errors linenum line
      (re_match "((?:|static +)(?:|const +))string +([a-zA-Z0-9_:]+)\\b(.*)" line)
    ++ report_if (searches "\\b([A-Za-z0-9_]*_)\\(\\1\\)" line) linenum "runtime/init" 4
        "You seem to be initializing a member variable with itself."

-- The part for a line that is no `#include`.
unfoldable pub language_errors : CleansedLines → ℕ → Text → Text → List Diagnostic
unfolding check_casts check_initialization check_types check_c_functions check_formats check_arrays
    check_class_end check_unnamed_namespace
language_errors clean_lines linenum file_extension line = flatten (
    check_casts clean_lines linenum line
    ∷ check_initialization linenum line
    ∷ check_types linenum line
    ∷ check_c_functions linenum line
    ∷ check_formats linenum line
    ∷ check_arrays linenum line
    ∷ check_class_end clean_lines.elided linenum line
    ∷ check_unnamed_namespace linenum file_extension line
    ∷ [])

-- The include state is reset across preprocessor directives.
unfoldable pub reset_at_directive : Text → IncludeState → IncludeState
unfolding matches reset_section
reset_at_directive line st =
    if matches "^\\s*#\\s*(?:ifdef|elif|else|endif)\\b" line then reset_section st else st

-- `CheckLanguage`
unfoldable pub check_language :
    FileSystem
    → Text
    → CleansedLines
    → ℕ
    → Text
    → IncludeState
    → Option (IncludeState × List Diagnostic)
unfolding searches check_include_line reset_at_directive language_errors
check_language fs filename clean_lines linenum file_extension st =
    let line = get_or clean_lines.elided linenum [] in
    if is_nil line
    then some (st, [])
    else if searches include_pattern line
    then check_include_line fs filename clean_lines linenum st
    else some (reset_at_directive line st, language_errors clean_lines linenum file_extension line)
