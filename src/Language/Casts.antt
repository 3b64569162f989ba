-- ===== src/Language/Casts.antt =====
-- bin/cpplint.py, `CheckCStyleCast` and the part of `CheckLanguage` on casts.
use power_judge.Prelude.{
  ℕ, ◌-◌, Bool, true, false, ◌&&◌, ◌||◌, not, Option, none, some, List, [], ◌∷◌, ◌++◌, String, ltb,
  if◌then◌else◌, take, drop, get_or, is_nil,
}
use power_judge.Text.{Text, codes, text_eq, has, ends_with}
use power_judge.Regex.Scan.{Match, match_from, match_to, group?, group_text}
use power_judge.Patterns.{re_match, re_search, matches, searches, is_some}
use power_judge.Lint.{Diagnostic}
use power_judge.Cleanse.{CleansedLines}
use power_judge.FileChecks.{report_if, report_text}

-- What stands before the `(type)` means that it is no cast. Every pattern begins with the
-- parenthesis, and its first group behind it: `match.start(1) - 1` is where the match begins.
unfoldable pub is_no_cast : Text → Bool
unfolding matches ends_with
is_no_cast before =
    matches ".*sizeof\\s*$" before
    || ends_with before (codes " operator++")
    || ends_with before (codes " operator--")

nonzero_value : Option Match → Bool
unfolding text_eq group_text
nonzero_value none = false
nonzero_value (some m) = not (text_eq (group_text 1 m) (codes "0"))

-- An unnamed parameter that is left alone.
unfoldable pub may_be_unnamed : Text → Text → Text → Bool
unfolding matches nonzero_value re_match has
may_be_unnamed before remainder raw_line =
    matches "^\\s*>" remainder
    || nonzero_value (re_match "^\\s=\\s*(\\S+)\\s*;" remainder)
    || matches ".*\\)\\s*$" before
    || has raw_line (codes "/*")

cast_errors : ℕ → Text → Text → String → Option Match → List Diagnostic
unfolding is_no_cast may_be_unnamed matches match_from match_to group_text
cast_errors linenum line raw_line cast_type none = []
cast_errors linenum line raw_line cast_type (some m) =
    let before = take (match_from m) line in
    let remainder = drop (match_to m) line in
    if is_no_cast before
    then []
    else if matches "^\\s*(?:;|const\\b|throw\\b|=|>|\\{|\\))" remainder
    then report_if (not (may_be_unnamed before remainder raw_line)) linenum "readability/function" 3
        "All parameters should be named in a function"
    else report_text true linenum "readability/casting" 4 (
        codes "Using C-style cast.  Use "
        ++ (codes cast_type ++ (codes "<" ++ (group_text 1 m ++ codes ">(...) instead"))))

-- `CheckCStyleCast`; it returns whether there is an error.
unfoldable pub check_c_style_cast : ℕ → Text → Text → String → String → List Diagnostic
unfolding cast_errors re_search
check_c_style_cast linenum line raw_line cast_type pattern =
    cast_errors linenum line raw_line cast_type (re_search pattern line)

-- The lines above a cast that would make it a mocked method.
unfoldable pub is_mocked : List Text → ℕ → Bool
unfolding matches
is_mocked elided linenum =
    not (ltb linenum 2)
    && (matches "^\\s*MOCK_(?:CONST_)?METHOD\\d+(?:_T)?\\((?:\\S+,)?\\s*$"
          (get_or elided (linenum - 1) [])
        || matches "^\\s*MOCK_(?:CONST_)?METHOD\\d+(?:_T)?\\(\\s*$"
            (get_or elided (linenum - 2) []))

conversion_errors : List Text → ℕ → Text → Option Match → List Diagnostic
unfolding group? group_text matches searches is_mocked
conversion_errors elided linenum line none = []
conversion_errors elided linenum line (some m) =
    report_text
      (not (is_some (group? 1 m))
        && not (
            matches "^\\s*MOCK_(CONST_)?METHOD\\d+(_T)?\\(" line
            || searches "\\bMockCallback<.*>" line
            || searches "\\bstd::function<.*>" line)
        && not (
            not (is_nil (group_text 3 m))
            && matches "\\((?:[^() ]+::\\s*\\*\\s*)?[^() ]+\\)\\s*\\(" (group_text 3 m))
        && not (is_mocked elided linenum))
      linenum "readability/casting" 4
      (codes "Using deprecated casting style.  Use static_cast<"
        ++ (group_text 2 m ++ codes ">(...) instead"))

is_star : Option Text → Bool
unfolding text_eq
is_star none = false
is_star (some s) = text_eq s (codes "*")

address_errors : ℕ → Option Match → List Diagnostic
unfolding group? is_star
address_errors linenum none = []
address_errors linenum (some m) =
    report_if (not (is_star (group? 1 m))) linenum "runtime/casting" 4
      "Are you taking an address of a cast?  This is dangerous: could be a temp var.  Take the address before doing the cast, rather than after"

-- A pointer cast is looked for where no cast of a string constant is reported.
unfoldable pub pointer_errors : ℕ → Text → Text → List Diagnostic
unfolding check_c_style_cast
pointer_errors linenum line raw_line =
    elim (check_c_style_cast linenum line raw_line "const_cast" "\\((char\\s?\\*+\\s?)\\)\\s*\"") [
      | [] ↦ check_c_style_cast linenum line raw_line "reinterpret_cast" "\\((\\w+\\s?\\*+\\s?)\\)"
      | d ∷ ds ↦ d ∷ ds
    ]

unfoldable pub check_casts : CleansedLines → ℕ → Text → List Diagnostic
unfolding conversion_errors check_c_style_cast pointer_errors address_errors re_search
check_casts clean_lines linenum line =
    let raw_line = get_or clean_lines.raw_lines linenum [] in
    conversion_errors clean_lines.elided linenum line (
      re_search "(\\bnew\\s+)?\\b(int|float|double|bool|char|int32|uint32|int64|uint64)(\\([^)].*)"
        line)
    ++ (check_c_style_cast linenum line raw_line "static_cast"
          "\\((int|float|double|bool|char|u?int(16|32|64))\\)"
        ++ (pointer_errors linenum line raw_line
            ++ address_errors linenum (
                re_search "(?:&\\(([^)]+)\\)[\\w(])|(?:&(static|dynamic|down|reinterpret)_cast\\b)"
                  line)))
