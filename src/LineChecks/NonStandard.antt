-- ===== src/LineChecks/NonStandard.antt =====
-- bin/cpplint.py, `CheckForNonStandardConstructs`.
use power_judge.Prelude.{
  ℕ, true, false, ◌&&◌, not, Option, none, some, List, [], ◌∷◌, ◌++◌, if◌then◌else◌, get_or, ◌==◌,
}
use power_judge.Text.{Text, codes, text_eq, replace, strip}
use power_judge.Regex.Parse.{compile}
use power_judge.Regex.Scan.{Match, match_start, group_text}
use power_judge.Patterns.{matches, searches, is_some}
use power_judge.Lint.{Diagnostic}
use power_judge.Cleanse.{CleansedLines}
use power_judge.FileChecks.{report_if}
use power_judge.Nesting.{Block, ClassInfo, class_of, escape_pattern}

-- The part on the line with its strings.
unfoldable pub format_errors : ℕ → Text → List Diagnostic
unfolding searches replace
format_errors linenum line =
    report_if (searches "printf\\s*\\(.*\".*%[-+ ]?\\d*q" line) linenum "runtime/printf_format" 3
      "%q in format strings is deprecated.  Use %ll instead."
    ++ (report_if (searches "printf\\s*\\(.*\".*%\\d+\\$" line) linenum "runtime/printf_format" 2
          "%N$ formats are unconventional.  Try rewriting to avoid them."
        ++ report_if (searches "(\"|').*\\\\(%|\\[|\\(|{)" (replace line (codes "\\\\") [])) linenum
            "build/printf_format" 3
            "%, [, (, and { are undefined character escapes.  Unescape them.")

-- The part on the elided line that looks at no class.
unfoldable pub construct_errors : ℕ → Text → List Diagnostic
unfolding searches matches
construct_errors linenum line =
    report_if
      (searches
        "\\b(const|volatile|void|char|short|int|long|float|double|signed|unsigned|schar|u?int8|u?int16|u?int32|u?int64)\\s+(register|static|extern|typedef)\\b"
        line)
      linenum "build/storage_class" 5
      "Storage class (static, extern, typedef, etc) should be first."
    ++ (report_if (matches "\\s*#\\s*endif\\s*[^/\\s]+" line) linenum "build/endif_comment" 5
          "Uncommented text after #endif is non-standard.  Use a comment."
        ++ (report_if (matches "\\s*class\\s+(\\w+\\s*::\\s*)+\\w+\\s*;" line) linenum
              "build/forward_decl" 5
              "Inner-style forward declarations are invalid.  Remove this line."
            ++ (report_if
                  (searches "(\\w+|[+-]?\\d+(\\.\\d*)?)\\s*(<|>)\\?=?\\s*(\\w+|[+-]?\\d+)(\\.\\d*)?"
                    line)
                  linenum "build/deprecated" 3
                  ">? and <? (max and min) operators are non-standard and deprecated."
                ++ report_if (searches "^\\s*const\\s*string\\s*&\\s*\\w+\\s*;" line) linenum
                    "runtime/member_string_references" 2
                    "const string& members are dangerous. It is much better to use alternatives, such as pointers or simple constants.")))

-- The innermost class, if its head is complete.
unfoldable pub complete_class : List Block → Option ClassInfo
unfolding class_of
complete_class [] = none
complete_class (b ∷ bs) = elim (class_of b.kind) [
  | some c ↦ if b.seen_open_brace then some c else none
  | none ↦ complete_class bs
]

-- What stands behind the last `::`, or `last` if there is none.
behind_last : Text → Text → Text
behind_last last [] = last
behind_last last (c ∷ []) = last
behind_last last (c ∷ d ∷ rest) = elim (c == b':' && d == b':') [
  | true ↦ behind_last rest rest
  | false ↦ behind_last last (d ∷ rest)
]

-- classinfo.name.split('::')[-1]
unfoldable pub base_classname : Text → Text
unfolding behind_last
base_classname name = behind_last name name

constructor_error : ℕ → Text → Option Match → List Diagnostic
unfolding text_eq group_text compile match_start strip
constructor_error linenum escaped none = []
constructor_error linenum escaped (some args) =
    report_if
      (not (text_eq (group_text 1 args) (codes "void"))
        && not (
            is_some (
              match_start
                (compile
                  (codes "(const\\s+)?" ++ (escaped ++ codes "(\\s+const)?\\s*(?:<\\w+>\\s*)?&")))
                (strip (group_text 1 args)))))
      linenum "runtime/explicit" 5 "Single-argument constructors should be marked explicit."

-- The part on the class that the line stands in.
unfoldable pub explicit_errors : ℕ → Text → Option ClassInfo → List Diagnostic
unfolding constructor_error compile match_start escape_pattern base_classname
explicit_errors linenum line none = []
explicit_errors linenum line (some c) =
    let escaped = escape_pattern (base_classname c.name) in
    constructor_error linenum escaped (
      match_start
        (compile (codes "\\s+(?:inline\\s+)?" ++ (escaped ++ codes "\\s*\\(([^,()]+)\\)"))) line)

-- `CheckForNonStandardConstructs`
unfoldable pub check_for_non_standard_constructs : CleansedLines → ℕ → List Block → List Diagnostic
unfolding format_errors construct_errors explicit_errors complete_class
check_for_non_standard_constructs clean_lines linenum stack =
    let elided = get_or clean_lines.elided linenum [] in
    format_errors linenum (get_or clean_lines.lines linenum [])
    ++ (construct_errors linenum elided ++ explicit_errors linenum elided (complete_class stack))
