-- ===== src/References.antt =====
-- bin/cpplint.py, `CheckForNonConstReference` and its patterns. A result is `none` where
-- `ReverseCloseExpression` would raise an `IndexError`.

use power_judge.Prelude.{
  ℕ, ◌+◌, ◌-◌, Bool, true, false, ◌&&◌, ◌||◌, not, Option, none, some, List, [], ◌∷◌, ◌++◌, String,
  ltb, if◌then◌else◌, take, drop, get_or, map,
}
use power_judge.Prelude.Maybe.{◌>>=◌}
use power_judge.Text.{Text, codes, has, rfind, concat, strip, lstrip}
use power_judge.Regex.Parse.{re, compile}
use power_judge.Regex.Scan.{Match, match_start, sub, group_text}
use power_judge.Regex.Pieces.{find_all}
use power_judge.Patterns.{re_search, matches, searches, is_some}
use power_judge.Lint.{Diagnostic}
use power_judge.Brackets.{Place, reverse_close_expression}
use power_judge.FileChecks.{report_text}
use power_judge.Nesting.{Block, class_block, namespace_block, plain_block}

-- `_RE_PATTERN_IDENT`, `_RE_PATTERN_TYPE`
abbrev pub ident_pattern : Text
ident_pattern = codes "[_a-zA-Z]\\w*"

abbrev pub type_pattern : Text
type_pattern =
    codes
      "(?:const\\s+)?(?:typename\\s+|class\\s+|struct\\s+|union\\s+|enum\\s+)?(?:\\w|\\s*<(?:<(?:<[^<>]*>|[^<>])*>|[^<>])*>|::)+"

-- `_RE_PATTERN_REF_PARAM`, `_RE_PATTERN_CONST_REF_PARAM`
abbrev pub ref_param : Text
ref_param =
    codes "("
    ++ (type_pattern
        ++ (codes "(?:\\s*(?:\\bconst\\b|[*]))*\\s*&\\s*"
            ++ (ident_pattern ++ codes ")\\s*(?:=[^,()]+)?[,)]")))

abbrev pub const_ref_param : Text
const_ref_param =
    codes "(?:.*\\s*\\bconst\\s*&\\s*"
    ++ (ident_pattern
        ++ (codes "|const\\s+"
            ++ (type_pattern ++ (codes "\\s*&\\s*" ++ (ident_pattern ++ codes ")")))))

-- The line above, if the type of this one begins there.
unfoldable pub split_type : Text → Text → Option Match
unfolding matches re_search
split_type line above =
    if matches "\\s*::(?:[\\w<>]|::)+\\s*&\\s*\\S" line
    then re_search "\\b((?:const\\s*)?(?:[\\w<>]|::)+[\\w<>])\\s*$" above
    else if matches "\\s*[a-zA-Z_]([\\w<>]|::)+\\s*&\\s*\\S" line
    then re_search "\\b((?:const\\s*)?(?:[\\w<>]|::)+::)\\s*$" above
    else none

-- The lines from that of the matching `<`, if it is an earlier one.
joined_from : List Text → ℕ → Text → Place → Option ℕ → Text
unfolding strip
joined_from elided linenum line p none = line
joined_from elided linenum line p (some _) =
    if ltb p.linenum linenum
    then concat (map strip (take (linenum + 1 - p.linenum) (drop p.linenum elided)))
    else line

joined_template : List Text → ℕ → Text → Option ℕ → Option Text
unfolding reverse_close_expression joined_from
joined_template elided linenum line none = some line
joined_template elided linenum line (some endpos) = do
  place ← reverse_close_expression elided linenum endpos
  some (joined_from elided linenum line place place.column)

join_previous : List Text → ℕ → Text → Option Match → Option Text
unfolding group_text lstrip joined_template rfind
join_previous elided linenum line none = joined_template elided linenum line (rfind line b'>')
join_previous elided linenum line (some m) = some (group_text 1 m ++ lstrip line)

-- The line, with what of a type stands on earlier lines.
unfoldable pub joined_line : List Text → ℕ → Option Text
unfolding join_previous split_type
joined_line elided linenum =
    let line = get_or elided linenum [] in
    if ltb 1 linenum
    then join_previous elided linenum line (split_type line (get_or elided (linenum - 1) []))
    else some line

is_scope : Block → Bool
is_scope b = elim b.kind [ class_block _ ↦ true | namespace_block _ _ ↦ true | plain_block ↦ false ]

-- Whether the line is outside of a function's body.
unfoldable pub may_declare : Text → List Block → Bool
unfolding is_scope matches
may_declare line [] = true
may_declare line (b ∷ []) = is_scope b || matches ".*{\\s*$" line
may_declare line (b ∷ c ∷ bs) = is_scope b || (matches ".*{\\s*$" line && is_scope c)

abbrev pub whitelisted_functions : String
whitelisted_functions =
    "(?:[sS]wap(?:<\\w:+>)?|operator\\s*[<>][<>]|static_assert|COMPILE_ASSERT)\\s*\\("

-- A function that may take references is on the line, or on one of the two lines above if the line
-- names no function.
unfoldable pub is_whitelisted : List Text → ℕ → Text → Bool
unfolding searches
is_whitelisted elided linenum line =
    searches whitelisted_functions line
    || (not (searches "\\S+\\([^)]*$" line)
        && ((ltb 0 linenum && searches whitelisted_functions (get_or elided (linenum - 1) []))
            || (ltb 1 linenum && searches whitelisted_functions (get_or elided (linenum - 2) []))))

reference_errors : ℕ → List Text → List Diagnostic
unfolding compile match_start sub re
reference_errors linenum [] = []
reference_errors linenum (parameter ∷ parameters) =
    report_text (not (is_some (match_start (compile const_ref_param) parameter))) linenum
      "runtime/references" 2
      (codes "Is this a non-const reference? If so, make const or use a pointer: "
        ++ sub (re " *<") (λ _. codes "<") parameter)
    ++ reference_errors linenum parameters

-- The parameters of the declarations on a line, with no bodies.
unfoldable pub reference_parameters : Text → List Text
unfolding find_all compile sub re
reference_parameters line = find_all (compile ref_param) (sub (re "{[^}]*}") (λ _. codes " ") line)

-- `CheckForNonConstReference`, over the elided lines
unfoldable pub check_for_non_const_reference : List Text → ℕ → List Block → Option (List Diagnostic)
unfolding has joined_line may_declare is_whitelisted reference_errors reference_parameters
check_for_non_const_reference elided linenum stack =
    if has (get_or elided linenum []) (codes "&")
    then (do
      line ← joined_line elided linenum
      some (
          if may_declare line stack && not (is_whitelisted elided linenum line)
          then reference_errors linenum (reference_parameters line)
          else []))
    else some []
