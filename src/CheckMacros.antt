-- ===== src/CheckMacros.antt =====
-- bin/cpplint.py, `CheckCheck` and the tables of its macros. A result is `none` where
-- `CloseExpression` would raise an `IndexError`.
use mathlib.Core.Option
use power_judge.Prelude.{
  ℕ, zero, suc, ◌+◌, ◌-◌, Bool, true, false, ◌||◌, Option, none, some, List, [], ◌∷◌, ◌++◌, String,
  ◌==◌, if◌then◌else◌, length, take, drop, get_or, is_nil,
}
use power_judge.Prelude.Int.{pos}
use power_judge.Prelude.Maybe.{◌>>=◌}
use power_judge.Text.{Text, codes, text_eq, text_in, has, concat, slice, strip}
use power_judge.Regex.Parse.{compile}
use power_judge.Regex.Scan.{Match, match_start, group_text}
use power_judge.Patterns.{re_match, matches}
use power_judge.Lint.{Diagnostic}
use power_judge.Brackets.{Place, close_expression, find_end_of_expression_in_line}
use power_judge.FileChecks.{report_text}

-- `_CHECK_MACROS`
abbrev pub check_macros : List Text
check_macros =
    codes "DCHECK"
    ∷ codes "CHECK"
    ∷ codes "EXPECT_TRUE_M"
    ∷ codes "EXPECT_TRUE"
    ∷ codes "ASSERT_TRUE_M"
    ∷ codes "ASSERT_TRUE"
    ∷ codes "EXPECT_FALSE_M"
    ∷ codes "EXPECT_FALSE"
    ∷ codes "ASSERT_FALSE_M"
    ∷ codes "ASSERT_FALSE"
    ∷ []

-- The relational operators, with the names of the replacement and of the inverse one.
abbrev pub operator_names : List (String × String × String)
operator_names =
    ("==", "EQ", "NE")
    ∷ ("!=", "NE", "EQ")
    ∷ (">=", "GE", "LT")
    ∷ (">", "GT", "LE")
    ∷ ("<=", "LE", "GT")
    ∷ ("<", "LT", "GE")
    ∷ []

name_of : Bool → Text → List (String × String × String) → Text
unfolding text_eq
name_of inverse op [] = []
name_of inverse op ((o, name, inv) ∷ rest) =
    if text_eq (codes o) op then codes (if inverse then inv else name) else name_of inverse op rest

-- The parts of a replacement around the operator's name, and whether the name is the inverse one.
abbrev pub replacement_forms : List (String × String × String × Bool)
replacement_forms =
    ("DCHECK", "DCHECK_", "", false)
    ∷ ("CHECK", "CHECK_", "", false)
    ∷ ("EXPECT_TRUE", "EXPECT_", "", false)
    ∷ ("ASSERT_TRUE", "ASSERT_", "", false)
    ∷ ("EXPECT_TRUE_M", "EXPECT_", "_M", false)
    ∷ ("ASSERT_TRUE_M", "ASSERT_", "_M", false)
    ∷ ("EXPECT_FALSE", "EXPECT_", "", true)
    ∷ ("ASSERT_FALSE", "ASSERT_", "", true)
    ∷ ("EXPECT_FALSE_M", "EXPECT_", "_M", true)
    ∷ ("ASSERT_FALSE_M", "ASSERT_", "_M", true)
    ∷ []

replacement_in : List (String × String × String × Bool) → Text → Text → Text
unfolding text_eq name_of
replacement_in [] macro op = []
replacement_in ((m, before, behind, inverse) ∷ rest) macro op =
    if text_eq (codes m) macro
    then codes before ++ (name_of inverse op operator_names ++ codes behind)
    else replacement_in rest macro op

-- _CHECK_REPLACEMENT[macro][op]
unfoldable pub check_replacement : Text → Text → Text
unfolding replacement_in
check_replacement macro op = replacement_in replacement_forms macro op

macro_at : Text → Text → Option ℕ
unfolding has compile match_start group_text
macro_at line macro =
    if has line macro
    then Option.map (λ m. length (group_text 1 m))
        (match_start (compile (codes "^(.*\\b" ++ (macro ++ codes "\\s*)\\("))) line)
    else none

-- The first macro that the line calls, and its parenthesis.
unfoldable pub find_macro : List Text → Text → Option (Text × ℕ)
unfolding macro_at
find_macro [] line = none
find_macro (macro ∷ macros) line =
    let later = find_macro macros line in
    elim (macro_at line macro) [ none ↦ later | some start ↦ some (macro, start) ]

-- The text between the parentheses, which may go over several lines.
unfoldable pub expression_text : List Text → ℕ → ℕ → Place → ℕ → Text
expression_text elided linenum start_pos p end_pos =
    let line = get_or elided linenum [] in
    if linenum == p.linenum
    then slice line (start_pos + 1) (end_pos - 1)
    else drop (start_pos + 1) line
      ++ (concat (take (p.linenum - (linenum + 1)) (drop (linenum + 1) elided))
          ++ take (end_pos - 1) p.line)

-- What the loop over the expression finds: the two sides and the operator between them, or that the
-- check does not apply.
pub data Relation : Type 0 where
  no_relation : Relation
  relation : Text → Text → Text → Relation

abbrev pub operator_pattern : String
operator_pattern = "^\\s*(<<|<<=|>>|>>=|->\\*|->|&&|\\|\\||==|!=|>=|>|<=|<|\\()(.*)$"

-- A token and what follows it; the parts that the round consumed go to the left side.
pub data Round : Type 0 where
  stops : Relation → Round
  consumes : Text → Text → Round

-- An operand in parentheses: `rest` is what follows the opening one.
parenthesized : Text → Option ℕ → Round
parenthesized rest none = stops no_relation
parenthesized rest (some end) = consumes (codes "(" ++ take end rest) (drop end rest)

token_round : Text → Text → Text → Round
unfolding text_eq text_in parenthesized find_end_of_expression_in_line
token_round lhs token rest =
    if text_eq token (codes "(")
    then parenthesized rest (find_end_of_expression_in_line rest 0 (pos 1) b'(' b')').0
    else if text_in token (codes "&&" ∷ codes "||" ∷ [])
    then stops no_relation
    else if text_in token
        (codes "<<" ∷ codes "<<=" ∷ codes ">>" ∷ codes ">>=" ∷ codes "->*" ∷ codes "->" ∷ [])
    then consumes token rest
    else stops (relation lhs token rest)

-- An operand: up to the next character of an operator, or one character.
operand_round : Option Match → Option Match → Round
unfolding group_text
operand_round (some m) _ = consumes (group_text 1 m) (group_text 2 m)
operand_round none (some m) = consumes (group_text 1 m) (group_text 2 m)
operand_round none none = stops no_relation

expression_round : Text → Text → Option Match → Round
unfolding token_round operand_round group_text re_match
expression_round lhs expression (some m) = token_round lhs (group_text 1 m) (group_text 2 m)
expression_round lhs expression none =
    operand_round (re_match "^([^-=!<>()&|]+)(.*)$" expression)
      (re_match "^(\\s*\\S)(.*)$" expression)

-- `while expression`; each round consumes a character.
unfoldable pub find_relation : ℕ → Text → Text → Relation
unfolding expression_round re_match
find_relation zero lhs expression = no_relation
find_relation (suc rounds) lhs [] = no_relation
find_relation (suc rounds) lhs (c ∷ s) =
    elim (expression_round lhs (c ∷ s) (re_match operator_pattern (c ∷ s))) [
      | stops r ↦ r
      | consumes part rest ↦ find_relation rounds (lhs ++ part) rest
    ]

abbrev pub match_constant : String
match_constant = "^([-+]?(\\d+|0[xX][0-9a-fA-F]+)[lLuU]{0,3}|\".*\"|'.*')$"

-- The error of a relation with a constant on one side.
relation_errors : ℕ → Text → Relation → List Diagnostic
unfolding has strip matches check_replacement
relation_errors linenum macro no_relation = []
relation_errors linenum macro (relation lhs op rhs) =
    if is_nil lhs || is_nil rhs || has rhs (codes "&&") || has rhs (codes "||")
    then []
    else report_text (matches match_constant (strip lhs) || matches match_constant (strip rhs))
        linenum "readability/check" 2
        (codes "Consider using "
          ++ (check_replacement macro op
              ++ (codes " instead of " ++ (macro ++ (codes "(a " ++ (op ++ codes " b)"))))))

expression_errors : List Text → ℕ → Text → ℕ → Place → Option ℕ → List Diagnostic
unfolding expression_text find_relation relation_errors
expression_errors elided linenum macro start_pos p none = []
expression_errors elided linenum macro start_pos p (some end_pos) =
    let expression = expression_text elided linenum start_pos p end_pos in
    relation_errors linenum macro (find_relation (suc (length expression)) [] expression)

-- `CheckCheck`, over the elided lines
unfoldable pub check_check : List Text → ℕ → Option (List Diagnostic)
unfolding find_macro close_expression expression_errors
check_check elided linenum = elim (find_macro check_macros (get_or elided linenum [])) [
  | none ↦ some []
  | some (macro, start_pos) ↦ do
    place ← close_expression elided linenum start_pos
    some (expression_errors elided linenum macro start_pos place place.column)
]
