-- ===== src/Spacing/Operators.antt =====
-- bin/cpplint.py, `CheckSpacing`: the part on operators, and on the parentheses of control
-- structures. The line is the elided one, without the operators of operator methods.
use power_judge.Prelude.{
  ℕ, ◌+◌, Bool, true, false, ◌&&◌, ◌||◌, not, Option, none, some, List, [], ◌∷◌, ◌++◌, String, ltb,
  ◌==◌, if◌then◌else◌, length, flatten, is_nil, all,
}
use power_judge.Text.{Text, codes, text_eq, replace, is_digit}
use power_judge.Regex.Parse.{re}
use power_judge.Regex.Scan.{Match, group_text, sub}
use power_judge.Patterns.{re_search, matches, searches}
use power_judge.Lint.{Diagnostic}
use power_judge.FileChecks.{diagnostic, report_if, report_text}
use power_judge.Angles.{find_next_matching_angle_bracket, find_previous_matching_angle_bracket}

-- re.sub with the name `operator\(` for each operator method; `\(` stands for itself there.
unfoldable pub without_operator_methods : Text → Text
unfolding sub re
without_operator_methods line =
    sub (re "operator(==|!=|<|<<|<=|>=|>>|>)\\(") (λ _. codes "operator\\(") line

-- s.isdigit()
unfoldable pub is_number : Text → Bool
unfolding is_digit
is_number s = not (is_nil s) && all is_digit s

-- An error that names a group of a match, if there is one.
group_error : ℕ → String → ℕ → String → ℕ → Option Match → List Diagnostic
unfolding group_text
group_error linenum category confidence message n none = []
group_error linenum category confidence message n (some m) =
    diagnostic linenum category confidence (codes message ++ group_text n m) ∷ []

-- Whether `<<` lacks its spaces.
unfoldable pub is_tight_shift : Option Match → Bool
unfolding group_text is_number text_eq
is_tight_shift none = false
is_tight_shift (some m) =
    not (is_number (group_text 1 m) && is_number (group_text 2 m))
    && not (text_eq (group_text 1 m) (codes "operator") && text_eq (group_text 2 m) (codes ";"))

-- A search found a `<` or `>`, and no bracket matches it.
unmatched : (Text → Bool) → Option Match → Bool
unfolding group_text
unmatched has_bracket none = false
unmatched has_bracket (some m) = not (has_bracket (group_text 1 m))

unfoldable pub angle_errors : List Text → ℕ → Text → List Diagnostic
unfolding replace unmatched find_next_matching_angle_bracket find_previous_matching_angle_bracket
    re_search
angle_errors elided linenum line =
    let reduced_line = replace line (codes "->") [] in
    report_if
      (unmatched (find_next_matching_angle_bracket elided linenum)
        (re_search "[^\\s<]<([^\\s=<].*)" reduced_line))
      linenum "whitespace/operators" 3 "Missing spaces around <"
    ++ report_if
        (unmatched (find_previous_matching_angle_bracket elided linenum)
          (re_search "^(.*[^\\s>])>[^\\s=>]" reduced_line))
        linenum "whitespace/operators" 3 "Missing spaces around >"

unfoldable pub shift_errors : List Text → ℕ → Text → List Diagnostic
unfolding is_tight_shift matches angle_errors re_search
shift_errors elided linenum line =
    if is_tight_shift (re_search "(operator|\\S)(?:L|UL|ULL|l|ul|ull)?<<(\\S)" line)
    then report_if true linenum "whitespace/operators" 3 "Missing spaces around <<"
    else if matches "#.*include" line
    then []
    else angle_errors elided linenum line

-- The spaces inside the parentheses of a control structure.
unfoldable pub paren_errors : ℕ → Text → Option Match → List Diagnostic
unfolding group_text text_eq searches
paren_errors linenum line none = []
paren_errors linenum line (some m) =
    let left = length (group_text 2 m) in
    let right = length (group_text 4 m) in
    report_text
      (not (left == right)
        && not (
            (text_eq (group_text 3 m) (codes ";") && left == 1 + right)
            || (left == 0 && searches "\\bfor\\s*\\(.*; \\)" line)))
      linenum "whitespace/parens" 5 (codes "Mismatching spaces inside () in " ++ group_text 1 m)
    ++ report_text (ltb 1 left) linenum "whitespace/parens" 5
        (codes "Should have zero or one spaces inside ( and ) in " ++ group_text 1 m)

unfoldable pub check_operators : List Text → ℕ → Text → List Diagnostic
unfolding searches re_search group_error shift_errors paren_errors
check_operators elided linenum line = flatten (
    report_if (searches "[\\w.]=[\\w.]" line && not (searches "\\b(if|while) " line)) linenum
      "whitespace/operators" 4 "Missing spaces around ="
    ∷ group_error linenum "whitespace/operators" 3 "Missing spaces around " 1
        (re_search "[^<>=!\\s](==|!=|<=|>=)[^<>=!\\s]" line)
    ∷ shift_errors elided linenum line
    ∷ report_if (searches ">>[a-zA-Z_]" line) linenum "whitespace/operators" 3
        "Missing spaces around >>"
    ∷ group_error linenum "whitespace/operators" 4 "Extra space for operator " 1
        (re_search "(!\\s|~\\s|[\\s]--[\\s;]|[\\s]\\+\\+[\\s;])" line)
    ∷ group_error linenum "whitespace/parens" 5 "Missing space before ( in " 1
        (re_search " (if\\(|for\\(|while\\(|switch\\()" line)
    ∷ paren_errors linenum line
        (re_search "\\b(if|for|while|switch)\\s*\\(([ ]*)(.).*[^ ]+([ ]*)\\)\\s*{\\s*$" line)
    ∷ [])
