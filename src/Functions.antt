-- ===== src/Functions.antt =====
-- bin/cpplint.py, `_FunctionState`: the lines of the function body that is being read.
pub mod Lengths
pub mod Level
use power_judge.Prelude.{
  ℕ, zero, suc, ◌+◌, ◌*◌, ◌/◌, ◌^◌, Bool, true, false, List, [], ◌∷◌, ◌++◌, ltb, if◌then◌else◌, min,
}
use power_judge.Text.{Text, codes, decimal}
use power_judge.Patterns.{matches}
use power_judge.Lint.{Diagnostic}

abbrev pub normal_trigger : ℕ
normal_trigger = 250

abbrev pub test_trigger : ℕ
test_trigger = 400

pub record FunctionState : Type 0 where
  pub in_a_function : Bool
  pub lines_in_function : ℕ
  pub current_function : Text

-- `_FunctionState.__init__`, `Begin`, `Count` and `End`
unfoldable pub new_function_state : FunctionState
new_function_state = record { in_a_function = false; lines_in_function = 0; current_function = [] }

unfoldable pub begin : Text → FunctionState → FunctionState
begin name st = record st { in_a_function = true; lines_in_function = 0; current_function = name }

unfoldable pub count_line : FunctionState → FunctionState
count_line st =
    if st.in_a_function then record st { lines_in_function = st.lines_in_function + 1 } else st

unfoldable pub end : FunctionState → FunctionState
end st = record st { in_a_function = false }

-- int(math.log(n, 2)), for a positive n; n halvings are more than enough.
log2_from : ℕ → ℕ → ℕ
log2_from zero n = 0
log2_from (suc f) n = let more = suc (log2_from f (n / 2)) in if ltb n 2 then 0 else more

unfoldable pub log2 : ℕ → ℕ
unfolding log2_from
log2 n = log2_from n n

unfoldable pub base_trigger : Text → ℕ
unfolding matches
base_trigger name = if matches "T(EST|est)" name then test_trigger else normal_trigger

-- The error of a function that is too long.
unfoldable pub size_error : ℕ → ℕ → FunctionState → Diagnostic
size_error verbosity linenum st = record {
  linenum = linenum;
  category = codes "readability/fn_size";
  confidence = min (log2 (st.lines_in_function / base_trigger st.current_function)) 5;
  message =
      codes "Small and focused functions are preferred: "
      ++ (st.current_function
          ++ (codes " has "
              ++ (decimal st.lines_in_function
                  ++ (codes " non-comment lines (error triggered by exceeding "
                      ++ (decimal (base_trigger st.current_function * 2 ^ verbosity)
                          ++ codes " lines).")))));
}

-- `_FunctionState.Check`, at a verbosity
unfoldable pub check : ℕ → ℕ → FunctionState → List Diagnostic
check verbosity linenum st =
    if ltb (base_trigger st.current_function * 2 ^ verbosity) st.lines_in_function
    then size_error verbosity linenum st ∷ []
    else []
