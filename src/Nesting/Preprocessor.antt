-- ===== src/Nesting/Preprocessor.antt =====
-- bin/cpplint.py, `_NestingState.UpdatePreprocessor`.
use power_judge.Prelude.{true, false, List, [], ◌∷◌, if◌then◌else◌}
use power_judge.Text.{Text}
use power_judge.Patterns.{matches}
use power_judge.Nesting.{Block, PreprocessorInfo, NestingState}

-- What a line is to the preprocessor.
pub data Directive : Type 0 where
  begin_if begin_else end_if no_directive : Directive

unfoldable pub directive : Text → Directive
unfolding matches
directive line =
    if matches "^\\s*#\\s*(if|ifdef|ifndef)\\b" line
    then begin_if
    else if matches "^\\s*#\\s*(else|elif)\\b" line
    then begin_else
    else if matches "^\\s*#\\s*endif\\b" line
    then end_if
    else no_directive

-- `#else` and `#elif`: the first one keeps the stack for the `#endif`.
unfoldable pub enter_else : List Block → List PreprocessorInfo → NestingState
enter_else stack [] = record { stack = stack; pp_stack = [] }
enter_else stack (p ∷ ps) = record {
  stack = p.stack_before_if;
  pp_stack =
      (if p.seen_else then p else record p { seen_else = true; stack_before_else = stack }) ∷ ps;
}

unfoldable pub leave_if : List Block → List PreprocessorInfo → NestingState
leave_if stack [] = record { stack = stack; pp_stack = [] }
leave_if stack (p ∷ ps) = record {
  stack = if p.seen_else then p.stack_before_else else stack;
  pp_stack = ps;
}

unfoldable pub apply_directive : Directive → NestingState → NestingState
unfolding enter_else leave_if
apply_directive begin_if st = record st {
  pp_stack =
      record { stack_before_if = st.stack; stack_before_else = []; seen_else = false }
      ∷ st.pp_stack;
}
apply_directive begin_else st = enter_else st.stack st.pp_stack
apply_directive end_if st = leave_if st.stack st.pp_stack
apply_directive no_directive st = st

-- `UpdatePreprocessor`
unfoldable pub update_preprocessor : Text → NestingState → NestingState
unfolding directive apply_directive
update_preprocessor line st = apply_directive (directive line) st
