-- ===== src/Nesting/Conditionals.antt =====
-- `UpdatePreprocessor` of bin/cpplint.py over whole `#if` blocks.
use power_judge.Prelude.{
  true, List, [], ◌∷◌, ◌++◌, ◌≡◌, refl, ap, ◌∙◌, if◌then◌else◌, append_assoc, arith,
}
use power_judge.Nesting.{Block, PreprocessorInfo, NestingState}
use power_judge.Nesting.Preprocessor.{Directive, begin_if, begin_else, end_if, apply_directive}

-- What happens to the state: a directive, or a change of the stack of blocks by other lines.
pub data Event : Type 0 where
  meets : Directive → Event
  changes : (List Block → List Block) → Event

pub step : Event → NestingState → NestingState
unfolding apply_directive
step (meets d) st = apply_directive d st
step (changes f) st = record st { stack = f st.stack }

pub run_events : List Event → NestingState → NestingState
unfolding step
run_events [] st = st
run_events (e ∷ es) st = run_events es (step e st)

-- Lines in which each `#if` has its `#endif`, and what they come to for the stack: of a conditional
-- the part up to the first `#else` or `#elif` counts, and the other parts do not.
mutual
  pub data Section : List Event → (List Block → List Block) → Type 0 where
    nothing :
        {es : List Event} {g : List Block → List Block} → es ≡ [] → g ≡ (λ s. s) → Section es g
    change :
        {es : List Event} {g : List Block → List Block} (f h : List Block → List Block)
        (rest : List Event)
        → Section rest h
        → es ≡ changes f ∷ rest
        → g ≡ (λ s. h (f s))
        → Section es g
    conditional :
        {es : List Event} {g : List Block → List Block} (f h : List Block → List Block)
        (body others rest : List Event)
        → Section body f
        → Others others
        → Section rest h
        → es ≡ meets begin_if ∷ (body ++ (others ++ meets end_if ∷ rest))
        → g ≡ (λ s. h (f s))
        → Section es g

  -- The parts behind the first.
  pub data Others : List Event → Type 0 where
    none_left : {es : List Event} → es ≡ [] → Others es
    other :
        {es : List Event} (f : List Block → List Block) (body rest : List Event)
        → Section body f
        → Others rest
        → es ≡ meets begin_else ∷ (body ++ rest)
        → Others es

run_events-append :
    (xs ys : List Event) (st : NestingState)
    → run_events (xs ++ ys) st ≡ run_events ys (run_events xs st)
unfolding run_events
run_events-append [] ys st = refl
run_events-append (x ∷ xs) ys st = run_events-append xs ys (step x st)

-- The entry of a conditional behind an `#else`.
abbrev seen : PreprocessorInfo → List Block → PreprocessorInfo
seen p s = if p.seen_else then p else record p { seen_else = true; stack_before_else = s }

-- The stack behind a conditional.
abbrev kept : PreprocessorInfo → List Block → List Block
kept p s = if p.seen_else then p.stack_before_else else s

kept-seen : (p : PreprocessorInfo) (s t : List Block) → kept (seen p s) t ≡ kept p s
kept-seen p s t = ground arith

-- One part behind another, and what follows.
parts_run :
    (body xs : List Event) (st st' : NestingState)
    → run_events body st ≡ st'
    → run_events (body ++ xs) st ≡ run_events xs st'
parts_run body xs st st' e = run_events-append body xs st ∙ ap (run_events xs) e

mutual
  unfolding run_events step

  Section-run :
      {es : List Event} {g : List Block → List Block}
      → Section es g
      → (st : NestingState) → run_events es st ≡ record st { stack = g st.stack }
  Section-run (nothing e q) st = rw (e, q) refl
  Section-run (change f h rest s e q) st =
      rw (e, q) (Section-run s (record st { stack = f st.stack }))
  Section-run (conditional f h body others rest sb so sr e q) st =
      rw (e, q)
        (parts_run body _ _ _ (Section-run sb _)
          ∙ Others-run so rest (f st.stack) _ st.pp_stack
          ∙ Section-run sr _)

  Others-run :
      {es : List Event}
      → Others es
      → (after : List Event) (s : List Block) (p : PreprocessorInfo) (ps : List PreprocessorInfo)
      → run_events (es ++ meets end_if ∷ after) (record { stack = s; pp_stack = p ∷ ps })
        ≡ run_events after (record { stack = kept p s; pp_stack = ps })
  Others-run (none_left e) after s p ps = rw e refl
  Others-run (other f body rest sb so e) after s p ps = rw e (
      rw append_assoc (
        parts_run body _ _ _ (Section-run sb _)
        ∙ Others-run so after _ (seen p s) ps
        ∙ ap (λ (t : List Block). run_events after (record { stack = t; pp_stack = ps }))
            (kept-seen p s _)))

-- Over lines in which each `#if` has its `#endif`, the stack of blocks comes to what the parts up to
-- the first `#else` or `#elif` of each conditional make of it, whatever the other parts do, and the
-- stack of conditionals is as before.
pub run_events-Section :
    (es : List Event) (g : List Block → List Block) (st : NestingState)
    → Section es g
    → run_events es st ≡ record st { stack = g st.stack }
run_events-Section es g st s = Section-run s st
