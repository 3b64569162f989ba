-- ===== src/Functions/Level.antt =====
-- The error level of `_FunctionState.Check` of bin/cpplint.py.
use native.Mathlib.Nat.{pow-suc, one-le-pow, pow-le-pow_right, le_refl}
use power_judge.Prelude.{
  ℕ, zero, suc, ◌*◌, ◌/◌, ◌^◌, ◌≤◌, ◌<◌, min, List, [], ◌∷◌, ◌≡◌, inl, inr, arith, ltb, Bool-cases,
}
use power_judge.Text.{Text}
use power_judge.Lint.{Diagnostic}
use power_judge.Functions.{FunctionState, log2_from, log2, base_trigger, size_error, check}

two_pow_pos : (v : ℕ) → 1 ≤ 2 ^ v
two_pow_pos v = one-le-pow v 2 (omega arith)

log2_from-le : (f n v : ℕ) → n ≤ f → 2 ^ v ≤ n → v ≤ log2_from f n
unfolding log2_from
log2_from-le f n zero h p = omega arith
log2_from-le zero n (suc v) h p = absurd (omega (arith, pow-suc 2 v, two_pow_pos v))
log2_from-le (suc f) n (suc v) h p =
    ground (arith, log2_from-le f (n / 2) v, pow-suc 2 v, two_pow_pos v)

pow-log2_from : (f n : ℕ) → 0 < n → n ≤ f → 2 ^ log2_from f n ≤ n
unfolding log2_from
pow-log2_from zero n p h = absurd (omega arith)
pow-log2_from (suc f) n p h = elim (Bool-cases (ltb n 2)) [
  | inl y ↦ rw y (omega arith)
  | inr n2 ↦ rw n2 (
      omega (
        arith,
        pow-suc 2 (log2_from f (n / 2)),
        pow-log2_from f (n / 2) (ground arith) (ground arith),
      ))
]

log2_from-upper : (f n : ℕ) → n ≤ f → n < 2 ^ suc (log2_from f n)
unfolding log2_from
log2_from-upper zero n h = omega (arith, pow-suc 2 0, two_pow_pos 0)
log2_from-upper (suc f) n h = elim (Bool-cases (ltb n 2)) [
  | inl y ↦ rw y (ground (arith, pow-suc 2 0, two_pow_pos 0))
  | inr n2 ↦ rw n2 (
      omega
        (arith, pow-suc 2 (suc (log2_from f (n / 2))), log2_from-upper f (n / 2) (ground arith)))
]

base_trigger_pos : (name : Text) → 0 < base_trigger name
unfolding base_trigger
base_trigger_pos name = ground arith

-- A product of the base and a power that is at most the quotient.
mul_pow_le : (base lines l : ℕ) → 0 < base → 2 ^ l ≤ lines / base → base * 2 ^ l ≤ lines
mul_pow_le base lines l p h = grind arith

pow_le_quotient : (base lines v : ℕ) → 0 < base → base * 2 ^ v < lines → 2 ^ v ≤ lines / base
pow_le_quotient base lines v p h = grind arith

quotient_pos : (base lines v : ℕ) → 0 < base → base * 2 ^ v < lines → 0 < lines / base
quotient_pos base lines v p h = omega (arith, pow_le_quotient base lines v p h, two_pow_pos v)

lt_mul_pow : (base lines p : ℕ) → 0 < base → lines / base < p → lines < base * p
lt_mul_pow base lines p pos h = grind arith

-- The level is the highest that the function reaches, up to 5.
size_error_highest :
    (verbosity linenum : ℕ) (st : FunctionState)
    → (size_error verbosity linenum st).confidence < 5
    → st.lines_in_function
      < base_trigger st.current_function * 2 ^ suc (size_error verbosity linenum st).confidence
unfolding size_error log2
size_error_highest verbosity linenum st low =
    let base = base_trigger st.current_function in
    let q = st.lines_in_function / base in
    let same : min (log2_from q q) 5 ≡ log2_from q q = omega (arith, low) in
    rw same (
      lt_mul_pow base st.lines_in_function (2 ^ suc (log2_from q q))
        (base_trigger_pos st.current_function) (log2_from-upper q q (le_refl q)))

size_error_level :
    (verbosity linenum : ℕ) (st : FunctionState)
    → base_trigger st.current_function * 2 ^ verbosity < st.lines_in_function
    → verbosity ≤ 5
    → (verbosity ≤ (size_error verbosity linenum st).confidence)
      × (base_trigger st.current_function * 2 ^ (size_error verbosity linenum st).confidence
          ≤ st.lines_in_function)
unfolding size_error log2
size_error_level verbosity linenum st h low =
    let base = base_trigger st.current_function in
    let q = st.lines_in_function / base in
    let pos = base_trigger_pos st.current_function in
    let quotient = quotient_pos base st.lines_in_function verbosity pos h in
    let reaches =
      log2_from-le q q verbosity (le_refl q)
        (pow_le_quotient base st.lines_in_function verbosity pos h) in
    let capped : 2 ^ min (log2_from q q) 5 ≤ 2 ^ log2_from q q =
      pow-le-pow_right (omega arith) (omega arith) in
    (
      omega arith,
      mul_pow_le base st.lines_in_function (min (log2_from q q) 5) pos
          (omega (arith, pow-log2_from q q quotient (le_refl q))),
    )

-- What `Check` has to report of a function, at a verbosity of at most 5: nothing up to the trigger;
-- above it one error, whose level reaches the verbosity, so that the level does not silence it, and
-- is at most 5, and which is the highest up to 5 whose trigger the function reaches.
pub record IsLevelled (verbosity : ℕ) (st : FunctionState) (ds : List Diagnostic) : Type 0 where
  pub short : st.lines_in_function ≤ base_trigger st.current_function * 2 ^ verbosity → ds ≡ []
  pub long :
      base_trigger st.current_function * 2 ^ verbosity < st.lines_in_function
      → (d : Diagnostic) × (ds ≡ d ∷ [])
        × (verbosity ≤ d.confidence)
        × (d.confidence ≤ 5)
        × (base_trigger st.current_function * 2 ^ d.confidence ≤ st.lines_in_function)
        × (d.confidence < 5
            → st.lines_in_function < base_trigger st.current_function * 2 ^ suc d.confidence)

-- At a verbosity of at most 5, `_FunctionState.Check` reports nothing up to the trigger, and above it
-- one error, whose level is at least the verbosity and at most 5, and is the highest one up to 5 such
-- that the function has at least 2 to that power times as many lines as its base trigger, which is
-- 400 for tests and 250 for other functions.
pub check-IsLevelled :
    (verbosity linenum : ℕ) (st : FunctionState)
    → verbosity ≤ 5
    → IsLevelled verbosity st (check verbosity linenum st)
unfolding check
check-IsLevelled verbosity linenum st low = record {
  short = λ h. ground arith;
  long = λ h.
      let (reaches, deserves) = size_error_level verbosity linenum st h low in
      (
        size_error verbosity linenum st,
        ground arith,
        reaches,
        unfold size_error in (omega arith),
        deserves,
        size_error_highest verbosity linenum st,
      );
}
