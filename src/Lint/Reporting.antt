-- ===== src/Lint/Reporting.antt =====
-- Which diagnostics are printed. About `_ShouldPrintError` and `Error`.
use power_judge.Prelude.{
  ◌≤◌, Bool, true, false, not, some, ◌≡◌, ◌↔◌, ◌⊎◌, inl, inr, arith, ltb, Bool-cases,
}
use power_judge.Text.{Text}
use power_judge.Lint.{Diagnostic, Linter, is_error_suppressed_by_nolint}
use power_judge.Lint.Report.{should_print_error, error, print_error}
use power_judge.Lint.Filters.{AllSigned, IsFilteredOut, run_filters-Decides}

-- When a diagnostic is printed: no NOLINT comment covers its line, its confidence reaches the
-- verbosity, and the last filter that speaks of its category, if any, is a `+`.
pub record IsReported (st : Linter) (d : Diagnostic) : Type 0 where
  pub not_suppressed : is_error_suppressed_by_nolint d.category d.linenum st.suppressions ≡ false
  pub confident : st.verbose_level ≤ d.confidence
  pub passes : ¬ IsFilteredOut d.category st.filters

-- With signed filters `_ShouldPrintError` returns, and returns true exactly if no NOLINT comment
-- silences the diagnostic, its confidence reaches the verbosity, and the last filter that speaks of
-- its category, if there is one, is no `-`.
pub should_print_error-IsReported :
    (d : Diagnostic) (st : Linter)
    → AllSigned st.filters
    → (b : Bool) × (should_print_error d.category d.confidence d.linenum st ≡ some b)
      × ((b ≡ true) ↔ IsReported st d)
unfolding should_print_error
should_print_error-IsReported d st h =
    elim (Bool-cases (is_error_suppressed_by_nolint d.category d.linenum st.suppressions)) [
      | inl sup ↦ (false, rw sup, (λ e. absurd (cc), λ r. absurd (cc (r.not_suppressed))))
      | inr free ↦ elim (Bool-cases (ltb d.confidence st.verbose_level)) [
        | inl low ↦
            (false, rw (free, low), (λ e. absurd (cc), λ r. absurd (ground (arith, r.confident))))
        | inr high ↦
            let (r, runs, iff) = run_filters-Decides d.category st.filters false h in
            (
              not r,
              rw (free, high, runs),
              (
                λ e. record {
                  not_suppressed = free;
                  confident = ground arith;
                  passes = λ o. let t : r ≡ true = iff.1 (inl o) in absurd (ground arith);
                },
                λ p. elim (Bool-cases r) [
                  | inl t ↦ elim (iff.0 t) [
                    | inl o ↦ absurd (p.passes o)
                    | inr (x, y) ↦ absurd (cc)
                  ]
                  | inr f ↦ ground arith
                ],
              ),
            )
      ]
    ]

-- With signed filters `Error` prints and counts a diagnostic if no NOLINT comment silences it, its
-- confidence reaches the verbosity, and the last filter that speaks of its category, if there is
-- one, is no `-`; else it leaves the state as it is.
pub error-IsReported :
    (filename : Text) (d : Diagnostic) (st : Linter)
    → AllSigned st.filters
    → ((error filename d st ≡ some (print_error filename d st)) × IsReported st d)
      ⊎ ((error filename d st ≡ some st) × (¬ IsReported st d))
unfolding error
error-IsReported filename d st h =
    let (b, e, iff) = should_print_error-IsReported d st h in
    elim (Bool-cases b) [
      | inl t ↦ inl (rw (e, t), iff.0 t)
      | inr f ↦ inr (rw (e, f), λ r. let t = iff.1 r in cc)
    ]
