-- ===== src/Process/Progress.antt =====
-- What a run of the linter leaves alone, and what it adds. About `Error` and its callers.
use mathlib.Core.List.{map-append}
use power_judge.Prelude.{
  ◌+◌, true, false, some, List, [], ◌∷◌, ◌++◌, map, ◌≡◌, inl, inr, refl, subst, ◌∙◌, arith, length,
  length-append, append_assoc, Option-cases,
}
use power_judge.Text.{Text}
use power_judge.Lint.{Diagnostic, Linter, Suppressions}
use power_judge.Lint.Report.{should_print_error, print_error, error, report, error_line}
use power_judge.Lint.Counts.{IsCounted, print_error-Printed}

-- The flags are as before; behind what was printed stand the lines of further errors of a file, the
-- last one first, and the error count is up by their number; counts by category that add up to the
-- error count still do.
pub record Progress (filename : Text) (st st' : Linter) : Type 0 where
  pub same_filters : st'.filters ≡ st.filters
  pub same_level : st'.verbose_level ≡ st.verbose_level
  pub same_format : st'.output_format ≡ st.output_format
  pub same_counting : st'.counting ≡ st.counting
  pub errors : List Diagnostic
  pub printed : st'.stderr ≡ map (error_line st.output_format filename) errors ++ st.stderr
  pub count : st'.error_count ≡ st.error_count + length errors
  pub counted : IsCounted st → IsCounted st'

abbrev pub unchanged : (filename : Text) (st : Linter) → Progress filename st st
unchanged filename st = record {
  same_filters = refl;
  same_level = refl;
  same_format = refl;
  same_counting = refl;
  errors = [];
  printed = refl;
  count = omega arith;
  counted = λ c. c;
}

pub chain :
    {filename : Text} {a b c : Linter}
    → Progress filename a b
    → Progress filename b c
    → Progress filename a c
chain {filename = filename} {a = a} p q = record {
  same_filters = q.same_filters ∙ p.same_filters;
  same_level = q.same_level ∙ p.same_level;
  same_format = q.same_format ∙ p.same_format;
  same_counting = q.same_counting ∙ p.same_counting;
  errors = q.errors ++ p.errors;
  printed =
      q.printed
      ∙ rw
          (
            p.printed,
            p.same_format,
            map-append (error_line a.output_format filename) q.errors p.errors,
            append_assoc,
          )
          refl;
  count = rw length-append (omega (arith, p.count, q.count));
  counted = λ c. q.counted (p.counted c);
}

-- A result that is known to be the other one.
pub along :
    {filename : Text} {st a b : Linter}
    → some a ≡ some b
    → Progress filename st a
    → Progress filename st b
along {filename = filename} {st = st} {a = a} {b = b} e p =
    let same : a ≡ b = cc in subst (Progress filename st) same p

print_error-Progress :
    (filename : Text) (d : Diagnostic) (st : Linter)
    → Progress filename st (print_error filename d st)
print_error-Progress filename d st =
    let p = print_error-Printed filename d st in
    record {
      same_filters = p.same_filters;
      same_level = p.same_level;
      same_format = p.same_format;
      same_counting = p.same_counting;
      errors = d ∷ [];
      printed = p.one_line;
      count = p.one_more;
      counted = p.counted;
    }

pub error-Progress :
    (filename : Text) (d : Diagnostic) (st : Linter) {st' : Linter}
    → error filename d st ≡ some st'
    → Progress filename st st'
unfolding error
error-Progress filename d st e =
    elim (Option-cases (should_print_error d.category d.confidence d.linenum st)) [
      | inl broken ↦ absurd (cc (rw broken at e))
      | inr (true, p) ↦ along (rw p at e) (print_error-Progress filename d st)
      | inr (false, p) ↦ along (rw p at e) (unchanged filename st)
    ]

pub report-Progress :
    (filename : Text) (ds : List Diagnostic) (st : Linter) {st' : Linter}
    → report filename ds st ≡ some st'
    → Progress filename st st'
unfolding report
report-Progress filename [] st e = along e (unchanged filename st)
report-Progress filename (d ∷ ds) st e = elim (Option-cases (error filename d st)) [
  | inl stops ↦ absurd (cc (rw (stops, report) at e))
  | inr (st1, goes) ↦
      chain (error-Progress filename d st goes)
        (report-Progress filename ds st1 (rw (goes, report) at e))
]

-- Other suppressions print nothing.
pub from_suppressions :
    {filename : Text} {st st' : Linter} (suppressions : Suppressions)
    → Progress filename (record st { suppressions = suppressions }) st'
    → Progress filename st st'
from_suppressions suppressions p = record {
  same_filters = p.same_filters;
  same_level = p.same_level;
  same_format = p.same_format;
  same_counting = p.same_counting;
  errors = p.errors;
  printed = p.printed;
  count = p.count;
  counted = p.counted;
}
