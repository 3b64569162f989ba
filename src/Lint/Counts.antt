-- ===== src/Lint/Counts.antt =====
-- The totals over a run of calls of `Error`. About `IncrementErrorCount`, `Error`.
use mathlib.Core.List.{reverse-cons}
use power_judge.Prelude.{
  ℕ, suc, ◌+◌, ◌≤◌, subst, true, false, some, List, [], ◌∷◌, ◌++◌, map, reverse, ◌≡◌, inl, inr,
  refl, sym, ◌∙◌, arith, length, append_assoc,
}
use power_judge.Text.{Text}
use power_judge.Lint.{
  Diagnostic, Linter, bump, is_error_suppressed_by_nolint, by_category, counted_category,
}
use power_judge.Lint.Report.{error_line, print_error, report}
use power_judge.Lint.Filters.{AllSigned, IsFilteredOut}
use power_judge.Lint.Reporting.{IsReported, error-IsReported}

-- The diagnostics of a list that are reported from a state, in their order.
pub data Reported (st : Linter) : List Diagnostic → List Diagnostic → Type 0 where
  nil : Reported st [] []
  keep :
      {d : Diagnostic} {ds es : List Diagnostic}
      → IsReported st d
      → Reported st ds es
      → Reported st (d ∷ ds) (d ∷ es)
  skip :
      {d : Diagnostic} {ds es : List Diagnostic}
      → (¬ IsReported st d)
      → Reported st ds es
      → Reported st (d ∷ ds) es

abbrev pub total : List (Text × ℕ) → ℕ
total [] = 0
total ((c, n) ∷ m) = n + total m

-- Where errors are counted by category, the counts add up to the error count.
abbrev pub IsCounted : Linter → Type 0
IsCounted st = by_category st.counting ≡ true → total st.errors_by_category ≡ st.error_count

total-bump : (c : Text) (m : List (Text × ℕ)) → total (bump c m) ≡ suc (total m)
unfolding bump
total-bump c [] = refl
total-bump c ((d, n) ∷ m) = ground (arith, total-bump c m)

-- What one printed error leaves alone, and what it adds.
pub record Printed (filename : Text) (d : Diagnostic) (st st' : Linter) : Type 0 where
  pub same_filters : st'.filters ≡ st.filters
  pub same_level : st'.verbose_level ≡ st.verbose_level
  pub same_format : st'.output_format ≡ st.output_format
  pub same_counting : st'.counting ≡ st.counting
  pub same_suppressions : st'.suppressions ≡ st.suppressions
  pub one_more : st'.error_count ≡ st.error_count + 1
  pub one_line : st'.stderr ≡ error_line st.output_format filename d ∷ st.stderr
  pub counted : IsCounted st → IsCounted st'

pub print_error-Printed :
    (filename : Text) (d : Diagnostic) (st : Linter)
    → Printed filename d st (print_error filename d st)
unfolding print_error
print_error-Printed filename d st =
    ground (arith, total-bump (counted_category st.counting d.category) st.errors_by_category)

-- Two states that let the same diagnostics through.
record SameRules (st st' : Linter) : Type 0 where
  filters : st'.filters ≡ st.filters
  level : st'.verbose_level ≡ st.verbose_level
  suppressions : st'.suppressions ≡ st.suppressions

IsReported-SameRules :
    {st st' : Linter} {d : Diagnostic} → SameRules st st' → IsReported st' d → IsReported st d
IsReported-SameRules {d = d} e r = record {
  not_suppressed =
      subst (λ s. is_error_suppressed_by_nolint d.category d.linenum s ≡ false) e.suppressions
        r.not_suppressed;
  confident = subst (λ l. l ≤ d.confidence) e.level r.confident;
  passes = λ o. r.passes (subst (IsFilteredOut d.category) (sym e.filters) o);
}

SameRules-sym : {st st' : Linter} → SameRules st st' → SameRules st' st
SameRules-sym e = record {
  filters = sym e.filters;
  level = sym e.level;
  suppressions = sym e.suppressions;
}

Reported-SameRules :
    {st st' : Linter} {ds es : List Diagnostic}
    → SameRules st st'
    → Reported st' ds es
    → Reported st ds es
Reported-SameRules e nil = nil
Reported-SameRules e (keep r rs) = keep (IsReported-SameRules e r) (Reported-SameRules e rs)
Reported-SameRules e (skip n rs) =
    skip (λ r. n (IsReported-SameRules (SameRules-sym e) r)) (Reported-SameRules e rs)

-- What a run of calls comes to.
pub record Outcome (filename : Text) (ds : List Diagnostic) (st : Linter) : Type 0 where
  pub final : Linter
  pub printed : List Diagnostic
  pub runs : report filename ds st ≡ some final
  pub selected : Reported st ds printed
  pub lines :
      final.stderr ≡ reverse (map (error_line st.output_format filename) printed) ++ st.stderr
  pub count : final.error_count ≡ st.error_count + length printed
  pub counted : IsCounted st → IsCounted final
  pub same_filters : final.filters ≡ st.filters

-- With signed filters a run of calls of `Error` returns. It prints exactly the diagnostics that pass
-- the NOLINT comments, the verbosity and the filters, one line each in their order, adds their number to the error count, and keeps the
-- filters; if the counts by category add up to the error count before, they do so behind it.
pub report-Outcome :
    (filename : Text) (ds : List Diagnostic) (st : Linter)
    → AllSigned st.filters
    → Outcome filename ds st
unfolding report
report-Outcome filename [] st h = record {
  final = st;
  printed = [];
  runs = refl;
  selected = nil;
  lines = refl;
  count = omega arith;
  counted = λ c. c;
  same_filters = refl;
}
report-Outcome filename (d ∷ ds) st h = elim (error-IsReported filename d st h) [
  | inl (e, r) ↦
      let st' = print_error filename d st in
      let p = print_error-Printed filename d st in
      let rest = report-Outcome filename ds st' (rw p.same_filters h) in
      record {
        final = rest.final;
        printed = d ∷ rest.printed;
        runs = rw (e, report) rest.runs;
        selected = keep r (
            Reported-SameRules
              (record {
                filters = p.same_filters;
                level = p.same_level;
                suppressions = p.same_suppressions;
              })
              rest.selected);
        lines = rest.lines ∙ rw (p.one_line, p.same_format, reverse-cons, append_assoc) refl;
        count = omega (arith, rest.count, p.one_more);
        counted = λ c. rest.counted (p.counted c);
        same_filters = rest.same_filters ∙ p.same_filters;
      }
  | inr (e, n) ↦
      let rest = report-Outcome filename ds st h in
      record {
        final = rest.final;
        printed = rest.printed;
        runs = rw (e, report) rest.runs;
        selected = skip n rest.selected;
        lines = rest.lines;
        count = rest.count;
        counted = rest.counted;
        same_filters = rest.same_filters;
      }
]
