-- ===== src/Process/Lines.antt =====
-- What one line, and a run of lines, is worth. About `ProcessLine` and the loop of `ProcessFileData`.
use power_judge.Prelude.{ℕ, zero, suc, some, List, [], ◌++◌, ◌≡◌, refl, ap, get_or}
use mathlib.Core.Option
use power_judge.Prelude.Maybe.{◌>>=◌, >>=-eq-some, >>=-some}
use power_judge.Text.{Text}
use power_judge.Lint.{Diagnostic, Linter, parse_nolint_suppressions}
use power_judge.Lint.Report.{report}
use power_judge.Lint.Filters.{AllSigned}
use power_judge.Lint.Counts.{Outcome, report-Outcome}
use power_judge.Cleanse.{CleansedLines}
use power_judge.Style.{Settings}
use power_judge.Process.{FileState, line_checks, process_line, process_lines}
use power_judge.Process.Progress.{
  Progress, unchanged, along, chain, report-Progress, from_suppressions,
}

module _ (settings : Settings) (filename file_extension : Text) (clean_lines : CleansedLines) where
  -- With signed filters, and if the checks of the line have a result, `ProcessLine` returns with the
  -- states that they leave. It first parses the NOLINT comment of the raw line; under the new
  -- suppressions it prints, in their order, exactly the diagnostics of that comment and of the
  -- checks that no NOLINT comment, no filter and no verbosity level stops, one line each, and adds
  -- their number to the error count.
  pub process_line-Outcome :
      (line : ℕ) (st : FileState) (linter : Linter) {st' : FileState} {ds : List Diagnostic}
      → AllSigned linter.filters
      → line_checks settings linter.verbose_level filename file_extension clean_lines line st
        ≡ some (st', ds)
      → let nolint =
          parse_nolint_suppressions
            (get_or clean_lines.raw_lines line [])
            line
            linter.suppressions in
        (o : Outcome filename (nolint.1 ++ ds) (record linter { suppressions = nolint.0 }))
        × (process_line settings filename file_extension clean_lines line (st, linter)
            ≡ some (st', o.final))
  unfolding process_line
  process_line-Outcome line st linter {st' = st'} {ds = ds} h checks =
      let nolint =
        parse_nolint_suppressions (get_or clean_lines.raw_lines line []) line linter.suppressions in
      let o =
        report-Outcome filename (nolint.1 ++ ds) (record linter { suppressions = nolint.0 }) h in
      (o, >>=-some _ checks (>>=-some _ o.runs refl))

  pub process_line-Progress :
      (line : ℕ) (st : FileState) (linter : Linter) {st' : FileState} {linter' : Linter}
      → process_line settings filename file_extension clean_lines line (st, linter)
        ≡ some (st', linter')
      → Progress filename linter linter'
  unfolding process_line
  process_line-Progress line st linter {st' = st'} {linter' = linter'} e =
      let nolint =
        parse_nolint_suppressions (get_or clean_lines.raw_lines line []) line linter.suppressions in
      let started = record linter { suppressions = nolint.0 } in
      let (r, checks, e') =
        >>=-eq-some
          (line_checks settings linter.verbose_level filename file_extension clean_lines line st)
          (λ (r : FileState × List Diagnostic). do
            l ← report filename (nolint.1 ++ r.1) started
            some (r.0, l))
          e in
      let (l, reports, e'') =
        >>=-eq-some (report filename (nolint.1 ++ r.1) started) (λ (l : Linter). some (r.0, l))
          e' in
      along (ap (Option.map (λ (q : FileState × Linter). q.1)) e'')
        (from_suppressions nolint.0 (report-Progress filename (nolint.1 ++ r.1) started reports))

  pub process_lines-Progress :
      (line count : ℕ) (st : FileState) (linter : Linter) {st' : FileState} {linter' : Linter}
      → process_lines settings filename file_extension clean_lines line count (st, linter)
        ≡ some (st', linter')
      → Progress filename linter linter'
  unfolding process_lines
  process_lines-Progress line zero st linter e =
      along (ap (Option.map (λ (r : FileState × Linter). r.1)) e) (unchanged filename linter)
  process_lines-Progress line (suc count) st linter e =
      let (r, first, rest) =
        >>=-eq-some (process_line settings filename file_extension clean_lines line (st, linter))
          (process_lines settings filename file_extension clean_lines (suc line) count) e in
      chain (process_line-Progress line st linter first)
        (process_lines-Progress (suc line) count r.0 r.1 rest)
