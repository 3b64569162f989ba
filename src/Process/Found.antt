-- ===== src/Process/Found.antt =====
-- Which diagnostics of a line are printed, with no order of the checks. About `ProcessLine`.
use mathlib.Core.List.{Memᴰ}
use mathlib.Core.List.Memᴰ
use mathlib.Core.List.Memᴰ.{head, tail}
use power_judge.Prelude.{
  ℕ, ◌+◌, false, some, List, [], ◌++◌, map, reverse, ◌≡◌, ◌↔◌, inl, inr, ap, subst, sym, ◌∙◌,
  get_or, length, Bool-cases,
}
use power_judge.Prelude.Maybe.{>>=-eq-some}
use power_judge.Text.{Text}
use power_judge.Lint.{Diagnostic, Linter, parse_nolint_suppressions}
use power_judge.Lint.Report.{error_line}
use power_judge.Lint.Filters.{AllSigned}
use power_judge.Lint.Reporting.{IsReported}
use power_judge.Lint.Counts.{Reported, nil, keep, skip}
use power_judge.Cleanse.{CleansedLines}
use power_judge.Nesting.Update.{update}
use power_judge.Style.{Settings}
use power_judge.Process.{FileState, in_asm, code_checks, line_checks, process_line}
use power_judge.Process.Lines.{process_line-Outcome}
use power_judge.Process.Code.{OfCode, split_off, second, code_checks-OfCode}

-- The reported ones of a list.
Reported-members :
    {st : Linter} {ds es : List Diagnostic} (d : Diagnostic)
    → Reported st ds es
    → Memᴰ d es ↔ (Memᴰ d ds × IsReported st d)
Reported-members d nil = (λ m. absurd (Memᴰ.not-nil m), λ (m, r). absurd (Memᴰ.not-nil m))
Reported-members {st = st} d (keep {d = x} r rs) =
    let (into, back) = Reported-members d rs in
    (
      λ m. elim (Memᴰ.cases_cons m) [
        | inl e ↦ (head e, subst (IsReported st) (sym e) r)
        | inr later ↦ let (a, b) = into later in (tail a, b)
      ],
      λ (m, p). elim (Memᴰ.cases_cons m) [ inl e ↦ head e | inr later ↦ tail (back (later, p)) ],
    )
Reported-members {st = st} d (skip {d = x} n rs) =
    let (into, back) = Reported-members d rs in
    (
      λ m. let (a, b) = into m in (tail a, b),
      λ (m, p). elim (Memᴰ.cases_cons m) [
        | inl e ↦ absurd (n (subst (IsReported st) e p))
        | inr later ↦ back (later, p)
      ],
    )

module _ (settings : Settings) (filename file_extension : Text) (clean_lines : CleansedLines)
    (line : ℕ) (st : FileState) (linter : Linter) where
  -- A diagnostic that `ProcessLine` has of a line: of its NOLINT comment, of `Update`, or, if the line
  -- behind `Update` is not in inline assembly, of a check of the code.
  pub data OfLine (d : Diagnostic) : Type 0 where
    of_comment :
        Memᴰ d
          (parse_nolint_suppressions
            (get_or clean_lines.raw_lines line [])
            line
            linter.suppressions).1
        → OfLine d
    of_nesting : Memᴰ d (update clean_lines line st.nesting).1 → OfLine d
    of_code :
        in_asm (update clean_lines line st.nesting).0.stack ≡ false
        → OfCode settings linter.verbose_level filename file_extension clean_lines line
            (record st { nesting = (update clean_lines line st.nesting).0 })
            d
        → OfLine d

  -- What `ProcessLine` prints, in the order of time, and adds to the count.
  pub record Spoken (linter' : Linter) : Type 0 where
    pub printed : List Diagnostic
    pub lines :
        linter'.stderr
        ≡ reverse (map (error_line linter.output_format filename) printed) ++ linter.stderr
    pub count : linter'.error_count ≡ linter.error_count + length printed
    pub made : FileState × List Diagnostic
    pub checks :
        line_checks settings linter.verbose_level filename file_extension clean_lines line st
        ≡ some made
    pub selected :
        Reported
          (record linter {
            suppressions =
                (parse_nolint_suppressions
                  (get_or clean_lines.raw_lines line [])
                  line
                  linter.suppressions).0;
          })
          ((parse_nolint_suppressions
              (get_or clean_lines.raw_lines line [])
              line
              linter.suppressions).1
            ++ made.1)
          printed
    pub exactly :
        (d : Diagnostic)
        → Memᴰ d printed ↔ (
            OfLine d
            × IsReported
                (record linter {
                  suppressions =
                      (parse_nolint_suppressions
                        (get_or clean_lines.raw_lines line [])
                        line
                        linter.suppressions).0;
                })
                d)

  line_checks-OfLine :
      {st' : FileState} {ds : List Diagnostic} (d : Diagnostic)
      → line_checks settings linter.verbose_level filename file_extension clean_lines line st
        ≡ some (st', ds)
      → Memᴰ d (
          (parse_nolint_suppressions
            (get_or clean_lines.raw_lines line [])
            line
            linter.suppressions).1
          ++ ds)
        ↔ OfLine d
  unfolding line_checks
  line_checks-OfLine d e =
      let comment =
        (parse_nolint_suppressions (get_or clean_lines.raw_lines line []) line
          linter.suppressions).1 in
      let (nesting, ds) = update clean_lines line st.nesting in
      elim (Bool-cases (in_asm nesting.stack)) [
        | inl asm ↦
            subst (λ ds. Memᴰ d (comment ++ ds) ↔ OfLine d) (second (rw asm at e))
              (
                split_off comment of_comment of_nesting,
                λ o. elim o [
                  | of_comment m ↦ Memᴰ.append_left _ m
                  | of_nesting m ↦ Memᴰ.append_right comment m
                  | of_code free c ↦ absurd (cc)
                ],
              )
        | inr free ↦
            let (r, checked, e') =
              >>=-eq-some
                (code_checks settings linter.verbose_level filename file_extension clean_lines line
                  (record st { nesting = nesting }))
                _ (rw free at e) in
            let (into, back) =
              code_checks-OfCode settings linter.verbose_level filename file_extension clean_lines
                line (record st { nesting = nesting }) d checked in
            subst (λ ds. Memᴰ d (comment ++ ds) ↔ OfLine d) (second e')
              (
                split_off comment of_comment (split_off ds of_nesting (λ m. of_code free (into m))),
                λ o. elim o [
                  | of_comment m ↦ Memᴰ.append_left _ m
                  | of_nesting m ↦ Memᴰ.append_right comment (Memᴰ.append_left _ m)
                  | of_code _ c ↦ Memᴰ.append_right comment (Memᴰ.append_right ds (back c))
                ],
              )
      ]

  -- With signed filters, if `ProcessLine` returns, it has printed one line for each of a list of
  -- diagnostics and added their number to the error count. The list is selected, in their order, from
  -- those of the NOLINT comment of the line and behind them those of its checks. A diagnostic is in
  -- the list if and only if it is of the NOLINT comment of the line, of `Update`, or, where the stack
  -- behind `Update` is not in inline assembly, of one of the ten checks of the code; and if, with the
  -- NOLINT comment of the line itself, no NOLINT comment, no filter and no verbosity level stops it.
  pub process_line-Spoken :
      {st' : FileState} {linter' : Linter}
      → AllSigned linter.filters
      → process_line settings filename file_extension clean_lines line (st, linter)
        ≡ some (st', linter')
      → Spoken linter'
  unfolding process_line
  process_line-Spoken {st' = st'} {linter' = linter'} h e =
      let (r, checks, e') =
        >>=-eq-some
          (line_checks settings linter.verbose_level filename file_extension clean_lines line st) _
          e in
      let (o, runs) =
        process_line-Outcome settings filename file_extension clean_lines line st linter h checks in
      let same : o.final ≡ linter' = second (sym runs ∙ e) in
      record {
        printed = o.printed;
        lines = ap (λ (l : Linter). l.stderr) (sym same) ∙ o.lines;
        count = ap (λ (l : Linter). l.error_count) (sym same) ∙ o.count;
        made = r;
        checks = checks;
        selected = o.selected;
        exactly = λ d.
            let (a, b) = Reported-members d o.selected in
            let (f, g) = line_checks-OfLine d checks in
            (λ m. let (x, y) = a m in (f x, y), λ (x, y). b (g x, y));
      }
