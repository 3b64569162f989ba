-- ===== src/Process/Nolint.antt =====
-- What a NOLINT comment does for its line. About `ProcessLine`, `ParseNolintSuppressions` and
-- `IsErrorSuppressedByNolint`.
use power_judge.Prelude.{
  ℕ, true, none, some, List, [], ◌∷◌, ◌++◌, map, reverse, ◌≡◌, ◌≢◌, ◌⊎◌, inl, inr, refl, arith,
  get_or, All,
}
use power_judge.Text.{Text, codes}
use power_judge.Regex.Scan.{Match, group?}
use power_judge.Patterns.{re_search}
use power_judge.Lint.{
  Diagnostic, Linter, Suppressions, parse_nolint_suppressions, nolint_category,
  is_error_suppressed_by_nolint,
}
use power_judge.Lint.Report.{error_line}
use power_judge.Lint.Filters.{AllSigned}
use power_judge.Lint.Counts.{Reported, nil, keep, skip}
use power_judge.Cleanse.{CleansedLines}
use power_judge.Style.{Settings}
use power_judge.Process.{FileState, line_checks, process_line}
use power_judge.Process.Lines.{process_line-Outcome}

-- A line with the comment `NOLINT` or `NOLINT(*)`.
pub record SilencesAll (raw_line : Text) : Type 0 where
  pub found : Match
  pub comment : re_search "\\bNOLINT\\b(\\([^)]*\\))?" raw_line ≡ some found
  pub all_categories : (group? 1 found ≡ none) ⊎ (group? 1 found ≡ some (codes "(*)"))

suppresses-here :
    (category : Text) (line : ℕ) (sup : Suppressions)
    → is_error_suppressed_by_nolint category line ((none, line) ∷ sup) ≡ true
unfolding is_error_suppressed_by_nolint
suppresses-here category line sup = ground arith

parse-all :
    (raw_line : Text) (line : ℕ) (sup : Suppressions)
    → SilencesAll raw_line
    → (parse_nolint_suppressions raw_line line sup).0 ≡ (none, line) ∷ sup
unfolding parse_nolint_suppressions nolint_category re_search
parse-all raw_line line sup s = elim s.all_categories [
  | inl bare ↦ let found = s.comment in rw (found, bare) refl
  | inr star ↦ let found = s.comment in rw (found, star) refl
]

elsewhere :
    (line : ℕ) (st : Linter) {sup : Suppressions} {ds es : List Diagnostic}
    → st.suppressions ≡ (none, line) ∷ sup
    → Reported st ds es
    → All (λ (d : Diagnostic). d.linenum ≢ line) es
elsewhere line st e nil = tt
elsewhere line st {sup = sup} e (keep {d = d} r rs) = (
  λ here. let shut = suppresses-here d.category line sup in let free = r.not_suppressed in cc,
  elsewhere line st e rs,
)
elsewhere line st e (skip n rs) = elsewhere line st e rs

-- What `ProcessLine` comes to, if it prints nothing about its own line.
pub record Silent (settings : Settings) (filename file_extension : Text)
    (clean_lines : CleansedLines) (line : ℕ) (st : FileState) (linter : Linter) : Type 0 where
  pub final : FileState × Linter
  pub runs :
      process_line settings filename file_extension clean_lines line (st, linter) ≡ some final
  pub printed : List Diagnostic
  pub lines :
      final.1.stderr
      ≡ reverse (map (error_line linter.output_format filename) printed) ++ linter.stderr
  pub elsewhere : All (λ (d : Diagnostic). d.linenum ≢ line) printed

-- With signed filters, and if the checks of the line have a result, `ProcessLine` on a raw line with
-- the comment `NOLINT` or `NOLINT(*)` returns, and none of the diagnostics that it prints is about
-- that line.
pub process_line-Silent :
    (settings : Settings) (filename file_extension : Text) (clean_lines : CleansedLines) (line : ℕ)
    (st : FileState) (linter : Linter) {r : FileState × List Diagnostic}
    → SilencesAll (get_or clean_lines.raw_lines line [])
    → AllSigned linter.filters
    → line_checks settings linter.verbose_level filename file_extension clean_lines line st ≡ some r
    → Silent settings filename file_extension clean_lines line st linter
process_line-Silent settings filename file_extension clean_lines line st linter {r = r} s h checks =
    let (o, runs) =
      process_line-Outcome settings filename file_extension clean_lines line st linter h checks in
    record {
      final = (r.0, o.final);
      runs = runs;
      printed = o.printed;
      lines = o.lines;
      elsewhere =
          elsewhere line _
            (parse-all (get_or clean_lines.raw_lines line []) line linter.suppressions s)
            o.selected;
    }
