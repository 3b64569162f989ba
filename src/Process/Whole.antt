-- ===== src/Process/Whole.antt =====
-- What a file is worth. About `ProcessFileData` and `ProcessFile`.

use power_judge.Prelude.{
  ℕ, ◌+◌, Bool, true, false, not, Option, none, some, List, [], ◌∷◌, ◌++◌, map, ◌≡◌, refl, ap, ◌∙◌,
  length, ◌&&◌, any, Bool-cases, Option-cases, inl, inr,
}
use power_judge.Prelude.Maybe.{◌>>=◌, >>=-eq-some}
use power_judge.Text.{Text, codes, text_eq, text_in, split, ends_with, join}
use power_judge.Lint.{Diagnostic, Linter, reset_nolint_suppressions, set_verbose_level}
use power_judge.Lint.Report.{report, error_line}
use power_judge.Lint.Counts.{IsCounted}
use power_judge.Cleanse.{cleansed_lines}
use power_judge.Cleanse.MultiLine.{remove_multi_line_comments}
use power_judge.FileNames.{get_header_guard_cpp_variable}
use power_judge.FileChecks.{check_for_copyright}
use power_judge.FileChecks.Guard.{check_for_header_guard}
use power_judge.Style.{Settings}
use power_judge.Process.{new_file_state, process_lines}
use power_judge.Process.Files.{
  Machine, with_markers, header_guard, process_clean_lines, process_file_data, process_text,
  process_file, write_error, input_of, file_extension_of, without_return,
}
use power_judge.Process.Progress.{
  Progress, unchanged, along, chain, error-Progress, report-Progress, from_suppressions,
}
use power_judge.Process.Lines.{process_lines-Progress}

-- A run of calls, and what follows on it.
report-then :
    (filename : Text) (ds : List Diagnostic) (st : Linter) (next : Linter → Option Linter)
    {st' : Linter}
    → (report filename ds st >>= next) ≡ some st'
    → ((a : Linter) → next a ≡ some st' → Progress filename a st')
    → Progress filename st st'
report-then filename ds st next e rest =
    let (a, first, later) = >>=-eq-some (report filename ds st) next e in
    chain (report-Progress filename ds st first) (rest a later)

header_guard-Progress :
    (settings : Settings) (filename file_extension : Text) (lines : List Text) (linter : Linter)
    {linter' : Linter}
    → header_guard settings filename file_extension lines linter ≡ some linter'
    → Progress filename linter linter'
unfolding header_guard
header_guard-Progress settings filename file_extension lines linter e =
    elim (Bool-cases (text_eq file_extension (codes "h"))) [
      | inl header ↦
          let (cppvar, named, later) =
            >>=-eq-some (get_header_guard_cpp_variable settings.files settings.root filename) _
              (rw header at e) in
          from_suppressions (check_for_header_guard cppvar lines linter.suppressions).0
            (report-Progress filename _ _ later)
      | inr source ↦ along (rw source at e) (unchanged filename linter)
    ]

process_clean_lines-Progress :
    (settings : Settings) (machine : Machine) (filename file_extension : Text) (lines : List Text)
    (linter : Linter) {linter' : Linter}
    → process_clean_lines settings machine filename file_extension lines linter ≡ some linter'
    → Progress filename linter linter'
unfolding process_clean_lines
process_clean_lines-Progress settings machine filename file_extension lines linter e =
    let (r, first, later) =
      >>=-eq-some
        (process_lines settings filename file_extension (cleansed_lines lines) 0
          (cleansed_lines lines).num_lines (new_file_state, linter))
        _ e in
    chain
      (process_lines-Progress settings filename file_extension (cleansed_lines lines) 0
        (cleansed_lines lines).num_lines new_file_state linter first)
      (report-then filename _ _ _ later (λ a e1.
        report-then filename _ _ _ e1
          (λ b e2. report-then filename _ _ _ e2 (λ c e3. report-Progress filename _ _ e3))))

-- If `ProcessFileData` returns, the filters, the level, the output format and the way of counting
-- are as before; what it wrote are lines of errors of the file, in the output format; the error count
-- is up by exactly their number; and if errors are counted by category and the counts added up to the
-- error count before, they still do.
pub process_file_data-Progress :
    (settings : Settings) (machine : Machine) (filename file_extension : Text) (lines : List Text)
    (linter : Linter) {linter' : Linter}
    → process_file_data settings machine filename file_extension lines linter ≡ some linter'
    → Progress filename linter linter'
unfolding process_file_data reset_nolint_suppressions
process_file_data-Progress settings machine filename file_extension lines linter e =
    from_suppressions [] (
      report-then filename (check_for_copyright (with_markers lines)) _ _ e (λ a e1.
        let (b, guard, e2) =
          >>=-eq-some (header_guard settings filename file_extension (with_markers lines) a) _ e1 in
        let (r, removed, e3) = >>=-eq-some (remove_multi_line_comments (with_markers lines)) _ e2 in
        chain (header_guard-Progress settings filename file_extension (with_markers lines) a guard)
          (report-then filename r.1 b _ e3 (λ c e4.
            process_clean_lines-Progress settings machine filename file_extension r.0 c e4))))

pub skipping_line : Text → Text
skipping_line filename =
    codes "Skipping input '" ++ (filename ++ codes "': Can't open for reading\n")

pub done_line : Text → Text
done_line filename = codes "Done processing " ++ (filename ++ codes "\n")

pub ignoring_line : List Text → Text → Text
ignoring_line valid_extensions filename =
    codes "Ignoring "
    ++ (filename
        ++ (codes "; not a valid file name ("
            ++ (join (codes ", ") valid_extensions ++ codes ")\n")))

-- A name of a file with none of the extensions.
pub is_ignored : List Text → Text → Bool
is_ignored valid_extensions filename =
    not (text_eq filename (codes "-"))
    && not (text_in (file_extension_of filename) valid_extensions)

-- The lines about a file itself, the last one first, beside its errors.
pub data Notes (machine : Machine) (valid_extensions : List Text) (filename : Text)
    : List Diagnostic → List Text → Type 0 where
  unreadable :
      input_of machine filename ≡ none
      → Notes machine valid_extensions filename [] (skipping_line filename ∷ [])
  ignored :
      {text : Text}
      → input_of machine filename ≡ some text
      → is_ignored valid_extensions filename ≡ true
      → Notes machine valid_extensions filename []
          (done_line filename ∷ ignoring_line valid_extensions filename ∷ [])
  checked :
      {text : Text} {errors : List Diagnostic}
      → input_of machine filename ≡ some text
      → is_ignored valid_extensions filename ≡ false
      → Notes machine valid_extensions filename errors (done_line filename ∷ [])

-- What a file adds to a state: the lines of its errors, the last one first, their number to the error
-- count, and behind them the lines about the file.
pub record FileRun (machine : Machine) (valid_extensions : List Text) (filename : Text) (vlevel : ℕ)
    (st st' : Linter) : Type 0 where
  pub same_filters : st'.filters ≡ st.filters
  pub same_format : st'.output_format ≡ st.output_format
  pub at_level : st'.verbose_level ≡ vlevel
  pub errors : List Diagnostic
  pub notes : List Text
  pub about_file : Notes machine valid_extensions filename errors notes
  pub written :
      st'.stderr ≡ notes ++ (map (error_line st.output_format filename) errors ++ st.stderr)
  pub count : st'.error_count ≡ st.error_count + length errors
  pub counted : IsCounted st → IsCounted st'

-- A state behind progress, with further lines that are not errors.
noted :
    {machine : Machine} {valid_extensions : List Text} {filename : Text} {st middle : Linter}
    (vlevel : ℕ) (p : Progress filename (record st { verbose_level = vlevel }) middle)
    (notes : List Text)
    → Notes machine valid_extensions filename p.errors notes
    → {st' : Linter} → some (record middle { stderr = notes ++ middle.stderr }) ≡ some st'
    → FileRun machine valid_extensions filename vlevel st st'
noted {middle = middle} vlevel p notes about {st' = st'} e =
    let found : st' ≡ record middle { stderr = notes ++ middle.stderr } = cc in
    record {
      same_filters = ap (λ (l : Linter). l.filters) found ∙ p.same_filters;
      same_format = ap (λ (l : Linter). l.output_format) found ∙ p.same_format;
      at_level = ap (λ (l : Linter). l.verbose_level) found ∙ p.same_level;
      errors = p.errors;
      notes = notes;
      about_file = about;
      written = ap (λ (l : Linter). l.stderr) found ∙ ap (λ x. notes ++ x) p.printed;
      count = ap (λ (l : Linter). l.error_count) found ∙ p.count;
      counted = λ c. rw found (p.counted c);
    }

process_text-Progress :
    (settings : Settings) (machine : Machine) (valid_extensions : List Text) (filename text : Text)
    (linter : Linter) {linter' : Linter}
    → is_ignored valid_extensions filename ≡ false
    → process_text settings machine valid_extensions filename text linter ≡ some linter'
    → Progress filename linter linter'
unfolding process_text is_ignored
process_text-Progress settings machine valid_extensions filename text linter taken e =
    let (a, processed, later) =
      >>=-eq-some
        (process_file_data settings machine filename (file_extension_of filename)
          (map without_return (split text 10)) linter)
        _ (rw taken at e) in
    let p = process_file_data-Progress settings machine filename _ _ linter processed in
    elim (Bool-cases (
      any (λ (l : Text). ends_with l (codes "\r")) (split text 10)
      && not (text_eq machine.linesep (codes "\r\n")))) [
        | inl returns ↦ chain p (error-Progress filename _ a (rw returns at later))
        | inr clean ↦ along (rw clean at later) p
      ]

process_text-ignored :
    (settings : Settings) (machine : Machine) (valid_extensions : List Text) (filename text : Text)
    (linter : Linter)
    → is_ignored valid_extensions filename ≡ true
    → process_text settings machine valid_extensions filename text linter
      ≡ some (record linter { stderr = ignoring_line valid_extensions filename ∷ linter.stderr })
unfolding process_text write_error is_ignored ignoring_line
process_text-ignored settings machine valid_extensions filename text linter h = rw h refl

-- If `ProcessFile` returns, the filters and the output format are as before and the level is the one
-- it was called with. What it wrote are the lines of errors of the file, in the output format, whose
-- number the error count is up by; behind them stands only `Skipping input`, with no errors, if the
-- file cannot be read; `Ignoring` and `Done processing`, with no errors, if it has no valid
-- extension; and else `Done processing`. If errors are counted by category and the counts added up to
-- the error count before, they still do.
pub process_file-FileRun :
    (settings : Settings) (machine : Machine) (valid_extensions : List Text) (filename : Text)
    (vlevel : ℕ) (linter : Linter) {linter' : Linter}
    → process_file settings machine valid_extensions filename vlevel linter ≡ some linter'
    → FileRun machine valid_extensions filename vlevel linter linter'
unfolding process_file set_verbose_level write_error skipping_line done_line
process_file-FileRun settings machine valid_extensions filename vlevel linter e =
    let started = record linter { verbose_level = vlevel } in
    elim (Option-cases (input_of machine filename)) [
      | inl missing ↦
          noted vlevel (unchanged filename started) _ (unreadable missing)
            (rw (missing, process_file) at e)
      | inr (text, found) ↦
          let (a, processed, later) =
            >>=-eq-some (process_text settings machine valid_extensions filename text started) _
              (rw (found, process_file) at e) in
          elim (Bool-cases (is_ignored valid_extensions filename)) [
            | inl other ↦
                let same : record started {
                  stderr = ignoring_line valid_extensions filename ∷ started.stderr;
                }
                    ≡ a =
                  let ignores =
                    process_text-ignored settings machine valid_extensions filename text started
                      other in
                  cc in
                noted vlevel (unchanged filename started) _ (ignored found other)
                  (ap (λ l. some (write_error (done_line filename) l)) same ∙ later)
            | inr taken ↦
                noted vlevel
                  (process_text-Progress settings machine valid_extensions filename text started
                    taken processed)
                  _ (checked found taken) later
          ]
    ]
