-- ===== src/CommandLine/Status.antt =====
-- What a run over several files writes, and its exit status. About `main`.
use power_judge.Prelude.{
  ℕ, ◌+◌, Option, some, List, [], ◌∷◌, ◌++◌, ◌≡◌, ◌↔◌, refl, ap, subst, ◌∙◌, arith, length, map,
  append_assoc, ltb, if◌then◌else◌, Option-cases, inl, inr,
}
use power_judge.Text.{Text}
use power_judge.Lint.Report.{error_line}
use power_judge.Lint.{Diagnostic, Linter, reset_error_counts, print_error_counts}
use power_judge.Style.{Settings}
use power_judge.Process.Files.{Machine, process_file}
use power_judge.Process.Whole.{Notes, FileRun, process_file-FileRun}
use power_judge.CommandLine.{
  Run, stopped, going, ◌>>=◌, Globals, parse_arguments, process_files, reverse_onto, main,
}

-- What is written about files and their errors, the last line first, and the number of the errors.
pub data Output (machine : Machine) (valid_extensions : List Text) (format : Text)
    : List Text → ℕ → List Text → Type 0 where
  nil : Output machine valid_extensions format [] 0 []
  next :
      {f : Text} {fs : List Text} {n : ℕ} {notes lines : List Text} (errors : List Diagnostic)
      → Notes machine valid_extensions f errors notes
      → Output machine valid_extensions format fs n lines
      → Output machine valid_extensions format
          (f ∷ fs)
          (length errors + n)
          (lines ++ (notes ++ map (error_line format f) errors))

-- What a run over files adds to a state.
record FilesRun (machine : Machine) (valid_extensions files : List Text) (st st' : Linter)
    : Type 0 where
  same_filters : st'.filters ≡ st.filters
  same_level : st'.verbose_level ≡ st.verbose_level
  lines : List Text
  number : ℕ
  output : Output machine valid_extensions st.output_format files number lines
  written : st'.stderr ≡ lines ++ st.stderr
  count : st'.error_count ≡ st.error_count + number

no_files :
    (machine : Machine) (valid_extensions : List Text) (st : Linter)
    → FilesRun machine valid_extensions [] st st
no_files machine valid_extensions st = record {
  same_filters = refl;
  same_level = refl;
  lines = [];
  number = 0;
  output = nil;
  written = refl;
  count = omega arith;
}

next_file :
    {machine : Machine} {valid_extensions : List Text} {a b c : Linter} (f : Text) (fs : List Text)
    → FileRun machine valid_extensions f a.verbose_level a b
    → FilesRun machine valid_extensions fs b c
    → FilesRun machine valid_extensions (f ∷ fs) a c
next_file {machine = machine} {valid_extensions = valid_extensions} {a = a} f fs p q = record {
  same_filters = q.same_filters ∙ p.same_filters;
  same_level = q.same_level ∙ p.at_level;
  lines = q.lines ++ (p.notes ++ map (error_line a.output_format f) p.errors);
  number = length p.errors + q.number;
  output =
      next p.errors p.about_file
        (subst (λ o. Output machine valid_extensions o fs q.number q.lines) p.same_format q.output);
  written =
      q.written
      ∙ rw
          (
            p.written,
            append_assoc q.lines (p.notes ++ map (error_line a.output_format f) p.errors),
            append_assoc p.notes,
          )
          refl;
  count = omega (arith, p.count, q.count);
}

process_files-FilesRun :
    (settings : Settings) (machine : Machine) (valid_extensions files : List Text) (st : Linter)
    {st' : Linter}
    → process_files settings machine valid_extensions files st ≡ some st'
    → FilesRun machine valid_extensions files st st'
unfolding process_files
process_files-FilesRun settings machine valid_extensions [] st {st' = st'} e =
    let same : st ≡ st' = cc in
    subst (FilesRun machine valid_extensions [] st) same (no_files machine valid_extensions st)
process_files-FilesRun settings machine valid_extensions (f ∷ fs) st e =
    elim (Option-cases (process_file settings machine valid_extensions f st.verbose_level st)) [
      | inl stops ↦ absurd (cc (rw (stops, process_files) at e))
      | inr (a, goes) ↦
          next_file f fs
            (process_file-FileRun settings machine valid_extensions f st.verbose_level st goes)
            (process_files-FilesRun settings machine valid_extensions fs a
              (rw (goes, process_files) at e))
    ]

bind-going :
    {A B : Type 0} (m : Run A) (f : A → Run B) {b : B}
    → (m >>= f) ≡ going b
    → (a : A) × (m ≡ going a) × (f a ≡ going b)
bind-going (stopped s) f e = absurd (cc)
bind-going (going a) f e = (a, refl, e)

end_of : Linter × ℕ → Run (Option (Linter × ℕ)) → Linter × ℕ
end_of default (going (some r)) = r
end_of default _ = default

going-same : (p q : Linter × ℕ) → going (some p) ≡ going (some q) → p ≡ q
unfolding end_of
going-same p q e = ap (end_of p) e

-- What `main` comes to: the files that `ParseArguments` gives, the lines that were written for them,
-- the counts behind them, and the exit status.
pub record Finished (int : Text → Option ℕ) (arguments : Option (List (Text × Text) × List Text))
    (machine : Machine) (globals : Globals) (linter : Linter) (status : ℕ) : Type 0 where
  pub filenames : List Text
  pub configured : Globals
  pub parsed : parse_arguments int arguments globals ≡ going (filenames, configured)
  pub lines : List Text
  pub written :
      linter.stderr ≡ reverse_onto (print_error_counts linter) (lines ++ configured.linter.stderr)
  pub output :
      Output machine configured.valid_extensions configured.linter.output_format filenames
        linter.error_count lines
  pub same_filters : linter.filters ≡ configured.linter.filters
  pub success : (status ≡ 0) ↔ (linter.error_count ≡ 0)

status_iff : (n : ℕ) → (◌≡◌ {A = ℕ} (if ltb 0 n then 1 else 0) 0) ↔ (n ≡ 0)
status_iff n = ground arith

finish :
    (int : Text → Option ℕ) (arguments : Option (List (Text × Text) × List Text))
    (machine : Machine) (globals : Globals) {filenames : List Text} {configured : Globals}
    {st : Linter}
    → parse_arguments int arguments globals ≡ going (filenames, configured)
    → FilesRun machine configured.valid_extensions filenames
        (reset_error_counts configured.linter)
        st
    → Finished int arguments machine globals
        (record st { stderr = reverse_onto (print_error_counts st) st.stderr })
        (if ltb 0 st.error_count then 1 else 0)
unfolding reset_error_counts print_error_counts
finish int arguments machine globals {filenames = filenames} {configured = configured} {st = st} e
      r =
    record {
      filenames = filenames;
      configured = configured;
      parsed = e;
      lines = r.lines;
      written = ap (reverse_onto (print_error_counts st)) r.written;
      output =
          let total : r.number ≡ st.error_count = omega (arith, r.count) in
          subst
            (λ n.
              Output machine configured.valid_extensions configured.linter.output_format filenames n
                r.lines)
            total r.output;
      same_filters = r.same_filters;
      success = status_iff st.error_count;
    }

-- If `main` comes to its end, `ParseArguments` has returned with the names of the files. File by file,
-- before the counts, it wrote the lines of the errors of the file and behind them only `Skipping
-- input` for a file that cannot be read, `Ignoring` and `Done processing` for one with no valid
-- extension, both with no errors, and else `Done processing`; the error count is the number of these
-- errors. The filters are those of the arguments, and the exit status is 0 if and only if the error
-- count is 0.
pub main-Finished :
    (int : Text → Option ℕ) (arguments : Option (List (Text × Text) × List Text))
    (settings : Settings) (machine : Machine) (globals : Globals) {linter : Linter} {status : ℕ}
    → main int arguments settings machine globals ≡ going (some (linter, status))
    → Finished int arguments machine globals linter status
unfolding main
main-Finished int arguments settings machine globals {linter = linter} {status = status} e =
    let ((filenames, configured), parsed, e') =
      bind-going (parse_arguments int arguments globals) _ e in
    let settings' = record settings {
      root = configured.root;
      line_length = configured.line_length;
    } in
    elim (Option-cases (
      process_files settings' machine configured.valid_extensions filenames
        (reset_error_counts configured.linter))) [
          | inl stops ↦ absurd (cc (rw stops at e'))
          | inr (st, runs) ↦
              let f = finish int arguments machine globals parsed (
                process_files-FilesRun settings' machine configured.valid_extensions filenames
                  (reset_error_counts configured.linter) runs) in
              subst (λ (r : Linter × ℕ). Finished int arguments machine globals r.0 r.1)
                (going-same _ (linter, status) (rw runs at e')) f
        ]
