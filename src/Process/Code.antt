-- ===== src/Process/Code.antt =====
-- Which checks of the code make a diagnostic, with no order. About `ProcessLine`.
use mathlib.Core.List.{Memᴰ}
use mathlib.Core.List.Memᴰ
use power_judge.Prelude.{ℕ, Option, some, List, [], ◌++◌, ◌≡◌, ◌↔◌, inl, inr, ap, subst, get_or}
use power_judge.Prelude.Maybe.{>>=-eq-some}
use power_judge.Text.{Text}
use power_judge.Lint.{Diagnostic}
use power_judge.Cleanse.{CleansedLines}
use power_judge.LineChecks.{
  check_for_multiline_comments_and_strings, check_vlog_arguments, check_posix_threading,
  check_invalid_increment, check_make_pair_uses_deduction,
}
use power_judge.LineChecks.NonStandard.{check_for_non_standard_constructs}
use power_judge.Functions.{FunctionState}
use power_judge.Functions.Lengths.{check_for_function_lengths}
use power_judge.Includes.{IncludeState}
use power_judge.Style.{Settings, check_style}
use power_judge.Language.{check_language}
use power_judge.References.{check_for_non_const_reference}
use power_judge.Process.{FileState, code_checks}

-- A check that returns, with a diagnostic among those that it makes.
abbrev pub Gives : {A : Type 0} → Option A → (A → List Diagnostic) → Diagnostic → Type 0
Gives {A = A} o made d = (r : A) × (o ≡ some r) × Memᴰ d (made r)

given :
    {A : Type 0} {o : Option A} {made : A → List Diagnostic} {d : Diagnostic} (r : A)
    → o ≡ some r
    → Gives o made d
    → Memᴰ d (made r)
given {made = made} {d = d} r e (q, f, m) =
    let same : q ≡ r = cc in subst (λ x. Memᴰ d (made x)) same m

pub split_off :
    {P : Type 0} {d : Diagnostic} (a : List Diagnostic) {b : List Diagnostic}
    → (Memᴰ d a → P)
    → (Memᴰ d b → P)
    → Memᴰ d (a ++ b)
    → P
split_off a f g m = elim (Memᴰ.append_cases a m) [ inl x ↦ f x | inr y ↦ g y ]

pub second : {A B : Type 0} {p q : A × B} → some p ≡ some q → p.1 ≡ q.1
second {A = A} {B = B} {p = p} {q = q} e = let same : p ≡ q = cc in ap (λ (r : A × B). r.1) same

module _ (settings : Settings) (verbosity : ℕ) (filename file_extension : Text)
    (clean_lines : CleansedLines) (line : ℕ) (st : FileState) where
  -- A diagnostic that one of the checks of the code makes, for the states behind `Update`.
  pub data OfCode (d : Diagnostic) : Type 0 where
    of_lengths :
        Gives (check_for_function_lengths verbosity clean_lines line st.functions) (λ r. r.1) d
        → OfCode d
    of_strings :
        Memᴰ d (check_for_multiline_comments_and_strings line (get_or clean_lines.elided line []))
        → OfCode d
    of_style :
        Gives
          (check_style settings filename clean_lines line file_extension st.nesting.stack)
          (λ ds. ds)
          d
        → OfCode d
    of_language :
        Gives
          (check_language settings.files filename clean_lines line file_extension st.includes)
          (λ r. r.1)
          d
        → OfCode d
    of_references :
        Gives (check_for_non_const_reference clean_lines.elided line st.nesting.stack) (λ ds. ds) d
        → OfCode d
    of_constructs :
        Memᴰ d (check_for_non_standard_constructs clean_lines line st.nesting.stack) → OfCode d
    of_vlog : Memᴰ d (check_vlog_arguments line (get_or clean_lines.elided line [])) → OfCode d
    of_threading :
        Memᴰ d (check_posix_threading line (get_or clean_lines.elided line [])) → OfCode d
    of_increment :
        Memᴰ d (check_invalid_increment line (get_or clean_lines.elided line [])) → OfCode d
    of_make_pair :
        Memᴰ d (check_make_pair_uses_deduction line (get_or clean_lines.elided line [])) → OfCode d

  module _ {lengths : FunctionState × List Diagnostic} {style : List Diagnostic}
      {language : IncludeState × List Diagnostic} {references : List Diagnostic}
      (e1 : check_for_function_lengths verbosity clean_lines line st.functions ≡ some lengths)
      (e2 : check_style settings filename clean_lines line file_extension st.nesting.stack
        ≡ some style)
      (e3 : check_language settings.files filename clean_lines line file_extension st.includes
        ≡ some language)
      (e4 : check_for_non_const_reference clean_lines.elided line st.nesting.stack
        ≡ some references) where
    joined-OfCode :
        (d : Diagnostic)
        → let elided = get_or clean_lines.elided line [] in
          let strings = check_for_multiline_comments_and_strings line elided in
          let constructs = check_for_non_standard_constructs clean_lines line st.nesting.stack in
          let vlog = check_vlog_arguments line elided in
          let threading = check_posix_threading line elided in
          let increment = check_invalid_increment line elided in
          let make_pair = check_make_pair_uses_deduction line elided in
          Memᴰ d (
            lengths.1
            ++ (strings
                ++ (style
                    ++ (language.1
                        ++ (references
                            ++ (constructs
                                ++ (vlog ++ (threading ++ (increment ++ make_pair)))))))))
          ↔ OfCode d
    joined-OfCode d =
        let elided = get_or clean_lines.elided line [] in
        let strings = check_for_multiline_comments_and_strings line elided in
        let constructs = check_for_non_standard_constructs clean_lines line st.nesting.stack in
        let vlog = check_vlog_arguments line elided in
        let threading = check_posix_threading line elided in
        let increment = check_invalid_increment line elided in
        let make_pair = check_make_pair_uses_deduction line elided in
        (
          split_off lengths.1 (λ m. of_lengths (lengths, e1, m))
              (split_off strings (λ m. of_strings m)
                (split_off style (λ m. of_style (style, e2, m))
                  (split_off language.1 (λ m. of_language (language, e3, m))
                    (split_off references (λ m. of_references (references, e4, m))
                      (split_off constructs (λ m. of_constructs m)
                        (split_off vlog (λ m. of_vlog m)
                          (split_off threading (λ m. of_threading m)
                            (split_off increment (λ m. of_increment m)
                              (λ m. of_make_pair m))))))))),
          λ o. elim o [
            | of_lengths g ↦ (Memᴰ.append_left _ (given lengths e1 g))
            | of_strings g ↦ (Memᴰ.append_right lengths.1 (Memᴰ.append_left _ g))
            | of_style g ↦
                (Memᴰ.append_right lengths.1
                  (Memᴰ.append_right strings (Memᴰ.append_left _ (given style e2 g))))
            | of_language g ↦
                (Memᴰ.append_right lengths.1 (
                  Memᴰ.append_right strings
                    (Memᴰ.append_right style (Memᴰ.append_left _ (given language e3 g)))))
            | of_references g ↦
                (Memᴰ.append_right lengths.1 (
                  Memᴰ.append_right strings (
                    Memᴰ.append_right style
                      (Memᴰ.append_right language.1 (Memᴰ.append_left _ (given references e4 g))))))
            | of_constructs g ↦
                (Memᴰ.append_right lengths.1 (
                  Memᴰ.append_right strings (
                    Memᴰ.append_right style (
                      Memᴰ.append_right language.1
                        (Memᴰ.append_right references (Memᴰ.append_left _ g))))))
            | of_vlog g ↦
                (Memᴰ.append_right lengths.1 (
                  Memᴰ.append_right strings (
                    Memᴰ.append_right style (
                      Memᴰ.append_right language.1 (
                        Memᴰ.append_right references
                          (Memᴰ.append_right constructs (Memᴰ.append_left _ g)))))))
            | of_threading g ↦
                (Memᴰ.append_right lengths.1 (
                  Memᴰ.append_right strings (
                    Memᴰ.append_right style (
                      Memᴰ.append_right language.1 (
                        Memᴰ.append_right references (
                          Memᴰ.append_right constructs
                            (Memᴰ.append_right vlog (Memᴰ.append_left _ g))))))))
            | of_increment g ↦
                (Memᴰ.append_right lengths.1 (
                  Memᴰ.append_right strings (
                    Memᴰ.append_right style (
                      Memᴰ.append_right language.1 (
                        Memᴰ.append_right references (
                          Memᴰ.append_right constructs (
                            Memᴰ.append_right vlog
                              (Memᴰ.append_right threading (Memᴰ.append_left _ g)))))))))
            | of_make_pair g ↦
                (Memᴰ.append_right lengths.1 (
                  Memᴰ.append_right strings (
                    Memᴰ.append_right style (
                      Memᴰ.append_right language.1 (
                        Memᴰ.append_right references (
                          Memᴰ.append_right constructs (
                            Memᴰ.append_right vlog
                              (Memᴰ.append_right threading (Memᴰ.append_right increment g)))))))))
          ],
        )

  pub code_checks-OfCode :
      {st' : FileState} {ds : List Diagnostic} (d : Diagnostic)
      → code_checks settings verbosity filename file_extension clean_lines line st ≡ some (st', ds)
      → Memᴰ d ds ↔ OfCode d
  unfolding code_checks
  code_checks-OfCode {ds = ds} d e =
      let (lengths, e1, r1) =
        >>=-eq-some (check_for_function_lengths verbosity clean_lines line st.functions) _ e in
      let (style, e2, r2) =
        >>=-eq-some (check_style settings filename clean_lines line file_extension st.nesting.stack)
          _ r1 in
      let (language, e3, r3) =
        >>=-eq-some
          (check_language settings.files filename clean_lines line file_extension st.includes) _
          r2 in
      let (references, e4, r4) =
        >>=-eq-some (check_for_non_const_reference clean_lines.elided line st.nesting.stack) _ r3 in
      subst (λ ds. Memᴰ d ds ↔ OfCode d) (second r4) (joined-OfCode e1 e2 e3 e4 d)
