-- ===== src/Style/Widths.antt =====
-- When a line is too long. About `GetLineWidth` and `CheckStyle`.
use power_judge.Prelude.{
  ℕ, ◌*◌, ◌≤◌, Bool, true, false, some, List, ◌++◌, append_assoc, get_or, flatten, if◌then◌else◌,
  [], ◌∷◌, ◌≡◌, ◌↔◌, inl, inr, refl, sym, ap, arith, length, ltb, Bool-cases, All,
}
use power_judge.Prelude.Maybe.{>>=-eq-some, >>=-some}
use power_judge.Text.{Text, codes, has}
use power_judge.Lint.{Diagnostic}
use power_judge.Cleanse.{CleansedLines}
use power_judge.Nesting.{Block, innermost_class}
use power_judge.FileChecks.{report_if}
use power_judge.LineChecks.{check_alt_tokens}
use power_judge.Blocks.{check_empty_block_body, check_access}
use power_judge.Spacing.{check_spacing}
use power_judge.Braces.{previous_line, check_braces}
use power_judge.CheckMacros.{check_check}
use power_judge.Style.{
  UnicodeData, Settings, width_of, get_line_width, length_errors, extended_length, may_be_long,
  is_header_guard, check_style, indent_errors, has_commands, section_errors,
}

width-bound : (u : UnicodeData) (s : Text) → width_of u s ≤ 2 * length s
unfolding width_of
width-bound u [] = omega arith
width-bound u (c ∷ s) = ground (arith, width-bound u s)

-- Neither wide nor combining.
abbrev pub IsPlain : UnicodeData → Text → Type 0
IsPlain u = All (λ c. (u.is_wide c ≡ false) × (u.is_combining c ≡ false))

width-plain : (u : UnicodeData) (s : Text) → IsPlain u s → width_of u s ≡ length s
unfolding width_of
width-plain u [] h = refl
width-plain u (c ∷ s) h = rw (h.0.0, h.0.1, width-plain u s h.1) (omega arith)

length_errors_iff : (linenum limit w : ℕ) → (length_errors linenum limit w ≡ []) ↔ (w ≤ limit)
unfolding length_errors
length_errors_iff linenum limit w = elim (Bool-cases (ltb (extended_length limit) w)) [
  | inl far ↦ (λ e. absurd (cc (rw far at e)), λ h. absurd (ground arith))
  | inr near ↦ elim (Bool-cases (ltb limit w)) [
    | inl long ↦ (λ e. absurd (cc (rw (near, long) at e)), λ h. absurd (ground arith))
    | inr short ↦ (λ e. ground arith, λ h. rw (near, short) refl)
  ]
]

-- The errors about the length at a line length.
abbrev length_of : Bool → ℕ → ℕ → ℕ → List Diagnostic
length_of exempt linenum w limit = if exempt then [] else length_errors linenum limit w

length_of-nil :
    (exempt : Bool) (linenum limit w : ℕ)
    → length_errors linenum limit w ≡ []
    → length_of exempt linenum w limit ≡ []
length_of-nil true linenum limit w h = refl
length_of-nil false linenum limit w h = h

-- What `CheckStyle` says of a line at each line length: first and last what does not depend on it,
-- and between them what is said of the length.
pub record LengthChecked (settings : Settings) (filename : Text) (clean_lines : CleansedLines)
    (linenum : ℕ) (file_extension : Text) (stack : List Block) (line : Text) : Type 0 where
  pub before : List Diagnostic
  pub errors : ℕ → List Diagnostic
  pub after : List Diagnostic
  pub made :
      (limit : ℕ)
      → check_style
          (record settings { line_length = limit })
          filename
          clean_lines
          linenum
          file_extension
          stack
        ≡ some (before ++ (errors limit ++ after))
  pub is_guard : Bool
  pub guard : is_header_guard settings filename file_extension line ≡ some is_guard
  pub exempt : (limit : ℕ) → may_be_long line is_guard ≡ true → errors limit ≡ []
  pub short : (limit : ℕ) → 2 * length (settings.unicode.normalize line) ≤ limit → errors limit ≡ []
  pub plain :
      (limit : ℕ)
      → may_be_long line is_guard ≡ false
      → IsPlain settings.unicode (settings.unicode.normalize line)
      → (errors limit ≡ []) ↔ (length (settings.unicode.normalize line) ≤ limit)

-- If `CheckStyle` returns for a line, it returns at every line length, and all that it says but the
-- errors about the length does not depend on the line length. There is no error about the length of
-- a line that begins with `#include`, is of the header guard of the file, or is a comment with a URL
-- or an `$Id`; nor if the normal form of the line has at most half as many characters as the line
-- length. On any other line whose normal form has no wide and no combining characters there is one
-- if and only if these characters are more than the line length.
pub check_style-LengthChecked :
    (settings : Settings) (filename : Text) (clean_lines : CleansedLines) (linenum : ℕ)
    (file_extension : Text) (stack : List Block) {ds : List Diagnostic}
    → check_style settings filename clean_lines linenum file_extension stack ≡ some ds
    → LengthChecked settings filename clean_lines linenum file_extension stack
        (get_or clean_lines.lines_without_raw_strings linenum [])
unfolding check_style get_line_width
check_style-LengthChecked settings filename clean_lines linenum file_extension stack e =
    let line = get_or clean_lines.lines_without_raw_strings linenum [] in
    let elided = clean_lines.elided in
    let u = settings.unicode in
    let w = width_of u (u.normalize line) in
    let (is_guard, guarded, r1) =
      >>=-eq-some (is_header_guard settings filename file_extension line) _ e in
    let (braces, e2, r2) = >>=-eq-some (check_braces elided linenum) _ r1 in
    let (bodies, e3, r3) = >>=-eq-some (check_empty_block_body elided linenum) _ r2 in
    let (spacing, e4, r4) = >>=-eq-some (check_spacing clean_lines linenum stack) _ r3 in
    let (checks, e5, r5) = >>=-eq-some (check_check elided linenum) _ r4 in
    let tabs =
      report_if (has line (codes "\t")) linenum "whitespace/tab" 1
        "Tab found; better to use spaces" in
    let indent = indent_errors linenum line (get_or elided linenum []) in
    let cleansed_line = get_or elided linenum [] in
    record {
      before = tabs ++ indent;
      errors = length_of (may_be_long line is_guard) linenum w;
      after = flatten (
          report_if (has_commands cleansed_line (previous_line elided linenum)) linenum
            "whitespace/newline" 0 "More than one command on the same line"
          ∷ braces
          ∷ bodies
          ∷ check_access linenum cleansed_line stack
          ∷ spacing
          ∷ checks
          ∷ check_alt_tokens linenum cleansed_line
          ∷ section_errors clean_lines linenum (innermost_class stack)
          ∷ []);
      made = λ limit. >>=-some _ guarded (
          >>=-some _ e2 (
            >>=-some _ e3
              (>>=-some _ e4 (>>=-some _ e5 (ap some (sym (append_assoc tabs indent _)))))));
      is_guard = is_guard;
      guard = guarded;
      exempt = λ limit long. rw long refl;
      short = λ limit h. length_of-nil (may_be_long line is_guard) linenum limit w (
          (length_errors_iff linenum limit w).1
            (omega (arith, h, width-bound u (u.normalize line))));
      plain = λ limit long h.
          rw (long, ← width-plain u (u.normalize line) h) (length_errors_iff linenum limit w);
    }
