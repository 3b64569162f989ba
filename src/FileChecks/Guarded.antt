-- ===== src/FileChecks/Guarded.antt =====
-- When `CheckForHeaderGuard` of bin/cpplint.py has nothing to report.
use power_judge.Prelude.{
  ℕ, suc, true, Option, none, some, List, [], ◌∷◌, ◌++◌, ◌≡◌, ◌≢◌, ◌↔◌, inl, inr, refl, sym, ap,
  ◌∙◌, arith, if◌then◌else◌, Bool-cases,
}
use power_judge.Text.{Text, codes, text_eq, starts_with, words}
use power_judge.Text.Laws.{text_eq_iff}
use power_judge.Lint.{Suppressions}
use power_judge.FileChecks.Guard.{
  Guard, no_guard, note_directive, note_endif, find_guard, endif_text, is_text, check_endif,
  check_ifndef, missing_directive, check_guard, check_for_header_guard,
}

abbrev or_first : Option Text → Option Text → Option Text
or_first none o = o
or_first (some a) o = some a

-- The argument of a directive, if a line has it.
pub arg_of : Text → List Text → Option Text
arg_of name (w ∷ arg ∷ ws) = if text_eq w name then some arg else none
arg_of name _ = none

-- The argument of the first line with the directive.
pub first_arg : Text → List Text → Option Text
first_arg name [] = none
first_arg name (line ∷ lines) = or_first (arg_of name (words line)) (first_arg name lines)

-- The last line that begins with `#endif`.
pub last_endif : List Text → Option Text
last_endif [] = none
last_endif (line ∷ lines) =
    or_first (last_endif lines) (if starts_with line (codes "#endif") then some line else none)

note_directive-args :
    (n : ℕ) (ws : List Text) (g : Guard)
    → ((note_directive n ws g).ifndef ≡ or_first g.ifndef (arg_of (codes "#ifndef") ws))
      × ((note_directive n ws g).define ≡ or_first g.define (arg_of (codes "#define") ws))
      × ((note_directive n ws g).endif ≡ g.endif)
unfolding note_directive arg_of
note_directive-args n [] g = (ground arith, ground arith, refl)
note_directive-args n (w ∷ []) g = (ground arith, ground arith, refl)
note_directive-args n (w ∷ a ∷ ws) g = (ground arith, ground arith, ground arith)

or_first_assoc : (a b c : Option Text) → or_first (or_first a b) c ≡ or_first a (or_first b c)
or_first_assoc none b c = refl
or_first_assoc (some a) b c = refl

note_endif-parts :
    (n : ℕ) (line : Text) (g : Guard)
    → ((note_endif n line g).ifndef ≡ g.ifndef)
      × ((note_endif n line g).define ≡ g.define)
      × ((note_endif n line g).endif
          ≡ or_first (if starts_with line (codes "#endif") then some line else none) g.endif)
unfolding note_endif
note_endif-parts n line g = (ground arith, ground arith, ground arith)

pub find_guard-args :
    (n : ℕ) (lines : List Text) (g : Guard)
    → ((find_guard n lines g).ifndef ≡ or_first g.ifndef (first_arg (codes "#ifndef") lines))
      × ((find_guard n lines g).define ≡ or_first g.define (first_arg (codes "#define") lines))
      × ((find_guard n lines g).endif ≡ or_first (last_endif lines) g.endif)
unfolding find_guard first_arg last_endif
find_guard-args n [] g = (ground arith, ground arith, refl)
find_guard-args n (line ∷ lines) g =
    let g' = note_directive n (words line) g in
    let (i1, d1, e1) = note_directive-args n (words line) g in
    let (i2, d2, e2) = note_endif-parts n line g' in
    let (i3, d3, e3) = find_guard-args (suc n) lines (note_endif n line g') in
    (
      i3 ∙ rw (i2, i1) (or_first_assoc g.ifndef _ _),
      d3 ∙ rw (d2, d1) (or_first_assoc g.define _ _),
      e3 ∙ rw (e2, e1) (sym (or_first_assoc (last_endif lines) _ _)),
    )

not-append-cons {ℓ} : {A : Type ℓ} (xs : List A) (y : A) (ys : List A) → xs ++ y ∷ ys ≢ []
not-append-cons [] y ys e = cc
not-append-cons (x ∷ xs) y ys e = cc

check_ifndef-nil :
    (ifndef cppvar : Text) (lines : List Text) (g : Guard) (sup : Suppressions)
    → ((check_ifndef ifndef cppvar lines g sup).1 ≡ []) ↔ (ifndef ≡ cppvar)
unfolding check_ifndef
check_ifndef-nil ifndef cppvar lines g sup = elim (Bool-cases (text_eq ifndef cppvar)) [
  | inl t ↦ (λ e. (text_eq_iff ifndef cppvar).0 t, λ e. rw t)
  | inr f ↦ (
    λ e. absurd (not-append-cons _ _ _ (rw f at e)),
    λ e. absurd (ground (arith, text_eq_iff ifndef cppvar)),
  )
]

check_endif-nil :
    (cppvar : Text) (lines : List Text) (g : Guard) (sup : Suppressions)
    → ((check_endif cppvar lines g sup).1 ≡ []) ↔ (is_text g.endif (endif_text cppvar) ≡ true)
unfolding check_endif
check_endif-nil cppvar lines g sup = elim (Bool-cases (is_text g.endif (endif_text cppvar))) [
  | inl t ↦ (λ e. t, λ e. rw t)
  | inr f ↦ (λ e. absurd (not-append-cons _ _ _ (rw f at e)), λ e. absurd (cc))
]

pub is_text_iff : (o : Option Text) (t : Text) → (is_text o t ≡ true) ↔ (o ≡ some t)
unfolding is_text
is_text_iff none t = (λ e. absurd (cc), λ e. absurd (cc))
is_text_iff (some s) t = (λ e. ap some ((text_eq_iff s t).0 e), λ e. (text_eq_iff s t).1 (cc))

append-nil-parts {ℓ} : {A : Type ℓ} (xs ys : List A) → xs ++ ys ≡ [] → (xs ≡ []) × (ys ≡ [])
append-nil-parts [] ys e = (refl, e)
append-nil-parts (x ∷ xs) ys e = absurd (cc)

-- The guard that is complete for a variable.
abbrev IsComplete : Option Text → Option Text → Option Text → Text → Type 0
IsComplete ifndef define endif cppvar =
    (ifndef ≡ some cppvar) × (define ≡ some cppvar) × (endif ≡ some (endif_text cppvar))

check_both-nil :
    (ifndef define cppvar : Text) (lines : List Text) (g : Guard) (sup : Suppressions)
    → ((check_guard (some ifndef) (some define) cppvar lines g sup).1 ≡ [])
      ↔ IsComplete (some ifndef) (some define) g.endif cppvar
unfolding check_guard missing_directive
check_both-nil ifndef define cppvar lines g sup = elim (Bool-cases (text_eq define ifndef)) [
  | inl t ↦
      let same = (text_eq_iff define ifndef).0 t in
      (
        λ e.
            let (a, b) = append-nil-parts _ _ (rw t at e) in
            let i = (check_ifndef-nil ifndef cppvar lines g sup).0 a in
            (
              ap some i,
              ap some (same ∙ i),
              (is_text_iff g.endif (endif_text cppvar)).0 ((check_endif-nil cppvar lines g _).0 b),
            ),
        λ (i, d, e). rw t (
            rw ((check_ifndef-nil ifndef cppvar lines g sup).1 (cc)) (
              (check_endif-nil cppvar lines g _).1
                ((is_text_iff g.endif (endif_text cppvar)).1 e))),
      )
  | inr f ↦ (
    λ e. absurd (not-append-cons _ _ _ (rw f at e)),
    λ (i, d, e). absurd (ground (arith, text_eq_iff define ifndef)),
  )
]

check_guard-nil :
    (ifndef define : Option Text) (cppvar : Text) (lines : List Text) (g : Guard)
    (sup : Suppressions)
    → ((check_guard ifndef define cppvar lines g sup).1 ≡ [])
      ↔ IsComplete ifndef define g.endif cppvar
unfolding check_guard missing_directive
check_guard-nil none define cppvar lines g sup = (λ e. absurd (cc), λ (i, d, e). absurd (cc))
check_guard-nil (some i) none cppvar lines g sup = (λ e. absurd (cc), λ (a, d, e). absurd (cc))
check_guard-nil (some i) (some d) cppvar lines g sup = check_both-nil i d cppvar lines g sup

pub or_first-none : (o : Option Text) → or_first o none ≡ o
or_first-none none = refl
or_first-none (some a) = refl

-- `CheckForHeaderGuard` has nothing to report exactly if the first `#ifndef` and the first `#define`
-- of the file that have an argument name the variable, and the last line that begins with `#endif`
-- is `#endif`, two blanks, `//`, a blank and the variable.
pub check_for_header_guard-nil :
    (cppvar : Text) (lines : List Text) (sup : Suppressions)
    → ((check_for_header_guard cppvar lines sup).1 ≡ []) ↔ (
        (first_arg (codes "#ifndef") lines ≡ some cppvar)
        × (first_arg (codes "#define") lines ≡ some cppvar)
        × (last_endif lines ≡ some (codes "#endif  // " ++ cppvar)))
unfolding check_for_header_guard endif_text
check_for_header_guard-nil cppvar lines sup =
    let g = find_guard 0 lines no_guard in
    let (i, d, e) = find_guard-args 0 lines no_guard in
    let e' = e ∙ or_first-none (last_endif lines) in
    let iff = check_guard-nil g.ifndef g.define cppvar lines g sup in
    (
      λ h. let (a, b, c) = iff.0 h in (sym i ∙ a, sym d ∙ b, sym e' ∙ c),
      λ (a, b, c). iff.1 (i ∙ a, d ∙ b, e' ∙ c),
    )
