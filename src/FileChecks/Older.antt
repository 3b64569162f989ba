-- ===== src/FileChecks/Older.antt =====
-- The older form of a header guard, with one more underscore. About `CheckForHeaderGuard`.
use power_judge.Prelude.{
  ℕ, Bool, true, false, All, ◌⊎◌, Option, none, some, List, [], ◌∷◌, ◌++◌, ◌≡◌, ◌≢◌, ◌↔◌, inl, inr,
  refl, sym, ap, subst, ◌∙◌, arith, Bool-cases, get_or,
}
use power_judge.Text.{Text, codes, text_eq}
use power_judge.Text.Laws.{text_eq_iff}
use power_judge.Lint.{Diagnostic, Suppressions, parse_nolint_suppressions}
use power_judge.Lint.Nolint.{parse_nolint_suppressions-category}
use power_judge.FileChecks.Guard.{
  Guard, no_guard, find_guard, endif_text, is_text, check_endif, check_ifndef, missing_directive,
  check_guard, check_for_header_guard, guard_error, level_for,
}
use power_judge.FileChecks.Guarded.{
  first_arg, last_endif, is_text_iff, find_guard-args, or_first-none, check_for_header_guard-nil,
}

-- No error about the guard of a level above 0.
abbrev pub Quiet : List Diagnostic → Type 0
Quiet = All (λ d. d.category ≡ codes "build/header_guard" → d.confidence ≡ 0)

Quiet-parts : (a b : List Diagnostic) → Quiet (a ++ b) ↔ (Quiet a × Quiet b)
Quiet-parts [] b = (λ h. (tt, h), λ h. h.1)
Quiet-parts (d ∷ a) b =
    let (f, g) = Quiet-parts a b in
    (λ h. let (x, y) = f h.1 in ((h.0, x), y), λ h. (h.0.0, g (h.0.1, h.1)))

nolint-Quiet :
    (ds : List Diagnostic) → All (λ d. d.category ≡ codes "readability/nolint") ds → Quiet ds
nolint-Quiet [] h = tt
nolint-Quiet (d ∷ ds) h = (λ e. absurd (other (sym h.0 ∙ e)), nolint-Quiet ds h.1)
  where
    other : codes "readability/nolint" ≢ codes "build/header_guard"
    other e = let heads : 114 ≡ 98 = ap (λ (t : Text). get_or t 0 0) e in omega (arith, heads)

-- The name in its present or its older form.
abbrev pub EitherForm : Text → Text → Type 0
EitherForm cppvar name = (name ≡ cppvar) ⊎ (name ≡ cppvar ++ codes "_")

guard_error-Quiet :
    (linenum : ℕ) (b : Bool) (message : Text)
    → Quiet (guard_error linenum (level_for b) message ∷ []) ↔ (b ≡ true)
unfolding guard_error level_for
guard_error-Quiet linenum true message = (λ h. refl, λ e. (λ c. refl, tt))
guard_error-Quiet linenum false message = (λ h. absurd (omega (arith, h.0 refl)), λ e. absurd (cc))

noted-Quiet :
    (raw_line : Text) (linenum : ℕ) (sup : Suppressions) (b : Bool) (message : Text)
    → Quiet (
        (parse_nolint_suppressions raw_line linenum sup).1
        ++ guard_error linenum (level_for b) message ∷ [])
      ↔ (b ≡ true)
noted-Quiet raw_line linenum sup b message =
    let (f, g) =
      Quiet-parts (parse_nolint_suppressions raw_line linenum sup).1
        (guard_error linenum (level_for b) message ∷ []) in
    let (h, k) = guard_error-Quiet linenum b message in
    (
      λ q. h (f q).1,
      λ e. g (nolint-Quiet _ (parse_nolint_suppressions-category raw_line linenum sup), k e),
    )

check_ifndef-Quiet :
    (ifndef cppvar : Text) (lines : List Text) (g : Guard) (sup : Suppressions)
    → Quiet (check_ifndef ifndef cppvar lines g sup).1 ↔ EitherForm cppvar ifndef
unfolding check_ifndef
check_ifndef-Quiet ifndef cppvar lines g sup =
    let older = text_eq ifndef (cppvar ++ codes "_") in
    let (a, b) = text_eq_iff ifndef cppvar in
    let (c, d) = text_eq_iff ifndef (cppvar ++ codes "_") in
    let (f, k) =
      noted-Quiet (get_or lines g.ifndef_linenum []) g.ifndef_linenum sup older
        (codes "#ifndef header guard has wrong style, please use: " ++ cppvar) in
    elim (Bool-cases (text_eq ifndef cppvar)) [
      | inl same ↦ (λ q. inl (a same), λ e. rw same tt)
      | inr other ↦ (
        λ q. inr (c (f (rw other at q))),
        λ e. rw other (elim e [ inl x ↦ absurd (let y = b x in cc) | inr x ↦ k (d x) ]),
      )
    ]

-- The line of the `#endif`, for either form.
abbrev pub EndsEither : Text → Option Text → Type 0
EndsEither cppvar o =
    (name : Text) × EitherForm cppvar name × (o ≡ some (codes "#endif  // " ++ name))

check_endif-Quiet :
    (cppvar : Text) (lines : List Text) (g : Guard) (sup : Suppressions)
    → Quiet (check_endif cppvar lines g sup).1 ↔ EndsEither cppvar g.endif
unfolding check_endif endif_text
check_endif-Quiet cppvar lines g sup =
    let older = is_text g.endif (endif_text (cppvar ++ codes "_")) in
    let (a, b) = is_text_iff g.endif (endif_text cppvar) in
    let (c, d) = is_text_iff g.endif (endif_text (cppvar ++ codes "_")) in
    let (f, k) =
      noted-Quiet (get_or lines g.endif_linenum []) g.endif_linenum sup older
        (codes "#endif line should be \"" ++ (endif_text cppvar ++ codes "\"")) in
    elim (Bool-cases (is_text g.endif (endif_text cppvar))) [
      | inl same ↦ (λ q. (cppvar, inl refl, a same), λ e. rw same tt)
      | inr other ↦ (
        λ q. (cppvar ++ codes "_", inr refl, c (f (rw other at q))),
        λ (name, form, e). rw other (elim form [
          | inl x ↦ absurd (let y = b (e ∙ ap (λ n. some (codes "#endif  // " ++ n)) x) in cc)
          | inr x ↦ k (d (e ∙ ap (λ n. some (codes "#endif  // " ++ n)) x))
        ]),
      )
    ]

-- The part behind the loop: both directives name the variable, in one of its forms, and so does the
-- line of the `#endif`.
GuardsEither : Option Text → Option Text → Option Text → Text → Type 0
GuardsEither ifndef define endif cppvar =
    (name : Text) × EitherForm cppvar name
    × (ifndef ≡ some name)
    × (define ≡ some name)
    × EndsEither cppvar endif

missing-Quiet :
    (what cppvar : Text) (a : List Diagnostic) → ¬ Quiet (a ++ missing_directive what cppvar)
unfolding missing_directive guard_error
missing-Quiet what cppvar a q =
    let (h, t) = (Quiet-parts a (guard_error 0 5 _ ∷ [])).0 q in
    let zero_level : 5 ≡ 0 = t.0 refl in omega (arith, zero_level)

check_guard-Quiet :
    (ifndef define : Option Text) (cppvar : Text) (lines : List Text) (g : Guard)
    (sup : Suppressions)
    → Quiet (check_guard ifndef define cppvar lines g sup).1
      ↔ GuardsEither ifndef define g.endif cppvar
unfolding check_guard GuardsEither
check_guard-Quiet none define cppvar lines g sup =
    (λ q. absurd (missing-Quiet _ cppvar [] q), λ (name, form, e, d, h). absurd (cc))
check_guard-Quiet (some i) none cppvar lines g sup =
    (λ q. absurd (missing-Quiet _ cppvar [] q), λ (name, form, e, d, h). absurd (cc))
check_guard-Quiet (some i) (some d) cppvar lines g sup =
    let (a, b) = check_ifndef-Quiet i cppvar lines g sup in
    let first = check_ifndef i cppvar lines g sup in
    let (c, k) = check_endif-Quiet cppvar lines g first.0 in
    let (f, h) = Quiet-parts first.1 (check_endif cppvar lines g first.0).1 in
    let (x, y) = text_eq_iff d i in
    elim (Bool-cases (text_eq d i)) [
      | inl same ↦ (
        λ q. let (u, v) = f (rw same at q) in (i, a u, refl, ap some (x same), c v),
        λ (name, form, e, n, ends). rw same (
            let there : i ≡ name = cc in
            h (b (subst (EitherForm cppvar) (sym there) form), k ends)),
      )
      | inr other ↦ (
        λ q. absurd (missing-Quiet _ cppvar first.1 (rw other at q)),
        λ (name, form, e, n, ends). absurd (let z = y (cc) in cc),
      )
    ]

-- When the guard of a file is silent, and when it has no error above level 0.
pub record Guarded (cppvar : Text) (lines : List Text) (ds : List Diagnostic) : Type 0 where
  pub silent : (ds ≡ []) ↔ (
      (first_arg (codes "#ifndef") lines ≡ some cppvar)
      × (first_arg (codes "#define") lines ≡ some cppvar)
      × (last_endif lines ≡ some (codes "#endif  // " ++ cppvar)))
  pub quiet : Quiet ds ↔ (
      (name : Text) × EitherForm cppvar name
      × (first_arg (codes "#ifndef") lines ≡ some name)
      × (first_arg (codes "#define") lines ≡ some name)
      × EndsEither cppvar (last_endif lines))

-- `CheckForHeaderGuard` calls `error` not at all if and only if the first `#ifndef` and the first
-- `#define` of the file that have an argument name the variable, and the last line that begins with
-- `#endif` is `#endif`, two blanks, `//`, a blank and the variable. It reports nothing about the guard
-- above level 0 if and only if that `#ifndef` and that `#define` have the same name, which is the
-- variable or the variable and an underscore, and that `#endif` line is the one for the variable or
-- the one for the variable and an underscore.
pub check_for_header_guard-Guarded :
    (cppvar : Text) (lines : List Text) (sup : Suppressions)
    → Guarded cppvar lines (check_for_header_guard cppvar lines sup).1
unfolding check_for_header_guard GuardsEither
check_for_header_guard-Guarded cppvar lines sup =
    let g = find_guard 0 lines no_guard in
    let (i, d, e) = find_guard-args 0 lines no_guard in
    let ends = e ∙ or_first-none (last_endif lines) in
    let (a, b) = check_guard-Quiet g.ifndef g.define cppvar lines g sup in
    record {
      silent = check_for_header_guard-nil cppvar lines sup;
      quiet = (
        λ q.
            let (name, form, x, y, (n, f, z)) = a q in
            (name, form, sym i ∙ x, sym d ∙ y, (n, f, sym ends ∙ z)),
        λ (name, form, x, y, (n, f, z)). b (name, form, i ∙ x, d ∙ y, (n, f, ends ∙ z)),
      );
    }
