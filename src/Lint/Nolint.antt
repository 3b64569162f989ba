-- ===== src/Lint/Nolint.antt =====
-- How far a NOLINT comment reaches. About `ParseNolintSuppressions` and `IsErrorSuppressedByNolint`
-- of bin/cpplint.py.
use power_judge.Prelude.{
  ℕ, ◌-◌, Bool, true, false, ◌&&◌, Option, none, some, List, [], ◌∷◌, ◌≡◌, ◌≢◌, inl, inr, refl,
  arith, if◌then◌else◌, Bool-cases, length, take, drop, All,
}
use power_judge.Text.{Text, codes, text_eq, text_in, starts_with, ends_with}
use power_judge.Regex.Scan.{Match, group?}
use power_judge.Patterns.{re_search}
use power_judge.Lint.Categories.{error_categories}
use power_judge.Lint.{
  Diagnostic, Suppressions, suppresses, nolint_category, nolint_match, parse_nolint_suppressions,
  is_error_suppressed_by_nolint,
}

-- One more entry at a line.
adds_entry :
    (key : Option Text) (linenum n : ℕ) (category : Text) (sup : Suppressions)
    → ((n ≢ linenum)
        → is_error_suppressed_by_nolint category n ((key, linenum) ∷ sup)
          ≡ is_error_suppressed_by_nolint category n sup)
      × (is_error_suppressed_by_nolint category n sup ≡ true
          → is_error_suppressed_by_nolint category n ((key, linenum) ∷ sup) ≡ true)
unfolding is_error_suppressed_by_nolint suppresses
adds_entry key linenum n category sup = (λ h. ground arith, λ h. ground arith)

-- What a NOLINT comment at a line may change: nothing at the other lines, and what is silenced stays
-- silenced.
pub record IsLocal (linenum : ℕ) (sup sup' : Suppressions) : Type 0 where
  pub others :
      (category : Text) (n : ℕ)
      → n ≢ linenum
      → is_error_suppressed_by_nolint category n sup' ≡ is_error_suppressed_by_nolint category n sup
  pub kept :
      (category : Text) (n : ℕ)
      → is_error_suppressed_by_nolint category n sup ≡ true
      → is_error_suppressed_by_nolint category n sup' ≡ true

same-IsLocal : (linenum : ℕ) (sup : Suppressions) → IsLocal linenum sup sup
same-IsLocal linenum sup = record { others = λ c n h. refl; kept = λ c n h. h }

entry-IsLocal :
    (key : Option Text) (linenum : ℕ) (sup : Suppressions)
    → IsLocal linenum sup ((key, linenum) ∷ sup)
entry-IsLocal key linenum sup = record {
  others = λ c n. (adds_entry key linenum n c sup).0;
  kept = λ c n. (adds_entry key linenum n c sup).1;
}

if-IsLocal :
    (linenum : ℕ) (sup : Suppressions) (b : Bool) (x y : Suppressions × List Diagnostic)
    → IsLocal linenum sup x.0
    → IsLocal linenum sup y.0
    → IsLocal linenum sup (if b then x else y).0
if-IsLocal linenum sup true x y h k = h
if-IsLocal linenum sup false x y h k = k

nolint_category-IsLocal :
    (linenum : ℕ) (group : Option Text) (sup : Suppressions)
    → IsLocal linenum sup (nolint_category linenum group sup).0
unfolding nolint_category
nolint_category-IsLocal linenum none sup = entry-IsLocal none linenum sup
nolint_category-IsLocal linenum (some c) sup = elim (Bool-cases (text_eq c (codes "(*)"))) [
  | inl t ↦ rw t (entry-IsLocal none linenum sup)
  | inr f ↦ elim (Bool-cases (starts_with c (codes "(") && ends_with c (codes ")"))) [
    | inl p ↦
        rw (f, p)
          (if-IsLocal linenum sup (text_in (take (length c - 2) (drop 1 c)) error_categories)
            (_, []) (sup, _) (entry-IsLocal _ linenum sup) (same-IsLocal linenum sup))
    | inr q ↦ rw (f, q) (same-IsLocal linenum sup)
  ]
]

nolint_match-IsLocal :
    (linenum : ℕ) (m : Option Match) (sup : Suppressions)
    → IsLocal linenum sup (nolint_match linenum m sup).0
unfolding nolint_match
nolint_match-IsLocal linenum none sup = same-IsLocal linenum sup
nolint_match-IsLocal linenum (some m) sup = nolint_category-IsLocal linenum (group? 1 m) sup

-- Whatever the line, `ParseNolintSuppressions` at a line number changes nothing of what is silenced
-- at the other lines, and what was silenced stays silenced.
pub parse_nolint_suppressions-IsLocal :
    (raw_line : Text) (linenum : ℕ) (sup : Suppressions)
    → IsLocal linenum sup (parse_nolint_suppressions raw_line linenum sup).0
unfolding parse_nolint_suppressions
parse_nolint_suppressions-IsLocal raw_line linenum sup =
    nolint_match-IsLocal linenum (re_search "\\bNOLINT\\b(\\([^)]*\\))?" raw_line) sup

nolint_category-category :
    (linenum : ℕ) (group : Option Text) (sup : Suppressions)
    → All (λ d. d.category ≡ codes "readability/nolint") (nolint_category linenum group sup).1
unfolding nolint_category
nolint_category-category linenum none sup = tt
nolint_category-category linenum (some c) sup = elim (Bool-cases (text_eq c (codes "(*)"))) [
  | inl t ↦ rw t tt
  | inr f ↦ elim (Bool-cases (starts_with c (codes "(") && ends_with c (codes ")"))) [
    | inl p ↦ elim (Bool-cases (text_in (take (length c - 2) (drop 1 c)) error_categories)) [
      | inl known ↦ rw (f, p, known) tt
      | inr unknown ↦ rw (f, p, unknown) (refl, tt)
    ]
    | inr q ↦ rw (f, q) tt
  ]
]

nolint_match-category :
    (linenum : ℕ) (m : Option Match) (sup : Suppressions)
    → All (λ d. d.category ≡ codes "readability/nolint") (nolint_match linenum m sup).1
unfolding nolint_match
nolint_match-category linenum none sup = tt
nolint_match-category linenum (some m) sup = nolint_category-category linenum (group? 1 m) sup

pub parse_nolint_suppressions-category :
    (raw_line : Text) (linenum : ℕ) (sup : Suppressions)
    → All
        (λ d. d.category ≡ codes "readability/nolint")
        (parse_nolint_suppressions raw_line linenum sup).1
unfolding parse_nolint_suppressions
parse_nolint_suppressions-category raw_line linenum sup =
    nolint_match-category linenum (re_search "\\bNOLINT\\b(\\([^)]*\\))?" raw_line) sup
