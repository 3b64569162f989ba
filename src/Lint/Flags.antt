-- ===== src/Lint/Flags.antt =====
-- Which filters a flag sets, and when it is refused. About `SetFilters`.
use power_judge.Prelude.{
  ℕ, true, Option, none, List, [], ◌∷◌, ◌++◌, ◌≡◌, ◌≢◌, ◌↔◌, ◌⊎◌, inl, inr, refl, arith, sym, ◌==◌,
  ==_iff, Bool-cases, All, is_nil,
}
use power_judge.Text.{Text, split, strip, starts_with}
use power_judge.Lint.Categories.{default_filters}
use power_judge.Lint.{Linter, has_sign, clean_filters, first_unsigned, set_filters}
use power_judge.Lint.Filters.{AllSigned}

first_unsigned_iff : (fs : List Text) → (first_unsigned fs ≡ none) ↔ AllSigned fs
unfolding first_unsigned
first_unsigned_iff [] = (λ e. tt, λ h. refl)
first_unsigned_iff (f ∷ fs) = elim (Bool-cases (has_sign f)) [
  | inl s ↦
      (λ e. (s, (first_unsigned_iff fs).0 (rw s at e)), λ h. rw s ((first_unsigned_iff fs).1 h.1))
  | inr u ↦ (λ e. absurd (cc (rw u at e)), λ h. absurd (cc (h.0)))
]

-- The parts of a flag, stripped, without the blank ones.
pub data Cleaned : List Text → List Text → Type 0 where
  no_parts : Cleaned [] []
  blank : {p : Text} {ps fs : List Text} → strip p ≡ [] → Cleaned ps fs → Cleaned (p ∷ ps) fs
  part :
      {p : Text} {ps fs : List Text}
      → strip p ≢ []
      → Cleaned ps fs
      → Cleaned (p ∷ ps) (strip p ∷ fs)

-- A text that begins with `+` or `-`.
abbrev pub Begins : Text → Type 0
Begins f = (c : ℕ) × (rest : Text) × (f ≡ c ∷ rest) × ((c ≡ 43) ⊎ (c ≡ 45))

is_nil_iff : (s : Text) → (is_nil s ≡ true) ↔ (s ≡ [])
is_nil_iff [] = (λ e. refl, λ e. refl)
is_nil_iff (c ∷ s) = (λ e. absurd (cc), λ e. absurd (cc))

clean_filters-Cleaned : (ps : List Text) → Cleaned ps (clean_filters ps)
unfolding clean_filters
clean_filters-Cleaned [] = no_parts
clean_filters-Cleaned (p ∷ ps) = elim (Bool-cases (is_nil (strip p))) [
  | inl empty ↦ rw empty (blank ((is_nil_iff (strip p)).0 empty) (clean_filters-Cleaned ps))
  | inr full ↦
      rw full (
        part (λ e. let empty = (is_nil_iff (strip p)).1 e in absurd (cc))
          (clean_filters-Cleaned ps))
]

has_sign_iff : (f : Text) → (has_sign f ≡ true) ↔ Begins f
unfolding has_sign starts_with
has_sign_iff [] = (λ e. absurd (cc), λ (c, rest, e, h). absurd (cc))
has_sign_iff (c ∷ rest) = (
  λ e. elim (Bool-cases (43 == c)) [
    | inl plus ↦ (c, rest, refl, inl (sym ((==_iff 43 c).0 plus)))
    | inr other ↦ (c, rest, refl, inr (ground arith))
  ],
  λ (d, r, e, h).
      let same : c ≡ d = cc in elim h [ inl plus ↦ ground arith | inr minus ↦ ground arith ],
)

AllSigned-Begins : (fs : List Text) → AllSigned fs ↔ All Begins fs
AllSigned-Begins [] = (λ h. tt, λ h. tt)
AllSigned-Begins (f ∷ fs) =
    let (a, b) = has_sign_iff f in
    let (g, h) = AllSigned-Begins fs in (λ s. (a s.0, g s.1), λ s. (b s.0, h s.1))

-- The state and the error that `SetFilters` makes of a flag.
pub record FiltersSet (flags : Text) (st st' : Linter) (raised : Option Text) : Type 0 where
  pub added : List Text
  pub filters : st' ≡ record st { filters = default_filters ++ added }
  pub cleaned : Cleaned (split flags b',') added
  pub signed : (raised ≡ none) ↔ All Begins added

pub set_filters-AllSigned :
    (flags : Text) (st : Linter)
    → (set_filters flags st).1 ≡ none
    → AllSigned (set_filters flags st).0.filters
unfolding set_filters
set_filters-AllSigned flags st =
    (first_unsigned_iff (default_filters ++ clean_filters (split flags b','))).0

-- `SetFilters` sets the filters to the default ones and behind them the parts of the flag between
-- commas, in their order, each stripped, without those that are blank, and changes nothing else of
-- the state; it raises no error if and only if each of these parts begins with `+` or `-`.
pub set_filters-FiltersSet :
    (flags : Text) (st : Linter)
    → FiltersSet flags st (set_filters flags st).0 (set_filters flags st).1
unfolding set_filters has_sign starts_with
set_filters-FiltersSet flags st =
    let added = clean_filters (split flags b',') in
    let (a, b) = first_unsigned_iff (default_filters ++ added) in
    let (f, g) = AllSigned-Begins added in
    record {
      added = added;
      filters = refl;
      cleaned = clean_filters-Cleaned (split flags b',');
      signed = (λ e. f (a e).1, λ h. b (refl, g h));
    }
