-- ===== src/Lint/Filters.antt =====
-- What the filters and the suppressions let through. About `SetFilters`, `_ShouldPrintError`, `Error`.
use power_judge.Prelude.{
  Bool, true, false, some, List, [], ◌∷◌, ◌++◌, ◌≡◌, ◌↔◌, ◌⊎◌, inl, inr, refl, ap, arith, All,
  Bool-cases,
}
use power_judge.Text.{Text, codes, starts_with}
use power_judge.Lint.{has_sign}
use power_judge.Lint.Report.{applies, filter_step, run_filters}

-- Every filter begins with `+` or `-`.
abbrev pub AllSigned : List Text → Type 0
AllSigned = All (λ f. has_sign f ≡ true)

-- The last filter that speaks of the category begins with `-`.
pub record IsFilteredOut (category : Text) (filters : List Text) : Type 0 where
  pub earlier : List Text
  pub last : Text
  pub later : List Text
  pub splits : filters ≡ earlier ++ last ∷ later
  pub is_minus : starts_with last (codes "-") ≡ true
  pub speaks : applies category last ≡ true
  pub later_silent : All (λ f. applies category f ≡ false) later

abbrev pub Silent : Text → List Text → Type 0
Silent category = All (λ f. applies category f ≡ false)

-- What one round does, by the kind of filter.
filter_step_cases :
    (category f : Text) (b : Bool)
    → has_sign f ≡ true
    → ((applies category f ≡ false) × (filter_step category f b ≡ some b))
      ⊎ ((applies category f ≡ true)
          × (starts_with f (codes "-") ≡ true)
          × (filter_step category f b ≡ some true))
      ⊎ ((applies category f ≡ true)
          × (starts_with f (codes "-") ≡ false)
          × (filter_step category f b ≡ some false))
unfolding has_sign filter_step
filter_step_cases category f b h = elim (Bool-cases (applies category f)) [
  | inl a ↦ elim (Bool-cases (starts_with f (codes "-"))) [
    | inl m ↦ inr (inl (a, m, ground arith))
    | inr p ↦ inr (inr (a, p, ground arith))
  ]
  | inr a ↦ inl (a, ground arith)
]

module _ (category f : Text) (fs : List Text) where
  IsFilteredOut-cons : IsFilteredOut category fs → IsFilteredOut category (f ∷ fs)
  IsFilteredOut-cons h = record {
    earlier = f ∷ h.earlier;
    last = h.last;
    later = h.later;
    splits = ap (◌∷◌ f) h.splits;
    is_minus = h.is_minus;
    speaks = h.speaks;
    later_silent = h.later_silent;
  }

  IsFilteredOut-here :
      starts_with f (codes "-") ≡ true
      → applies category f ≡ true
      → Silent category fs
      → IsFilteredOut category (f ∷ fs)
  IsFilteredOut-here m a s = record {
    earlier = [];
    last = f;
    later = fs;
    splits = refl;
    is_minus = m;
    speaks = a;
    later_silent = s;
  }

  IsFilteredOut-uncons_split :
      (earlier : List Text) (last : Text) (later : List Text)
      → f ∷ fs ≡ earlier ++ last ∷ later
      → starts_with last (codes "-") ≡ true
      → applies category last ≡ true
      → Silent category later
      → IsFilteredOut category fs
        ⊎ ((starts_with f (codes "-") ≡ true) × (applies category f ≡ true) × Silent category fs)
  IsFilteredOut-uncons_split [] last later e m a s =
      let e1 : f ≡ last = cc in let e2 : fs ≡ later = cc in inr (rw e1 m, rw e1 a, rw e2 s)
  IsFilteredOut-uncons_split (x ∷ earlier) last later e m a s = inl (record {
    earlier = earlier;
    last = last;
    later = later;
    splits = cc;
    is_minus = m;
    speaks = a;
    later_silent = s;
  })

  IsFilteredOut-uncons :
      IsFilteredOut category (f ∷ fs)
      → IsFilteredOut category fs
        ⊎ ((starts_with f (codes "-") ≡ true) × (applies category f ≡ true) × Silent category fs)
  IsFilteredOut-uncons h =
      IsFilteredOut-uncons_split h.earlier h.last h.later h.splits h.is_minus h.speaks
        h.later_silent

not-IsFilteredOut-nil : (category : Text) → ¬ IsFilteredOut category []
not-IsFilteredOut-nil category h = go h.earlier h.splits
  where
    go : (xs : List Text) → [] ≡ xs ++ h.last ∷ h.later → ⊥
    go [] e = cc
    go (x ∷ xs) e = cc

-- The verdict of the loop from a start value.
abbrev pub Decides : Text → List Text → Bool → Bool → Type 0
Decides category fs b r =
    (r ≡ true) ↔ (IsFilteredOut category fs ⊎ ((b ≡ true) × Silent category fs))

pub run_filters-Decides :
    (category : Text) (fs : List Text) (b : Bool)
    → AllSigned fs
    → (r : Bool) × (run_filters category fs b ≡ some r) × Decides category fs b r
unfolding run_filters
run_filters-Decides category [] b h = (
  b,
  refl,
  (λ e. inr (e, tt), elim [ inl f ↦ absurd (not-IsFilteredOut-nil category f) | inr t ↦ t.0 ]),
)
run_filters-Decides category (f ∷ fs) b (h, hs) = elim (filter_step_cases category f b h) [
  | inl (silent, step) ↦
      let (r, runs, iff) = run_filters-Decides category fs b hs in
      (
        r,
        rw (step, run_filters) runs,
        (
          λ e. elim (iff.0 e) [
            | inl o ↦ inl (IsFilteredOut-cons category f fs o)
            | inr (x, y) ↦ inr (x, (silent, y))
          ],
          elim [
            | inl o ↦ elim (IsFilteredOut-uncons category f fs o) [
              | inl o' ↦ iff.1 (inl o')
              | inr (m, a, s) ↦ absurd (cc)
            ]
            | inr (x, (y, ys)) ↦ iff.1 (inr (x, ys))
          ],
        ),
      )
  | inr (inl (speaks, minus, step)) ↦
      let (r, runs, iff) = run_filters-Decides category fs true hs in
      (
        r,
        rw (step, run_filters) runs,
        (
          λ e. elim (iff.0 e) [
            | inl o ↦ inl (IsFilteredOut-cons category f fs o)
            | inr (x, y) ↦ inl (IsFilteredOut-here category f fs minus speaks y)
          ],
          elim [
            | inl o ↦ elim (IsFilteredOut-uncons category f fs o) [
              | inl o' ↦ iff.1 (inl o')
              | inr (m, a, s) ↦ iff.1 (inr (refl, s))
            ]
            | inr (x, (y, ys)) ↦ absurd (cc)
          ],
        ),
      )
  | inr (inr (speaks, plus, step)) ↦
      let (r, runs, iff) = run_filters-Decides category fs false hs in
      (
        r,
        rw (step, run_filters) runs,
        (
          λ e. elim (iff.0 e) [
            | inl o ↦ inl (IsFilteredOut-cons category f fs o)
            | inr (x, y) ↦ absurd (cc)
          ],
          elim [
            | inl o ↦ elim (IsFilteredOut-uncons category f fs o) [
              | inl o' ↦ iff.1 (inl o')
              | inr (m, a, s) ↦ absurd (cc)
            ]
            | inr (x, (y, ys)) ↦ absurd (cc)
          ],
        ),
      )
]
