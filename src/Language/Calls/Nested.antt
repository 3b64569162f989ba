-- ===== src/Language/Calls/Nested.antt =====
-- Nested brackets, and how the loop of `_GetTextInside` of bin/cpplint.py runs over them.
use mathlib.Core.Option
use power_judge.Prelude.{
  ℕ, true, false, Option, none, some, List, [], ◌∷◌, ◌++◌, ◌==◌, ◌≡◌, refl, sym, ap, ◌∙◌, inl, inr,
  arith, append_assoc, Bool-cases, ==_iff,
}
use power_judge.Text.{Text}
use power_judge.Language.Calls.{
  matching_punctuation, is_closing, opened, next_punctuation, inside_from,
}

-- A text whose brackets `()`, `{}` and `[]` are closed in the order in which they are opened.
pub data Nested : Text → Type 0 where
  nil : Nested []
  plain :
      {c : ℕ} {s : Text}
      → matching_punctuation c ≡ none
      → is_closing c ≡ false
      → Nested s
      → Nested (c ∷ s)
  bracket :
      {c q : ℕ} {a b t : Text}
      → matching_punctuation c ≡ some q
      → Nested a
      → Nested b
      → t ≡ a ++ q ∷ b
      → Nested (c ∷ t)

pub opens-closes :
    (c q : ℕ) → matching_punctuation c ≡ some q → (is_closing c ≡ false) × (is_closing q ≡ true)
unfolding matching_punctuation is_closing
opens-closes c q e = elim (Bool-cases (c == 40)) [
  | inl round ↦ ground arith
  | inr not_round ↦ elim (Bool-cases (c == 123)) [
    | inl curly ↦ ground arith
    | inr not_curly ↦ elim (Bool-cases (c == 91)) [
      | inl square ↦ ground arith
      | inr not_square ↦ absurd (cc (rw (not_round, not_curly, not_square) at e))
    ]
  ]
]

map-map :
    (f g h : Text → Text) (o : Option Text)
    → ((x : Text) → f (g x) ≡ h x)
    → Option.map f (Option.map g o) ≡ Option.map h o
map-map f g h none e = refl
map-map f g h (some x) e = ap some (e x)

pub next-top : (q : ℕ) (qs : List ℕ) → next_punctuation q (q ∷ qs) ≡ some qs
unfolding next_punctuation
next-top q qs = rw (next_punctuation, (==_iff q q).1 refl) refl

pub next-plain :
    (c q : ℕ) (qs : List ℕ)
    → (c == q) ≡ false
    → matching_punctuation c ≡ none
    → is_closing c ≡ false
    → next_punctuation c (q ∷ qs) ≡ some (q ∷ qs)
unfolding next_punctuation
next-plain c q qs other none_opens none_closes =
    rw (next_punctuation, other, none_closes, opened, none_opens) refl

pub next-open :
    (c q p : ℕ) (qs : List ℕ)
    → (c == q) ≡ false
    → matching_punctuation c ≡ some p
    → next_punctuation c (q ∷ qs) ≡ some (p ∷ q ∷ qs)
unfolding next_punctuation
next-open c q p qs other opens =
    rw (next_punctuation, other, (opens-closes c p opens).0, opened, opens) refl

pub next-wrong :
    (c q : ℕ) (qs : List ℕ)
    → (c == q) ≡ false
    → is_closing c ≡ true
    → next_punctuation c (q ∷ qs) ≡ none
unfolding next_punctuation
next-wrong c q qs other closes = rw (next_punctuation, other, closes) refl

pub step :
    (c : ℕ) (stack s : List ℕ) (t : ℕ) (ts : List ℕ)
    → next_punctuation c stack ≡ some (t ∷ ts)
    → inside_from stack (c ∷ s) ≡ Option.map (◌∷◌ c) (inside_from (t ∷ ts) s)
unfolding inside_from
step c stack s t ts e = rw (inside_from, e) refl

pub step-end :
    (c : ℕ) (stack s : List ℕ)
    → next_punctuation c stack ≡ some []
    → inside_from stack (c ∷ s) ≡ some []
unfolding inside_from
step-end c stack s e = rw (inside_from, e) refl

pub step-wrong :
    (c : ℕ) (stack s : List ℕ) → next_punctuation c stack ≡ none → inside_from stack (c ∷ s) ≡ none
unfolding inside_from
step-wrong c stack s e = rw (inside_from, e) refl

map-nil : (o : Option Text) → o ≡ Option.map (λ (x : Text). [] ++ x) o
map-nil none = refl
map-nil (some x) = refl

pub map-some :
    (c : ℕ) (o : Option Text) (t : Text)
    → Option.map (◌∷◌ c) o ≡ some t
    → (u : Text) × (o ≡ some u) × (t ≡ c ∷ u)
map-some c none t e = absurd (cc)
map-some c (some u) t e = (u, refl, let same : t ≡ c ∷ u = cc in same)

apart : (c q : ℕ) → is_closing c ≡ false → is_closing q ≡ true → (c == q) ≡ false
apart c q h k = elim (Bool-cases (c == q)) [
  | inl same ↦ let e = (==_iff c q).0 same in absurd (cc)
  | inr other ↦ other
]

-- The loop runs over a nested text with the stack as it is.
pub run :
    {a : Text} (q : ℕ) (qs : List ℕ) (s : Text)
    → Nested a
    → is_closing q ≡ true
    → inside_from (q ∷ qs) (a ++ s) ≡ Option.map (λ (x : Text). a ++ x) (inside_from (q ∷ qs) s)
run q qs s nil closing = map-nil _
run q qs s (plain {c = c} {s = a} opens closes n) closing =
    step c (q ∷ qs) (a ++ s) q qs (next-plain c q qs (apart c q closes closing) opens closes)
    ∙ ap (Option.map (◌∷◌ c)) (run q qs s n closing)
    ∙ map-map (◌∷◌ c) (λ x. a ++ x) (λ x. c ∷ (a ++ x)) (inside_from (q ∷ qs) s) (λ x. refl)
run q qs s (bracket {c = c} {q = p} {a = a} {b = b} {t = t} opens m n e) closing =
    let (c_open, p_closes) = opens-closes c p opens in
    let rest = inside_from (q ∷ qs) s in
    step c (q ∷ qs) (t ++ s) p (q ∷ qs) (next-open c q p qs (apart c q c_open closing) opens)
    ∙ ap (Option.map (◌∷◌ c)) (
        ap (inside_from (p ∷ q ∷ qs)) (ap (λ x. x ++ s) e ∙ append_assoc a (p ∷ b) s)
        ∙ run p (q ∷ qs) (p ∷ (b ++ s)) m p_closes
        ∙ ap (Option.map (λ (x : Text). a ++ x)) (
            step p (p ∷ q ∷ qs) (b ++ s) q qs (next-top p (q ∷ qs))
            ∙ ap (Option.map (◌∷◌ p)) (run q qs s n closing)
            ∙ map-map (◌∷◌ p) (λ x. b ++ x) (λ x. p ∷ (b ++ x)) rest (λ x. refl))
        ∙ map-map (λ x. a ++ x) (λ x. p ∷ (b ++ x)) (λ x. t ++ x) rest
            (λ x. sym (append_assoc a (p ∷ b) x) ∙ ap (λ y. y ++ x) (sym e)))
    ∙ map-map (◌∷◌ c) (λ x. t ++ x) (λ x. c ∷ (t ++ x)) rest (λ x. refl)
