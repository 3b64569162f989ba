-- ===== src/Language/Calls/Inside.antt =====
-- The text between brackets, told by a grammar. About `_GetTextInside`.
use mathlib.Core.Option
use power_judge.Prelude.{
  ℕ, ◌-◌, false, some, List, [], ◌∷◌, ◌++◌, ◌==◌, ◌≡◌, ◌↔◌, refl, sym, ap, subst, append-nil, ◌∙◌,
  inl, inr, drop, get_or, append_assoc, Bool-cases, Option-cases, ==_iff,
}
use power_judge.Text.{Text}
use power_judge.Regex.Scan.{Match, match_to}
use power_judge.Language.Calls.Nested.{
  Nested, nil, plain, bracket, opens-closes, next-top, next-plain, next-open, next-wrong, step,
  step-end, step-wrong, map-some, run,
}
use power_judge.Language.Calls.{
  matching_punctuation, is_closing, inside_from, inside_punctuation, get_text_inside,
}

-- A text that closes the brackets of a stack, all but the last closing character.
data Closes : List ℕ → Text → Type 0 where
  one : {q : ℕ} {a : Text} → Nested a → Closes (q ∷ []) a
  more :
      {q r : ℕ} {qs : List ℕ} {a b t : Text}
      → Nested a
      → Closes (r ∷ qs) b
      → t ≡ a ++ q ∷ b
      → Closes (q ∷ r ∷ qs) t

grow :
    {q : ℕ} {qs : List ℕ} {t : Text} (pre : Text)
    → ((a : Text) → Nested a → Nested (pre ++ a))
    → Closes (q ∷ qs) t
    → Closes (q ∷ qs) (pre ++ t)
grow pre g (one n) = one (g _ n)
grow {q = q} pre g (more {a = a} {b = b} n k e) =
    more (g a n) k (ap (λ x. pre ++ x) e ∙ sym (append_assoc pre a (q ∷ b)))

-- An opening character takes the first bracket of the stack away.
close-top :
    {c p q : ℕ} {qs : List ℕ} {t : Text}
    → matching_punctuation c ≡ some p
    → Closes (p ∷ q ∷ qs) t
    → Closes (q ∷ qs) (c ∷ t)
close-top {c = c} {p = p} {q = q} {qs = qs} opens (more {a = a} {b = b} n k e) =
    subst (λ x. Closes (q ∷ qs) (c ∷ x)) (append_assoc a (p ∷ []) b ∙ sym e)
      (grow (c ∷ (a ++ p ∷ [])) (λ d m. bracket opens n m (append_assoc a (p ∷ []) d)) k)

abbrev last_closer : ℕ → List ℕ → ℕ
last_closer q [] = q
last_closer q (r ∷ qs) = last_closer r qs

alone : {q : ℕ} {t : Text} → Closes (q ∷ []) t → Nested t
alone (one n) = n

record Enclosed (q : ℕ) (qs : List ℕ) (s t : Text) : Type 0 where
  closes : Closes (q ∷ qs) t
  rest : Text
  parts : s ≡ t ++ last_closer q qs ∷ rest

-- The character is not the one on top.
inside_from-other :
    (c : ℕ) (s : Text) (q : ℕ) (qs : List ℕ) (t : Text)
    → (c == q) ≡ false
    → inside_from (q ∷ qs) (c ∷ s) ≡ some t
    → ((q : ℕ) (qs : List ℕ) (t : Text) → inside_from (q ∷ qs) s ≡ some t → Enclosed q qs s t)
    → Enclosed q qs (c ∷ s) t
inside_from-other c s q qs t other e rec = elim (Bool-cases (is_closing c)) [
  | inl closing ↦ absurd (cc (step-wrong c (q ∷ qs) s (next-wrong c q qs other closing)))
  | inr quiet ↦ elim (Option-cases (matching_punctuation c)) [
    | inl no_bracket ↦
        let (u, found, same) =
          map-some c (inside_from (q ∷ qs) s) t
            (sym (step c (q ∷ qs) s q qs (next-plain c q qs other no_bracket quiet)) ∙ e) in
        let i = rec q qs u found in
        subst (Enclosed q qs (c ∷ s)) (sym same) (record {
          closes = grow (c ∷ []) (λ a n. plain no_bracket quiet n) i.closes;
          rest = i.rest;
          parts = ap (◌∷◌ c) i.parts;
        })
    | inr (p, opens) ↦
        let (u, found, same) =
          map-some c (inside_from (p ∷ q ∷ qs) s) t
            (sym (step c (q ∷ qs) s p (q ∷ qs) (next-open c q p qs other opens)) ∙ e) in
        let i = rec p (q ∷ qs) u found in
        subst (Enclosed q qs (c ∷ s)) (sym same)
          (record { closes = close-top opens i.closes; rest = i.rest; parts = ap (◌∷◌ c) i.parts })
  ]
]

inside_from-top :
    (c : ℕ) (s : Text) (q : ℕ) (qs : List ℕ) (t : Text)
    → c ≡ q
    → inside_from (q ∷ qs) (c ∷ s) ≡ some t
    → ((q : ℕ) (qs : List ℕ) (t : Text) → inside_from (q ∷ qs) s ≡ some t → Enclosed q qs s t)
    → Enclosed q qs (c ∷ s) t
inside_from-top c s q [] t e h rec =
    let stops = step-end q (q ∷ []) s (next-top q []) in
    let same : t ≡ [] = cc in
    subst (Enclosed q [] (c ∷ s)) (sym same)
      (record { closes = one nil; rest = s; parts = ap (λ x. x ∷ s) e })
inside_from-top c s q (r ∷ qs) t e h rec =
    let (u, found, same) = map-some q (inside_from (r ∷ qs) s) t (
      sym (step q (q ∷ r ∷ qs) s r qs (next-top q (r ∷ qs)))
      ∙ subst (λ x. inside_from (q ∷ r ∷ qs) (x ∷ s) ≡ some t) e h) in
    let i = rec r qs u found in
    subst (Enclosed q (r ∷ qs) (c ∷ s)) (sym same) (record {
      closes = more nil i.closes refl;
      rest = i.rest;
      parts = ap (λ x. x ∷ s) e ∙ ap (◌∷◌ q) i.parts;
    })

inside_from-Enclosed :
    (s : Text) (q : ℕ) (qs : List ℕ) (t : Text)
    → inside_from (q ∷ qs) s ≡ some t
    → Enclosed q qs s t
unfolding inside_from
inside_from-Enclosed [] q qs t e = absurd (cc)
inside_from-Enclosed (c ∷ s) q qs t e = elim (Bool-cases (c == q)) [
  | inl same ↦ inside_from-top c s q qs t ((==_iff c q).0 same) e (inside_from-Enclosed s)
  | inr other ↦ inside_from-other c s q qs t other e (inside_from-Enclosed s)
]

only : {q : ℕ} {s t : Text} → Enclosed q [] s t → Nested t × ((rest : Text) × (s ≡ t ++ q ∷ rest))
only i = (alone i.closes, (i.rest, i.parts))

-- Where the start pattern ends with an opening bracket, `_GetTextInside` gives a text if and only if
-- the brackets in it are closed in the order in which they are opened and the rest of the line behind
-- the start is this text, the matching closing bracket, and whatever follows.
pub get_text_inside-Nested :
    (text : Text) (m : Match) (q : ℕ) (t : Text)
    → matching_punctuation (get_or text (match_to m - 1) 0) ≡ some q
    → (get_text_inside text m ≡ some t)
      ↔ (Nested t × ((rest : Text) × (drop (match_to m) text ≡ t ++ q ∷ rest)))
unfolding get_text_inside inside_punctuation
get_text_inside-Nested text m q t opens = rw opens (
    (
      λ e. only (inside_from-Enclosed (drop (match_to m) text) q [] t e),
      λ (n, (rest, e)).
          ap (inside_from (q ∷ [])) e
          ∙ run q [] (q ∷ rest) n (opens-closes (get_or text (match_to m - 1) 0) q opens).1
          ∙ ap (Option.map (λ (x : Text). t ++ x)) (step-end q (q ∷ []) rest (next-top q []))
          ∙ ap some (append-nil t),
    ))
