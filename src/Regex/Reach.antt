-- ===== src/Regex/Reach.antt =====
-- What a way that a pattern allows passes over: the text between its two positions.
use power_judge.Prelude.{
  true, false, [], ◌∷◌, ◌++◌, ◌≡◌, refl, sym, ap, ◌∙◌, inl, inr, append_assoc,
}
use power_judge.Text.{Text}
use power_judge.Regex.Syntax.{
  Regex, chars, any_char, line_start, line_end, boundary, empty, broken, seq, alt, star, group,
  look, back,
}
use power_judge.Regex.Run.{Position, set_group}
use power_judge.Regex.Meaning.{Means, Rounds, done, more}

abbrev pub Passes : Position → Position → Type 0
Passes s t = (part : Text) × (s.after ≡ part ++ t.after)

pub then-Passes : (s u t : Position) → Passes s u → Passes u t → Passes s t
then-Passes s u t (a, e) (b, f) = (a ++ b, e ∙ ap (λ x. a ++ x) f ∙ sym (append_assoc a b t.after))

same_place : (s t : Position) → t ≡ s → Passes s t
same_place s t e = ([], sym (ap (λ (p : Position). p.after) e))

Rounds-Passes :
    (R : Position → Position → Type 0)
    → ((s t : Position) → R s t → Passes s t)
    → (s t : Position) → Rounds R s t
    → Passes s t
Rounds-Passes R h s t done = ([], refl)
Rounds-Passes R h s t (more {u = u} m shorter rounds) =
    then-Passes s u t (h s u m) (Rounds-Passes R h u t rounds)

pub Means-Passes : (r : Regex) (s t : Position) → Means r s t → Passes s t
unfolding set_group
Means-Passes (chars negated items) s t (c, cs, e, h, m) =
    (c ∷ [], e ∙ ap (◌∷◌ c) (sym (ap (λ (p : Position). p.after) m)))
Means-Passes any_char s t (c, cs, e, h, m) =
    (c ∷ [], e ∙ ap (◌∷◌ c) (sym (ap (λ (p : Position). p.after) m)))
Means-Passes line_start s t (h, e) = same_place s t e
Means-Passes line_end s t (h, e) = same_place s t e
Means-Passes boundary s t (h, e) = same_place s t e
Means-Passes empty s t e = same_place s t e
Means-Passes broken s t m = absurd m
Means-Passes (seq r q) s t (u, m, n) =
    then-Passes s u t (Means-Passes r s u m) (Means-Passes q u t n)
Means-Passes (alt r q) s t (inl m) = Means-Passes r s t m
Means-Passes (alt r q) s t (inr m) = Means-Passes q s t m
Means-Passes (star greedy r) s t m = Rounds-Passes (Means r) (Means-Passes r) s t m
Means-Passes (group n r) s t (u, m, e) =
    let (a, f) = Means-Passes r s u m in
    (a, f ∙ ap (λ x. a ++ x) (sym (ap (λ (p : Position). p.after) e)))
Means-Passes (back n) s t (g, found, (rest, e, m)) =
    (g, e ∙ ap (λ x. g ++ x) (sym (ap (λ (p : Position). p.after) m)))
Means-Passes (look true r) s t (h, e) = same_place s t e
Means-Passes (look false r) s t (h, e) = same_place s t e
