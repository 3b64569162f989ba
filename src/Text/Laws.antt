-- ===== src/Text/Laws.antt =====
-- Laws of the text methods.

use mathlib.Core.List.{reverse-append, reverse-reverse}
use power_judge.Prelude.{
  ℕ, true, [], ◌∷◌, ◌++◌, ◌≡◌, ◌↔◌, ◌==◌, inl, inr, refl, sym, ap, ◌∙◌, arith, length, drop,
  reverse, Bool-cases,
}
use power_judge.Text.{Text, text_eq, starts_with, drop_leading, rstrip_char}

pub text_eq_iff : (s t : Text) → (text_eq s t ≡ true) ↔ (s ≡ t)
unfolding text_eq
text_eq_iff (a ∷ s) (b ∷ t) = ground (arith, text_eq_iff s t)
text_eq_iff _ _ = ground arith

pub text_eq_refl : (s : Text) → text_eq s s ≡ true
text_eq_refl s = (text_eq_iff s s).1 refl

-- What a prefix leaves.
pub starts_with-append : (p s : Text) → starts_with (p ++ s) p ≡ true
unfolding starts_with
starts_with-append [] s = refl
starts_with-append (a ∷ p) s = ground (arith, starts_with-append p s)

pub starts_with-drop : (s p : Text) → starts_with s p ≡ true → s ≡ p ++ drop (length p) s
unfolding starts_with
starts_with-drop s [] h = refl
starts_with-drop [] (a ∷ p) h = absurd (cc)
starts_with-drop (b ∷ s) (a ∷ p) h = ground (arith, starts_with-drop s p)

drop_leading-suffix : (c : ℕ) (s : Text) → (q : Text) × (s ≡ q ++ drop_leading c s)
unfolding drop_leading
drop_leading-suffix c [] = ([], refl)
drop_leading-suffix c (a ∷ s) = elim (Bool-cases (a == c)) [
  | inl t ↦ let (q, e) = drop_leading-suffix c s in (a ∷ q, rw t (ap (◌∷◌ a) e))
  | inr f ↦ ([], rw f refl)
]

-- What is left of a text is a part at its front.
pub rstrip_char-prefix : (c : ℕ) (s : Text) → (q : Text) × (s ≡ rstrip_char c s ++ q)
unfolding rstrip_char
rstrip_char-prefix c s =
    let (q, e) = drop_leading-suffix c (reverse s) in
    (
      reverse q,
      sym (reverse-reverse s) ∙ ap reverse e ∙ reverse-append q (drop_leading c (reverse s)),
    )
