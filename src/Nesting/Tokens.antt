-- ===== src/Nesting/Tokens.antt =====
-- The tokens of a line. About the loop of `_NestingState.Update` of bin/cpplint.py that takes a line
-- apart by `^[^{;)}]*([{;)}])(.*)$`.

use mathlib.Core.List.{reverse-cons, reverse-reverse}
use power_judge.Prelude.{
  ℕ, ◌-◌, ◌<◌, Bool, true, false, some, List, [], ◌∷◌, ◌++◌, String, ◌≡◌, ◌≢◌, ◌⊎◌, refl, sym, ap,
  subst, ◌∙◌, inl, inr, arith, length, length-append, take, take-append, append_assoc, append-nil,
  reverse, Bool-cases, All,
}
use power_judge.Text.{Text}
use power_judge.Regex.Syntax.{
  Item, range, chars, any_char, line_start, line_end, seq, star, group, fits,
}
use power_judge.Regex.Parse.{re}
use power_judge.Regex.Run.{Position, set_group, between, find_group, is_other}
use power_judge.Regex.Meaning.{Means, Eats, Rounds, done, more}
use power_judge.Regex.Scan.{position}

abbrev pub token_pattern : String
token_pattern = "^[^{;)}]*([{;)}])(.*)$"

abbrev pub token_items : List Item
token_items = range 125 125 ∷ range 41 41 ∷ range 59 59 ∷ range 123 123 ∷ []

abbrev pub is_token : ℕ → Bool
is_token c = fits false token_items c

pub token_regex :
    re token_pattern
    ≡ seq line_start (
        seq
          (star true (chars true token_items))
          (seq (group 1 (chars false token_items)) (seq (group 2 (star true any_char)) line_end)))
unfolding re
token_regex = refl

-- A part of the text that is eaten from one position to another.
record Eaten (test : ℕ → Bool) (s u : Position) : Type 0 where
  part : Text
  split : s.after ≡ part ++ u.after
  passed : u.before ≡ reverse part ++ s.before
  fit : All (λ c. test c ≡ true) part
  same_groups : u.groups ≡ s.groups

Rounds-Eaten : (test : ℕ → Bool) {s u : Position} → Rounds (Eats test) s u → Eaten test s u
Rounds-Eaten test done = record {
  part = [];
  split = refl;
  passed = refl;
  fit = tt;
  same_groups = refl;
}
Rounds-Eaten test (more {s = s} {t = t} (c, cs, e, fits_c, m) shorter rounds) =
    let r = Rounds-Eaten test rounds in
    record {
      part = c ∷ r.part;
      split = e ∙ ap (◌∷◌ c) (sym (ap (λ (p : Position). p.after) m) ∙ r.split);
      passed =
          r.passed
          ∙ ap (λ (p : Position). reverse r.part ++ p.before) m
          ∙ sym (
              ap (λ x. x ++ s.before) (reverse-cons c r.part)
              ∙ append_assoc (reverse r.part) (c ∷ []) s.before);
      fit = (fits_c, r.fit);
      same_groups = r.same_groups ∙ ap (λ (p : Position). p.groups) m;
    }

between-part :
    (s u : Position) (part : Text) → u.before ≡ reverse part ++ s.before → between s u ≡ part
unfolding between
between-part s u part e =
    let n = length-append (reverse part) s.before in
    let count : length u.before - length s.before ≡ length (reverse part) =
      omega (arith, n, ap length e) in
    ap reverse (
      ap (λ k. take k u.before) count
      ∙ ap (take (length (reverse part))) e
      ∙ take-append (reverse part) s.before)
    ∙ reverse-reverse part

-- Where the first token of a text stands.
pub record FirstToken (line : Text) (groups : List (ℕ × Text)) : Type 0 where
  pub pre : Text
  pub token : ℕ
  pub rest : Text
  pub parts : line ≡ pre ++ token ∷ rest
  pub no_token : All (λ c. fits true token_items c ≡ true) pre
  pub is_one : is_token token ≡ true
  pub first_group : find_group 1 groups ≡ some (token ∷ [])
  pub second_group : find_group 2 groups ≡ some rest

abbrev pub Free : Text → Type 0
Free = All (λ c. c ≢ 10)

Free-end : (a b : Text) → Free (a ++ b) → (b ≡ []) ⊎ (b ≡ 10 ∷ []) → b ≡ []
Free-end a b h (inl e) = e
Free-end [] b h (inr e) = absurd ((subst Free e h).0 refl)
Free-end (c ∷ a) b h (inr e) = Free-end a b h.1 (inr e)

pub Free-suffix : (a b : Text) → Free (a ++ b) → Free b
Free-suffix [] b h = h
Free-suffix (c ∷ a) b h = Free-suffix a b h.1

pub match-FirstToken :
    (line : Text) (t : Position)
    → Free line
    → Means
        (seq line_start (
          seq (star true (chars true token_items)) (
            seq (group 1 (chars false token_items)) (seq (group 2 (star true any_char)) line_end))))
        (position 0 line)
        t
    → FirstToken line t.groups
unfolding set_group find_group
match-FirstToken line t free
      (
        s,
        (start, at_start),
        (u, skips, (v, (w, (c, cs, e, fits_c, m), grouped), (x, (y, dots, all), (ends, final)))),
      ) =
    let skipped = Rounds-Eaten (fits true token_items) skips in
    let eaten = Rounds-Eaten (is_other 10) dots in
    let parts : line ≡ skipped.part ++ c ∷ cs =
      sym (ap (λ (p : Position). p.after) at_start)
      ∙ skipped.split
      ∙ ap (λ z. skipped.part ++ z) e in
    let groups : t.groups ≡ (2, between v y) ∷ (1, between u w) ∷ w.groups =
      ap (λ (p : Position). p.groups) final
      ∙ ap (λ (p : Position). p.groups) all
      ∙ ap (λ gs. (2, between v y) ∷ gs)
          (eaten.same_groups ∙ ap (λ (p : Position). p.groups) grouped) in
    let behind : cs ≡ eaten.part ++ y.after =
      sym (ap (λ (p : Position). p.after) m)
      ∙ sym (ap (λ (p : Position). p.after) grouped)
      ∙ eaten.split in
    let free_rest =
      subst Free behind
        (Free-suffix (c ∷ []) cs (Free-suffix skipped.part (c ∷ cs) (subst Free parts free))) in
    let over =
      Free-end eaten.part y.after free_rest
        (subst (λ z. (z ≡ []) ⊎ (z ≡ 10 ∷ [])) (ap (λ (p : Position). p.after) all) ends) in
    let whole : eaten.part ≡ cs =
      sym (append-nil eaten.part) ∙ ap (λ z. eaten.part ++ z) (sym over) ∙ sym behind in
    record {
      pre = skipped.part;
      token = c;
      rest = cs;
      parts = parts;
      no_token = skipped.fit;
      is_one = fits_c;
      first_group =
          rw groups (ap some (between-part u w (c ∷ []) (ap (λ (p : Position). p.before) m)));
      second_group = rw groups (ap some (between-part v y eaten.part eaten.passed ∙ whole));
    }

-- The loop over a class of characters can eat a part that fits.
Eats-part :
    (test : ℕ → Bool) (part : Text) (s : Position) (a : Text)
    → s.after ≡ part ++ a
    → All (λ c. test c ≡ true) part
    → (u : Position) × Rounds (Eats test) s u × (u.after ≡ a)
Eats-part test [] s a e h = (s, done, e)
Eats-part test (c ∷ part) s a e h =
    let next = record s { before = c ∷ s.before; after = part ++ a } in
    let (u, rounds, rest) = Eats-part test part next a refl h.1 in
    (
      u,
      more (c, part ++ a, e, h.0, refl)
          (subst (λ z. length (part ++ a) < length z) (sym e) (omega arith)) rounds,
      rest,
    )

other-dots : (s : Text) → Free s → All (λ c. is_other 10 c ≡ true) s
unfolding is_other
other-dots [] h = tt
other-dots (c ∷ s) h = (let apart = h.0 in ground arith, other-dots s h.1)

-- A text with a token has a match.
pub has-match :
    (line pre : Text) (c : ℕ) (rest : Text)
    → Free line
    → line ≡ pre ++ c ∷ rest
    → All (λ d. fits true token_items d ≡ true) pre
    → is_token c ≡ true
    → (t : Position) × Means
        (seq line_start (
          seq (star true (chars true token_items)) (
            seq (group 1 (chars false token_items)) (seq (group 2 (star true any_char)) line_end))))
        (position 0 line)
        t
unfolding set_group
has-match line pre c rest free e h is_one =
    let (u, skips, at_token) =
      Eats-part (fits true token_items) pre (position 0 line) (c ∷ rest) e h in
    let w = record u { before = c ∷ u.before; after = rest } in
    let v = set_group 1 u w in
    let free_rest = Free-suffix (c ∷ []) rest (Free-suffix pre (c ∷ rest) (subst Free e free)) in
    let (y, dots, ended) =
      Eats-part (is_other 10) rest v [] (sym (append-nil rest)) (other-dots rest free_rest) in
    (
      set_group 2 v y,
      (
        position 0 line,
        (refl, refl),
        (
          u,
          skips,
          (
            v,
            (w, (c, rest, at_token, is_one, refl), refl),
            (set_group 2 v y, (y, dots, refl), (inl ended, refl)),
          ),
        ),
      ),
    )

-- Where the first token of a text is, if there is one.
pub data Split (line : Text) : Type 0 where
  no_tokens : All (λ c. fits true token_items c ≡ true) line → Split line
  first_at :
      (pre : Text) (c : ℕ) (rest : Text)
      → line ≡ pre ++ c ∷ rest
      → All (λ d. fits true token_items d ≡ true) pre
      → is_token c ≡ true
      → Split line

other-fits : (c : ℕ) → is_token c ≡ false → fits true token_items c ≡ true
unfolding fits
other-fits c h = rw h refl

pub fits-other : (c : ℕ) → fits true token_items c ≡ true → is_token c ≡ false
unfolding fits
fits-other c h = ground (arith, h)

pub Split-line : (line : Text) → Split line
Split-line [] = no_tokens tt
Split-line (c ∷ s) = elim (Bool-cases (is_token c)) [
  | inl one ↦ first_at [] c s refl tt one
  | inr none_here ↦ elim (Split-line s) [
    | no_tokens h ↦ no_tokens (other-fits c none_here, h)
    | first_at pre d rest e h one ↦
        first_at (c ∷ pre) d rest (ap (◌∷◌ c) e) (other-fits c none_here, h) one
  ]
]
