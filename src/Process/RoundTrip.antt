-- ===== src/Process/RoundTrip.antt =====
-- The lines that `ProcessFile` hands on, and the text that they come from.
use mathlib.Core.List.{reverse-cons, reverse-append, reverse-reverse}
use power_judge.Prelude.{
  ℕ, zero, suc, false, ◌++◌, ◌↔◌, sym, append-nil, List, [], ◌∷◌, map, reverse, ◌≡◌, ◌≢◌, refl, ap,
  ap₂, length, ◌+◌, ◌∙◌, arith, any, All, inl, inr, Bool-cases, ==_iff, ◌==◌,
}
use power_judge.Text.{
  Text, codes, split, add_to_first, join, ends_with, starts_with, drop_leading, rstrip_char,
}
use power_judge.Process.Files.{without_return}

-- Free of a character.
abbrev pub Free : ℕ → Text → Type 0
Free c = All (λ d. d ≢ c)

join-add_to_first :
    (c sep : ℕ) (ls : List Text) → join (sep ∷ []) (add_to_first c ls) ≡ c ∷ join (sep ∷ []) ls
unfolding join add_to_first
join-add_to_first c sep [] = refl
join-add_to_first c sep (l ∷ []) = refl
join-add_to_first c sep (l ∷ k ∷ ls) = refl

join-nil :
    (sep : ℕ) (ls : List Text) → ls ≢ [] → join (sep ∷ []) ([] ∷ ls) ≡ sep ∷ join (sep ∷ []) ls
unfolding join
join-nil sep [] h = absurd (h refl)
join-nil sep (l ∷ ls) h = refl

add_to_first-some : (c : ℕ) (ls : List Text) → add_to_first c ls ≢ []
unfolding add_to_first
add_to_first-some c [] e = absurd (cc)
add_to_first-some c (l ∷ ls) e = absurd (cc)

split-some : (s : Text) (sep : ℕ) → split s sep ≢ []
unfolding split
split-some [] sep e = absurd (cc)
split-some (c ∷ s) sep e = elim (Bool-cases (c == sep)) [
  | inl here ↦ absurd (cc (rw here at e))
  | inr there ↦ add_to_first-some c (split s sep) (rw there at e)
]

join-split : (s : Text) (sep : ℕ) → join (sep ∷ []) (split s sep) ≡ s
unfolding split join
join-split [] sep = refl
join-split (c ∷ s) sep = elim (Bool-cases (c == sep)) [
  | inl here ↦ rw here (
      join-nil sep (split s sep) (split-some s sep)
      ∙ (rw (join-split s sep, (==_iff c sep).0 here) refl))
  | inr there ↦ rw there (join-add_to_first c sep (split s sep) ∙ ap (◌∷◌ c) (join-split s sep))
]

All-add_to_first :
    (c : ℕ) (P : ℕ → Type 0) (ls : List Text)
    → P c
    → All (All P) ls
    → All (All P) (add_to_first c ls)
unfolding add_to_first
All-add_to_first c P [] p h = ((p, tt), tt)
All-add_to_first c P (l ∷ ls) p h = ((p, h.0), h.1)

split-Free : (s : Text) (sep : ℕ) → All (Free sep) (split s sep)
unfolding split
split-Free [] sep = (tt, tt)
split-Free (c ∷ s) sep = elim (Bool-cases (c == sep)) [
  | inl here ↦ rw here (tt, split-Free s sep)
  | inr there ↦
      rw there
        (All-add_to_first c (λ d. d ≢ sep) (split s sep) (λ e. ground arith) (split-Free s sep))
]

-- So many copies of a character.
abbrev pub copies : ℕ → ℕ → Text
copies zero c = []
copies (suc k) c = c ∷ copies k c

copies-snoc : (k c : ℕ) → copies k c ++ c ∷ [] ≡ c ∷ copies k c
copies-snoc zero c = refl
copies-snoc (suc k) c = ap (◌∷◌ c) (copies-snoc k c)

reverse-copies : (k c : ℕ) → reverse (copies k c) ≡ copies k c
reverse-copies zero c = refl
reverse-copies (suc k) c = reverse-cons c (copies k c) ∙ rw (reverse-copies k c) (copies-snoc k c)

-- A text as copies of a character and what is left of it without them.
record Led (c : ℕ) (s : Text) : Type 0 where
  number : ℕ
  whole : s ≡ copies number c ++ drop_leading c s
  left : starts_with (drop_leading c s) (c ∷ []) ≡ false

drop_leading-Led : (c : ℕ) (s : Text) → Led c s
unfolding drop_leading starts_with
drop_leading-Led c [] = record { number = 0; whole = refl; left = refl }
drop_leading-Led c (a ∷ s) = elim (Bool-cases (a == c)) [
  | inl here ↦
      let l = drop_leading-Led c s in
      record {
        number = suc l.number;
        whole = rw here (rw ((==_iff a c).0 here) (ap (◌∷◌ c) l.whole));
        left = rw here l.left;
      }
  | inr there ↦ record { number = 0; whole = rw there refl; left = rw there (ground arith) }
]

-- A line as what `ProcessFile` hands on of it and so many carriage returns.
record Stripped (l : Text) : Type 0 where
  number : ℕ
  whole : without_return l ++ copies number 13 ≡ l
  left : ends_with (without_return l) (codes "\r") ≡ false
  found : (ends_with l (codes "\r") ≡ false) ↔ (number ≡ 0)

without_return-Stripped : (l : Text) → Stripped l
unfolding without_return ends_with rstrip_char
without_return-Stripped l = elim (Bool-cases (starts_with (reverse l) (codes "\r"))) [
  | inl ends ↦
      let r = drop_leading-Led 13 (reverse l) in
      record {
        number = r.number;
        whole = rw ends (
            rw (← reverse-copies r.number 13) (
              sym (reverse-append (copies r.number 13) (drop_leading 13 (reverse l)))
              ∙ sym (ap reverse r.whole)
              ∙ reverse-reverse l));
        left = rw ends (rw (reverse-reverse (drop_leading 13 (reverse l))) r.left);
        found = (
          λ e. absurd (cc),
          λ none_there.
              let same : reverse l ≡ drop_leading 13 (reverse l) =
                r.whole ∙ ap (λ k. copies k 13 ++ drop_leading 13 (reverse l)) none_there in
              let stays : starts_with (reverse l) (codes "\r") ≡ false =
                ap (λ s. starts_with s (codes "\r")) same ∙ r.left in
              absurd (cc),
        );
      }
  | inr clean ↦ record {
    number = 0;
    whole = rw clean (append-nil l);
    left = rw clean clean;
    found = (λ e. refl, λ e. clean);
  }
]

abbrev pub sum : List ℕ → ℕ
sum [] = 0
sum (k ∷ ks) = k + sum ks

-- The lines with their carriage returns again.
abbrev pub restore : List Text → List ℕ → List Text
restore [] ks = []
restore (l ∷ ls) [] = l ∷ ls
restore (l ∷ ls) (k ∷ ks) = (l ++ copies k 13) ∷ restore ls ks

-- What `ProcessFile` makes of lines.
record Handed (lines : List Text) : Type 0 where
  returns : List ℕ
  restored : restore (map without_return lines) returns ≡ lines
  same_length : length returns ≡ length lines
  no_return : All (λ l. ends_with l (codes "\r") ≡ false) (map without_return lines)
  found : (any (λ (l : Text). ends_with l (codes "\r")) lines ≡ false) ↔ (sum returns ≡ 0)

handed : (lines : List Text) → Handed lines
handed [] = record {
  returns = [];
  restored = refl;
  same_length = refl;
  no_return = tt;
  found = (λ e. refl, λ e. refl);
}
handed (l ∷ ls) =
    let p = without_return-Stripped l in
    let q = handed ls in
    record {
      returns = p.number ∷ q.returns;
      restored = ap₂ ◌∷◌ p.whole q.restored;
      same_length = ap suc q.same_length;
      no_return = (p.left, q.no_return);
      found = elim (Bool-cases (ends_with l (codes "\r"))) [
        | inl here ↦ (
          λ e. absurd (cc (rw here at e)),
          λ e. absurd (let k : p.number ≡ 0 = omega (arith, e) in cc (p.found.1 k)),
        )
        | inr clean ↦
            let k = p.found.0 clean in
            (
              λ e. omega (arith, k, q.found.0 (rw clean at e)),
              λ e. rw clean (q.found.1 (omega (arith, e, k))),
            )
      ];
    }

All-front : (P : ℕ → Type 0) (a b : Text) → All P (a ++ b) → All P a
All-front P [] b h = tt
All-front P (c ∷ a) b h = (h.0, All-front P a b h.1)

without_return-Free : (ls : List Text) → All (Free 10) ls → All (Free 10) (map without_return ls)
without_return-Free [] h = tt
without_return-Free (l ∷ ls) h =
    let p = without_return-Stripped l in
    (
      All-front (λ d. d ≢ 10) (without_return l) (copies p.number 13) (rw p.whole h.0),
      without_return-Free ls h.1,
    )

-- What the lines that `ProcessFile` hands on, and what it finds, say of the text.
pub record Rejoins (text : Text) : Type 0 where
  pub returns : List ℕ
  pub same_length : length returns ≡ length (split text 10)
  pub rejoined : join (codes "\n") (restore (map without_return (split text 10)) returns) ≡ text
  pub no_break : All (Free 10) (map without_return (split text 10))
  pub no_return : All (λ l. ends_with l (codes "\r") ≡ false) (map without_return (split text 10))
  pub found :
      (any (λ (l : Text). ends_with l (codes "\r")) (split text 10) ≡ false) ↔ (sum returns ≡ 0)

-- For every text there is a number of carriage returns for each of its lines, such that the lines that
-- `ProcessFile` hands on, with these carriage returns at their ends and joined with line breaks, are
-- the text again; no line that is handed on has a line break in it or ends in a carriage return; and
-- `ProcessFile` finds no carriage return if and only if the numbers are all 0.
pub without_return-Rejoins : (text : Text) → Rejoins text
without_return-Rejoins text =
    let h = handed (split text 10) in
    record {
      returns = h.returns;
      same_length = h.same_length;
      rejoined = rw h.restored (join-split text 10);
      no_break = without_return-Free (split text 10) (split-Free text 10);
      no_return = h.no_return;
      found = h.found;
    }
