-- ===== src/Blocks/Bodies.antt =====
-- bin/cpplint.py, `CheckEmptyBlockBody`: the index at which it calls `CloseExpression`.

use power_judge.Prelude.{
  ℕ, zero, suc, ◌≤◌, ◌↔◌, length, true, false, none, some, List, [], ◌∷◌, ◌++◌, String, ◌==◌, ◌≡◌,
  refl, ap, subst, ◌∙◌, inl, inr, arith, get_or, get_elem?, Bool-cases, Option-cases,
}
use power_judge.Prelude.Maybe.{>>=-some}
use power_judge.Text.{Text, codes, find}
use power_judge.Regex.Syntax.{Regex, range, space, chars, seq, alt, star, group, fits}
use power_judge.Regex.Parse.{re}
use power_judge.Regex.Meaning.{Means}
use power_judge.Regex.Reach.{then-Passes, Means-Passes}
use power_judge.Regex.Scan.{Match, position, match_start, StartsHere, try_at-StartsHere}
use power_judge.Patterns.{re_match}
use power_judge.Lint.{Diagnostic}
use power_judge.Brackets.{Place, close_expression}
use power_judge.Blocks.{block_errors, check_empty_block_body}

abbrev body_pattern : String
body_pattern = "\\s*(for|while|if)\\s*\\("

one : ℕ → Regex
one c = chars false (range c c ∷ [])

-- The pattern up to its last character.
keyword : Regex
unfolding one
keyword = group 1 (
    alt (seq (one b'f') (seq (one b'o') (one b'r'))) (
      alt (seq (one b'w') (seq (one b'h') (seq (one b'i') (seq (one b'l') (one b'e')))))
        (seq (one b'i') (one b'f'))))

body_regex :
    re body_pattern
    ≡ seq
        (star true (chars false (space ∷ [])))
        (seq keyword (seq (star true (chars false (space ∷ []))) (chars false (range 40 40 ∷ []))))
unfolding re keyword
body_regex = refl

find-first :
    (part rest line : Text)
    → line ≡ part ++ 40 ∷ rest
    → (i c : ℕ) × (find line (codes "(") ≡ some i) × (get_elem? line i ≡ some c)
unfolding find
find-first [] rest [] e = absurd (cc)
find-first (_ ∷ _) rest [] e = absurd (cc)
find-first [] rest (c ∷ s) e = let h : c ≡ 40 = cc in (0, c, rw h refl, refl)
find-first (_ ∷ part) rest (c ∷ s) e =
    let (i, d, f, g) = find-first part rest s (cc) in
    elim (Bool-cases (40 == c)) [
      | inl here ↦ (0, c, rw here refl, refl)
      | inr there ↦ (suc i, d, rw there (rw f refl), g)
    ]

is_paren : (c : ℕ) → fits false (range 40 40 ∷ []) c ≡ true → c ≡ 40
unfolding fits
is_paren c h = ground arith

opens_call :
    (line : Text) (m : Match)
    → re_match body_pattern line ≡ some m
    → (part rest : Text) × (line ≡ part ++ 40 ∷ rest)
unfolding re_match match_start
opens_call line m h =
    let (e, means) =
      subst (StartsHere (re body_pattern) (position 0 line)) h
        (try_at-StartsHere (re body_pattern) (position 0 line)) in
    let (u, a, (v, b, (w, d, (c, cs, f, g, t)))) =
      subst (λ r. Means r (position 0 line) m.to) body_regex means in
    let skipped = Means-Passes (star true (chars false (space ∷ []))) (position 0 line) u a in
    let named = Means-Passes keyword u v b in
    let spaced = Means-Passes (star true (chars false (space ∷ []))) v w d in
    let (part, i) =
      then-Passes (position 0 line) v w (then-Passes (position 0 line) u v skipped named) spaced in
    (part, cs, i ∙ ap (λ x. part ++ x) (f ∙ ap (λ x. x ∷ cs) (is_paren c g)))

place_found :
    (lines : List Text) (linenum start c : ℕ)
    → get_elem? (get_or lines linenum []) start ≡ some c
    → (p : Place) × (close_expression lines linenum start ≡ some p)
unfolding close_expression
place_found lines linenum start c h = elim (Option-cases (close_expression lines linenum start)) [
  | inl e ↦ absurd (let k = rw (h, close_expression) at e in cc)
  | inr found ↦ found
]

block_errors-Returns :
    (elided : List Text) (linenum : ℕ) (line : Text) (m : Match)
    → get_or elided linenum [] ≡ line
    → re_match body_pattern line ≡ some m
    → (ds : List Diagnostic) × (block_errors elided linenum line (some m) ≡ some ds)
unfolding block_errors
block_errors-Returns elided linenum line m same h =
    let (part, rest, e) = opens_call line m h in
    let (i, c, f, g) = find-first part rest line e in
    let (p, closed) = place_found elided linenum i c (rw same g) in
    (_, >>=-some _ f (>>=-some _ closed refl))

get_elem?-get_or :
    (elided : List Text) (linenum : ℕ) (line : Text)
    → get_elem? elided linenum ≡ some line
    → get_or elided linenum [] ≡ line
get_elem?-get_or [] linenum line e = absurd (cc)
get_elem?-get_or (l ∷ ls) zero line e = cc
get_elem?-get_or (l ∷ ls) (suc n) line e = get_elem?-get_or ls n line e

get_elem?-none_iff :
    (elided : List Text) (linenum : ℕ)
    → (get_elem? elided linenum ≡ none) ↔ (length elided ≤ linenum)
get_elem?-none_iff [] linenum = (λ e. omega arith, λ e. refl)
get_elem?-none_iff (l ∷ ls) zero = (λ e. absurd (cc), λ e. absurd (omega (arith, e)))
get_elem?-none_iff (l ∷ ls) (suc n) =
    let (a, b) = get_elem?-none_iff ls n in (λ e. omega (arith, a e), λ e. b (omega (arith, e)))

-- `CheckEmptyBlockBody` raises an `IndexError` if and only if the line number is past the end of the
-- lines: where its pattern matches a line, the line has an opening parenthesis for `CloseExpression`.
pub check_empty_block_body-none_iff :
    (elided : List Text) (linenum : ℕ)
    → (check_empty_block_body elided linenum ≡ none) ↔ (length elided ≤ linenum)
unfolding check_empty_block_body block_errors
check_empty_block_body-none_iff elided linenum =
    let (a, b) = get_elem?-none_iff elided linenum in
    elim (Option-cases (get_elem? elided linenum)) [
      | inl past ↦ (λ e. a past, λ e. rw past refl)
      | inr (line, found) ↦ (
        λ e. absurd (elim (Option-cases (re_match body_pattern line)) [
          | inl silent ↦ cc (rw (found, silent) at e)
          | inr (m, matched) ↦
              let (ds, f) =
                block_errors-Returns elided linenum line m
                  (get_elem?-get_or elided linenum line found) matched in
              cc (rw (found, matched, f) at e)
        ]),
        λ e. absurd (let past = b e in cc),
      )
    ]
