-- ===== src/Nesting/Loop.antt =====
-- The loop over the tokens of a line against the tokens taken one by one. About the end of
-- `_NestingState.Update` of bin/cpplint.py.

use power_judge.Prelude.{
  ℕ, zero, suc, ◌<◌, true, none, some, List, [], ◌∷◌, ◌++◌, ◌≡◌, refl, sym, ap, subst, ◌∙◌, inl,
  inr, arith, length, length-append, append-nil, Option-cases, All, if◌then◌else◌,
}
use power_judge.Text.{Text}
use power_judge.Regex.Syntax.{fits}
use power_judge.Regex.Parse.{re}
use power_judge.Regex.Run.{find_group}
use power_judge.Regex.Meaning.{Means}
use power_judge.Regex.Scan.{
  Match, position, match_start, group?, group_text, StartsHere, try_at-StartsHere,
}
use power_judge.Patterns.{re_match, matches}
use power_judge.Lint.{Diagnostic}
use power_judge.Cleanse.{CleansedLines}
use power_judge.Nesting.{Block}
use power_judge.Nesting.Update.{consume_tokens, token_step, asm_pattern}
use power_judge.Nesting.Braces.{Token, run_tokens}
use power_judge.Nesting.Tokens.{
  token_pattern, token_items, token_regex, is_token, Free, Free-suffix, FirstToken,
  match-FirstToken, has-match, no_tokens, first_at, Split-line, fits-other,
}

-- The tokens of a line, each with the question whether the text from the token before it on begins
-- inline assembly; `segment` is that text.
pub tokens_from : Text → Text → List Token
tokens_from segment [] = []
tokens_from segment (c ∷ s) =
    if is_token c
    then (c ∷ [], matches asm_pattern segment) ∷ tokens_from s s
    else tokens_from segment s

tokens_from-skip :
    (segment pre s : Text)
    → All (λ c. fits true token_items c ≡ true) pre
    → tokens_from segment (pre ++ s) ≡ tokens_from segment s
unfolding tokens_from
tokens_from-skip segment [] s h = refl
tokens_from-skip segment (c ∷ pre) s h = rw (fits-other c h.0) (tokens_from-skip segment pre s h.1)

tokens_from-first :
    (segment : Text) (c : ℕ) (s : Text)
    → is_token c ≡ true
    → tokens_from segment (c ∷ s) ≡ (c ∷ [], matches asm_pattern segment) ∷ tokens_from s s
unfolding tokens_from
tokens_from-first segment c s h = rw h refl

-- The result of the match, by what it means.
starts-here :
    (line : Text) → StartsHere (re token_pattern) (position 0 line) (re_match token_pattern line)
unfolding re_match match_start
starts-here line = try_at-StartsHere (re token_pattern) (position 0 line)

found-token :
    (line : Text) (m : Match)
    → Free line
    → re_match token_pattern line ≡ some m
    → FirstToken line m.to.groups
found-token line m free e =
    let (from, means) =
      subst (StartsHere (re token_pattern) (position 0 line)) e (starts-here line) in
    match-FirstToken line m.to free (subst (λ p. Means p (position 0 line) m.to) token_regex means)

no-token :
    (line : Text)
    → Free line
    → re_match token_pattern line ≡ none
    → All (λ c. fits true token_items c ≡ true) line
no-token line free e = elim (Split-line line) [
  | no_tokens h ↦ h
  | first_at pre c rest parts h one ↦
      let (t, means) = has-match line pre c rest free parts h one in
      absurd (
        subst (StartsHere (re token_pattern) (position 0 line)) e (starts-here line) t
          (subst (λ p. Means p (position 0 line) t) (sym token_regex) means))
]

consume-none :
    (clean_lines : CleansedLines) (linenum rounds : ℕ) (line : Text) (bs : List Block)
    → re_match token_pattern line ≡ none
    → consume_tokens clean_lines linenum (suc rounds) line bs ≡ (bs, [])
unfolding consume_tokens
consume-none clean_lines linenum rounds line bs e = rw (e, consume_tokens) refl

consume-some :
    (clean_lines : CleansedLines) (linenum rounds : ℕ) (line : Text) (bs : List Block) (m : Match)
    → re_match token_pattern line ≡ some m
    → consume_tokens clean_lines linenum (suc rounds) line bs ≡ (
        let step = token_step clean_lines linenum (group_text 1 m) (matches asm_pattern line) bs in
        let rest = consume_tokens clean_lines linenum rounds (group_text 2 m) step.0 in
        (rest.0, step.1 ++ rest.1))
unfolding consume_tokens
consume-some clean_lines linenum rounds line bs m e = rw (e, consume_tokens) refl

group_text-some :
    (n : ℕ) (m : Match) (t : Text) → find_group n m.to.groups ≡ some t → group_text n m ≡ t
unfolding group_text group?
group_text-some n m t e = rw e refl

tokens_from-line :
    (line : Text) (groups : List (ℕ × Text)) (f : FirstToken line groups)
    → tokens_from line line ≡ (f.token ∷ [], matches asm_pattern line) ∷ tokens_from f.rest f.rest
tokens_from-line line groups f =
    ap (tokens_from line) f.parts
    ∙ tokens_from-skip line f.pre (f.token ∷ f.rest) f.no_token
    ∙ tokens_from-first line f.token f.rest f.is_one

tokens_from-none :
    (line : Text) → All (λ c. fits true token_items c ≡ true) line → tokens_from line line ≡ []
unfolding tokens_from
tokens_from-none line h =
    ap (tokens_from line) (sym (append-nil line)) ∙ tokens_from-skip line line [] h

-- With more rounds than the line has characters, on a line with no line break, the loop of `Update`
-- comes to the same as taking the steps of the line's braces, semicolons and closing parentheses one
-- by one, in their order: the rounds never run out.
pub consume_tokens-run_tokens :
    (clean_lines : CleansedLines) (linenum rounds : ℕ) (line : Text) (bs : List Block)
    → length line < rounds
    → Free line
    → consume_tokens clean_lines linenum rounds line bs
      ≡ run_tokens clean_lines linenum (tokens_from line line) bs
unfolding run_tokens
consume_tokens-run_tokens clean_lines linenum zero line bs short free = absurd (omega arith)
consume_tokens-run_tokens clean_lines linenum (suc rounds) line bs short free =
    elim (Option-cases (re_match token_pattern line)) [
      | inl e ↦
          consume-none clean_lines linenum rounds line bs e
          ∙ sym (
              ap (λ ts. run_tokens clean_lines linenum ts bs)
                (tokens_from-none line (no-token line free e)))
      | inr (m, e) ↦
          let f = found-token line m free e in
          let token = group_text-some 1 m (f.token ∷ []) f.first_group in
          let rest = group_text-some 2 m f.rest f.second_group in
          let bound : length f.rest < rounds =
            omega (arith, short, ap length f.parts, length-append f.pre (f.token ∷ f.rest)) in
          let free_rest : Free f.rest =
            Free-suffix (f.token ∷ []) f.rest
              (Free-suffix f.pre (f.token ∷ f.rest) (subst Free f.parts free)) in
          consume-some clean_lines linenum rounds line bs m e
          ∙ rw (token, rest)
              (let step =
                  token_step clean_lines linenum (f.token ∷ []) (matches asm_pattern line) bs in
                ap (λ (r : List Block × List Diagnostic). (r.0, step.1 ++ r.1))
                  (consume_tokens-run_tokens clean_lines linenum rounds f.rest step.0 bound
                    free_rest)
                ∙ sym (
                    ap (λ ts. run_tokens clean_lines linenum ts bs)
                      (tokens_from-line line m.to.groups f)))
    ]
