-- ===== src/Nesting/Braces.antt =====
-- The braces of a line and the stack of blocks. About the loop over tokens at the end of
-- `_NestingState.Update` of bin/cpplint.py.
use power_judge.Prelude.{
  ℕ, Bool, true, false, List, [], ◌∷◌, ◌++◌, ◌≡◌, ◌⊎◌, inl, inr, refl, ap, ◌∙◌, append_assoc,
  append-nil, if◌then◌else◌,
}
use power_judge.Text.{Text, codes, text_eq}
use power_judge.Lint.{Diagnostic}
use power_judge.Cleanse.{CleansedLines}
use power_judge.Nesting.{
  Block, seen_open_brace, check_end, new_block, plain_block, block_asm, no_asm, check_end_kind,
}
use power_judge.Nesting.Update.{token_step, open_brace, end_declaration, close_brace}

-- A token, and whether the text it stands in begins inline assembly.
abbrev pub Token : Type 0
Token = Text × Bool

-- The steps for a sequence of tokens.
unfoldable pub run_tokens :
    CleansedLines → ℕ → List Token → List Block → List Block × List Diagnostic
unfolding token_step
run_tokens clean_lines linenum [] bs = (bs, [])
run_tokens clean_lines linenum (t ∷ ts) bs =
    let step = token_step clean_lines linenum t.0 t.1 bs in
    let rest = run_tokens clean_lines linenum ts step.0 in (rest.0, step.1 ++ rest.1)

-- Tokens in which each `{` has its `}`.
pub data Balanced : List Token → Type 0 where
  nothing : {ts : List Token} → ts ≡ [] → Balanced ts
  statement :
      {ts : List Token} (t : Token) (rest : List Token)
      → (t.0 ≡ codes ";") ⊎ (t.0 ≡ codes ")")
      → Balanced rest
      → ts ≡ t ∷ rest
      → Balanced ts
  braces :
      {ts : List Token} (a b : Bool) (body rest : List Token)
      → Balanced body
      → Balanced rest
      → ts ≡ (codes "{", a) ∷ (body ++ (codes "}", b) ∷ rest)
      → Balanced ts

-- The block of a brace that belongs to no head.
abbrev opened : Bool → Block
opened starts_asm = record (new_block true plain_block) {
  inline_asm = if starts_asm then block_asm else no_asm;
}

module _ (clean_lines : CleansedLines) (linenum : ℕ) where
  -- Tokens behind a part that changes nothing.
  run_tokens-append :
      (xs ys : List Token) (bs : List Block)
      → run_tokens clean_lines linenum (xs ++ ys) bs ≡ (
        (run_tokens clean_lines linenum ys (run_tokens clean_lines linenum xs bs).0).0,
        (run_tokens clean_lines linenum xs bs).1
            ++ (run_tokens clean_lines linenum ys (run_tokens clean_lines linenum xs bs).0).1,
      )
  unfolding run_tokens
  run_tokens-append [] ys bs = refl
  run_tokens-append (x ∷ xs) ys bs =
      let step = token_step clean_lines linenum x.0 x.1 bs in
      rw (run_tokens-append xs ys step.0, append_assoc) refl

  run_tokens-behind :
      (xs ys : List Token) (bs : List Block)
      → run_tokens clean_lines linenum xs bs ≡ (bs, [])
      → run_tokens clean_lines linenum (xs ++ ys) bs ≡ run_tokens clean_lines linenum ys bs
  run_tokens-behind xs ys bs e = run_tokens-append xs ys bs ∙ rw e refl

  statement_step :
      (t : Token) (bs : List Block)
      → (t.0 ≡ codes ";") ⊎ (t.0 ≡ codes ")")
      → seen_open_brace bs ≡ true
      → token_step clean_lines linenum t.0 t.1 bs ≡ (bs, [])
  unfolding token_step end_declaration seen_open_brace text_eq
  statement_step t [] (inl e) h = rw e refl
  statement_step t [] (inr e) h = rw e refl
  statement_step t (b ∷ bs) (inl e) h = rw (e, h) refl
  statement_step t (b ∷ bs) (inr e) h = rw (e, h) refl

  open_step :
      (a : Bool) (bs : List Block)
      → seen_open_brace bs ≡ true
      → token_step clean_lines linenum (codes "{") a bs ≡ (opened a ∷ bs, [])
  unfolding token_step open_brace seen_open_brace text_eq
  open_step a [] h = refl
  open_step a (b ∷ bs) h = rw h refl

  run_step :
      (t : Token) (ts : List Token) (bs cs : List Block) (ds : List Diagnostic)
      → token_step clean_lines linenum t.0 t.1 bs ≡ (cs, ds)
      → run_tokens clean_lines linenum (t ∷ ts) bs
        ≡ ((run_tokens clean_lines linenum ts cs).0, ds ++ (run_tokens clean_lines linenum ts cs).1)
  unfolding run_tokens
  run_step t ts bs cs ds e =
      ap
        (λ (p : List Block × List Diagnostic). (
          (run_tokens clean_lines linenum ts p.0).0,
          p.1 ++ (run_tokens clean_lines linenum ts p.0).1,
        ))
        e

  close_step :
      (x : Bool) (b : Block) (bs : List Block)
      → token_step clean_lines linenum (codes "}") x (b ∷ bs)
        ≡ (bs, check_end clean_lines linenum b)
  unfolding token_step close_brace text_eq
  close_step x b bs = refl

  -- Balanced tokens and the `}` behind them end the innermost block.
  enclosed_run :
      (body rest : List Token) (x : Bool) (b : Block) (bs : List Block)
      → run_tokens clean_lines linenum body (b ∷ bs) ≡ (b ∷ bs, [])
      → run_tokens clean_lines linenum (body ++ (codes "}", x) ∷ rest) (b ∷ bs) ≡ (
        (run_tokens clean_lines linenum rest bs).0,
        check_end clean_lines linenum b ++ (run_tokens clean_lines linenum rest bs).1,
      )
  enclosed_run body rest x b bs e =
      run_tokens-behind body ((codes "}", x) ∷ rest) (b ∷ bs) e
      ∙ run_step (codes "}", x) rest (b ∷ bs) bs _ (close_step x b bs)

  Balanced-run :
      {ts : List Token}
      → Balanced ts
      → (bs : List Block) → seen_open_brace bs ≡ true
      → run_tokens clean_lines linenum ts bs ≡ (bs, [])
  unfolding run_tokens seen_open_brace check_end check_end_kind new_block
  Balanced-run (nothing e) bs h = rw e refl
  Balanced-run (statement t rest k s e) bs h =
      rw e (run_step t rest bs bs [] (statement_step t bs k h) ∙ Balanced-run s bs h)
  Balanced-run (braces a x body rest s r e) bs h = rw e (
      run_step (codes "{", a) (body ++ (codes "}", x) ∷ rest) bs (opened a ∷ bs) []
        (open_step a bs h)
      ∙ enclosed_run body rest x (opened a) bs (Balanced-run s (opened a ∷ bs) refl)
      ∙ Balanced-run r bs h)

  -- The head of a namespace or a class before its brace.
  head_step :
      (a : Bool) (b : Block) (bs : List Block)
      → b.seen_open_brace ≡ false
      → token_step clean_lines linenum (codes "{") a (b ∷ bs)
        ≡ (record b { seen_open_brace = true } ∷ bs, [])
  unfolding token_step open_brace text_eq
  head_step a b bs h = rw h refl

  -- Take tokens in which each `{` has its `}`, and a block whose head has not yet met its `{`. Behind
  -- that `{` the tokens leave the stack as it is and report nothing. With a `}` behind them they take
  -- the block, and no other, from the stack, and report what `CheckEnd` of the block reports.
  pub run_tokens-Balanced :
      (body : List Token) (a x : Bool) (b : Block) (bs : List Block)
      → Balanced body
      → b.seen_open_brace ≡ false
      → (run_tokens clean_lines linenum body (record b { seen_open_brace = true } ∷ bs)
          ≡ (record b { seen_open_brace = true } ∷ bs, []))
        × (run_tokens clean_lines linenum ((codes "{", a) ∷ (body ++ (codes "}", x) ∷ [])) (b ∷ bs)
            ≡ (bs, check_end clean_lines linenum (record b { seen_open_brace = true })))
  unfolding seen_open_brace
  run_tokens-Balanced body a x b bs s h =
      let b' : Block = record b { seen_open_brace = true } in
      let same = Balanced-run s (b' ∷ bs) refl in
      (
        same,
        run_step (codes "{", a) (body ++ (codes "}", x) ∷ []) (b ∷ bs) (b' ∷ bs) []
              (head_step a b bs h)
            ∙ enclosed_run body [] x b' bs same
            ∙ unfold run_tokens in (rw append-nil refl),
      )
