-- ===== src/Cleanse/Removal.antt =====
-- `RemoveMultiLineComments` of bin/cpplint.py against a description of its result that reads the
-- lines once and has no index.
use power_judge.Prelude.{
  ℕ, suc, ◌+◌, ◌≤◌, ◌<◌, Bool, true, false, some, List, [], ◌∷◌, ◌++◌, map, ◌≡◌, inl, inr, refl, ap,
  subst, arith, leb, length, drop, All, Bool-cases,
}
use power_judge.Text.{Text}
use power_judge.Lint.{Diagnostic}
use power_judge.Cleanse.MultiLine.{
  starts_comment, ends_comment, lines_until, find_next_multi_line_comment_start,
  find_next_multi_line_comment_end, dummy, remove_multi_line_comments_from_range, unterminated,
  remove_from,
}

abbrev pub dummies : List Text → List Text
dummies = map (λ _. dummy)

abbrev pub Fails : (Text → Bool) → List Text → Type 0
Fails test = All (λ l. test l ≡ false)

abbrev pub FirstPasses : (Text → Bool) → List Text → Type 0
FirstPasses test [] = ⊥
FirstPasses test (l ∷ ls) = test l ≡ true

-- The lines from number `n` on, what becomes of them, and the errors.
pub data Removed : ℕ → List Text → List Text → List Diagnostic → Type 0 where
  finish :
      {n : ℕ} {ls out : List Text} {ds : List Diagnostic}
      → ls ≡ []
      → out ≡ []
      → ds ≡ []
      → Removed n ls out ds
  -- a line on which no comment starts that goes on stays as it is
  code :
      {n : ℕ} {ls out : List Text} {ds : List Diagnostic} (l : Text) (rest rest' : List Text)
      → ls ≡ l ∷ rest
      → out ≡ l ∷ rest'
      → starts_comment l ≡ false
      → Removed (suc n) rest rest' ds
      → Removed n ls out ds
  -- a comment is blanked, up to the first line that ends one
  comment :
      {n : ℕ} {ls out : List Text} {ds : List Diagnostic} (body : List Text) (last : Text)
      (rest rest' : List Text)
      → ls ≡ body ++ last ∷ rest
      → out ≡ dummies body ++ dummy ∷ rest'
      → FirstPasses starts_comment (body ++ last ∷ [])
      → Fails ends_comment body
      → ends_comment last ≡ true
      → Removed (n + suc (length body)) rest rest' ds
      → Removed n ls out ds
  -- a comment that no line ends is left, and reported at its first line
  unended :
      {n : ℕ} {ls out : List Text} {ds : List Diagnostic}
      → FirstPasses starts_comment ls
      → Fails ends_comment ls
      → out ≡ ls
      → ds ≡ unterminated n ∷ []
      → Removed n ls out ds

-- What `lines_until` gives.
pub data Until (test : Text → Bool) (ls : List Text) (k : ℕ) : Type 0 where
  nowhere : Fails test ls → k ≡ length ls → Until test ls k
  at :
      (pre : List Text) (l : Text) (post : List Text)
      → ls ≡ pre ++ l ∷ post
      → Fails test pre
      → test l ≡ true
      → k ≡ length pre
      → Until test ls k

Until-cons :
    (test : Text → Bool) (l : Text) (ls : List Text) (k : ℕ)
    → test l ≡ false
    → Until test ls k
    → Until test (l ∷ ls) (suc k)
Until-cons test l ls k f (nowhere h e) = nowhere (f, h) (ap suc e)
Until-cons test l ls k f (at pre x post split h t e) =
    at (l ∷ pre) x post (ap (◌∷◌ l) split) (f, h) t (ap suc e)

lines_until_cons :
    (test : Text → Bool) (l : Text) (ls : List Text)
    → test l ≡ false
    → suc (lines_until test ls) ≡ lines_until test (l ∷ ls)
unfolding lines_until
lines_until_cons test l ls f = rw f

pub lines_until-Until : (test : Text → Bool) (ls : List Text) → Until test ls (lines_until test ls)
lines_until-Until test [] = nowhere tt (unfold lines_until in refl)
lines_until-Until test (l ∷ ls) = elim (Bool-cases (test l)) [
  | inl t ↦ at [] l ls refl tt t (unfold lines_until in rw t)
  | inr f ↦
      subst (Until test (l ∷ ls)) (lines_until_cons test l ls f)
        (Until-cons test l ls (lines_until test ls) f (lines_until-Until test ls))
]

pub drop-append : (a b : List Text) → drop (length a) (a ++ b) ≡ b
drop-append [] b = refl
drop-append (x ∷ a) b = drop-append a b

blank_prefix :
    (b c : List Text) → remove_multi_line_comments_from_range (b ++ c) 0 (length b) ≡ dummies b ++ c
unfolding remove_multi_line_comments_from_range
blank_prefix [] [] = refl
blank_prefix [] (x ∷ c) = refl
blank_prefix (x ∷ b) c = ap (◌∷◌ dummy) (blank_prefix b c)

pub blank_range :
    (a b c : List Text)
    → remove_multi_line_comments_from_range (a ++ (b ++ c)) (length a) (length a + length b)
      ≡ a ++ (dummies b ++ c)
unfolding remove_multi_line_comments_from_range
blank_range [] b c = rw (zero_add (length b)) (blank_prefix b c)
  where
    zero_add : (n : ℕ) → 0 + n ≡ n
    zero_add n = omega arith
blank_range (x ∷ a) b c = rw (suc_plus (length a) (length b)) (ap (◌∷◌ x) (blank_range a b c))
  where
    suc_plus : (m n : ℕ) → suc m + n ≡ suc (m + n)
    suc_plus m n = omega arith

-- The loop, branch by branch.
module _ (rounds : ℕ) (lines : List Text) (ix : ℕ) where
  pub loop_done :
      leb (length lines) ix ≡ true → remove_from (suc rounds) lines ix ≡ some (lines, [])
  unfolding remove_from
  loop_done h = rw h

  pub loop_none :
      length lines ≤ find_next_multi_line_comment_start lines ix
      → remove_from (suc rounds) lines ix ≡ some (lines, [])
  unfolding remove_from
  loop_none h = ground arith

  pub loop_unended :
      (b : ℕ)
      → find_next_multi_line_comment_start lines ix ≡ b
      → ix < length lines
      → b < length lines
      → length lines ≤ find_next_multi_line_comment_end lines b
      → remove_from (suc rounds) lines ix ≡ some (lines, unterminated b ∷ [])
  unfolding remove_from
  loop_unended b e h i k = ground arith

  pub loop_next :
      (b e : ℕ)
      → find_next_multi_line_comment_start lines ix ≡ b
      → find_next_multi_line_comment_end lines b ≡ e
      → ix < length lines
      → b < length lines
      → e < length lines
      → remove_from (suc rounds) lines ix
        ≡ remove_from rounds (remove_multi_line_comments_from_range lines b (e + 1)) (e + 1)
  unfolding remove_from
  loop_next b e p q h i k = ground arith

-- The lines before a comment go on as they are.
pub code_prefix :
    {n m : ℕ} {rest out : List Text} {ds : List Diagnostic} (pre : List Text)
    → Fails starts_comment pre
    → m ≡ n + length pre
    → Removed m rest out ds
    → Removed n (pre ++ rest) (pre ++ out) ds
code_prefix {rest = rest} {out = out} {ds = ds} [] h e r =
    subst (λ k. Removed k rest out ds) (omega arith) r
code_prefix {rest = rest} {out = out} (l ∷ pre) (f, h) e r =
    code l (pre ++ rest) (pre ++ out) refl refl f (code_prefix pre h (omega arith) r)
