-- ===== src/Cleanse/OnePass.antt =====
-- The loop of `RemoveMultiLineComments` of bin/cpplint.py ends, and gives what Removal describes.
use power_judge.Prelude.{
  ℕ, zero, suc, ◌+◌, ◌<◌, true, false, some, List, [], ◌∷◌, ◌++◌, ◌≡◌, refl, sym, ap, ◌∙◌, subst,
  arith, length, append_assoc, append-nil, length-append, length-map, All-append,
}
use mathlib.Core.List.{map-append}
use power_judge.Text.{Text}
use power_judge.Lint.{Diagnostic}
use power_judge.Cleanse.MultiLine.{
  starts_comment, ends_comment, lines_until, find_next_multi_line_comment_start,
  find_next_multi_line_comment_end, dummy, remove_multi_line_comments_from_range, unterminated,
  remove_from, remove_multi_line_comments,
}
use power_judge.Cleanse.Removal.{
  dummies, Fails, FirstPasses, Removed, finish, code, comment, unended, nowhere, at,
  lines_until-Until, drop-append, blank_range, loop_done, loop_none, loop_unended, loop_next,
  code_prefix,
}

-- A loop that runs from behind `before` over `todo`.
abbrev Runs : ℕ → List Text → List Text → Type 0
Runs rounds before todo =
    (out : List Text) × (ds : List Diagnostic) × (remove_from rounds (before ++ todo)
        (length before)
      ≡ some (before ++ out, ds))
    × Removed (length before) todo out ds

start_at :
    (before todo : List Text)
    → find_next_multi_line_comment_start (before ++ todo) (length before)
      ≡ length before + lines_until starts_comment todo
unfolding find_next_multi_line_comment_start
start_at before todo = rw (drop-append before todo)

end_at :
    (before pre rest : List Text)
    → find_next_multi_line_comment_end (before ++ (pre ++ rest)) (length before + length pre)
      ≡ length before + length pre + lines_until ends_comment rest
unfolding find_next_multi_line_comment_end
end_at before pre rest =
    rw (← length-append before pre)
      (rw (← append_assoc before pre rest) (rw (drop-append (before ++ pre) rest)))

-- The number of lines, in the three parts of a round.
lines_of_parts :
    (before pre rest : List Text)
    → length (before ++ (pre ++ rest)) ≡ length before + length pre + length rest
lines_of_parts before pre rest =
    omega (arith, length-append before (pre ++ rest), length-append pre rest)

plain_run :
    (rounds : ℕ) (before todo : List Text)
    → Fails starts_comment todo
    → lines_until starts_comment todo ≡ length todo
    → Runs (suc rounds) before todo
plain_run rounds before todo h e = (
  todo,
  [],
  loop_none rounds (before ++ todo) (length before)
      (omega (arith, start_at before todo, e, length-append before todo)),
  subst (λ l. Removed (length before) l l []) (append-nil todo)
      (code_prefix todo h refl (finish refl refl refl)),
)

first_passes :
    (l : Text) (post body : List Text) (last : Text) (rest : List Text)
    → starts_comment l ≡ true
    → l ∷ post ≡ body ++ last ∷ rest
    → FirstPasses starts_comment (body ++ last ∷ [])
first_passes l post [] last rest h e = let same : l ≡ last = cc in rw (← same) h
first_passes l post (x ∷ body) last rest h e = let same : l ≡ x = cc in rw (← same) h

-- The parts of the lines when a comment is blanked.
blanked_length :
    (before pre body : List Text)
    → length before + length pre + length body + 1
      ≡ length (before ++ (pre ++ (dummies body ++ dummy ∷ [])))
blanked_length before pre body = omega (
  arith,
  length-append before (pre ++ (dummies body ++ dummy ∷ [])),
  length-append pre (dummies body ++ dummy ∷ []),
  length-append (dummies body) (dummy ∷ []),
  length-map body (λ (x : Text). dummy),
)

regroup :
    (before pre body rest : List Text) (last : Text)
    → before ++ (pre ++ (body ++ last ∷ rest)) ≡ (before ++ pre) ++ ((body ++ last ∷ []) ++ rest)
regroup before pre body rest last = simp append_assoc

regroup_blanked :
    (before pre body rest : List Text) (last : Text)
    → (before ++ pre) ++ (dummies (body ++ last ∷ []) ++ rest)
      ≡ (before ++ (pre ++ (dummies body ++ dummy ∷ []))) ++ rest
regroup_blanked before pre body rest last = simp (map-append, append_assoc)

module _ (before pre : List Text) (l : Text) (post : List Text) (plain : Fails starts_comment pre)
    (starts : starts_comment l ≡ true)
    (start_is : lines_until starts_comment (pre ++ l ∷ post) ≡ length pre) where
  begins :
      find_next_multi_line_comment_start (before ++ (pre ++ l ∷ post)) (length before)
      ≡ length before + length pre
  begins = start_at before (pre ++ l ∷ post) ∙ ap (λ (k : ℕ). length before + k) start_is

  unended_run :
      (rounds : ℕ)
      → Fails ends_comment (l ∷ post)
      → lines_until ends_comment (l ∷ post) ≡ length (l ∷ post)
      → Runs (suc rounds) before (pre ++ l ∷ post)
  unended_run rounds h e = (
    pre ++ l ∷ post,
    unterminated (length before + length pre) ∷ [],
    loop_unended rounds (before ++ (pre ++ l ∷ post)) (length before) _ begins
        (omega (arith, lines_of_parts before pre (l ∷ post)))
        (omega (arith, lines_of_parts before pre (l ∷ post)))
        (omega (arith, lines_of_parts before pre (l ∷ post), end_at before pre (l ∷ post), e)),
    code_prefix pre plain refl (unended starts h refl refl),
  )

  blanked :
      (body : List Text) (last : Text) (rest : List Text)
      → l ∷ post ≡ body ++ last ∷ rest
      → remove_multi_line_comments_from_range
          (before ++ (pre ++ l ∷ post))
          (length before + length pre)
          (length before + length pre + length body + 1)
        ≡ (before ++ (pre ++ (dummies body ++ dummy ∷ []))) ++ rest
  blanked body last rest split =
      let parts : before ++ (pre ++ l ∷ post) ≡ (before ++ pre) ++ ((body ++ last ∷ []) ++ rest) =
        ap (λ (t : List Text). before ++ (pre ++ t)) split ∙ regroup before pre body rest last in
      let from : length before + length pre ≡ length (before ++ pre) =
        sym (length-append before pre) in
      let to : length before + length pre + length body + 1
          ≡ length (before ++ pre) + length (body ++ last ∷ []) =
        omega (arith, length-append before pre, length-append body (last ∷ [])) in
      let moved : remove_multi_line_comments_from_range (before ++ (pre ++ l ∷ post))
            (length before + length pre) (length before + length pre + length body + 1)
          ≡ remove_multi_line_comments_from_range ((before ++ pre) ++ ((body ++ last ∷ []) ++ rest))
              (length (before ++ pre)) (length (before ++ pre) + length (body ++ last ∷ [])) =
        λ i. remove_multi_line_comments_from_range (parts i) (from i) (to i) in
      moved
      ∙ blank_range (before ++ pre) (body ++ last ∷ []) rest
      ∙ regroup_blanked before pre body rest last

  comment_run :
      (rounds : ℕ) (body : List Text) (last : Text) (rest : List Text)
      → l ∷ post ≡ body ++ last ∷ rest
      → Fails ends_comment body
      → ends_comment last ≡ true
      → lines_until ends_comment (l ∷ post) ≡ length body
      → Runs rounds (before ++ (pre ++ (dummies body ++ dummy ∷ []))) rest
      → Runs (suc rounds) before (pre ++ l ∷ post)
  comment_run rounds body last rest split h ends e (out, ds, run, removed) =
      let size : length (l ∷ post) ≡ length body + suc (length rest) =
        ap length split ∙ length-append body (last ∷ rest) in
      let number = blanked_length before pre body in
      let moved : remove_from rounds
            (remove_multi_line_comments_from_range (before ++ (pre ++ l ∷ post))
              (length before + length pre) (length before + length pre + length body + 1))
            (length before + length pre + length body + 1)
          ≡ remove_from rounds ((before ++ (pre ++ (dummies body ++ dummy ∷ []))) ++ rest)
              (length (before ++ (pre ++ (dummies body ++ dummy ∷ [])))) =
        λ i. remove_from rounds (blanked body last rest split i) (number i) in
      (
        pre ++ (dummies body ++ dummy ∷ out),
        ds,
        loop_next rounds (before ++ (pre ++ l ∷ post)) (length before) _ _ begins
              (end_at before pre (l ∷ post) ∙ ap (λ (k : ℕ). length before + length pre + k) e)
              (omega (arith, lines_of_parts before pre (l ∷ post)))
              (omega (arith, lines_of_parts before pre (l ∷ post)))
              (omega (arith, lines_of_parts before pre (l ∷ post), size))
            ∙ moved
            ∙ run
            ∙ ap (λ (t : List Text). some (t, ds)) (simp append_assoc),
        code_prefix pre plain refl (
            comment body last rest out split refl (first_passes l post body last rest starts split)
              h ends (subst (λ k. Removed k rest out ds) (sym number ∙ (omega arith)) removed)),
      )

Runs-all : (rounds : ℕ) (before todo : List Text) → length todo < rounds → Runs rounds before todo
Runs-all zero before todo lt = absurd (omega arith)
Runs-all (suc rounds) before [] lt = (
  [],
  [],
  loop_done rounds (before ++ []) (length before) (rw append-nil (ground arith)) ∙ refl,
  finish refl refl refl,
)
Runs-all (suc rounds) before (t ∷ ts) lt = elim (lines_until-Until starts_comment (t ∷ ts)) [
  | nowhere h e ↦ plain_run rounds before (t ∷ ts) h e
  | at pre l post split plain starts e ↦
      let size : suc (length ts) ≡ length pre + suc (length post) =
        ap length split ∙ length-append pre (l ∷ post) in
      let start_is : lines_until starts_comment (pre ++ l ∷ post) ≡ length pre =
        subst (λ ls. lines_until starts_comment ls ≡ length pre) split e in
      subst (Runs (suc rounds) before) (sym split)
        (elim (lines_until-Until ends_comment (l ∷ post)) [
          | nowhere h f ↦ unended_run before pre l post plain starts start_is rounds h f
          | at body last rest split' h ends f ↦
              let size' : suc (length post) ≡ length body + suc (length rest) =
                ap length split' ∙ length-append body (last ∷ rest) in
              comment_run before pre l post plain starts start_is rounds body last rest split' h
                ends f
                (Runs-all rounds (before ++ (pre ++ (dummies body ++ dummy ∷ []))) rest
                  (omega arith))
        ])
]

Removed-length :
    {n : ℕ} {ls out : List Text} {ds : List Diagnostic}
    → Removed n ls out ds
    → length out ≡ length ls
Removed-length (finish a b c) = rw (a, b)
Removed-length (code l rest rest' a b f r) = rw (a, b) (ap suc (Removed-length r))
Removed-length (comment body last rest rest' a b p f e r) =
    rw (a, b)
      (omega (
        arith,
        Removed-length r,
        length-append (dummies body) (dummy ∷ rest'),
        length-append body (last ∷ rest),
        length-map body (λ (x : Text). dummy),
      ))
Removed-length (unended a f b c) = rw b

dummy_is_code : starts_comment dummy ≡ false
unfolding starts_comment
dummy_is_code = refl

dummies_are_code : (body : List Text) → Fails starts_comment (dummies body)
dummies_are_code [] = tt
dummies_are_code (l ∷ body) = (dummy_is_code, dummies_are_code body)

-- Where there was no error, no line of the result starts a comment that goes on.
Removed-clean :
    {n : ℕ} {ls out : List Text} {ds : List Diagnostic}
    → Removed n ls out ds
    → ds ≡ []
    → Fails starts_comment out
Removed-clean (finish a b c) e = subst (Fails starts_comment) (sym b) tt
Removed-clean (code l rest rest' a b f r) e =
    subst (Fails starts_comment) (sym b) (f, Removed-clean r e)
Removed-clean (comment body last rest rest' a b p f x r) e = subst (Fails starts_comment) (sym b) (
    All-append (λ l. starts_comment l ≡ false) (dummies body) (dummy ∷ rest')
      (dummies_are_code body) (dummy_is_code, Removed-clean r e))
Removed-clean (unended a f b c) e = absurd (cc)

-- `RemoveMultiLineComments` ends for every list of lines. Its result blanks each comment from the
-- line that starts it to the first line that ends one, leaves all other lines, and reports a comment
-- that no line ends, which it leaves; it has as many lines, and if there is no error none of them
-- starts a comment that goes on.
pub remove_multi_line_comments-Removed :
    (lines : List Text)
    → (out : List Text) × (ds : List Diagnostic) × (remove_multi_line_comments lines
        ≡ some (out, ds))
      × Removed 0 lines out ds
      × (length out ≡ length lines)
      × (ds ≡ [] → Fails starts_comment out)
unfolding remove_multi_line_comments
remove_multi_line_comments-Removed lines =
    let (out, ds, run, removed) = Runs-all (suc (length lines)) [] lines (omega arith) in
    (out, ds, run, removed, Removed-length removed, Removed-clean removed)
