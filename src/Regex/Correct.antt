-- ===== src/Regex/Correct.antt =====
-- A run finds a way that the pattern allows, and finds one whenever there is one.
use power_judge.Prelude.{
  ℕ, suc, Bool, true, false, none, some, [], ◌∷◌, ◌≡◌, ◌≢◌, ◌⊎◌, ◌↔◌, inl, inr, refl, sym, ◌∙◌,
  arith, length, Option-cases, if◌then◌else◌,
}
use power_judge.Regex.Syntax.{
  Regex, chars, any_char, line_start, line_end, boundary, empty, broken, seq, alt, star, group,
  look, back, fits,
}
use power_judge.Regex.Run.{
  Position, Follow, then_follow, head_is_word, at_start, at_end, at_boundary, set_group, look_at,
  is_other, run, recall,
}
use power_judge.Regex.Meaning.{Means}
use power_judge.Regex.Steps.{
  Sound, Complete, or_else-some, or_else_left, or_else_right, eat-Sound, eat-Complete, test-Sound,
  at_start_iff, at_end_iff, at_boundary_iff, loop-Sound, loop-Complete, recall-Means,
}

record Correct (r : Regex) : Type 0 where
  sound : Sound (run r) (Means r)
  complete : Complete (run r) (Means r)

seq-Correct : (r q : Regex) → Correct r → Correct q → Correct (seq r q)
unfolding run
seq-Correct r q cr cq = record {
  sound = λ s k v h.
      let (u, m, e) = cr.sound s (λ t. run q t k) v h in
      let (t, m', e') = cq.sound u k v e in (t, (u, m, m'), e');
  complete = λ s t k v m h.
      let (u, mr, mq) = m in
      let (w, e) = cq.complete u t k v mq h in cr.complete s u (λ t. run q t k) w mr e;
}

alt-Correct : (r q : Regex) → Correct r → Correct q → Correct (alt r q)
unfolding run
alt-Correct r q cr cq = record {
  sound = λ s k v h. elim (or_else-some (run r s k) (run q s k) v h) [
    | inl e ↦ let (t, m, e') = cr.sound s k v e in (t, inl m, e')
    | inr e ↦ let (t, m, e') = cq.sound s k v e in (t, inr m, e')
  ];
  complete = λ s t k v m h. elim m [
    | inl mr ↦ let (w, e) = cr.complete s t k v mr h in or_else_left _ (run q s k) w e
    | inr mq ↦ let (w, e) = cq.complete s t k v mq h in or_else_right (run r s k) _ w e
  ];
}

group-Correct : (n : ℕ) (r : Regex) → Correct r → Correct (group n r)
unfolding run
group-Correct n r cr = record {
  sound = λ s k v h.
      let (u, m, e) = cr.sound s (λ t. k (set_group n s t)) v h in
      (set_group n s u, (u, m, refl), e);
  complete = λ s t k v m h.
      let (u, mr, e) = m in cr.complete s u (λ t. k (set_group n s t)) v mr (rw (← e) h);
}

star-Correct : (greedy : Bool) (r : Regex) → Correct r → Correct (star greedy r)
unfolding run
star-Correct greedy r cr = record {
  sound = λ s k v h. loop-Sound greedy (run r) (Means r) cr.sound (suc (length s.after)) s k v h;
  complete = λ s t k v m h.
      loop-Complete greedy (run r) (Means r) cr.complete (suc (length s.after)) k v (omega arith) m
        h;
}

look_ahead-Correct : (r : Regex) → Correct r → Correct (look true r)
unfolding run look_at
look_ahead-Correct r cr = record {
  sound = λ s k v h. elim (Option-cases (run r s some)) [
    | inl e ↦ absurd (cc (rw (e, look_at) at h))
    | inr (w, e) ↦ let (u, m, _) = cr.sound s some w e in (s, ((u, m), refl), rw (e, look_at) at h)
  ];
  complete = λ s t k v m h.
      let ((u, mr), e) = m in
      let (w, found) = cr.complete s u some u mr refl in (v, rw (found, look_at) (rw (← e) h));
}

look_not-Correct : (r : Regex) → Correct r → Correct (look false r)
unfolding run look_at
look_not-Correct r cr = record {
  sound = λ s k v h. elim (Option-cases (run r s some)) [
    | inl e ↦ (
      s,
      (λ u m. let (w, found) = cr.complete s u some u m refl in cc, refl),
      rw (e, look_at) at h,
    )
    | inr (w, e) ↦ absurd (cc (rw (e, look_at) at h))
  ];
  complete = λ s t k v m h. elim (Option-cases (run r s some)) [
    | inl e ↦ (v, rw (e, look_at) (rw (← m.1) h))
    | inr (w, e) ↦ let (u, mu, _) = cr.sound s some w e in absurd (m.0 u mu)
  ];
}

test-Correct :
    (r : Regex) (b : Position → Bool) (P : Position → Type 0)
    → ((s : Position) (k : Follow) → run r s k ≡ (if b s then k s else none))
    → ((s t : Position) → Means r s t ↔ (P s × (t ≡ s)))
    → ((s : Position) → (b s ≡ true) ↔ P s)
    → Correct r
test-Correct r b P runs means iff = record {
  sound = λ s k v h.
      let (t, m, e) = test-Sound (b s) P s k v (iff s).0 (sym (runs s k) ∙ h) in
      (t, (means s t).1 m, e);
  complete =
      λ s t k v m h. let (p, e) = (means s t).0 m in (v, rw runs (rw ((iff s).1 p) (rw (← e) h)));
}

back-Correct : (n : ℕ) → Correct (back n)
unfolding run then_follow
back-Correct n = record {
  sound = λ s k v h. elim (Option-cases (recall n s)) [
    | inl e ↦ absurd (ground arith)
    | inr (t, e) ↦ (t, (recall-Means n s t).0 e, ground arith)
  ];
  complete = λ s t k v m h. (v, rw ((recall-Means n s t).1 m, then_follow) h);
}

run-Correct : (r : Regex) → Correct r
unfolding run
run-Correct (chars negated items) = record {
  sound = eat-Sound (fits negated items);
  complete = eat-Complete (fits negated items);
}
run-Correct any_char = record {
  sound = eat-Sound (is_other 10);
  complete = eat-Complete (is_other 10);
}
run-Correct line_start =
    test-Correct line_start at_start (λ s. s.before ≡ []) (λ s k. refl) (λ s t. (λ m. m, λ m. m))
      (λ s. at_start_iff s s.before refl)
run-Correct line_end =
    test-Correct line_end at_end (λ s. (s.after ≡ []) ⊎ (s.after ≡ 10 ∷ [])) (λ s k. refl)
      (λ s t. (λ m. m, λ m. m)) (λ s. at_end_iff s s.after refl)
run-Correct boundary =
    test-Correct boundary at_boundary (λ s. head_is_word s.before ≢ head_is_word s.after)
      (λ s k. refl) (λ s t. (λ m. m, λ m. m)) at_boundary_iff
run-Correct empty = record {
  sound = λ s k v h. (s, refl, h);
  complete = λ s t k v m h. (v, rw (← m) h);
}
run-Correct broken = record { sound = λ s k v h. absurd (cc); complete = λ s t k v m h. absurd m }
run-Correct (seq r q) = seq-Correct r q (run-Correct r) (run-Correct q)
run-Correct (alt r q) = alt-Correct r q (run-Correct r) (run-Correct q)
run-Correct (star greedy r) = star-Correct greedy r (run-Correct r)
run-Correct (group n r) = group-Correct n r (run-Correct r)
run-Correct (back n) = back-Correct n
run-Correct (look true r) = look_ahead-Correct r (run-Correct r)
run-Correct (look false r) = look_not-Correct r (run-Correct r)

pub run_sound :
    (r : Regex) (s : Position) (k : Follow) (v : Position)
    → run r s k ≡ some v
    → (t : Position) × Means r s t × (k t ≡ some v)
run_sound r = (run-Correct r).sound

pub run_complete :
    (r : Regex) (s t : Position) (k : Follow) (v : Position)
    → Means r s t
    → k t ≡ some v
    → (w : Position) × (run r s k ≡ some w)
run_complete r = (run-Correct r).complete
