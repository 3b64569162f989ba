-- ===== src/Regex/Steps.antt =====
-- The steps of a run, each against what it means.
use power_judge.Prelude.{
  ℕ, zero, suc, ◌<◌, Bool, true, false, Option, none, some, [], ◌∷◌, ◌≡◌, ◌≢◌, ◌⊎◌, ◌↔◌, inl, inr,
  refl, ap, subst, drop, drop-append, arith, ltb, lt→ltb, ltb→lt, length, Option-cases, Bool-cases,
  if◌then◌else◌,
}
use power_judge.Text.{Text, starts_with}
use power_judge.Text.Laws.{starts_with-drop, starts_with-append}
use power_judge.Regex.Syntax.{back}
use power_judge.Regex.Run.{
  Position, Follow, eat, then_follow, or_else, head_is_word, at_start, at_end, at_boundary, loop,
  read_text, recall, find_group,
}
use power_judge.Regex.Meaning.{Eats, Reads, Rounds, done, more, Means}

abbrev Body : Type 0
Body = Position → Follow → Option Position

abbrev pub Sound : Body → (Position → Position → Type 0) → Type 0
Sound b R =
    (s : Position) (k : Follow) (v : Position)
    → b s k ≡ some v
    → (t : Position) × R s t × (k t ≡ some v)

abbrev pub Complete : Body → (Position → Position → Type 0) → Type 0
Complete b R =
    (s t : Position) (k : Follow) (v : Position)
    → R s t
    → k t ≡ some v
    → (w : Position) × (b s k ≡ some w)

pub or_else-some :
    (a b : Option Position) (v : Position) → or_else a b ≡ some v → (a ≡ some v) ⊎ (b ≡ some v)
unfolding or_else
or_else-some none b v h = inr h
or_else-some (some x) b v h = inl h

pub or_else_left :
    (a b : Option Position) (v : Position) → a ≡ some v → (w : Position) × (or_else a b ≡ some w)
unfolding or_else
or_else_left none b v h = cc
or_else_left (some x) b v h = (x, refl)

pub or_else_right :
    (a b : Option Position) (v : Position) → b ≡ some v → (w : Position) × (or_else a b ≡ some w)
unfolding or_else
or_else_right none b v h = (v, h)
or_else_right (some x) b v h = (x, refl)

eat-cases :
    (test : ℕ → Bool) (s : Position) (l : Text)
    → s.after ≡ l
    → (eat test s ≡ none) ⊎ ((t : Position) × Eats test s t × (eat test s ≡ some t))
unfolding eat
eat-cases test s [] e = inl (ground arith)
eat-cases test s (c ∷ cs) e = elim (Bool-cases (test c)) [
  | inl y ↦ inr (record s { before = c ∷ s.before; after = cs }, (c, cs, e, y, refl), ground arith)
  | inr n ↦ inl (ground arith)
]

pub eat-Sound : (test : ℕ → Bool) → Sound (λ s k. then_follow (eat test s) k) (Eats test)
unfolding then_follow
eat-Sound test s k v h = elim (eat-cases test s s.after refl) [
  | inl e ↦ absurd (cc)
  | inr (t, m, e) ↦ (t, m, rw (e, then_follow) at h)
]

pub eat-Complete : (test : ℕ → Bool) → Complete (λ s k. then_follow (eat test s) k) (Eats test)
unfolding eat then_follow
eat-Complete test s t k v (c, cs, e, p, q) h = (v, ground arith)

-- A test of the position that moves nowhere.
pub test-Sound :
    (b : Bool) (P : Position → Type 0) (s : Position) (k : Follow) (v : Position)
    → (b ≡ true → P s)
    → (if b then k s else none) ≡ some v
    → (t : Position) × (P s × (t ≡ s)) × (k t ≡ some v)
test-Sound true P s k v p h = (s, (p refl, refl), h)
test-Sound false P s k v p h = absurd (cc)

pub at_start_iff : (s : Position) (l : Text) → s.before ≡ l → (at_start s ≡ true) ↔ (s.before ≡ [])
unfolding at_start
at_start_iff s [] e = ground arith
at_start_iff s (c ∷ cs) e = ground arith

pub at_end_iff :
    (s : Position) (l : Text)
    → s.after ≡ l
    → (at_end s ≡ true) ↔ ((s.after ≡ []) ⊎ (s.after ≡ 10 ∷ []))
unfolding at_end
at_end_iff s [] e = ground arith
at_end_iff s (c ∷ []) e = ground arith
at_end_iff s (c ∷ d ∷ cs) e = ground arith

pub at_boundary_iff :
    (s : Position) → (at_boundary s ≡ true) ↔ (head_is_word s.before ≢ head_is_word s.after)
unfolding at_boundary
at_boundary_iff s = ground arith

abbrev choose : Bool → Option Position → Option Position → Option Position
choose greedy a b = if greedy then or_else a b else or_else b a

choose-some :
    (greedy : Bool) (a b : Option Position) (v : Position)
    → choose greedy a b ≡ some v
    → (a ≡ some v) ⊎ (b ≡ some v)
choose-some true a b v h = or_else-some a b v h
choose-some false a b v h = elim (or_else-some b a v h) [ inl e ↦ inr e | inr e ↦ inl e ]

choose_left :
    (greedy : Bool) (a b : Option Position) (v : Position)
    → a ≡ some v
    → (w : Position) × (choose greedy a b ≡ some w)
choose_left true a b v h = or_else_left a b v h
choose_left false a b v h = or_else_right b a v h

choose_right :
    (greedy : Bool) (a b : Option Position) (v : Position)
    → b ≡ some v
    → (w : Position) × (choose greedy a b ≡ some w)
choose_right true a b v h = or_else_right a b v h
choose_right false a b v h = or_else_left b a v h

-- What follows a round of the body.
abbrev next_round : Bool → Body → ℕ → Position → Follow → Follow
next_round greedy b n s k t =
    if ltb (length t.after) (length s.after) then loop greedy b n t k else none

pub loop-Sound :
    (greedy : Bool) (b : Body) (R : Position → Position → Type 0)
    → Sound b R
    → (rounds : ℕ) → Sound (loop greedy b rounds) (Rounds R)
unfolding loop
loop-Sound greedy b R sound zero s k v h = absurd (cc)
loop-Sound greedy b R sound (suc n) s k v h =
    elim (choose-some greedy (b s (next_round greedy b n s k)) (k s) v h) [
      | inl again ↦
          let (u, r, ku) = sound s (next_round greedy b n s k) v again in
          elim (Bool-cases (ltb (length u.after) (length s.after))) [
            | inl y ↦
                let (t, rs, kt) = loop-Sound greedy b R sound n u k v (rw y at ku) in
                (t, more r (ltb→lt _ _ y) rs, kt)
            | inr stays ↦ absurd (cc (rw stays at ku))
          ]
      | inr e ↦ (s, done, e)
    ]

pub loop-Complete :
    (greedy : Bool) (b : Body) (R : Position → Position → Type 0)
    → Complete b R
    → (rounds : ℕ) {s t : Position} (k : Follow) (v : Position) → length s.after < rounds
    → Rounds R s t
    → k t ≡ some v
    → (w : Position) × (loop greedy b rounds s k ≡ some w)
unfolding loop
loop-Complete greedy b R complete zero k v lt r h = absurd (omega arith)
loop-Complete greedy b R complete (suc n) {s = s} k v lt done h =
    choose_right greedy (b s (next_round greedy b n s k)) (k s) v h
loop-Complete greedy b R complete (suc n) {s = s} k v lt (more {u = u} r l rs) h =
    let (w, e) = loop-Complete greedy b R complete n k v (omega arith) rs h in
    let (w', e') = complete s u (next_round greedy b n s k) w r (rw (lt→ltb _ _ l) e) in
    choose_left greedy (b s (next_round greedy b n s k)) (k s) w' e'

read_text-Reads : (g : Text) (s t : Position) → (read_text g s ≡ some t) ↔ Reads g s t
unfolding read_text
read_text-Reads g s t = elim (Bool-cases (starts_with s.after g)) [
  | inl y ↦ (
    λ h. (drop (length g) s.after, starts_with-drop s.after g y, ground arith),
    λ (rest, e, q). rw y (ground (arith, ap (drop (length g)) e, drop-append g rest)),
  )
  | inr n ↦ (
    λ h. absurd (ground arith),
    λ (rest, e, q). absurd (ground (arith, starts_with-append g rest, ap (λ l. starts_with l g) e)),
  )
]

pub recall-Means : (n : ℕ) (s t : Position) → (recall n s ≡ some t) ↔ Means (back n) s t
unfolding recall
recall-Means n s t = elim (Option-cases (find_group n s.groups)) [
  | inl e ↦ (λ h. absurd (ground arith), λ (g, f, r). absurd (cc))
  | inr (g, e) ↦ (
    λ h. (g, e, (read_text-Reads g s t).0 (rw (e, recall) at h)),
    λ (g', f, r).
        let same : g' ≡ g = cc in
        rw (e, recall) ((read_text-Reads g s t).1 (subst (λ x. Reads x s t) same r)),
  )
]
