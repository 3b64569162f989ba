-- ===== src/Brackets/Grammar.antt =====
-- What it is for a text to close an open expression, told without positions and without a search.
-- About the loops of bin/cpplint.py, `FindEndOfExpressionInLine`.
use power_judge.Prelude.{
  ℕ, zero, suc, ◌+◌, Option, none, some, [], ◌∷◌, ◌++◌, ◌≡◌, ◌≢◌, inl, inr, refl, ap, ◌∙◌, arith,
  length, ◌==◌, Bool-cases, ==_iff,
}
use power_judge.Prelude.Int.{ℤ, pos}
use power_judge.Text.{Text}
use power_judge.Brackets.{find_end_from}

-- From a depth, the text comes down to depth 0 with its last character, and not before.
pub data Encloses (opens closes : ℕ) : ℕ → Text → Type 0 where
  last : {k x : ℕ} → k ≡ 1 → x ≡ closes → Encloses opens closes k (x ∷ [])
  push :
      {k x : ℕ} {s : Text}
      → x ≡ opens
      → Encloses opens closes (suc k) s
      → Encloses opens closes k (x ∷ s)
  pop :
      {k x : ℕ} {s : Text}
      → x ≡ closes
      → Encloses opens closes (suc k) s
      → Encloses opens closes (suc (suc k)) (x ∷ s)
  other :
      {k x : ℕ} {s : Text}
      → x ≢ opens
      → x ≢ closes
      → Encloses opens closes k s
      → Encloses opens closes k (x ∷ s)

-- The text leads from one depth to another and never comes down to 0.
pub data Stays (opens closes : ℕ) : ℕ → Text → ℕ → Type 0 where
  nil : {k : ℕ} → Stays opens closes k [] k
  push :
      {k l x : ℕ} {s : Text}
      → x ≡ opens
      → Stays opens closes (suc k) s l
      → Stays opens closes k (x ∷ s) l
  pop :
      {k l x : ℕ} {s : Text}
      → x ≡ closes
      → Stays opens closes (suc k) s l
      → Stays opens closes (suc (suc k)) (x ∷ s) l
  other :
      {k l x : ℕ} {s : Text}
      → x ≢ opens
      → x ≢ closes
      → Stays opens closes k s l
      → Stays opens closes k (x ∷ s) l

module _ {opens closes : ℕ} where
  pub Stays-Encloses :
      {k l : ℕ} {s : Text} (t : Text)
      → Stays opens closes k s l
      → Encloses opens closes l t
      → Encloses opens closes k (s ++ t)
  Stays-Encloses t nil e = e
  Stays-Encloses t (Stays.push x st) e = Encloses.push x (Stays-Encloses t st e)
  Stays-Encloses t (Stays.pop x st) e = Encloses.pop x (Stays-Encloses t st e)
  Stays-Encloses t (Stays.other x y st) e = Encloses.other x y (Stays-Encloses t st e)

  pub Stays-append :
      {k l m : ℕ} {s : Text} (t : Text)
      → Stays opens closes k s l
      → Stays opens closes l t m
      → Stays opens closes k (s ++ t) m
  Stays-append t nil e = e
  Stays-append t (Stays.push x st) e = Stays.push x (Stays-append t st e)
  Stays-append t (Stays.pop x st) e = Stays.pop x (Stays-append t st e)
  Stays-append t (Stays.other x y st) e = Stays.other x y (Stays-append t st e)

-- What a search along a text has to give from a depth: the end of the part that closes the
-- expression, or the depth behind the text.
pub data Finds (opens closes i k : ℕ) (s : Text) (r : Option ℕ × ℤ) : Type 0 where
  found :
      (p q : Text)
      → s ≡ p ++ q
      → Encloses opens closes k p
      → r ≡ (some (i + length p), pos 0)
      → Finds opens closes i k s r
  missing :
      (l : ℕ)
      → Stays opens closes k s (suc l)
      → r ≡ (none, pos (suc l))
      → Finds opens closes i k s r

module _ (opens closes : ℕ) (distinct : opens ≢ closes) where
  pub push_step :
      (i k x : ℕ) (s : Text)
      → x ≡ opens
      → find_end_from opens closes i (x ∷ s) (pos k)
        ≡ find_end_from opens closes (suc i) s (pos (suc k))
  unfolding find_end_from
  push_step i k x s e = ground arith

  pop_step :
      (i k x : ℕ) (s : Text)
      → x ≡ closes
      → find_end_from opens closes i (x ∷ s) (pos (suc (suc k)))
        ≡ find_end_from opens closes (suc i) s (pos (suc k))
  unfolding find_end_from
  pop_step i k x s e = ground arith

  last_step :
      (i x : ℕ) (s : Text)
      → x ≡ closes
      → find_end_from opens closes i (x ∷ s) (pos 1) ≡ (some (suc i), pos 0)
  unfolding find_end_from
  last_step i x s e = ground arith

  other_step :
      (i k x : ℕ) (s : Text)
      → x ≢ opens
      → x ≢ closes
      → find_end_from opens closes i (x ∷ s) (pos k) ≡ find_end_from opens closes (suc i) s (pos k)
  unfolding find_end_from
  other_step i k x s e f = ground arith

  cons_finds :
      (i j k x : ℕ) (s : Text) (r r' : Option ℕ × ℤ)
      → r ≡ r'
      → ((p : Text) → Encloses opens closes j p → Encloses opens closes k (x ∷ p))
      → ((l : ℕ) → Stays opens closes j s l → Stays opens closes k (x ∷ s) l)
      → Finds opens closes (suc i) j s r'
      → Finds opens closes i k (x ∷ s) r
  cons_finds i j k x s r r' e onto along (found p q split h f) =
      found (x ∷ p) q (ap (◌∷◌ x) split) (onto p h) (e ∙ (f ∙ rw (add_suc i (length p))))
    where
      add_suc : (a b : ℕ) → suc a + b ≡ a + suc b
      add_suc a b = omega arith
  cons_finds i j k x s r r' e onto along (missing l h f) = missing l (along (suc l) h) (e ∙ f)

  -- A search from an open depth ends where the expression is closed, or tells the depth.
  pub find_end_from-Finds :
      (s : Text) (i k : ℕ)
      → Finds opens closes i (suc k) s (find_end_from opens closes i s (pos (suc k)))
  find_end_from-Finds [] i k = missing k nil (unfold find_end_from in refl)
  find_end_from-Finds (x ∷ s) i k = elim (Bool-cases (x == opens)) [
    | inl o ↦
        let e = (==_iff x opens).0 o in
        cons_finds i (suc (suc k)) (suc k) x s _ _ (push_step i (suc k) x s e)
          (λ p. Encloses.push e) (λ l. Stays.push e) (find_end_from-Finds s (suc i) (suc k))
    | inr o ↦ elim (Bool-cases (x == closes)) [
      | inl c ↦ closing k ((==_iff x closes).0 c) (find_end_from-Finds s (suc i))
      | inr c ↦
          let no_open : x ≢ opens = λ e. absurd (ground arith) in
          let no_close : x ≢ closes = λ e. absurd (ground arith) in
          cons_finds i (suc k) (suc k) x s _ _ (other_step i (suc k) x s no_open no_close)
            (λ p. Encloses.other no_open no_close) (λ l. Stays.other no_open no_close)
            (find_end_from-Finds s (suc i) k)
    ]
  ]
    where
      closing :
          (n : ℕ)
          → x ≡ closes
          → ((m : ℕ)
              → Finds opens closes
                  (suc i)
                  (suc m)
                  s
                  (find_end_from opens closes (suc i) s (pos (suc m))))
          → Finds opens closes i
              (suc n)
              (x ∷ s)
              (find_end_from opens closes i (x ∷ s) (pos (suc n)))
      closing zero e rec = found (x ∷ []) s refl (last refl e) (last_step i x s e ∙ rw (add_one i))
        where
          add_one : (a : ℕ) → suc a ≡ a + 1
          add_one a = omega arith
      closing (suc n) e rec =
          cons_finds i (suc n) (suc (suc n)) x s _ _ (pop_step i n x s e) (λ p. Encloses.pop e)
            (λ l. Stays.pop e) (rec n)
