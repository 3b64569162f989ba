-- ===== src/Brackets/Forward.antt =====
-- `CloseExpression` of bin/cpplint.py finds the end of the expression over the lines of the file.
use power_judge.Prelude.{
  ℕ, zero, suc, ◌+◌, ◌<◌, Option, none, some, List, [], ◌∷◌, ◌++◌, ◌≡◌, ◌≢◌, refl, ap, ◌∙◌, arith,
  length, drop, get_or, get_elem?, append_assoc,
}
use power_judge.Prelude.Int.{ℤ, pos}
use power_judge.Text.{Text, concat}
use power_judge.Brackets.{Place, closer, find_end_from, scan_forward}
use power_judge.Brackets.Grammar.{
  Encloses, Stays, Stays-Encloses, Stays-append, Finds, found, missing, nil, find_end_from-Finds,
}

-- What the loop over the following lines has to give.
pub data FindsLine (opens closes k linenum : ℕ) (rest : List Text) (r : Place) : Type 0 where
  found_line :
      (mid : List Text) (l : Text) (after : List Text) (p q : Text)
      → rest ≡ mid ++ l ∷ after
      → l ≡ p ++ q
      → Encloses opens closes k (concat mid ++ p)
      → r ≡ record { line = l; linenum = suc (linenum + length mid); column = some (length p) }
      → FindsLine opens closes k linenum rest r
  no_line :
      (l : ℕ)
      → Stays opens closes k (concat rest) (suc l)
      → r.column ≡ none
      → r.linenum ≡ suc (linenum + length rest)
      → FindsLine opens closes k linenum rest r

-- The loop, by what the search on the next line gives.
scan_found :
    (opens closes linenum n : ℕ) (line next : Text) (rest : List Text) (d d' : ℤ)
    → find_end_from opens closes 0 next d ≡ (some n, d')
    → scan_forward opens closes line linenum (next ∷ rest) d
      ≡ record { line = next; linenum = suc linenum; column = some n }
unfolding scan_forward
scan_found opens closes linenum n line next rest d d' e = rw (e, scan_forward)

scan_missing :
    (opens closes linenum : ℕ) (line next : Text) (rest : List Text) (d d' : ℤ)
    → find_end_from opens closes 0 next d ≡ (none, d')
    → scan_forward opens closes line linenum (next ∷ rest) d
      ≡ scan_forward opens closes next (suc linenum) rest d'
unfolding scan_forward
scan_missing opens closes linenum line next rest d d' e =
    rw (e, scan_forward)
      (ap (λ (r : Option ℕ × ℤ). scan_forward opens closes next (suc linenum) rest r.1) e)

suc_add : (a b : ℕ) → suc (suc a + b) ≡ suc (a + suc b)
suc_add a b = omega arith

module _ (opens closes : ℕ) (distinct : opens ≢ closes) where
  next_line :
      (k m linenum : ℕ) (next : Text) (rest : List Text) (r r' : Place)
      → Stays opens closes k next m
      → r ≡ r'
      → FindsLine opens closes m (suc linenum) rest r'
      → FindsLine opens closes k linenum (next ∷ rest) r
  next_line k m linenum next rest r r' st e (found_line mid l after p q split halves h f) =
      found_line (next ∷ mid) l after p q (ap (◌∷◌ next) split) halves
        (rw append_assoc (Stays-Encloses (concat mid ++ p) st h))
        (e ∙ (f ∙ rw (suc_add linenum (length mid))))
  next_line k m linenum next rest r r' st e (no_line l h c n) =
      no_line l (Stays-append (concat rest) st h) (rw e c)
        (ap (λ (x : Place). x.linenum) e ∙ (n ∙ suc_add linenum (length rest)))

  pub scan_forward-FindsLine :
      (rest : List Text) (k linenum : ℕ) (line : Text)
      → FindsLine opens closes
          (suc k)
          linenum
          rest
          (scan_forward opens closes line linenum rest (pos (suc k)))
  scan_forward-FindsLine [] k linenum line =
      no_line k nil (unfold scan_forward in refl) (unfold scan_forward in (omega arith))
  scan_forward-FindsLine (next ∷ rest) k linenum line =
      step (find_end_from-Finds opens closes distinct next 0 k)
        (λ m. scan_forward-FindsLine rest m (suc linenum) next)
    where
      step :
          Finds opens closes 0 (suc k) next (find_end_from opens closes 0 next (pos (suc k)))
          → ((m : ℕ)
              → FindsLine opens closes
                  (suc m)
                  (suc linenum)
                  rest
                  (scan_forward opens closes next (suc linenum) rest (pos (suc m))))
          → FindsLine opens closes
              (suc k)
              linenum
              (next ∷ rest)
              (scan_forward opens closes line linenum (next ∷ rest) (pos (suc k)))
      step (found p q split h e) rec =
          found_line [] next rest p q refl split h
            (scan_found opens closes linenum (0 + length p) line next rest _ _ e ∙ ground arith)
      step (missing m h e) rec =
          next_line (suc k) (suc m) linenum next rest _ _ h
            (scan_missing opens closes linenum line next rest _ _ e) (rec m)

pub get_elem?-drop : (s : Text) (i c : ℕ) → get_elem? s i ≡ some c → (t : Text) × (drop i s ≡ c ∷ t)
get_elem?-drop [] i c h = absurd (cc)
get_elem?-drop (x ∷ s) zero c h = (s, cc)
get_elem?-drop (x ∷ s) (suc i) c h = get_elem?-drop s i c h

pub get_elem?-nil-lines :
    (lines : List Text) (n i c : ℕ) → get_elem? (get_or lines n []) i ≡ some c → n < length lines
get_elem?-nil-lines [] n i c h = absurd (cc)
get_elem?-nil-lines (l ∷ ls) zero i c h = omega arith
get_elem?-nil-lines (l ∷ ls) (suc n) i c h = omega (arith, get_elem?-nil-lines ls n i c h)

pub closer-ne : (c d : ℕ) → closer c ≡ some d → c ≢ d
unfolding closer
closer-ne c d h = ground arith
