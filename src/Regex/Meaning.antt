-- ===== src/Regex/Meaning.antt =====
-- What a pattern means: the positions to which it leads from a position, with no order of trying.
use power_judge.Prelude.{
  ℕ, ◌<◌, Bool, true, false, some, [], ◌∷◌, ◌++◌, reverse, ◌≡◌, ◌≢◌, ◌⊎◌, length,
}
use power_judge.Text.{Text}
use power_judge.Regex.Syntax.{
  Regex, chars, any_char, line_start, line_end, boundary, empty, broken, seq, alt, star, group,
  look, back, fits,
}
use power_judge.Regex.Run.{Position, head_is_word, is_other, set_group, find_group}

-- One character that passes the test, and on.
abbrev pub Eats : (ℕ → Bool) → Position → Position → Type 0
Eats test s t =
    (c : ℕ) × (cs : Text) × (s.after ≡ c ∷ cs)
    × (test c ≡ true)
    × (t ≡ record s { before = c ∷ s.before; after = cs })

-- Any number of rounds, each of which moves on.
pub data Rounds (R : Position → Position → Type 0) : Position → Position → Type 0 where
  done : {s : Position} → Rounds R s s
  more : {s u t : Position} → R s u → length u.after < length s.after → Rounds R u t → Rounds R s t

-- A given text, and on.
abbrev pub Reads : Text → Position → Position → Type 0
Reads g s t =
    (rest : Text) × (s.after ≡ g ++ rest)
    × (t ≡ record s { before = reverse g ++ s.before; after = rest })

abbrev pub Means : Regex → Position → Position → Type 0
Means (chars negated items) s t = Eats (fits negated items) s t
Means any_char s t = Eats (is_other 10) s t
Means line_start s t = (s.before ≡ []) × (t ≡ s)
Means line_end s t = ((s.after ≡ []) ⊎ (s.after ≡ 10 ∷ [])) × (t ≡ s)
Means boundary s t = (head_is_word s.before ≢ head_is_word s.after) × (t ≡ s)
Means empty s t = t ≡ s
Means broken s t = ⊥
Means (seq r q) s t = (u : Position) × Means r s u × Means q u t
Means (alt r q) s t = Means r s t ⊎ Means q s t
Means (star greedy r) s t = Rounds (Means r) s t
Means (group n r) s t = (u : Position) × Means r s u × (t ≡ set_group n s u)
Means (back n) s t = (g : Text) × (find_group n s.groups ≡ some g) × Reads g s t
Means (look true r) s t = ((u : Position) × Means r s u) × (t ≡ s)
Means (look false r) s t = ((u : Position) → ¬ Means r s u) × (t ≡ s)
