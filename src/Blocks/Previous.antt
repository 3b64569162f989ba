-- ===== src/Blocks/Previous.antt =====
-- What `GetPreviousNonBlankLine` of bin/cpplint.py finds.
use power_judge.Prelude.{
  ℕ, zero, suc, ◌<◌, true, false, Option, none, some, List, [], ◌≡◌, inl, inr, refl, arith, get_or,
  Bool-cases,
}
use power_judge.Text.{Text}
use power_judge.Blocks.{is_blank_line, get_previous_non_blank_line}

-- The nearest line above a line that is not blank, or that there is none.
pub data IsPrevious (lines : List Text) (linenum : ℕ) : Option (Text × ℕ) → Type 0 where
  nearest :
      {r : Option (Text × ℕ)} (i : ℕ)
      → r ≡ some (get_or lines i [], i)
      → i < linenum
      → is_blank_line (get_or lines i []) ≡ false
      → ((j : ℕ) → i < j → j < linenum → is_blank_line (get_or lines j []) ≡ true)
      → IsPrevious lines linenum r
  all_blank :
      {r : Option (Text × ℕ)}
      → r ≡ none
      → ((j : ℕ) → j < linenum → is_blank_line (get_or lines j []) ≡ true)
      → IsPrevious lines linenum r

last_or_before :
    (lines : List Text) (prev j : ℕ)
    → is_blank_line (get_or lines prev []) ≡ true
    → (j < prev → is_blank_line (get_or lines j []) ≡ true)
    → j < suc prev
    → is_blank_line (get_or lines j []) ≡ true
last_or_before lines prev j b h l = grind arith

skip_blank :
    (lines : List Text) (prev : ℕ) (r : Option (Text × ℕ))
    → is_blank_line (get_or lines prev []) ≡ true
    → IsPrevious lines prev r
    → IsPrevious lines (suc prev) r
skip_blank lines prev r b (nearest i e l n h) =
    nearest i e (omega arith) n (λ j a. last_or_before lines prev j b (h j a))
skip_blank lines prev r b (all_blank e h) = all_blank e (λ j. last_or_before lines prev j b (h j))

-- `GetPreviousNonBlankLine` gives the nearest line above that is not blank, with its number, and no
-- line exactly if all lines above are blank.
pub get_previous_non_blank_line-IsPrevious :
    (lines : List Text) (linenum : ℕ)
    → IsPrevious lines linenum (get_previous_non_blank_line lines linenum)
unfolding get_previous_non_blank_line
get_previous_non_blank_line-IsPrevious lines zero = all_blank refl (λ j l. absurd (omega arith))
get_previous_non_blank_line-IsPrevious lines (suc prev) =
    elim (Bool-cases (is_blank_line (get_or lines prev []))) [
      | inl b ↦ skip_blank lines prev _ b (rw b (get_previous_non_blank_line-IsPrevious lines prev))
      | inr n ↦ nearest prev (rw n refl) (omega arith) n (λ j a l. absurd (omega arith))
    ]
