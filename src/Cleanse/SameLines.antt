-- ===== src/Cleanse/SameLines.antt =====
-- The line numbers of the copies in `CleansedLines` of bin/cpplint.py.
use power_judge.Prelude.{suc, Option, none, List, [], ◌∷◌, ◌≡◌, refl, ap, ◌∙◌, length, length-map}
use power_judge.Text.{Text}
use power_judge.Cleanse.RawStrings.{cleanse_line, cleanse_from, cleanse_raw_strings}
use power_judge.Cleanse.{CleansedLines, cleansed_lines, cleanse_comments, collapse_strings}

length-cleanse_from :
    (delimiter : Option Text) (lines : List Text)
    → length (cleanse_from delimiter lines) ≡ length lines
unfolding cleanse_from
length-cleanse_from delimiter [] = refl
length-cleanse_from delimiter (line ∷ lines) =
    ap suc (length-cleanse_from (cleanse_line delimiter line).1 lines)

-- The four copies have as many lines as the file, which is the number that `NumLines` gives.
pub record IsAligned (raw : List Text) (c : CleansedLines) : Type 0 where
  pub raw_lines : c.raw_lines ≡ raw
  pub num_lines : c.num_lines ≡ length raw
  pub without_raw_strings : length c.lines_without_raw_strings ≡ length raw
  pub lines : length c.lines ≡ length raw
  pub elided : length c.elided ≡ length raw

-- Each copy that `CleansedLines` makes of a file has the file's number of lines, so that a line
-- number means the same line in all of them.
pub cleansed_lines-IsAligned : (raw : List Text) → IsAligned raw (cleansed_lines raw)
unfolding cleansed_lines cleanse_raw_strings
cleansed_lines-IsAligned raw =
    let stripped = length-cleanse_from none raw in
    record {
      raw_lines = refl;
      num_lines = refl;
      without_raw_strings = stripped;
      lines = length-map _ cleanse_comments ∙ stripped;
      elided = length-map _ (λ l. cleanse_comments (collapse_strings l)) ∙ stripped;
    }
