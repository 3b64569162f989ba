-- ===== src/Cleanse/RawStrings.antt =====
-- bin/cpplint.py, `CleanseRawStrings`. The loop's state is the delimiter that is looked for.
use power_judge.Prelude.{ℕ, ◌+◌, Option, none, some, List, [], ◌∷◌, ◌++◌, length, drop}
use power_judge.Text.{Text, codes, find}
use power_judge.Regex.Scan.{Match, group_text}
use power_judge.Patterns.{re_match}

-- A line and the delimiter that is open behind it.
abbrev Round : Type 0
Round = Text × Option Text

-- `leading_space.group(1)`. The source would raise an error at a blank line, but it does not ask for
-- the space of one: a line that holds a delimiter is not blank.
unfoldable pub leading_space : Option Match → Text
leading_space none = []
leading_space (some m) = group_text 1 m

inside : Text → Text → Option ℕ → Round
unfolding re_match leading_space group_text
inside delimiter line none = ([], some delimiter)
inside delimiter line (some end) = (
  leading_space (re_match "^(\\s*)\\S" line)
      ++ (codes "\"\"" ++ drop (end + length delimiter) line),
  none,
)

started : Text → Text → Text → Option ℕ → Round
started before delimiter after none = (before ++ codes "\"\"", some delimiter)
started before delimiter after (some end) =
    (before ++ (codes "\"\"" ++ drop (end + length delimiter) after), none)

begin : Text → Option Match → Round
unfolding started find group_text
begin line none = (line, none)
begin line (some m) =
    let delimiter = codes ")" ++ (group_text 2 m ++ codes "\"") in
    started (group_text 1 m) delimiter (group_text 3 m) (find (group_text 3 m) delimiter)

-- One round of the loop.
unfoldable pub cleanse_line : Option Text → Text → Round
unfolding inside begin re_match find
cleanse_line (some delimiter) line = inside delimiter line (find line delimiter)
cleanse_line none line =
    begin line (re_match "^(.*)\\b(?:R|u8R|uR|UR|LR)\"([^\\s\\\\()]*)\\((.*)$" line)

unfoldable pub cleanse_from : Option Text → List Text → List Text
unfolding cleanse_line
cleanse_from delimiter [] = []
cleanse_from delimiter (line ∷ lines) =
    let (line', delimiter') = cleanse_line delimiter line in line' ∷ cleanse_from delimiter' lines

-- `CleanseRawStrings`
unfoldable pub cleanse_raw_strings : List Text → List Text
unfolding cleanse_from
cleanse_raw_strings lines = cleanse_from none lines
