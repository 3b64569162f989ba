-- ===== src/Cleanse.antt =====
-- bin/cpplint.py, the preprocessing of the lines of a file: raw strings (RawStrings), comments over
-- several lines (MultiLine), and the three copies of `CleansedLines`, here.
pub mod RawStrings
pub mod MultiLine
pub mod Removal
pub mod OnePass
pub mod SameLines
use power_judge.Prelude.{
  ℕ, ◌+◌, ◌-◌, ◌%◌, Bool, true, false, Option, none, some, List, [], ◌∷◌, String, ◌==◌,
  if◌then◌else◌, length, take, map,
}
use power_judge.Text.{Text, codes, count, replace, find, rstrip}
use power_judge.Regex.Parse.{re}
use power_judge.Regex.Scan.{sub}
use power_judge.Patterns.{matches}
use power_judge.Cleanse.RawStrings.{cleanse_raw_strings}

-- `_RE_PATTERN_INCLUDE`
abbrev pub include_pattern : String
include_pattern = "^\\s*#\\s*include\\s*([<\"])([^>\"]*)[>\"].*$"

-- `IsCppString`. The difference is odd if and only if the sum is: `count` of a longer text that
-- holds the shorter may make the source's difference negative.
unfoldable pub is_cpp_string : Text → Bool
unfolding replace count
is_cpp_string line =
    let line' = replace line (codes "\\\\") (codes "XX") in
    (count line' (codes "\"") + count line' (codes "\\\"") + count line' (codes "'\"'")) % 2 == 1

before_comment : Text → Option ℕ → Text
before_comment line none = line
before_comment line (some pos) =
    if is_cpp_string (take pos line) then line else rstrip (take pos line)

-- `CleanseComments`
unfoldable pub cleanse_comments : Text → Text
unfolding before_comment is_cpp_string rstrip find sub re
cleanse_comments line =
    sub (re "(\\s*/\\*.*\\*/\\s*$|/\\*.*\\*/\\s+|\\s+/\\*.*\\*/(?=\\W)|/\\*.*\\*/)") (λ _. [])
      (before_comment line (find line (codes "//")))

-- `CleansedLines._CollapseStrings`
unfoldable pub collapse_strings : Text → Text
unfolding matches sub re
collapse_strings elided =
    if matches include_pattern elided
    then elided
    else (let no_escapes = sub (re "\\\\([abfnrtv?\"\\\\']|\\d+|x[0-9a-fA-F]+)") (λ _. []) elided in
        let no_chars = sub (re "'.'") (λ _. codes "''") no_escapes in
        sub (re "\"[^\"]*\"") (λ _. codes "\"\"") no_chars)

-- `CleansedLines`
pub record CleansedLines : Type 0 where
  pub elided : List Text
  pub lines : List Text
  pub raw_lines : List Text
  pub num_lines : ℕ
  pub lines_without_raw_strings : List Text

-- `CleansedLines.__init__`
unfoldable pub cleansed_lines : List Text → CleansedLines
unfolding cleanse_comments collapse_strings cleanse_raw_strings
cleansed_lines raw =
    let stripped = cleanse_raw_strings raw in
    record {
      elided = map (λ l. cleanse_comments (collapse_strings l)) stripped;
      lines = map cleanse_comments stripped;
      raw_lines = raw;
      num_lines = length raw;
      lines_without_raw_strings = stripped;
    }
