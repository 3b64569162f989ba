-- ===== src/Regex/Syntax.antt =====
-- Regular expressions as trees. `\s`, `\w` and `\d` are the ASCII classes (no pattern of the source
-- sets re.UNICODE).
use power_judge.Prelude.{ℕ, Bool, ◌&&◌, ◌||◌, not, List, leb, ◌==◌, if◌then◌else◌, any}

-- What stands between square brackets.
pub data Item : Type 0 where
  range : ℕ → ℕ → Item
  space not_space word not_word digit : Item

pub data Regex : Type 0 where
  -- the flag is true for `[^…]`
  chars : Bool → List Item → Regex
  -- `.`, `^`, `$`, `\b`, and the empty pattern
  any_char line_start line_end boundary empty : Regex
  -- a pattern that is no pattern: it matches nowhere
  broken : Regex
  seq alt : Regex → Regex → Regex
  -- the flag is true for `*`, false for `*?`
  star : Bool → Regex → Regex
  group : ℕ → Regex → Regex
  -- `(?=…)` if the flag is true, `(?!…)` if not
  look : Bool → Regex → Regex
  -- `\1`: the text of a group
  back : ℕ → Regex

unfoldable pub is_re_space : ℕ → Bool
is_re_space c = (leb 9 c && leb c 13) || c == 32

unfoldable pub is_word : ℕ → Bool
is_word c =
    (leb b'a' c && leb c b'z')
    || (leb b'A' c && leb c b'Z')
    || (leb b'0' c && leb c b'9')
    || c == b'_'

unfoldable pub has_item : ℕ → Item → Bool
unfolding is_re_space is_word
has_item c (range a b) = leb a c && leb c b
has_item c space = is_re_space c
has_item c not_space = not (is_re_space c)
has_item c word = is_word c
has_item c not_word = not (is_word c)
has_item c digit = leb b'0' c && leb c b'9'

-- Whether one character fits a class.
unfoldable pub fits : Bool → List Item → ℕ → Bool
unfolding has_item
fits negated items c = if negated then not (any (has_item c) items) else any (has_item c) items
