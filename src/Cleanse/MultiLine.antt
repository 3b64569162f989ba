-- ===== src/Cleanse/MultiLine.antt =====
-- bin/cpplint.py, `FindNextMultiLineCommentStart`, `FindNextMultiLineCommentEnd`,
-- `RemoveMultiLineCommentsFromRange` and `RemoveMultiLineComments`. The list that the source changes
-- in place is passed on.
use power_judge.Prelude.{
  ℕ, zero, suc, ◌+◌, Bool, true, false, ◌&&◌, Option, none, some, List, [], ◌∷◌, leb, if◌then◌else◌,
  length, drop,
}
use power_judge.Text.{Text, codes, starts_with, ends_with, find_from, strip}
use power_judge.Lint.{Diagnostic}

-- The tests of the two searches.
is_absent : Option ℕ → Bool
is_absent none = true
is_absent (some _) = false

unfoldable pub starts_comment : Text → Bool
unfolding strip starts_with find_from is_absent
starts_comment line =
    starts_with (strip line) (codes "/*") && is_absent (find_from (strip line) (codes "*/") 2)

unfoldable pub ends_comment : Text → Bool
unfolding strip ends_with
ends_comment line = ends_with (strip line) (codes "*/")

-- The number of lines before the first that passes the test.
unfoldable pub lines_until : (Text → Bool) → List Text → ℕ
lines_until test [] = 0
lines_until test (l ∷ ls) = let more = suc (lines_until test ls) in if test l then 0 else more

-- `FindNextMultiLineCommentStart` and `FindNextMultiLineCommentEnd`, for an index that is no more
-- than the number of lines.
unfoldable pub find_next_multi_line_comment_start : List Text → ℕ → ℕ
find_next_multi_line_comment_start lines lineix =
    lineix + lines_until starts_comment (drop lineix lines)

unfoldable pub find_next_multi_line_comment_end : List Text → ℕ → ℕ
find_next_multi_line_comment_end lines lineix =
    lineix + lines_until ends_comment (drop lineix lines)

abbrev pub dummy : Text
dummy = codes "// dummy"

-- `RemoveMultiLineCommentsFromRange`
unfoldable pub remove_multi_line_comments_from_range : List Text → ℕ → ℕ → List Text
remove_multi_line_comments_from_range [] begin end = []
remove_multi_line_comments_from_range (l ∷ ls) begin zero = l ∷ ls
remove_multi_line_comments_from_range (l ∷ ls) zero (suc end) =
    dummy ∷ remove_multi_line_comments_from_range ls zero end
remove_multi_line_comments_from_range (l ∷ ls) (suc begin) (suc end) =
    l ∷ remove_multi_line_comments_from_range ls begin end

unfoldable pub unterminated : ℕ → Diagnostic
unterminated begin = record {
  linenum = begin + 1;
  category = codes "readability/multiline_comment";
  confidence = 5;
  message = codes "Could not find end of multi-line comment";
}

-- The loop of `RemoveMultiLineComments`, from an index; `none` if the rounds run out.
unfoldable pub remove_from : ℕ → List Text → ℕ → Option (List Text × List Diagnostic)
remove_from zero lines lineix = none
remove_from (suc rounds) lines lineix =
    let begin = find_next_multi_line_comment_start lines lineix in
    let end = find_next_multi_line_comment_end lines begin in
    let next =
      remove_from rounds (remove_multi_line_comments_from_range lines begin (end + 1)) (end + 1) in
    if leb (length lines) lineix
    then some (lines, [])
    else if leb (length lines) begin
    then some (lines, [])
    else if leb (length lines) end
    then some (lines, unterminated begin ∷ [])
    else next

-- `RemoveMultiLineComments`: the lines and the error. A round moves on by a line at least.
unfoldable pub remove_multi_line_comments : List Text → Option (List Text × List Diagnostic)
unfolding remove_from find_next_multi_line_comment_start find_next_multi_line_comment_end
    remove_multi_line_comments_from_range unterminated
remove_multi_line_comments lines = remove_from (suc (length lines)) lines 0
