-- ===== src/Spacing/Comments.antt =====
-- bin/cpplint.py, `CheckSpacing`: the part on `//` comments.
use power_judge.Prelude.{
  ℕ, ◌+◌, ◌-◌, ◌%◌, Bool, ◌&&◌, ◌||◌, not, Option, none, some, List, [], ◌++◌, leb, ltb, ◌==◌,
  if◌then◌else◌, length, take, drop, get_or,
}
use power_judge.Text.{Text, codes, count, find}
use power_judge.Regex.Syntax.{is_re_space}
use power_judge.Patterns.{matches, searches}
use power_judge.Lint.{Diagnostic}
use power_judge.FileChecks.{report_if}
use power_judge.LineChecks.{check_comment}

-- The `//` is not in quotes. (The difference of the source is even if and only if the sum is.)
unfoldable pub outside_quotes : Text → ℕ → Bool
unfolding count
outside_quotes line commentpos =
    (count (take commentpos line) (codes "\"") + count (take commentpos line) (codes "\\\"")) % 2
    == 0

-- line[commentpos - k] is there, and no white space
unfoldable pub is_code_before : Text → ℕ → ℕ → Bool
unfolding is_re_space
is_code_before line commentpos k =
    leb k commentpos && not (is_re_space (get_or line (commentpos - k) 0))

unfoldable pub is_special_comment : Text → Bool
unfolding searches
is_special_comment rest =
    searches "[=/-]{4,}\\s*$" rest
    || searches "^/$" rest
    || searches "^!< " rest
    || searches "^/< " rest
    || searches "^/+ " rest

-- The errors of a comment at a position that is not in quotes.
unfoldable pub comment_errors : ℕ → Text → ℕ → List Diagnostic
unfolding matches is_code_before is_special_comment check_comment
comment_errors linenum line commentpos =
    report_if
      (not (matches "^\\s*{ //" line)
        && (is_code_before line commentpos 1 || is_code_before line commentpos 2))
      linenum "whitespace/comments" 2 "At least two spaces is best between code and comments"
    ++ (report_if
          (ltb (commentpos + 2) (length line)
            && not (get_or line (commentpos + 2) 0 == b' ')
            && not (is_special_comment (drop (commentpos + 2) line)))
          linenum "whitespace/comments" 4 "Should have a space between // and comment"
        ++ check_comment linenum (drop commentpos line))

comment_at : ℕ → Text → Option ℕ → List Diagnostic
unfolding outside_quotes comment_errors
comment_at linenum line none = []
comment_at linenum line (some commentpos) =
    if outside_quotes line commentpos then comment_errors linenum line commentpos else []

unfoldable pub check_comment_spacing : ℕ → Text → List Diagnostic
unfolding comment_at find
check_comment_spacing linenum line = comment_at linenum line (find line (codes "//"))
