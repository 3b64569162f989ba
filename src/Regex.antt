-- ===== src/Regex.antt =====
-- Python's `re`, as far as bin/cpplint.py uses it: the patterns of the source are read from the
-- same text (Syntax, Parse), run by backtracking (Run), and given a meaning as a relation between
-- positions of a text (Meaning), against which the runs are proved (Correct, Scan).
pub mod Syntax
pub mod Parse
pub mod Run
pub mod Meaning
pub mod Steps
pub mod Correct
pub mod Reach
pub mod Scan
pub mod Pieces
