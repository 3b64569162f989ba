-- ===== src/LineChecks.antt =====
-- bin/cpplint.py, the checks that read one elided line: `CheckForMultilineCommentsAndStrings`,
-- `CheckPosixThreading`, `CheckVlogArguments`, `CheckInvalidIncrement`, `CheckMakePairUsesDeduction`,
-- `CheckAltTokens`, `CheckComment`, `CheckSpacingForFunctionCall` (Calls) and
-- `CheckForNonStandardConstructs` (NonStandard).
pub mod Calls
pub mod NonStandard
use mathlib.Core.Option
use power_judge.Prelude.{
  ℕ, ◌+◌, ◌-◌, ◌%◌, Bool, true, false, ◌&&◌, ◌||◌, not, Option, none, some, List, [], ◌∷◌, ◌++◌,
  String, ltb, ◌==◌, if◌then◌else◌, length, get_or, is_nil,
}
use power_judge.Text.{Text, codes, text_eq, count, replace, find, has, is_alnum}
use power_judge.Regex.Parse.{re}
use power_judge.Regex.Scan.{Match, find_iter, group?, group_text}
use power_judge.Patterns.{re_match, matches, searches}
use power_judge.Lint.{Diagnostic}
use power_judge.FileChecks.{diagnostic}

-- `CheckForMultilineCommentsAndStrings`. The second difference is odd if and only if the sum is.
unfoldable pub check_for_multiline_comments_and_strings : ℕ → Text → List Diagnostic
unfolding replace count
check_for_multiline_comments_and_strings linenum elided =
    let line = replace elided (codes "\\\\") [] in
    (if ltb (count line (codes "*/")) (count line (codes "/*"))
      then diagnostic linenum "readability/multiline_comment" 5 (
          codes
            "Complex multi-line /*...*/-style comment found. Lint may give bogus warnings.  Consider replacing these with //-style comments, with #if 0...#endif, or with more clearly structured multi-line comments.")
        ∷ []
      else [])
    ++ (if (count line (codes "\"") + count line (codes "\\\"")) % 2 == 1
        then diagnostic linenum "readability/multiline_string" 5 (
            codes
              "Multi-line string (\"...\") found.  This lint script doesn't do well with such strings, and may give bogus warnings.  Use C++11 raw strings or concatenation instead.")
          ∷ []
        else [])

-- `threading_list`: the names, each with `(`; the safe function has `_r` before it.
abbrev pub threading_list : List (String × String)
threading_list =
    ("asctime(", "asctime_r(")
    ∷ ("ctime(", "ctime_r(")
    ∷ ("getgrgid(", "getgrgid_r(")
    ∷ ("getgrnam(", "getgrnam_r(")
    ∷ ("getlogin(", "getlogin_r(")
    ∷ ("getpwnam(", "getpwnam_r(")
    ∷ ("getpwuid(", "getpwuid_r(")
    ∷ ("gmtime(", "gmtime_r(")
    ∷ ("localtime(", "localtime_r(")
    ∷ ("rand(", "rand_r(")
    ∷ ("strtok(", "strtok_r(")
    ∷ ("ttyname(", "ttyname_r(")
    ∷ []

-- Whether a call may begin at an index: what stands before it is no part of a name or of an access.
unfoldable pub call_starts_at : Text → ℕ → Bool
unfolding is_alnum
call_starts_at line ix =
    let before = get_or line (ix - 1) 0 in
    ix == 0 || (not (is_alnum before) && not (before == b'_' || before == b'.' || before == b'>'))

unsafe_call : ℕ → Text → Text → Text → Option ℕ → List Diagnostic
unfolding call_starts_at
unsafe_call linenum line single safe none = []
unsafe_call linenum line single safe (some ix) =
    if call_starts_at line ix
    then diagnostic linenum "runtime/threadsafe_fn" 2 (
        codes "Consider using "
        ++ (safe
            ++ (codes "...) instead of " ++ (single ++ codes "...) for improved thread safety."))))
      ∷ []
    else []

unfoldable pub check_functions : List (String × String) → ℕ → Text → List Diagnostic
unfolding unsafe_call find
check_functions [] linenum line = []
check_functions ((single, safe) ∷ fs) linenum line =
    unsafe_call linenum line (codes single) (codes safe) (find line (codes single))
    ++ check_functions fs linenum line

-- `CheckPosixThreading`
unfoldable pub check_posix_threading : ℕ → Text → List Diagnostic
unfolding check_functions
check_posix_threading linenum line = check_functions threading_list linenum line

-- `CheckVlogArguments`
unfoldable pub check_vlog_arguments : ℕ → Text → List Diagnostic
unfolding searches
check_vlog_arguments linenum line =
    if searches "\\bVLOG\\((INFO|ERROR|WARNING|DFATAL|FATAL)\\)" line
    then diagnostic linenum "runtime/vlog" 5 (
        codes
          "VLOG() should be used with numeric verbosity level.  Use LOG() if you want symbolic severity levels.")
      ∷ []
    else []

-- `CheckInvalidIncrement`
unfoldable pub check_invalid_increment : ℕ → Text → List Diagnostic
unfolding matches
check_invalid_increment linenum line =
    if matches "^\\s*\\*\\w+(\\+\\+|--);" line
    then diagnostic linenum "runtime/invalid_increment" 5
        (codes "Changing pointer instead of value (or unused value of operator*).")
      ∷ []
    else []

-- `CheckMakePairUsesDeduction`
unfoldable pub check_make_pair_uses_deduction : ℕ → Text → List Diagnostic
unfolding searches
check_make_pair_uses_deduction linenum line =
    if searches "\\bmake_pair\\s*<" line
    then diagnostic linenum "build/explicit_make_pair" 4 (
        codes
          "For C++11-compatibility, omit template arguments from make_pair OR use pair directly OR if appropriate, construct a pair directly")
      ∷ []
    else []

-- `_ALT_TOKEN_REPLACEMENT`
abbrev pub alt_token_replacement : List (String × String)
alt_token_replacement =
    ("and", "&&")
    ∷ ("bitor", "|")
    ∷ ("or", "||")
    ∷ ("xor", "^")
    ∷ ("compl", "~")
    ∷ ("bitand", "&")
    ∷ ("and_eq", "&=")
    ∷ ("or_eq", "|=")
    ∷ ("xor_eq", "^=")
    ∷ ("not", "!")
    ∷ ("not_eq", "!=")
    ∷ []

unfoldable pub replacement_of : List (String × String) → Text → Text
unfolding text_eq
replacement_of [] token = []
replacement_of ((t, r) ∷ ts) token =
    if text_eq (codes t) token then codes r else replacement_of ts token

alt_token_errors : ℕ → List Match → List Diagnostic
unfolding replacement_of group_text
alt_token_errors linenum [] = []
alt_token_errors linenum (m ∷ ms) =
    let token = group_text 1 m in
    diagnostic linenum "readability/alt_tokens" 2 (
      codes "Use operator "
      ++ (replacement_of alt_token_replacement token ++ (codes " instead of " ++ token)))
    ∷ alt_token_errors linenum ms

-- `CheckAltTokens`. The look-ahead makes the order of the alternatives of the pattern immaterial.
unfoldable pub check_alt_tokens : ℕ → Text → List Diagnostic
unfolding matches has find_iter re alt_token_errors
check_alt_tokens linenum line =
    if matches "^\\s*#" line
    then []
    else if has line (codes "/*") || has line (codes "*/")
    then []
    else alt_token_errors linenum (
        find_iter
          (re "[ =()](and|bitor|or|xor|compl|bitand|and_eq|or_eq|xor_eq|not|not_eq)(?=[ (]|$)")
          line)

is_empty_group : Option Text → Bool
is_empty_group none = true
is_empty_group (some t) = is_nil t

-- The middle group may also have taken no part, which is neither `' '` nor `''`.
is_one_space : Option Text → Bool
unfolding text_eq
is_one_space none = false
is_one_space (some t) = text_eq t (codes " ") || is_nil t

todo_errors : ℕ → Option Match → List Diagnostic
unfolding is_empty_group is_one_space group? group_text
todo_errors linenum none = []
todo_errors linenum (some m) =
    (if ltb 1 (length (group_text 1 m))
      then diagnostic linenum "whitespace/todo" 2 (codes "Too many spaces before TODO") ∷ []
      else [])
    ++ ((if is_empty_group (group? 2 m)
          then diagnostic linenum "readability/todo" 2 (
              codes
                "Missing username in TODO; it should look like \"// TODO(my_username): Stuff.\"")
            ∷ []
          else [])
        ++ (if is_one_space (group? 3 m)
            then []
            else diagnostic linenum "whitespace/todo" 2
                (codes "TODO(my_username) should be followed by a space")
              ∷ []))

-- `CheckComment`, on the text of a comment
unfoldable pub check_comment : ℕ → Text → List Diagnostic
unfolding re_match todo_errors
check_comment linenum comment =
    todo_errors linenum (re_match "^//(\\s*)TODO(\\(.+?\\))?:?(\\s|$)?" comment)
