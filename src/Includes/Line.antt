-- ===== src/Includes/Line.antt =====
-- bin/cpplint.py, `_ClassifyInclude`, `CheckIncludeLine` and `FilesBelongToSameModule`. A result is
-- `none` where `FileInfo.RepositoryName` has none.

use power_judge.Prelude.{
  ℕ, ◌-◌, Bool, true, false, ◌&&◌, ◌||◌, not, Option, none, some, List, [], ◌∷◌, ◌++◌,
  if◌then◌else◌, length, take, is_nil, get_or,
}
use power_judge.Prelude.Maybe.{◌>>=◌}
use power_judge.Text.{Text, codes, text_eq, text_in, ends_with, replace, decimal}
use power_judge.Regex.Scan.{Match, matched_text, group_text}
use power_judge.Patterns.{re_match, re_search, matches, searches}
use power_judge.Lint.{Diagnostic}
use power_judge.Cleanse.{CleansedLines, include_pattern}
use power_judge.FileNames.{
  FileSystem, repository_name, base_name, drop_common_suffixes, is_test_filename,
}
use power_judge.FileNames.Path.{split_path, normpath}
use power_judge.FileChecks.{diagnostic}
use power_judge.Includes.Headers.{cpp_headers}
use power_judge.Includes.{
  HeaderType, c_sys_header, cpp_sys_header, likely_my_header, possible_my_header, other_header,
  IncludeState, set_last_header, canonicalize_alphabetical_order, is_in_alphabetical_order,
  check_next_include_order, included_at,
}

same_first_component : Option Match → Option Match → Bool
unfolding text_eq matched_text
same_first_component (some a) (some b) = text_eq (matched_text a) (matched_text b)
same_first_component _ _ = false

-- The part of `_ClassifyInclude` for an include in quotes, by the target's name in the repository.
unfoldable pub classify_quoted : Text → Text → HeaderType
unfolding split_path drop_common_suffixes text_eq normpath same_first_component re_match
classify_quoted target include =
    let (target_dir, target_base) = split_path (drop_common_suffixes target) in
    let (include_dir, include_base) = split_path (drop_common_suffixes include) in
    if text_eq target_base include_base
      && (text_eq include_dir target_dir
          || text_eq include_dir (normpath (target_dir ++ codes "/../public")))
    then likely_my_header
    else if same_first_component (re_match "^[^-_.]+" target_base)
        (re_match "^[^-_.]+" include_base)
    then possible_my_header
    else other_header

-- `_ClassifyInclude`
unfoldable pub classify_include : FileSystem → Text → Text → Bool → Option HeaderType
unfolding text_in classify_quoted repository_name
classify_include fs filename include true =
    some (if text_in include cpp_headers then cpp_sys_header else c_sys_header)
classify_include fs filename include false = do
  target ← repository_name fs filename
  some (classify_quoted target include)

-- The error of a header that comes too late, which names the file.
order_error : FileSystem → Text → ℕ → Text → Option (List Diagnostic)
unfolding base_name
order_error fs filename linenum [] = some []
order_error fs filename linenum (c ∷ message) = do
  base ← base_name fs filename
  some (
      diagnostic linenum "build/include_order" 4 (
        (c ∷ message)
        ++ (codes ". Should be: " ++ (base ++ codes ".h, c system, c++ system, other.")))
      ∷ [])

-- A header that is not yet included: its order, and the alphabetical order.
unfoldable pub new_include :
    FileSystem
    → Text
    → List Text
    → ℕ
    → Text
    → HeaderType
    → IncludeState
    → Option (IncludeState × List Diagnostic)
unfolding order_error check_next_include_order canonicalize_alphabetical_order
    is_in_alphabetical_order set_last_header
new_include fs filename elided linenum include h st =
    let (st', message) =
      check_next_include_order h (record st { headers = (include, linenum) ∷ st.headers }) in
    let path = canonicalize_alphabetical_order include in
    do
      ds ← order_error fs filename linenum message
      some (
        set_last_header path st',
        ds
            ++ (if is_in_alphabetical_order elided linenum path st'
                then []
                else diagnostic linenum "build/include_alpha" 4
                    (codes "Include \"" ++ (include ++ codes "\" not in alphabetical order"))
                  ∷ []),
      )

-- An `#include` that is found on the line, by the line of an earlier one.
unfoldable pub include_found :
    FileSystem
    → Text
    → List Text
    → ℕ
    → Text
    → Bool
    → IncludeState
    → Option ℕ
    → Option (IncludeState × List Diagnostic)
unfolding classify_include new_include decimal
include_found fs filename elided linenum include is_system st (some earlier) = some (
  st,
  diagnostic linenum "build/include" 4 (
        codes "\""
        ++ (include
            ++ (codes "\" already included at " ++ (filename ++ (codes ":" ++ decimal earlier)))))
      ∷ [],
)
include_found fs filename elided linenum include is_system st none = do
  h ← classify_include fs filename include is_system
  new_include fs filename elided linenum include h st

ordered_include :
    FileSystem
    → Text
    → List Text
    → ℕ
    → IncludeState
    → Option Match
    → Option (IncludeState × List Diagnostic)
unfolding include_found included_at group_text text_eq
ordered_include fs filename elided linenum st none = some (st, [])
ordered_include fs filename elided linenum st (some m) =
    let include = group_text 2 m in
    include_found fs filename elided linenum include (text_eq (group_text 1 m) (codes "<")) st
      (included_at include st.headers)

stream_include : ℕ → Text → Option Match → List Diagnostic
unfolding matches is_test_filename group_text
stream_include linenum filename none = []
stream_include linenum filename (some m) =
    if matches "(f|ind|io|i|o|parse|pf|stdio|str|)?stream$" (group_text 2 m)
      && not (is_test_filename filename)
    then diagnostic linenum "readability/streams" 3 (codes "Streams are highly discouraged.") ∷ []
    else []

-- `CheckIncludeLine`
unfoldable pub check_include_line :
    FileSystem → Text → CleansedLines → ℕ → IncludeState → Option (IncludeState × List Diagnostic)
unfolding searches ordered_include stream_include re_search re_match
check_include_line fs filename clean_lines linenum st =
    let line = get_or clean_lines.lines linenum [] in
    let bare =
      if searches "#include +\"[^/]+\\.h\"" line
      then diagnostic linenum "build/include" 4 (codes "Include the directory when naming .h files")
        ∷ []
      else [] in
    do
      (st', ds) ←
          ordered_include fs filename clean_lines.elided linenum st (re_search include_pattern line)
      some (st', bare ++ (ds ++ stream_include linenum filename (re_match include_pattern line)))

-- name[:-len(suffix)]
without : Text → Text → Text
without suffix name = take (length name - length suffix) name

strip_test : Text → Text
unfolding ends_with without
strip_test name =
    if ends_with name (codes "_unittest")
    then without (codes "_unittest") name
    else if ends_with name (codes "_test")
    then without (codes "_test") name
    else name

one_directory : Text → Text
unfolding replace
one_directory name =
    replace (replace name (codes "/public/") (codes "/")) (codes "/internal/") (codes "/")

-- `FilesBelongToSameModule`. An empty header name leaves the source with an empty prefix.
unfoldable pub files_belong_to_same_module : Text → Text → Bool × Text
unfolding ends_with without strip_test one_directory
files_belong_to_same_module filename_cc filename_h =
    if not (ends_with filename_cc (codes ".cc"))
    then (false, [])
    else if not (ends_with filename_h (codes ".h"))
    then (false, [])
    else (let cc_name = one_directory (strip_test (without (codes ".cc") filename_cc)) in
        let h = without (codes ".h") filename_h in
        let h_name =
          one_directory (if ends_with h (codes "-inl") then without (codes "-inl") h else h) in
        if ends_with cc_name h_name
        then (true, if is_nil h_name then [] else without h_name cc_name)
        else (false, []))
