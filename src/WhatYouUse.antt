-- ===== src/WhatYouUse.antt =====
-- bin/cpplint.py, `UpdateIncludeState` and `CheckForIncludeWhatYouUse`, with
-- `_HEADERS_CONTAINING_TEMPLATES` and the patterns made from it. A dict is a list of pairs in the
-- order of insertion. Of the copy of `include_state` only the keys are read: it is the list of them.
-- The lines of another file are a parameter, `none` where `io.open` raises `IOError`.
pub mod Modules
pub mod Needs
pub mod Missing
use power_judge.Prelude.{
  ℕ, suc, Bool, true, false, ◌&&◌, ◌||◌, not, Option, none, some, List, [], ◌∷◌, ◌++◌, map, String,
  ◌==◌, if◌then◌else◌, take, is_nil, reverse,
}
use power_judge.Text.{Text, codes, text_eq, text_in, starts_with, ends_with, has}
use power_judge.Regex.Syntax.{Regex}
use power_judge.Regex.Parse.{compile, re}
use power_judge.Regex.Scan.{Match, search, sub, match_from, group_text}
use power_judge.Patterns.{re_search, is_some}
use power_judge.Lint.{Diagnostic}
use power_judge.Cleanse.{CleansedLines, include_pattern, cleanse_comments}
use power_judge.FileNames.{FileSystem, full_name}
use power_judge.FileChecks.{diagnostic}
use power_judge.Includes.Line.{files_belong_to_same_module}

-- `_HEADERS_CONTAINING_TEMPLATES`
abbrev pub headers_containing_templates : List (String × List String)
headers_containing_templates =
    ("<deque>", "deque" ∷ [])
    ∷ (
      "<functional>",
      "unary_function" ∷ "binary_function" ∷ "plus" ∷ "minus" ∷ "multiplies" ∷ "divides" ∷ "modulus"
          ∷ "negate" ∷ "equal_to" ∷ "not_equal_to" ∷ "greater" ∷ "less" ∷ "greater_equal"
          ∷ "less_equal" ∷ "logical_and" ∷ "logical_or" ∷ "logical_not" ∷ "unary_negate" ∷ "not1"
          ∷ "binary_negate" ∷ "not2" ∷ "bind1st" ∷ "bind2nd" ∷ "pointer_to_unary_function"
          ∷ "pointer_to_binary_function" ∷ "ptr_fun" ∷ "mem_fun_t" ∷ "mem_fun" ∷ "mem_fun1_t"
          ∷ "mem_fun1_ref_t" ∷ "mem_fun_ref_t" ∷ "const_mem_fun_t" ∷ "const_mem_fun1_t"
          ∷ "const_mem_fun_ref_t" ∷ "const_mem_fun1_ref_t" ∷ "mem_fun_ref" ∷ [],
    )
    ∷ ("<limits>", "numeric_limits" ∷ [])
    ∷ ("<list>", "list" ∷ [])
    ∷ ("<map>", "map" ∷ "multimap" ∷ [])
    ∷ ("<memory>", "allocator" ∷ [])
    ∷ ("<queue>", "queue" ∷ "priority_queue" ∷ [])
    ∷ ("<set>", "set" ∷ "multiset" ∷ [])
    ∷ ("<stack>", "stack" ∷ [])
    ∷ ("<string>", "char_traits" ∷ "basic_string" ∷ [])
    ∷ ("<utility>", "pair" ∷ [])
    ∷ ("<vector>", "vector" ∷ [])
    ∷ ("<hash_map>", "hash_map" ∷ "hash_multimap" ∷ [])
    ∷ ("<hash_set>", "hash_set" ∷ "hash_multiset" ∷ [])
    ∷ ("<slist>", "slist" ∷ [])
    ∷ []

-- An entry of `_re_pattern_algorithm_header` or `_re_pattern_templates`.
pub record TemplatePattern : Type 0 where
  pub pattern : Regex
  pub template : Text
  pub header : Text

algorithm_pattern : String → TemplatePattern
algorithm_pattern template = record {
  pattern = compile (codes "[^>.]\\b" ++ (codes template ++ codes "(<.*?>)?\\([^\\)]"));
  template = codes template;
  header = codes "<algorithm>";
}

-- `_re_pattern_algorithm_header`
unfoldable pub algorithm_header : List TemplatePattern
unfolding algorithm_pattern
algorithm_header =
    map algorithm_pattern
      ("copy" ∷ "max" ∷ "min" ∷ "min_element" ∷ "sort" ∷ "swap" ∷ "transform" ∷ [])

template_pattern : String → String → TemplatePattern
template_pattern header template = record {
  pattern = compile (codes "(\\<|\\b)" ++ (codes template ++ codes "\\s*\\<"));
  template = codes template ++ codes "<>";
  header = codes header;
}

patterns_of : List (String × List String) → List TemplatePattern
unfolding template_pattern
patterns_of [] = []
patterns_of ((header, templates) ∷ hs) = map (template_pattern header) templates ++ patterns_of hs

-- `_re_pattern_templates`
unfoldable pub template_patterns : List TemplatePattern
unfolding patterns_of
template_patterns = patterns_of headers_containing_templates

-- `required`: a header with the last line that needs it and the template.
abbrev pub Required : Type 0
Required = List (Text × ℕ × Text)

-- required[header] = (linenum, template)
unfoldable pub require : Text → ℕ → Text → Required → Required
unfolding text_eq
require header linenum template [] = (header, linenum, template) ∷ []
require header linenum template ((h, n, t) ∷ rest) =
    if text_eq h header
    then (h, linenum, template) ∷ rest
    else (h, n, t) ∷ require header linenum template rest

-- The loop over the patterns, for one line.
unfoldable pub require_matching : List TemplatePattern → ℕ → Text → Required → Required
unfolding require search
require_matching [] linenum line req = req
require_matching (p ∷ ps) linenum line req =
    require_matching ps linenum line
      (if is_some (search p.pattern line) then require p.header linenum p.template req else req)

-- The first `string` on the line counts unless a namespace other than `std` stands before it.
unfoldable pub require_string : Option Match → ℕ → Text → Required → Required
unfolding ends_with match_from require
require_string none linenum line req = req
require_string (some m) linenum line req =
    let prefix = take (match_from m) line in
    if ends_with prefix (codes "std::") || not (ends_with prefix (codes "::"))
    then require (codes "<string>") linenum (codes "string") req
    else req

-- One round of the loop over the lines.
unfoldable pub require_line : ℕ → Text → Required → Required
require_line linenum line req =
    if is_nil line || starts_with line (codes "#")
    then req
    else (let req' =
          require_matching algorithm_header linenum line
            (require_string (re_search "\\bstring\\b" line) linenum line req) in
        if has line (codes "<") then require_matching template_patterns linenum line req' else req')

unfoldable pub required_from : ℕ → List Text → Required → Required
unfolding require_line
required_from linenum [] req = req
required_from linenum (line ∷ lines) req =
    required_from (suc linenum) lines (require_line linenum line req)

-- include_state.setdefault(include, …)
unfoldable pub add_include : Text → List Text → List Text
unfolding text_in
add_include include headers = if text_in include headers then headers else headers ++ include ∷ []

unfoldable pub include_of : Option Match → List Text → List Text
unfolding add_include group_text
include_of none headers = headers
include_of (some m) headers = add_include (group_text 2 m) headers

unfoldable pub add_includes : List Text → List Text → List Text
unfolding re_search cleanse_comments include_of
add_includes [] headers = headers
add_includes (line ∷ lines) headers =
    add_includes lines (include_of (re_search include_pattern (cleanse_comments line)) headers)

-- `UpdateIncludeState`, for the lines that `io.open` gives
unfoldable pub update_include_state : Option (List Text) → List Text → Bool × List Text
unfolding add_includes
update_include_state none headers = (false, headers)
update_include_state (some lines) headers = (true, add_includes lines headers)

-- One round of the loop over the headers: whether one was read, and the headers behind it.
unfoldable pub add_module_header :
    (Text → Option (List Text)) → Text → Text → Bool × List Text → Bool × List Text
unfolding files_belong_to_same_module update_include_state
add_module_header read_lines abs_filename header (found, headers) =
    let (same_module, common_path) = files_belong_to_same_module abs_filename header in
    let (added, headers') = update_include_state (read_lines (common_path ++ header)) headers in
    if same_module then (found || added, headers') else (found, headers)

unfoldable pub add_module_headers :
    (Text → Option (List Text)) → Text → List Text → Bool × List Text → Bool × List Text
unfolding add_module_header
add_module_headers read_lines abs_filename [] st = st
add_module_headers read_lines abs_filename (h ∷ hs) st =
    add_module_headers read_lines abs_filename hs (add_module_header read_lines abs_filename h st)

is_bracket : ℕ → Bool
is_bracket c = c == b'<' || c == b'>' || c == b'"'

drop_brackets : Text → Text
unfolding is_bracket
drop_brackets [] = []
drop_brackets (c ∷ s) = if is_bracket c then drop_brackets s else c ∷ s

-- header.strip('<>"')
unfoldable pub strip_brackets : Text → Text
unfolding drop_brackets
strip_brackets s = reverse (drop_brackets (reverse (drop_brackets s)))

-- The errors for the headers that are required and not included.
unfoldable pub missing_includes : Required → List Text → List Diagnostic
unfolding strip_brackets text_in
missing_includes [] headers = []
missing_includes ((header, linenum, template) ∷ req) headers =
    (if text_in (strip_brackets header) headers
      then []
      else diagnostic linenum "build/include_what_you_use" 4
          (codes "Add #include " ++ (header ++ (codes " for " ++ template)))
        ∷ [])
    ++ missing_includes req headers

-- `CheckForIncludeWhatYouUse`
unfoldable pub check_for_include_what_you_use :
    FileSystem → (Text → Option (List Text)) → Text → CleansedLines → List Text → List Diagnostic
check_for_include_what_you_use fs read_lines filename clean_lines keys =
    let required = required_from 0 clean_lines.elided [] in
    let abs_filename =
      sub (re "_flymake\\.cc$") (λ (m : Match). codes ".cc") (full_name fs filename) in
    let (header_found, headers) = add_module_headers read_lines abs_filename keys (false, keys) in
    if ends_with filename (codes ".cc") && not header_found
    then []
    else missing_includes required headers
