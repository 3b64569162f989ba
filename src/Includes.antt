-- ===== src/Includes.antt =====
-- bin/cpplint.py, `_IncludeState`: the sections of the `#include` lines of a file, and their
-- alphabetical order. The checks of an `#include` line are in Line, the names of files in FileNames.
pub mod Headers
pub mod Line
pub mod Order
use power_judge.Prelude.{
  ℕ, ◌-◌, Bool, true, false, ◌&&◌, not, Option, none, some, List, [], ◌∷◌, ◌++◌, leb, ◌==◌,
  if◌then◌else◌, get_or, last?,
}
use power_judge.Text.{Text, codes, replace, lower, text_lt, text_eq}
use power_judge.Patterns.{matches}
use mathlib.Core.Option

-- `_C_SYS_HEADER` to `_OTHER_HEADER`
pub data HeaderType : Type 0 where
  c_sys_header cpp_sys_header likely_my_header possible_my_header other_header : HeaderType

-- `_INITIAL_SECTION` to `_OTHER_H_SECTION`: the numbers 0 to 4.
abbrev pub initial_section : ℕ
initial_section = 0

abbrev pub my_h_section : ℕ
my_h_section = 1

abbrev pub c_section : ℕ
c_section = 2

abbrev pub cpp_section : ℕ
cpp_section = 3

abbrev pub other_h_section : ℕ
other_h_section = 4

-- `_IncludeState`: the headers with their lines, the section and the last header.
pub record IncludeState : Type 0 where
  pub headers : List (Text × ℕ)
  pub section : ℕ
  pub last_header : Text

-- `_IncludeState.__init__`
unfoldable pub new_include_state : IncludeState
new_include_state = record { headers = []; section = initial_section; last_header = [] }

-- `ResetSection` and `SetLastHeader`
unfoldable pub reset_section : IncludeState → IncludeState
reset_section st = record st { section = initial_section; last_header = [] }

unfoldable pub set_last_header : Text → IncludeState → IncludeState
set_last_header path st = record st { last_header = path }

-- `CanonicalizeAlphabeticalOrder`
unfoldable pub canonicalize_alphabetical_order : Text → Text
unfolding replace lower
canonicalize_alphabetical_order path =
    lower (replace (replace path (codes "-inl.h") (codes ".h")) (codes "-") (codes "_"))

-- `elided[linenum - 1]`: the last line for line 0.
unfoldable pub line_before : List Text → ℕ → Text
line_before lines linenum =
    if linenum == 0 then Option.get_or (last? lines) [] else get_or lines (linenum - 1) []

-- `IsInAlphabeticalOrder`, over the elided lines
unfoldable pub is_in_alphabetical_order : List Text → ℕ → Text → IncludeState → Bool
unfolding text_lt matches line_before
is_in_alphabetical_order elided linenum path st =
    not (text_lt path st.last_header && not (matches "^\\s*$" (line_before elided linenum)))

-- `_TYPE_NAMES` and `_SECTION_NAMES`
unfoldable pub type_name : HeaderType → Text
type_name c_sys_header = codes "C system header"
type_name cpp_sys_header = codes "C++ system header"
type_name likely_my_header = codes "header this file implements"
type_name possible_my_header = codes "header this file may implement"
type_name other_header = codes "other header"

unfoldable pub section_name : ℕ → Text
section_name section =
    if section == initial_section
    then codes "... nothing. (This can't be an error.)"
    else if section == my_h_section
    then codes "a header this file implements"
    else if section == c_section
    then codes "C system header"
    else if section == cpp_section
    then codes "C++ system header"
    else codes "other header"

-- The section into which a header of the type brings the file, or none if it comes too late.
unfoldable pub next_section : HeaderType → ℕ → Option ℕ
next_section c_sys_header section = if leb section c_section then some c_section else none
next_section cpp_sys_header section = if leb section cpp_section then some cpp_section else none
next_section likely_my_header section =
    some (if leb section my_h_section then my_h_section else other_h_section)
next_section possible_my_header section =
    some (if leb section my_h_section then my_h_section else other_h_section)
next_section other_header section = some other_h_section

enter_section : HeaderType → Option ℕ → IncludeState → IncludeState × Text
enter_section h none st = (
  record st { last_header = [] },
  codes "Found " ++ (type_name h ++ (codes " after " ++ section_name st.section)),
)
enter_section h (some section) st =
    if st.section == section
    then (st, [])
    else (record st { section = section; last_header = [] }, [])

-- `CheckNextIncludeOrder`: the new state and the error message, empty if there is none.
unfoldable pub check_next_include_order : HeaderType → IncludeState → IncludeState × Text
unfolding enter_section
check_next_include_order h st = enter_section h (next_section h st.section) st

-- include in include_state, include_state[include]
unfoldable pub included_at : Text → List (Text × ℕ) → Option ℕ
included_at path [] = none
included_at path ((p, n) ∷ hs) = if text_eq p path then some n else included_at path hs
