-- ===== src/Nesting.antt =====
-- bin/cpplint.py, `_BlockInfo`, `_ClassInfo`, `_NamespaceInfo`, `_PreprocessorInfo` and
-- `_NestingState`: the stack of open blocks, and its copies at `#if`. The steps of `Update` are in
-- Update. The stacks are lists with the innermost block first; a deep copy of one is its value.
pub mod Preprocessor
pub mod Conditionals
pub mod Update
pub mod Braces
pub mod Tokens
pub mod Loop
use mathlib.Core.Option
use power_judge.Prelude.{
  ℕ, suc, ◌+◌, ◌-◌, Bool, true, false, ◌&&◌, ◌||◌, not, Option, none, some, List, [], ◌∷◌, ◌++◌,
  reverse, ltb, ◌==◌, if◌then◌else◌, length, drop, get_or, is_nil,
}
use power_judge.Prelude.Int.{ℤ, pos, sub_ℕ, ◌+ℤ◌, eq_ℤ}
use power_judge.Text.{Text, codes, text_eq, count, is_alnum}
use power_judge.Regex.Parse.{compile}
use power_judge.Regex.Scan.{Match, match_start, group_text}
use power_judge.Patterns.{re_match, matches, searches, is_some}
use power_judge.Lint.{Diagnostic}
use power_judge.Cleanse.{CleansedLines}
use power_judge.FileChecks.{diagnostic}

-- `_NO_ASM` to `_BLOCK_ASM`
pub data Asm : Type 0 where
  no_asm inside_asm end_asm block_asm : Asm

pub record ClassInfo : Type 0 where
  pub name : Text
  pub starting_linenum : ℕ
  pub is_derived : Bool
  pub access : Text
  pub is_struct : Bool
  pub class_indent : ℕ
  pub last_line : ℕ

-- The three classes of block.
pub data Kind : Type 0 where
  class_block : ClassInfo → Kind
  -- the name and the first line
  namespace_block : Text → ℕ → Kind
  plain_block : Kind

pub record Block : Type 0 where
  pub seen_open_brace : Bool
  pub open_parentheses : ℤ
  pub inline_asm : Asm
  pub kind : Kind

-- `_PreprocessorInfo`
pub record PreprocessorInfo : Type 0 where
  pub stack_before_if : List Block
  pub stack_before_else : List Block
  pub seen_else : Bool

-- `_NestingState`
pub record NestingState : Type 0 where
  pub stack : List Block
  pub pp_stack : List PreprocessorInfo

-- `_BlockInfo.__init__` and `_NestingState.__init__`
unfoldable pub new_block : Bool → Kind → Block
new_block seen k = record {
  seen_open_brace = seen;
  open_parentheses = pos 0;
  inline_asm = no_asm;
  kind = k;
}

unfoldable pub new_nesting_state : NestingState
new_nesting_state = record { stack = []; pp_stack = [] }

-- The first line from `i` on at which as many braces are closed as opened; 0 if there is none.
unfoldable pub last_line_from : ℕ → ℤ → List Text → ℕ
unfolding count
last_line_from i depth [] = 0
last_line_from i depth (line ∷ lines) =
    let depth' = depth +ℤ sub_ℕ (count line (codes "{")) (count line (codes "}")) in
    let later = last_line_from (suc i) depth' lines in if eq_ℤ depth' (pos 0) then i else later

group_length : Option Match → ℕ
unfolding group_text
group_length none = 0
group_length (some m) = length (group_text 1 m)

-- `_ClassInfo.__init__`
unfoldable pub new_class_info : Text → Text → CleansedLines → ℕ → ClassInfo
unfolding text_eq re_match group_length last_line_from
new_class_info name class_or_struct clean_lines linenum =
    let is_struct = text_eq class_or_struct (codes "struct") in
    record {
      name = name;
      starting_linenum = linenum;
      is_derived = false;
      access = if is_struct then codes "public" else codes "private";
      is_struct = is_struct;
      class_indent = group_length (re_match "^( *)\\S" (get_or clean_lines.raw_lines linenum []));
      last_line = last_line_from linenum (pos 0) (drop linenum clean_lines.elided);
    }

-- How an error names a class.
unfoldable pub parent_name : ClassInfo → Text
parent_name c = (if c.is_struct then codes "struct " else codes "class ") ++ c.name

-- `CheckBegin`
check_begin_kind : Text → Kind → Kind
unfolding searches
check_begin_kind elided (class_block c) =
    class_block (if searches "(^|[^:]):($|[^:])" elided then record c { is_derived = true } else c)
check_begin_kind elided k = k

unfoldable pub check_begin : Text → Block → Block
unfolding check_begin_kind
check_begin elided b = record b { kind = check_begin_kind elided b.kind }

class_end : ℕ → ClassInfo → Option Match → List Diagnostic
unfolding group_text parent_name
class_end linenum c none = []
class_end linenum c (some m) =
    if length (group_text 1 m) == c.class_indent
    then []
    else diagnostic linenum "whitespace/indent" 3
        (codes "Closing brace should be aligned with beginning of " ++ parent_name c)
      ∷ []

-- re.escape(name): all but letters and digits is escaped.
unfoldable pub escape_pattern : Text → Text
unfolding is_alnum
escape_pattern [] = []
escape_pattern (c ∷ s) = (if is_alnum c then c ∷ [] else b'\\' ∷ c ∷ []) ++ escape_pattern s

unfoldable pub namespace_end : ℕ → Text → Text → List Diagnostic
unfolding compile match_start escape_pattern matches
namespace_end linenum name line =
    if is_nil name
    then (if matches "};*\\s*(//|/\\*).*\\bnamespace[\\*/\\.\\\\\\s]*$" line
        then []
        else diagnostic linenum "readability/namespace" 5
            (codes "Namespace should be terminated with \"// namespace\"")
          ∷ [])
    else if is_some (
        match_start
          (compile (
            codes "};*\\s*(//|/\\*).*\\bnamespace\\s+"
            ++ (escape_pattern name ++ codes "[\\*/\\.\\\\\\s]*$")))
          line)
    then []
    else diagnostic linenum "readability/namespace" 5
        (codes "Namespace should be terminated with \"// namespace " ++ (name ++ codes "\""))
      ∷ []

-- `CheckEnd`, for each class of block
check_end_kind : CleansedLines → ℕ → Kind → List Diagnostic
unfolding class_end namespace_end re_match matches
check_end_kind clean_lines linenum (class_block c) =
    class_end linenum c (re_match "^( *)\\}" (get_or clean_lines.elided linenum []))
check_end_kind clean_lines linenum (namespace_block name start) =
    let line = get_or clean_lines.raw_lines linenum [] in
    if ltb linenum (start + 10) && not (matches "};*\\s*(//|/\\*).*\\bnamespace\\b" line)
    then []
    else namespace_end linenum name line
check_end_kind clean_lines linenum plain_block = []

unfoldable pub check_end : CleansedLines → ℕ → Block → List Diagnostic
unfolding check_end_kind
check_end clean_lines linenum b = check_end_kind clean_lines linenum b.kind

-- `SeenOpenBrace`, `InNamespaceBody` and `InnermostClass`
unfoldable pub seen_open_brace : List Block → Bool
seen_open_brace [] = true
seen_open_brace (b ∷ _) = b.seen_open_brace

is_namespace : Kind → Bool
is_namespace (namespace_block _ _) = true
is_namespace _ = false

unfoldable pub in_namespace_body : List Block → Bool
unfolding is_namespace
in_namespace_body [] = false
in_namespace_body (b ∷ _) = is_namespace b.kind

unfoldable pub class_of : Kind → Option ClassInfo
class_of (class_block c) = some c
class_of _ = none

unfoldable pub innermost_class : List Block → Option ClassInfo
unfolding class_of
innermost_class [] = none
innermost_class (b ∷ bs) = elim (class_of b.kind) [ some c ↦ some c | none ↦ innermost_class bs ]

incomplete : Kind → List Diagnostic
incomplete (class_block c) =
    diagnostic c.starting_linenum "build/class" 5
      (codes "Failed to find complete declaration of class " ++ c.name)
    ∷ []
incomplete (namespace_block name start) =
    diagnostic start "build/namespaces" 5
      (codes "Failed to find complete declaration of namespace " ++ name)
    ∷ []
incomplete plain_block = []

-- `CheckCompletedBlocks`: from the outermost block inwards
unfoldable pub check_completed_blocks : List Block → List Diagnostic
unfolding incomplete
check_completed_blocks [] = []
check_completed_blocks (b ∷ bs) = check_completed_blocks bs ++ incomplete b.kind
