-- ===== src/Nesting/Update.antt =====
-- bin/cpplint.py, `_NestingState.Update`, as the steps that it makes one after the other. The two
-- loops take a part of the line away in each round, so the length of the line bounds the rounds.

use power_judge.Prelude.{
  ℕ, zero, suc, ◌+◌, Bool, true, false, ◌&&◌, ◌||◌, not, Option, none, some, List, [], ◌∷◌, ◌++◌,
  String, ◌==◌, if◌then◌else◌, length, drop, get_or,
}
use power_judge.Prelude.Int.{ℤ, pos, sub_ℕ, ◌+ℤ◌, eq_ℤ}
use power_judge.Text.{Text, codes, text_eq, count, find}
use power_judge.Regex.Scan.{Match, group?, group_text}
use power_judge.Patterns.{re_match, matches}
use power_judge.Lint.{Diagnostic}
use power_judge.Cleanse.{CleansedLines}
use power_judge.FileChecks.{diagnostic}
use power_judge.Nesting.{
  Asm, no_asm, inside_asm, end_asm, block_asm, ClassInfo, Kind, class_block, namespace_block,
  plain_block, Block, NestingState, new_block, new_class_info, parent_name, check_begin, check_end,
}
use power_judge.Nesting.Preprocessor.{update_preprocessor}

-- `_MATCH_ASM`
abbrev pub asm_pattern : String
asm_pattern = "^\\s*(?:asm|_asm|__asm|__asm__)(?:\\s+(volatile|__volatile__))?\\s*[{(]"

-- The state of inline assembly behind a line, for the parentheses open behind it.
unfoldable pub next_asm : Asm → Bool → ℤ → Bool → Asm
next_asm inside_asm changed parentheses starts =
    if eq_ℤ parentheses (pos 0) then end_asm else inside_asm
next_asm block_asm changed parentheses starts = block_asm
next_asm _ changed parentheses starts =
    if changed && (eq_ℤ parentheses (pos 1) && starts) then inside_asm else no_asm

unfoldable pub count_parentheses : Text → List Block → List Block
unfolding count matches next_asm
count_parentheses line [] = []
count_parentheses line (b ∷ bs) =
    let change = sub_ℕ (count line (codes "(")) (count line (codes ")")) in
    let parentheses = b.open_parentheses +ℤ change in
    record b {
      open_parentheses = parentheses;
      inline_asm =
          next_asm b.inline_asm (not (eq_ℤ change (pos 0))) parentheses (matches asm_pattern line);
    }
    ∷ bs

-- A namespace and what is left of the line: behind its brace, if the line has one.
namespace_step : ℕ → Text → Text → List Block → Text × List Block
unfolding find new_block
namespace_step linenum name rest bs = elim (find rest (codes "{")) [
  | none ↦ (rest, new_block false (namespace_block name linenum) ∷ bs)
  | some i ↦ (drop (suc i) rest, new_block true (namespace_block name linenum) ∷ bs)
]

-- The loop over the namespace declarations at the beginning of the line.
unfoldable pub consume_namespaces : ℕ → ℕ → Text → List Block → Text × List Block
unfolding namespace_step re_match group? group_text
consume_namespaces zero linenum line bs = (line, bs)
consume_namespaces (suc rounds) linenum line bs =
    elim (re_match "^\\s*namespace\\b\\s*([:\\w]+)?(.*)$" line) [
      | none ↦ (line, bs)
      | some m ↦
          let step = namespace_step linenum (group_text 1 m) (group_text 2 m) bs in
          consume_namespaces rounds linenum step.0 step.1
    ]

no_parentheses : List Block → Bool
no_parentheses [] = true
no_parentheses (b ∷ _) = eq_ℤ b.open_parentheses (pos 0)

-- A class declaration in what is left of the line.
class_step : CleansedLines → ℕ → Text → List Block → Option Match → Text × List Block
unfolding no_parentheses new_block new_class_info group_text
class_step clean_lines linenum line bs none = (line, bs)
class_step clean_lines linenum line bs (some m) =
    if no_parentheses bs
    then (
      group_text 5 m,
      new_block false
            (class_block (new_class_info (group_text 4 m) (group_text 2 m) clean_lines linenum))
          ∷ bs,
    )
    else (line, bs)

unfoldable pub consume_class : CleansedLines → ℕ → Text → List Block → Text × List Block
unfolding class_step re_match
consume_class clean_lines linenum line bs = class_step clean_lines linenum line bs (
    re_match
      "\\s*(template\\s*<[\\w\\s<>,:]*>\\s*)?(class|struct)\\s+([A-Z_]+\\s+)*(\\w+(?:::\\w+)*)(([^=>]|<[^<>]*>|<[^<>]*<[^<>]*>\\s*>)*)$"
      line)

unfoldable pub begin_checks : Text → List Block → List Block
unfolding check_begin
begin_checks elided [] = []
begin_checks elided (b ∷ bs) = (if b.seen_open_brace then b else check_begin elided b) ∷ bs

access_errors : ℕ → ClassInfo → Match → List Diagnostic
unfolding group_text matches parent_name
access_errors linenum c m =
    let indent = group_text 1 m in
    if not (length indent == c.class_indent + 1) && matches "^\\s*$" indent
    then diagnostic linenum "whitespace/indent" 3 (
        group_text 2 m
        ++ (group_text 3 m ++ (codes ": should be indented +1 space inside " ++ parent_name c)))
      ∷ []
    else []

-- The access keyword of a class, and the check of its indentation.
access_step : ℕ → Block → Kind → List Block → Option Match → List Block × List Diagnostic
unfolding access_errors group_text
access_step linenum b (class_block c) bs (some m) = (
  record b { kind = class_block (record c { access = group_text 2 m }) } ∷ bs,
  access_errors linenum c m,
)
access_step linenum b k bs _ = (b ∷ bs, [])

unfoldable pub update_access : ℕ → Text → List Block → List Block × List Diagnostic
unfolding access_step re_match
update_access linenum line [] = ([], [])
update_access linenum line (b ∷ bs) =
    access_step linenum b b.kind bs
      (re_match "^(.*)\\b(public|private|protected|signals)(\\s+(?:slots\\s*)?)?:(?:[^:]|$)" line)

-- `{`: the head of a namespace or class is complete, or a plain block begins.
unfoldable pub open_brace : Bool → List Block → List Block
unfolding new_block
open_brace starts_asm [] =
    record (new_block true plain_block) { inline_asm = if starts_asm then block_asm else no_asm }
    ∷ []
open_brace starts_asm (b ∷ bs) =
    if b.seen_open_brace
    then record (new_block true plain_block) {
      inline_asm = if starts_asm then block_asm else no_asm;
    }
      ∷ b
      ∷ bs
    else record b { seen_open_brace = true } ∷ bs

-- `;` or `)`: what has no brace yet was a declaration only.
unfoldable pub end_declaration : List Block → List Block
end_declaration [] = []
end_declaration (b ∷ bs) = if b.seen_open_brace then b ∷ bs else bs

-- `}`
unfoldable pub close_brace : CleansedLines → ℕ → List Block → List Block × List Diagnostic
unfolding check_end
close_brace clean_lines linenum [] = ([], [])
close_brace clean_lines linenum (b ∷ bs) = (bs, check_end clean_lines linenum b)

unfoldable pub token_step :
    CleansedLines → ℕ → Text → Bool → List Block → List Block × List Diagnostic
unfolding open_brace end_declaration close_brace text_eq
token_step clean_lines linenum token starts_asm bs =
    if text_eq token (codes "{")
    then (open_brace starts_asm bs, [])
    else if text_eq token (codes ";") || text_eq token (codes ")")
    then (end_declaration bs, [])
    else close_brace clean_lines linenum bs

-- The loop over the braces, semicolons and closing parentheses of what is left of the line.
unfoldable pub consume_tokens :
    CleansedLines → ℕ → ℕ → Text → List Block → List Block × List Diagnostic
unfolding token_step re_match group_text matches
consume_tokens clean_lines linenum zero line bs = (bs, [])
consume_tokens clean_lines linenum (suc rounds) line bs =
    elim (re_match "^[^{;)}]*([{;)}])(.*)$" line) [
      | none ↦ (bs, [])
      | some m ↦
          let step =
            token_step clean_lines linenum (group_text 1 m) (matches asm_pattern line) bs in
          let rest = consume_tokens clean_lines linenum rounds (group_text 2 m) step.0 in
          (rest.0, step.1 ++ rest.1)
    ]

-- `Update`
unfoldable pub update : CleansedLines → ℕ → NestingState → NestingState × List Diagnostic
unfolding update_preprocessor count_parentheses consume_namespaces consume_class begin_checks
    update_access consume_tokens
update clean_lines linenum st =
    let elided = get_or clean_lines.elided linenum [] in
    let st' = update_preprocessor elided st in
    let bs = count_parentheses elided st'.stack in
    let (line, bs') = consume_namespaces (suc (length elided)) linenum elided bs in
    let (line', bs'') = consume_class clean_lines linenum line bs' in
    let (bs3, ds) = update_access linenum line' (begin_checks elided bs'') in
    let (bs4, es) = consume_tokens clean_lines linenum (suc (length line')) line' bs3 in
    (record st' { stack = bs4 }, ds ++ es)
