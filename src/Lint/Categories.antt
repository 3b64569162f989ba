-- ===== src/Lint/Categories.antt =====
-- bin/cpplint.py, `_ERROR_CATEGORIES` and `_DEFAULT_FILTERS`.
use power_judge.Prelude.{String, List, [], ◌∷◌, map}
use power_judge.Text.{Text, codes}

abbrev pub category_names : List String
category_names =
    "build/class" ∷ "build/deprecated" ∷ "build/endif_comment" ∷ "build/explicit_make_pair"
    ∷ "build/forward_decl" ∷ "build/header_guard" ∷ "build/include" ∷ "build/include_alpha"
    ∷ "build/include_order" ∷ "build/include_what_you_use" ∷ "build/namespaces"
    ∷ "build/printf_format" ∷ "build/storage_class" ∷ "legal/copyright" ∷ "readability/alt_tokens"
    ∷ "readability/braces" ∷ "readability/casting" ∷ "readability/check"
    ∷ "readability/constructors" ∷ "readability/fn_size" ∷ "readability/function"
    ∷ "readability/multiline_comment" ∷ "readability/multiline_string" ∷ "readability/namespace"
    ∷ "readability/nolint" ∷ "readability/nul" ∷ "readability/streams" ∷ "readability/todo"
    ∷ "readability/utf8" ∷ "runtime/arrays" ∷ "runtime/casting" ∷ "runtime/explicit" ∷ "runtime/int"
    ∷ "runtime/init" ∷ "runtime/invalid_increment" ∷ "runtime/member_string_references"
    ∷ "runtime/memset" ∷ "runtime/operator" ∷ "runtime/printf" ∷ "runtime/printf_format"
    ∷ "runtime/references" ∷ "runtime/string" ∷ "runtime/threadsafe_fn" ∷ "runtime/vlog"
    ∷ "whitespace/blank_line" ∷ "whitespace/braces" ∷ "whitespace/comma" ∷ "whitespace/comments"
    ∷ "whitespace/empty_conditional_body" ∷ "whitespace/empty_loop_body" ∷ "whitespace/end_of_line"
    ∷ "whitespace/ending_newline" ∷ "whitespace/forcolon" ∷ "whitespace/indent"
    ∷ "whitespace/line_length" ∷ "whitespace/newline" ∷ "whitespace/operators" ∷ "whitespace/parens"
    ∷ "whitespace/semicolon" ∷ "whitespace/tab" ∷ "whitespace/todo" ∷ []

abbrev pub error_categories : List Text
error_categories = map codes category_names

abbrev pub default_filters : List Text
default_filters = codes "-build/include_alpha" ∷ []
