-- ===== src/Lint.antt =====
-- bin/cpplint.py, the module-wide state: `_CppLintState`, `_error_suppressions`, the NOLINT
-- comments, and `Error`, which decides what is printed. A check of the other modules returns the
-- calls that it makes of its `error` argument, in order, as a list of `Diagnostic`.
pub mod Categories
pub mod Report
pub mod Filters
pub mod Reporting
pub mod Flags
pub mod Counts
pub mod Nolint
use mathlib.Core.Option
use power_judge.Prelude.{
  ℕ, suc, ◌+◌, ◌-◌, Bool, true, false, ◌&&◌, ◌||◌, not, Option, none, some, List, [], ◌∷◌, ◌++◌,
  ltb, ◌==◌, if◌then◌else◌, length, take, drop, is_nil, any,
}
use power_judge.Text.{Text, codes, text_eq, text_in, starts_with, ends_with, split, strip, decimal}
use power_judge.Regex.Scan.{Match, group?}
use power_judge.Patterns.{re_search}
use power_judge.Lint.Categories.{error_categories, default_filters}

-- One call `error(filename, linenum, category, confidence, message)`.
pub record Diagnostic : Type 0 where
  pub linenum : ℕ
  pub category : Text
  pub confidence : ℕ
  pub message : Text

-- `_error_suppressions`, a dict of sets of lines, as the pairs of a key and a line; the key `none`
-- is for all categories.
abbrev pub Suppressions : Type 0
Suppressions = List (Option Text × ℕ)

-- `_CppLintState`, `_error_suppressions` and what went to stderr, last line first.
pub record Linter : Type 0 where
  pub verbose_level : ℕ
  pub error_count : ℕ
  pub filters : List Text
  pub counting : Text
  pub errors_by_category : List (Text × ℕ)
  pub output_format : Text
  pub suppressions : Suppressions
  pub stderr : List Text

-- `_CppLintState.__init__`
unfoldable pub initial_linter : Linter
initial_linter = record {
  verbose_level = 1;
  error_count = 0;
  filters = default_filters;
  counting = codes "total";
  errors_by_category = [];
  output_format = codes "emacs";
  suppressions = [];
  stderr = [];
}

same_key : Option Text → Option Text → Bool
unfolding text_eq
same_key none none = true
same_key (some a) (some b) = text_eq a b
same_key _ _ = false

-- linenum in _error_suppressions.get(key, set())
pub suppresses : Option Text → ℕ → Suppressions → Bool
unfolding same_key
suppresses key linenum sup = any (λ (p : Option Text × ℕ). same_key p.0 key && p.1 == linenum) sup

-- `ResetNolintSuppressions`
unfoldable pub reset_nolint_suppressions : Linter → Linter
reset_nolint_suppressions st = record st { suppressions = [] }

-- The category of a NOLINT comment, or all of them: what `ParseNolintSuppressions` does with
-- `matched.group(1)`.
unfoldable pub nolint_category : ℕ → Option Text → Suppressions → Suppressions × List Diagnostic
unfolding text_eq text_in starts_with ends_with
nolint_category linenum none sup = ((none, linenum) ∷ sup, [])
nolint_category linenum (some category) sup =
    if text_eq category (codes "(*)")
    then ((none, linenum) ∷ sup, [])
    else if starts_with category (codes "(") && ends_with category (codes ")")
    then (let inner = take (length category - 2) (drop 1 category) in
        if text_in inner error_categories then ((some inner, linenum) ∷ sup, []) else (
          sup,
          record {
            linenum = linenum;
            category = codes "readability/nolint";
            confidence = 5;
            message = codes "Unknown NOLINT error category: " ++ inner;
          }
              ∷ [],
        ))
    else (sup, [])

nolint_match : ℕ → Option Match → Suppressions → Suppressions × List Diagnostic
unfolding nolint_category group?
nolint_match linenum none sup = (sup, [])
nolint_match linenum (some m) sup = nolint_category linenum (group? 1 m) sup

-- `ParseNolintSuppressions`: the new suppressions, and the error it reports.
unfoldable pub parse_nolint_suppressions : Text → ℕ → Suppressions → Suppressions × List Diagnostic
unfolding re_search nolint_match
parse_nolint_suppressions raw_line linenum sup =
    nolint_match linenum (re_search "\\bNOLINT\\b(\\([^)]*\\))?" raw_line) sup

-- `IsErrorSuppressedByNolint`
unfoldable pub is_error_suppressed_by_nolint : Text → ℕ → Suppressions → Bool
unfolding suppresses
is_error_suppressed_by_nolint category linenum sup =
    suppresses (some category) linenum sup || suppresses none linenum sup

-- `SetOutputFormat`, `SetVerboseLevel` (with the previous level) and `SetCountingStyle`
unfoldable pub set_output_format : Text → Linter → Linter
set_output_format f st = record st { output_format = f }

unfoldable pub set_verbose_level : ℕ → Linter → ℕ × Linter
set_verbose_level level st = (st.verbose_level, record st { verbose_level = level })

unfoldable pub set_counting_style : Text → Linter → Linter
set_counting_style style st = record st { counting = style }

-- filt.startswith('+') or filt.startswith('-')
unfoldable pub has_sign : Text → Bool
unfolding starts_with
has_sign f = starts_with f (codes "+") || starts_with f (codes "-")

-- The parts of a filter flag that are appended.
unfoldable pub clean_filters : List Text → List Text
unfolding strip
clean_filters [] = []
clean_filters (f ∷ fs) =
    let rest = clean_filters fs in if is_nil (strip f) then rest else strip f ∷ rest

-- The message of the `ValueError`, for the first filter with no sign.
unfoldable pub first_unsigned : List Text → Option Text
unfolding has_sign
first_unsigned [] = none
first_unsigned (f ∷ fs) =
    let rest = first_unsigned fs in
    if has_sign f
    then rest
    else some
        (codes "Every filter in --filters must start with + or - (" ++ (f ++ codes " does not)"))

-- `SetFilters`: the new state and the `ValueError`, if one is raised. The filters are set either way.
unfoldable pub set_filters : Text → Linter → Linter × Option Text
unfolding clean_filters first_unsigned split
set_filters flags st =
    let fs = default_filters ++ clean_filters (split flags b',') in
    (record st { filters = fs }, first_unsigned fs)

-- `ResetErrorCounts`
unfoldable pub reset_error_counts : Linter → Linter
reset_error_counts st = record st { error_count = 0; errors_by_category = [] }

-- d[category] += 1, on a dict in which a missing key counts as 0
unfoldable pub bump : Text → List (Text × ℕ) → List (Text × ℕ)
unfolding text_eq
bump c [] = (c, 1) ∷ []
bump c ((d, n) ∷ m) = if text_eq d c then (d, n + 1) ∷ m else (d, n) ∷ bump c m

before_slash : List Text → Text
before_slash [] = []
before_slash (w ∷ _) = w

-- The key under which an error is counted.
unfoldable pub counted_category : Text → Text → Text
unfolding text_eq split before_slash
counted_category counting category =
    if text_eq counting (codes "detailed") then category else before_slash (split category b'/')

-- Whether errors are counted by category.
unfoldable pub by_category : Text → Bool
unfolding text_in
by_category counting = text_in counting (codes "toplevel" ∷ codes "detailed" ∷ [])

-- `IncrementErrorCount`
unfoldable pub increment_error_count : Text → Linter → Linter
increment_error_count category st =
    if by_category st.counting
    then record st {
      error_count = st.error_count + 1;
      errors_by_category = bump (counted_category st.counting category) st.errors_by_category;
    }
    else record st { error_count = st.error_count + 1 }

-- `PrintErrorCounts`, in the order of the model's dict
category_lines : List (Text × ℕ) → List Text
unfolding decimal
category_lines [] = []
category_lines ((c, n) ∷ m) =
    (codes "Category '" ++ (c ++ (codes "' errors found: " ++ (decimal n ++ codes "\n"))))
    ∷ category_lines m

unfoldable pub print_error_counts : Linter → List Text
unfolding category_lines
print_error_counts st =
    category_lines st.errors_by_category
    ++ (codes "Total errors found: " ++ (decimal st.error_count ++ codes "\n")) ∷ []
