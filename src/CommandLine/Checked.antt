-- ===== src/CommandLine/Checked.antt =====
-- What holds when `ParseArguments` returns.
use power_judge.Prelude.{
  ℕ, Bool, true, false, Option, none, some, List, [], ◌∷◌, ◌≡◌, ◌⊎◌, inl, inr, refl, subst,
  if◌then◌else◌, is_nil, Bool-cases,
}
use power_judge.Text.{Text, codes, text_eq, text_in}
use power_judge.Lint.{Linter, set_output_format, set_verbose_level, set_filters, set_counting_style}
use power_judge.Lint.Filters.{AllSigned}
use power_judge.Lint.Flags.{set_filters-AllSigned}
use power_judge.CommandLine.{
  Stop, Run, stopped, going, ◌>>=◌, Globals, Arguments, output_formats, counting_styles, set_output,
  set_verbosity, set_filter, set_counting, set_line_length, parse_option, parse_options,
  filters_set, apply_arguments, new_arguments, parse_arguments,
}

-- Whatever the run goes on with has the property.
data Holds {A : Type 0} (P : A → Type 0) : Run A → Type 0 where
  ended : (s : Stop) → Holds P (stopped s)
  goes : {a : A} → P a → Holds P (going a)

result : {A : Type 0} (P : A → Type 0) {a : A} → Holds P (going a) → P a
result P (goes h) = h

if-Holds :
    {A : Type 0} (P : A → Type 0) (b : Bool) (x y : Run A)
    → (b ≡ true → Holds P x)
    → Holds P y
    → Holds P (if b then x else y)
if-Holds P true x y h k = h refl
if-Holds P false x y h k = k

bind-Holds :
    {A B : Type 0} (Q : A → Type 0) (P : B → Type 0) {m : Run A} (f : A → Run B)
    → Holds Q m
    → ((a : A) → Q a → Holds P (f a))
    → Holds P (m >>= f)
bind-Holds Q P f (ended s) k = ended s
bind-Holds Q P f (goes {a = a} h) k = k a h

-- The output format is a known one, and the way of counting is a known one or none.
IsKnown : Text → Text → Type 0
IsKnown format counting =
    (text_in format output_formats ≡ true)
    × ((counting ≡ []) ⊎ (text_in counting counting_styles ≡ true))

Known : Arguments → Type 0
unfolding IsKnown
Known args = IsKnown args.output_format args.counting_style

set_output-Known : (val : Text) (args : Arguments) → Known args → Holds Known (set_output val args)
unfolding set_output Known
set_output-Known val args known =
    if-Holds Known (text_in val output_formats) _ _ (λ t. goes (t, known.1)) (ended _)

set_counting-Known :
    (val : Text) (args : Arguments) → Known args → Holds Known (set_counting val args)
unfolding set_counting Known
set_counting-Known val args known =
    if-Holds Known (text_in val counting_styles) _ _ (λ t. goes (known.0, inr t)) (ended _)

set_filter-Known : (val : Text) (args : Arguments) → Known args → Holds Known (set_filter val args)
unfolding set_filter Known
set_filter-Known val args known = if-Holds Known (is_nil val) _ _ (λ t. ended _) (goes known)

set_verbosity-Known :
    (level : Option ℕ) (args : Arguments) → Known args → Holds Known (set_verbosity level args)
unfolding set_verbosity Known
set_verbosity-Known none args known = ended _
set_verbosity-Known (some level) args known = goes known

set_line_length-Holds :
    (n : Option ℕ) (globals : Globals) → Holds (λ _. Unit) (set_line_length n globals)
unfolding set_line_length
set_line_length-Holds none globals = ended _
set_line_length-Holds (some n) globals = goes tt

parse_option-Known :
    (int : Text → Option ℕ) (opt val : Text) (globals : Globals) (args : Arguments)
    → Known args
    → Holds (λ (s : Globals × Arguments). Known s.1) (parse_option int opt val (globals, args))
unfolding parse_option Known
parse_option-Known int opt val globals args known =
    let P : Globals × Arguments → Type 0 = λ s. Known s.1 in
    elim (Bool-cases (text_eq opt (codes "--help"))) [
      | inl here ↦ rw here (ended _)
      | inr not0 ↦ elim (Bool-cases (text_eq opt (codes "--output"))) [
        | inl here ↦
            rw (not0, here) (bind-Holds Known P _ (set_output-Known val args known) (λ a k. goes k))
        | inr not1 ↦ elim (Bool-cases (text_eq opt (codes "--verbose"))) [
          | inl here ↦
              rw (not0, not1, here)
                (bind-Holds Known P _ (set_verbosity-Known (int val) args known) (λ a k. goes k))
          | inr not2 ↦ elim (Bool-cases (text_eq opt (codes "--filter"))) [
            | inl here ↦
                rw (not0, not1, not2, here)
                  (bind-Holds Known P _ (set_filter-Known val args known) (λ a k. goes k))
            | inr not3 ↦ elim (Bool-cases (text_eq opt (codes "--counting"))) [
              | inl here ↦
                  rw (not0, not1, not2, not3, here)
                    (bind-Holds Known P _ (set_counting-Known val args known) (λ a k. goes k))
              | inr not4 ↦ elim (Bool-cases (text_eq opt (codes "--root"))) [
                | inl here ↦ rw (not0, not1, not2, not3, not4, here) (goes known)
                | inr not5 ↦ elim (Bool-cases (text_eq opt (codes "--linelength"))) [
                  | inl here ↦
                      rw (not0, not1, not2, not3, not4, not5, here)
                        (bind-Holds (λ _. Unit) P _ (set_line_length-Holds (int val) globals)
                          (λ a _. goes known))
                  | inr not6 ↦ elim (Bool-cases (text_eq opt (codes "--extensions"))) [
                    | inl here ↦ rw (not0, not1, not2, not3, not4, not5, not6, here) (goes known)
                    | inr not7 ↦ rw (not0, not1, not2, not3, not4, not5, not6, not7) (goes known)
                  ]
                ]
              ]
            ]
          ]
        ]
      ]
    ]

parse_options-Known :
    (int : Text → Option ℕ) (opts : List (Text × Text)) (globals : Globals) (args : Arguments)
    → Known args
    → Holds (λ (s : Globals × Arguments). Known s.1) (parse_options int opts (globals, args))
unfolding parse_options
parse_options-Known int [] globals args known = goes known
parse_options-Known int ((opt, val) ∷ opts) globals args known =
    bind-Holds (λ (s : Globals × Arguments). Known s.1) (λ (s : Globals × Arguments). Known s.1) _
      (parse_option-Known int opt val globals args known)
      (λ s k. parse_options-Known int opts s.0 s.1 k)

-- The state that `ParseArguments` leaves: a known output format, a known way of counting or none,
-- and filters that all have a sign.
pub record IsConfigured (linter : Linter) : Type 0 where
  pub format : text_in linter.output_format output_formats ≡ true
  pub counting : (linter.counting ≡ []) ⊎ (text_in linter.counting counting_styles ≡ true)
  pub signed : AllSigned linter.filters

filters_set-Holds :
    (r : Linter × Option Text) (P : Linter → Type 0)
    → (r.1 ≡ none → P r.0)
    → Holds P (filters_set r)
unfolding filters_set
filters_set-Holds (linter, none) P h = goes (h refl)
filters_set-Holds (linter, some message) P h = ended _

apply_arguments-Holds :
    (args : Arguments) (linter : Linter)
    → Known args
    → Holds IsConfigured (apply_arguments args linter)
unfolding apply_arguments set_filters set_output_format set_verbose_level set_counting_style Known
apply_arguments-Holds args linter known =
    let started =
      (set_verbose_level args.verbosity (set_output_format args.output_format linter)).1 in
    bind-Holds (λ (l : Linter). (l.output_format ≡ args.output_format) × AllSigned l.filters)
      IsConfigured _
      (filters_set-Holds (set_filters args.filters started) _
        (λ none_raised. (refl, set_filters-AllSigned args.filters started none_raised)))
      (λ l k. goes (record { format = rw k.0 known.0; counting = known.1; signed = k.1 }))

parse_arguments-Holds :
    (int : Text → Option ℕ) (arguments : Option (List (Text × Text) × List Text))
    (globals : Globals)
    → text_in globals.linter.output_format output_formats ≡ true
    → Holds
        (λ (r : List Text × Globals). (is_nil r.0 ≡ false) × IsConfigured r.1.linter)
        (parse_arguments int arguments globals)
unfolding parse_arguments new_arguments Known
parse_arguments-Holds int none globals known = ended _
parse_arguments-Holds int (some (opts, [])) globals known =
    bind-Holds (λ (s : Globals × Arguments). Known s.1) _ _
      (parse_options-Known int opts globals (new_arguments globals.linter) (known, inl refl))
      (λ s k. ended _)
parse_arguments-Holds int (some (opts, f ∷ fs)) globals known =
    bind-Holds (λ (s : Globals × Arguments). Known s.1) _ _
      (parse_options-Known int opts globals (new_arguments globals.linter) (known, inl refl))
      (λ s k.
        bind-Holds IsConfigured _ _ (apply_arguments-Holds s.1 s.0.linter k)
          (λ l c. goes (refl, c)))

-- If the output format is a known one before, then wherever `ParseArguments` returns, at least one
-- file is named, the output format is one of the three known ones, the way of counting is one of the
-- three known ones or empty, and all filters have a sign.
pub parse_arguments-IsConfigured :
    (int : Text → Option ℕ) (arguments : Option (List (Text × Text) × List Text))
    (globals : Globals) (filenames : List Text) (globals' : Globals)
    → text_in globals.linter.output_format output_formats ≡ true
    → parse_arguments int arguments globals ≡ going (filenames, globals')
    → (is_nil filenames ≡ false) × IsConfigured globals'.linter
parse_arguments-IsConfigured int arguments globals filenames globals' known e =
    result (λ (r : List Text × Globals). (is_nil r.0 ≡ false) × IsConfigured r.1.linter)
      (subst (Holds (λ (r : List Text × Globals). (is_nil r.0 ≡ false) × IsConfigured r.1.linter)) e
        (parse_arguments-Holds int arguments globals known))
