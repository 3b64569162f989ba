-- ===== src/Angles/Template.antt =====
-- The arguments of a template, and what `FindNextMatchingAngleBracket` of bin/cpplint.py makes of
-- the text behind a `<`.
use power_judge.Prelude.{
  ℕ, suc, Bool, true, false, List, [], ◌∷◌, ◌++◌, ◌≡◌, ◌⊎◌, inl, inr, refl, sym, ap, ◌∙◌, arith,
  append_assoc, append-nil, if◌then◌else◌, drop,
}
use power_judge.Text.{Text, concat}
use power_judge.Angles.{
  Verdict, returns, goes_on, is_operator, top_is, pop_bracket, next_operator, scan_line, scan_lines,
  find_next_matching_angle_bracket,
}

-- A text in which each bracket is closed, directly inside an angle bracket (`true`) or inside another
-- one (`false`), where `,`, `;` and a lone `>` are of no interest.
pub data Part : Bool → Text → Type 0 where
  nothing : {o : Bool} {s : Text} → s ≡ [] → Part o s
  plain :
      {o : Bool} {s : Text} (c : ℕ) (rest : Text)
      → is_operator c ≡ false
      → Part o rest
      → s ≡ c ∷ rest
      → Part o s
  ignored :
      {s : Text} (c : ℕ) (rest : Text)
      → (c ≡ b',') ⊎ (c ≡ b';') ⊎ (c ≡ b'>')
      → Part false rest
      → s ≡ c ∷ rest
      → Part false s
  angles :
      {o : Bool} {s : Text} (inner rest : Text)
      → Part true inner
      → Part o rest
      → s ≡ b'<' ∷ (inner ++ b'>' ∷ rest)
      → Part o s
  others :
      {o : Bool} {s : Text} (p q : ℕ) (inner rest : Text)
      → (p ≡ b'(') ⊎ (p ≡ b'[')
      → (q ≡ b')') ⊎ (q ≡ b']')
      → Part false inner
      → Part o rest
      → s ≡ p ∷ (inner ++ q ∷ rest)
      → Part o s

-- What the text behind a `<` says: it closes the bracket, or goes on to a further argument; or it
-- meets what no template argument holds; or it ends before.
pub data Says : Text → Bool → Type 0 where
  closes :
      {s : Text} {r : Bool} (args rest : Text) (c : ℕ)
      → Part true args
      → (c ≡ b'>') ⊎ (c ≡ b',')
      → s ≡ args ++ c ∷ rest
      → r ≡ true
      → Says s r
  stops :
      {s : Text} {r : Bool} (args rest : Text) (c : ℕ)
      → Part true args
      → (c ≡ b';') ⊎ (c ≡ b')') ⊎ (c ≡ b']')
      → s ≡ args ++ c ∷ rest
      → r ≡ false
      → Says s r
  ends : {s : Text} {r : Bool} → Part true s → r ≡ true → Says s r

-- The answer of a search, with the one for a file that ends before.
abbrev answer : Bool → Verdict → Bool
answer otherwise (returns b) = b
answer otherwise (goes_on stack) = otherwise

step_of :
    (c : ℕ) (line : Text) (stack stack' : List ℕ)
    → next_operator c stack ≡ goes_on stack'
    → is_operator c ≡ true
    → scan_line next_operator (c ∷ line) stack ≡ scan_line next_operator line stack'
unfolding scan_line
step_of c line stack stack' e o = rw (o, scan_line) (rw e refl)

open_step :
    (p : ℕ) (line : Text) (stack : List ℕ)
    → (p ≡ b'<') ⊎ (p ≡ b'(') ⊎ (p ≡ b'[')
    → scan_line next_operator (p ∷ line) stack ≡ scan_line next_operator line (p ∷ stack)
open_step p line stack h =
    step_of p line stack (p ∷ stack) (unfold next_operator in (ground (arith, h)))
      (unfold is_operator in (ground (arith, h)))

close_other :
    (p q : ℕ) (line : Text) (stack : List ℕ)
    → (p ≡ b'(') ⊎ (p ≡ b'[')
    → (q ≡ b')') ⊎ (q ≡ b']')
    → scan_line next_operator (q ∷ line) (p ∷ stack) ≡ scan_line next_operator line stack
close_other p q line stack h k =
    step_of q line (p ∷ stack) stack
      (unfold next_operator top_is pop_bracket in (ground (arith, h, k)))
      (unfold is_operator in (ground (arith, k)))

close_angle :
    (line : Text) (stack : List ℕ)
    → scan_line next_operator (b'>' ∷ line) (b'<' ∷ stack) ≡ scan_line next_operator line stack
unfolding scan_line next_operator top_is pop_bracket is_operator
close_angle line stack = refl

pass_ignored :
    (c : ℕ) (line : Text) (stack : List ℕ)
    → (c ≡ b',') ⊎ (c ≡ b';') ⊎ (c ≡ b'>')
    → top_is b'<' stack ≡ false
    → scan_line next_operator (c ∷ line) stack ≡ scan_line next_operator line stack
pass_ignored c line stack h t =
    step_of c line stack stack (unfold next_operator in (ground (arith, h, t)))
      (unfold is_operator in (ground (arith, h)))

pass_plain :
    (c : ℕ) (line : Text) (stack : List ℕ)
    → is_operator c ≡ false
    → scan_line next_operator (c ∷ line) stack ≡ scan_line next_operator line stack
unfolding scan_line
pass_plain c line stack h = rw (h, scan_line) refl

-- A part changes nothing.
Part-scan :
    {o : Bool} {s : Text}
    → Part o s
    → (t : Text) (stack : List ℕ) → top_is b'<' stack ≡ o
    → scan_line next_operator (s ++ t) stack ≡ scan_line next_operator t stack
unfolding top_is
Part-scan (nothing e) t stack h = rw e refl
Part-scan (plain c rest n p e) t stack h =
    rw e (pass_plain c (rest ++ t) stack n ∙ Part-scan p t stack h)
Part-scan (ignored c rest n p e) t stack h =
    rw e (pass_ignored c (rest ++ t) stack n h ∙ Part-scan p t stack h)
Part-scan (angles inner rest i p e) t stack h = rw e (
    rw append_assoc (
      open_step b'<' (inner ++ b'>' ∷ (rest ++ t)) stack (inl refl)
      ∙ Part-scan i (b'>' ∷ (rest ++ t)) (b'<' ∷ stack) refl
      ∙ close_angle (rest ++ t) stack
      ∙ Part-scan p t stack h))
Part-scan (others p q inner rest hp hq i r e) t stack h = rw e (
    rw append_assoc (
      open_step p (inner ++ q ∷ (rest ++ t)) stack (inr hp)
      ∙ Part-scan i (q ∷ (rest ++ t)) (p ∷ stack) (ground (arith, hp))
      ∙ close_other p q (rest ++ t) stack hp hq
      ∙ Part-scan r t stack h))

-- A search goes on behind a line as if the next line stood on the same.
continue : (ℕ → List ℕ → Verdict) → Text → Verdict → Verdict
unfolding scan_line
continue step t (returns b) = returns b
continue step t (goes_on stack) = scan_line step t stack

scan_line-cons :
    (step : ℕ → List ℕ → Verdict) (c : ℕ) (s : Text) (stack : List ℕ)
    → scan_line step (c ∷ s) stack
      ≡ continue step s (if is_operator c then step c stack else goes_on stack)
unfolding scan_line continue
scan_line-cons step c s stack = ground arith

continue-append :
    (step : ℕ → List ℕ → Verdict) (s t : Text) (v : Verdict)
    → ((stack : List ℕ) → scan_line step (s ++ t) stack ≡ continue step t (scan_line step s stack))
    → continue step (s ++ t) v ≡ continue step t (continue step s v)
unfolding continue
continue-append step s t (returns b) h = refl
continue-append step s t (goes_on stack) h = h stack

scan_line-append :
    (step : ℕ → List ℕ → Verdict) (s t : Text) (stack : List ℕ)
    → scan_line step (s ++ t) stack ≡ continue step t (scan_line step s stack)
unfolding scan_line continue
scan_line-append step [] t stack = refl
scan_line-append step (c ∷ s) t stack =
    let v : Verdict = if is_operator c then step c stack else goes_on stack in
    scan_line-cons step c (s ++ t) stack
    ∙ continue-append step s t v (scan_line-append step s t)
    ∙ ap (continue step t) (sym (scan_line-cons step c s stack))

answer-continue :
    (step : ℕ → List ℕ → Verdict) (otherwise : Bool) (lines : List Text) (v : Verdict)
    → ((stack : List ℕ)
        → scan_lines step otherwise lines stack
          ≡ answer otherwise (scan_line step (concat lines) stack))
    → (elim v [ returns b ↦ b | goes_on stack ↦ scan_lines step otherwise lines stack ])
      ≡ answer otherwise (continue step (concat lines) v)
unfolding continue
answer-continue step otherwise lines (returns b) h = refl
answer-continue step otherwise lines (goes_on stack) h = h stack

scan_lines-answer :
    (step : ℕ → List ℕ → Verdict) (otherwise : Bool) (lines : List Text) (stack : List ℕ)
    → scan_lines step otherwise lines stack ≡ answer otherwise (scan_line step (concat lines) stack)
unfolding scan_lines scan_line
scan_lines-answer step otherwise [] stack = refl
scan_lines-answer step otherwise (line ∷ lines) stack =
    answer-continue step otherwise lines (scan_line step line stack)
      (scan_lines-answer step otherwise lines)
    ∙ ap (answer otherwise) (sym (scan_line-append step line (concat lines) stack))

returns_true :
    (c : ℕ) (rest : Text)
    → (c ≡ b'>') ⊎ (c ≡ b',')
    → scan_line next_operator (c ∷ rest) [] ≡ returns true
unfolding scan_line next_operator top_is pop_bracket is_operator
returns_true c rest (inl e) = rw e refl
returns_true c rest (inr e) = rw e refl

returns_false :
    (c : ℕ) (rest : Text)
    → (c ≡ b';') ⊎ (c ≡ b')') ⊎ (c ≡ b']')
    → scan_line next_operator (c ∷ rest) [] ≡ returns false
unfolding scan_line next_operator top_is pop_bracket is_operator
returns_false c rest (inl e) = rw e refl
returns_false c rest (inr (inl e)) = rw e refl
returns_false c rest (inr (inr e)) = rw e refl

Says-answer : {s : Text} {r : Bool} → Says s r → answer true (scan_line next_operator s []) ≡ r
unfolding top_is scan_line
Says-answer (closes args rest c p k e q) =
    rw (e, q) (ap (answer true) (Part-scan p (c ∷ rest) [] refl ∙ returns_true c rest k))
Says-answer (stops args rest c p k e q) =
    rw (e, q) (ap (answer true) (Part-scan p (c ∷ rest) [] refl ∙ returns_false c rest k))
Says-answer {s = s} (ends p q) = rw q (
    ap (answer true)
      (ap (λ t. scan_line next_operator t []) (sym (append-nil s)) ∙ Part-scan p [] [] refl))

-- Where the text behind a `<`, over the lines, is made of the arguments of a template and then closes
-- the bracket, goes on with a `,`, or ends, `FindNextMatchingAngleBracket` gives true; where it meets
-- a `;` or a bracket that is not open in it, it gives false.
pub find_next_matching_angle_bracket-Says :
    (elided : List Text) (linenum : ℕ) (init_suffix : Text) (r : Bool)
    → Says (init_suffix ++ concat (drop (suc linenum) elided)) r
    → find_next_matching_angle_bracket elided linenum init_suffix ≡ r
unfolding find_next_matching_angle_bracket
find_next_matching_angle_bracket-Says elided linenum init_suffix r h =
    scan_lines-answer next_operator true (init_suffix ∷ drop (suc linenum) elided) []
    ∙ Says-answer h
