-- ===== src/Regex/Parse.antt =====
-- `re.compile`: one pass over the text of a pattern, with a stack of open groups. The source uses
-- `|`, `*`, `+`, `?`, `*?`, `+?`, `{n}`, `{n,}`, `{n,m}`, groups, `(?:`, `(?=`, `(?!`, classes, `.`, `^`, `$`,
-- `\b`, `\s`, `\S`, `\w`, `\W`, `\d` and `\1`.
use power_judge.Prelude.{
  ℕ, zero, suc, ◌+◌, ◌-◌, ◌*◌, Bool, true, false, ◌&&◌, List, [], ◌∷◌, String, ◌==◌, if◌then◌else◌,
}
use power_judge.Text.{Text, codes, is_digit}
use power_judge.Regex.Syntax.{
  Item, range, space, not_space, word, not_word, digit, Regex, chars, any_char, line_start,
  line_end, boundary, empty, broken, seq, alt, star, group, look, back,
}

pub data Open : Type 0 where
  capture : ℕ → Open
  plain : Open
  ahead : Bool → Open

-- An open group: its kind, the alternatives that are complete, and the atoms of the last one, both
-- latest first.
pub record Frame : Type 0 where
  pub kind : Open
  pub alts : List Regex
  pub atoms : List Regex

pub data Mode : Type 0 where
  normal escape opened asked quantified class_start : Mode
  -- in a class: negated, the items so far
  in_class class_escape : Bool → List Item → Mode
  -- the last item is one character, which a `-` may make a range
  after_char after_dash : Bool → ℕ → List Item → Mode
  -- `{`, the number so far, whether a comma was read
  repeat : ℕ → Bool → Mode
  -- `{n,` and the upper number so far
  repeat_to : ℕ → ℕ → Mode
  failed : Mode

pub record State : Type 0 where
  pub mode : Mode
  pub groups : ℕ
  pub top : Frame
  pub below : List Frame

seq_of : Regex → List Regex → Regex
seq_of r [] = r
seq_of r (a ∷ atoms) = seq_of (seq a r) atoms

sequence : List Regex → Regex
unfolding seq_of
sequence [] = empty
sequence (a ∷ atoms) = seq_of a atoms

alt_of : Regex → List Regex → Regex
alt_of r [] = r
alt_of r (a ∷ alts) = alt_of (alt a r) alts

body : Frame → Regex
unfolding sequence alt_of
body f = alt_of (sequence f.atoms) f.alts

new_frame : Open → Frame
new_frame k = record { kind = k; alts = []; atoms = [] }

push_atom : Regex → State → State
push_atom r p = record p { mode = normal; top = record (p.top) { atoms = r ∷ p.top.atoms } }

fail : State → State
fail p = record p { mode = failed }

close : Open → Regex → Regex
close (capture n) r = group n r
close plain r = r
close (ahead b) r = look b r

close_group : List Frame → State → State
unfolding push_atom body close fail
close_group [] p = fail p
close_group (f ∷ fs) p =
    push_atom (close p.top.kind (body p.top)) (record p { top = f; below = fs })

open_group : Open → State → State
unfolding new_frame
open_group k p = record p { mode = normal; top = new_frame k; below = p.top ∷ p.below }

-- Puts `f` of the last atom in its place.
change_atom : (Regex → Regex) → Mode → List Regex → State → State
unfolding fail
change_atom f m [] p = fail p
change_atom f m (a ∷ atoms) p = record p { mode = m; top = record (p.top) { atoms = f a ∷ atoms } }

-- A `?` behind a quantifier makes it lazy.
lazy : Regex → Regex
lazy (star b r) = star false r
lazy (seq r (star b s)) = seq r (star false s)
lazy (alt r s) = alt s r
lazy r = r

times : ℕ → Regex → Regex → Regex
times zero r last = last
times (suc n) r last = seq r (times n r last)

-- At most so many rounds, as many as there are first.
at_most : ℕ → Regex → Regex
at_most zero r = empty
at_most (suc n) r = alt (seq r (at_most n r)) empty

shorthand : ℕ → List Item
shorthand c =
    if c == b's'
    then space ∷ []
    else if c == b'S'
    then not_space ∷ []
    else if c == b'w'
    then word ∷ []
    else if c == b'W'
    then not_word ∷ []
    else if c == b'd'
    then digit ∷ []
    else if c == b't'
    then range 9 9 ∷ []
    else if c == b'n'
    then range 10 10 ∷ []
    else range c c ∷ []

read_normal : ℕ → State → State
unfolding push_atom open_group close_group change_atom
read_normal c p =
    if c == b'\\'
    then record p { mode = escape }
    else if c == b'('
    then record p { mode = opened }
    else if c == b')'
    then close_group p.below p
    else if c == b'|'
    then record p {
      mode = normal;
      top = record (p.top) { alts = sequence p.top.atoms ∷ p.top.alts; atoms = [] };
    }
    else if c == b'*'
    then change_atom (star true) quantified p.top.atoms p
    else if c == b'+'
    then change_atom (λ r. seq r (star true r)) quantified p.top.atoms p
    else if c == b'?'
    then change_atom (λ r. alt r empty) quantified p.top.atoms p
    else if c == b'['
    then record p { mode = class_start }
    else if c == b'.'
    then push_atom any_char p
    else if c == b'^'
    then push_atom line_start p
    else if c == b'$'
    then push_atom line_end p
    else push_atom (chars false (range c c ∷ [])) p

-- `{` opens a count only before a digit.
read_count : ℕ → ℕ → Bool → State → State
unfolding change_atom fail times is_digit
read_count c n comma p =
    if is_digit c
    then record p {
      mode = if comma then repeat_to n (c - b'0') else repeat (n * 10 + (c - b'0')) false;
    }
    else if c == b','
    then record p { mode = repeat n true }
    else if c == b'}'
    then change_atom (λ r. times n r (if comma then star true r else empty)) normal p.top.atoms p
    else fail p

read_upper : ℕ → ℕ → ℕ → State → State
unfolding change_atom fail times at_most is_digit
read_upper c n m p =
    if is_digit c
    then record p { mode = repeat_to n (m * 10 + (c - b'0')) }
    else if c == b'}'
    then change_atom (λ r. times n r (at_most (m - n) r)) normal p.top.atoms p
    else fail p

read_class : ℕ → Bool → List Item → State → State
unfolding push_atom
read_class c negated items p =
    if c == b']'
    then push_atom (chars negated items) p
    else if c == b'\\'
    then record p { mode = class_escape negated items }
    else record p { mode = after_char negated c items }

add_item : ℕ → List Item → List Item
add_item c items = range c c ∷ items

escaped_items : ℕ → List Item → List Item
unfolding shorthand
escaped_items c items = elim (shorthand c) [ [] ↦ items | i ∷ _ ↦ i ∷ items ]

-- One character of the pattern, in each mode.
step_in : Mode → ℕ → State → State
unfolding read_normal read_count read_upper read_class add_item escaped_items lazy new_frame
step_in normal c p = read_normal c p
step_in escape c p =
    if c == b'b'
    then push_atom boundary p
    else if is_digit c
    then push_atom (back (c - b'0')) p
    else push_atom (chars false (shorthand c)) p
step_in opened c p =
    if c == b'?'
    then record p { mode = asked }
    else read_normal c (record (open_group (capture (p.groups + 1)) p) { groups = p.groups + 1 })
step_in asked c p =
    if c == b':'
    then open_group plain p
    else if c == b'='
    then open_group (ahead true) p
    else if c == b'!'
    then open_group (ahead false) p
    else fail p
step_in quantified c p =
    if c == b'?'
    then change_atom lazy normal p.top.atoms p
    else read_normal c (record p { mode = normal })
step_in class_start c p =
    if c == b'^' then record p { mode = in_class true [] } else read_class c false [] p
step_in (in_class negated items) c p = read_class c negated items p
step_in (class_escape negated items) c p = record p {
  mode = in_class negated (escaped_items c items);
}
step_in (after_char negated a items) c p =
    if c == b'-'
    then record p { mode = after_dash negated a items }
    else read_class c negated (add_item a items) p
step_in (after_dash negated a items) c p =
    if c == b']'
    then push_atom (chars negated (add_item b'-' (add_item a items))) p
    else record p { mode = in_class negated (range a c ∷ items) }
step_in (repeat n comma) c p = read_count c n comma p
step_in (repeat_to n m) c p = read_upper c n m p
step_in failed c p = p

-- A `{` before a digit is a count, and any other `{` is itself.
starts_count : Text → Bool
starts_count [] = false
starts_count (c ∷ _) = is_digit c

is_normal : Mode → Bool
is_normal normal = true
is_normal quantified = true
is_normal _ = false

read : Text → State → State
unfolding step_in starts_count is_normal is_digit
read [] p = p
read (c ∷ s) p =
    let counts = c == b'{' && starts_count s && is_normal p.mode in
    read s (if counts then record p { mode = repeat 0 false } else step_in p.mode c p)

finish : Mode → List Frame → Frame → Regex
unfolding body
finish normal [] f = body f
finish quantified [] f = body f
finish _ _ f = broken

-- re.compile(pattern); `broken` stands for the exception.
unfoldable pub compile : Text → Regex
unfolding read finish new_frame
compile s =
    let p = read s (record { mode = normal; groups = 0; top = new_frame plain; below = [] }) in
    finish p.mode p.below p.top

unfoldable pub re : String → Regex
unfolding compile
re s = compile (codes s)
