-- ===== src/Brackets/Close.antt =====
-- `CloseExpression` of bin/cpplint.py, from a position to the end of the expression that opens there.
use power_judge.Prelude.{
  ℕ, suc, ◌+◌, ◌-◌, ◌<◌, Option, none, some, List, [], ◌∷◌, ◌++◌, ◌≡◌, ◌≢◌, refl, ap, ◌∙◌, arith,
  length, drop, get_or, get_elem?, length-drop,
}
use power_judge.Prelude.Int.{ℤ, pos}
use power_judge.Text.{Text, concat}
use power_judge.Brackets.{
  Place, closer, find_end_from, find_end_of_expression_in_line, scan_forward, close_from,
  close_expression,
}
use power_judge.Brackets.Grammar.{
  Encloses, Stays, Stays-Encloses, Stays-append, Finds, found, missing, push_step,
  find_end_from-Finds,
}
use power_judge.Brackets.Forward.{
  FindsLine, found_line, no_line, scan_forward-FindsLine, get_elem?-drop, get_elem?-nil-lines,
  closer-ne,
}

-- An opening character, and a text that closes it.
abbrev pub IsExpression : ℕ → ℕ → Text → Type 0
IsExpression opens closes t = (s : Text) × (t ≡ opens ∷ s) × Encloses opens closes 1 s

-- Where `CloseExpression` has to point, from a position at an opening character: past the
-- expression, on the same line or on a later one; or past the file, if the expression stays open.
pub data IsClosing (opens closes linenum start : ℕ) (lines : List Text) (r : Place) : Type 0 where
  same_line :
      (p q : Text)
      → drop start (get_or lines linenum []) ≡ p ++ q
      → IsExpression opens closes p
      → r ≡ record {
        line = get_or lines linenum [];
        linenum = linenum;
        column = some (start + length p);
      }
      → IsClosing opens closes linenum start lines r
  later_line :
      (mid : List Text) (l : Text) (after : List Text) (p q : Text)
      → drop (suc linenum) lines ≡ mid ++ l ∷ after
      → l ≡ p ++ q
      → IsExpression opens closes (drop start (get_or lines linenum []) ++ (concat mid ++ p))
      → r ≡ record { line = l; linenum = suc (linenum + length mid); column = some (length p) }
      → IsClosing opens closes linenum start lines r
  unclosed :
      (s : Text) (l : ℕ)
      → drop start (get_or lines linenum []) ++ concat (drop (suc linenum) lines) ≡ opens ∷ s
      → Stays opens closes 1 s (suc l)
      → r.column ≡ none
      → r.linenum ≡ length lines
      → IsClosing opens closes linenum start lines r

module _ (lines : List Text) (linenum start opens closes : ℕ) (distinct : opens ≢ closes) where
  head_search :
      (line s : Text)
      → drop start line ≡ opens ∷ s
      → find_end_of_expression_in_line line start (pos 0) opens closes
        ≡ find_end_from opens closes (suc start) s (pos 1)
  unfolding find_end_of_expression_in_line
  head_search line s e = rw e (push_step opens closes distinct start 0 opens s refl)

  close_found :
      (line : Text) (n : ℕ) (d : ℤ)
      → find_end_of_expression_in_line line start (pos 0) opens closes ≡ (some n, d)
      → close_from lines line linenum start opens (some closes)
        ≡ record { line = line; linenum = linenum; column = some n }
  unfolding close_from
  close_found line n d e = rw (e, close_from)

  close_missing :
      (line : Text) (d : ℤ)
      → find_end_of_expression_in_line line start (pos 0) opens closes ≡ (none, d)
      → close_from lines line linenum start opens (some closes)
        ≡ scan_forward opens closes line linenum (drop (suc linenum) lines) d
  unfolding close_from
  close_missing line d e =
      rw (e, close_from)
        (ap
          (λ (r : Option ℕ × ℤ).
            scan_forward opens closes line linenum (drop (suc linenum) lines) r.1)
          e)

add_past : (a b : ℕ) → suc a + b ≡ a + suc b
add_past a b = omega arith

last_line_number : (n k l : ℕ) → n < l → k ≡ l - suc n → suc (n + k) ≡ l
last_line_number n k l h e = omega arith

module _ (lines : List Text) (linenum start opens closes : ℕ) (distinct : opens ≢ closes) where
  later_lines :
      (s : Text) (m : ℕ) (r r' : Place)
      → drop start (get_or lines linenum []) ≡ opens ∷ s
      → linenum < length lines
      → Stays opens closes 1 s m
      → r ≡ r'
      → FindsLine opens closes m linenum (drop (suc linenum) lines) r'
      → IsClosing opens closes linenum start lines r
  later_lines s m r r' head lt st e (found_line mid l after p q split halves h f) =
      later_line mid l after p q split halves
        (s ++ (concat mid ++ p), rw head refl, Stays-Encloses (concat mid ++ p) st h) (e ∙ f)
  later_lines s m r r' head lt st e (no_line l h c n) =
      unclosed (s ++ concat (drop (suc linenum) lines)) l (rw head refl)
        (Stays-append (concat (drop (suc linenum) lines)) st h) (rw e c)
        (ap (λ (x : Place). x.linenum) e
          ∙ (n ∙ last_line_number linenum _ (length lines) lt (length-drop (suc linenum) lines)))

  close_from-IsClosing :
      (s : Text)
      → drop start (get_or lines linenum []) ≡ opens ∷ s
      → linenum < length lines
      → Finds opens closes (suc start) 1 s (find_end_from opens closes (suc start) s (pos 1))
      → IsClosing opens closes linenum start lines
          (close_from lines (get_or lines linenum []) linenum start opens (some closes))
  close_from-IsClosing s head lt (found p q split h e) =
      same_line (opens ∷ p) q (head ∙ ap (◌∷◌ opens) split) (p, refl, h)
        (close_found lines linenum start opens closes distinct _ _ _
            (head_search lines linenum start opens closes distinct _ s head ∙ e)
          ∙ rw (add_past start (length p)))
  close_from-IsClosing s head lt (missing m h e) =
      later_lines s (suc m) _ _ head lt h
        (close_missing lines linenum start opens closes distinct _ _
          (head_search lines linenum start opens closes distinct _ s head ∙ e))
        (scan_forward-FindsLine opens closes distinct (drop (suc linenum) lines) m linenum _)

-- From a position at one of `(`, `[`, `{` and `<`, `CloseExpression` returns, and points past the
-- first place at which as many of its kind are closed as opened, on the same line or a later one;
-- if there is none it gives no position and the number of lines.
pub close_expression-IsClosing :
    (lines : List Text) (linenum start opens closes : ℕ)
    → get_elem? (get_or lines linenum []) start ≡ some opens
    → closer opens ≡ some closes
    → (r : Place) × (close_expression lines linenum start ≡ some r)
      × IsClosing opens closes linenum start lines r
unfolding close_expression
close_expression-IsClosing lines linenum start opens closes at kind =
    let (s, head) = get_elem?-drop (get_or lines linenum []) start opens at in
    (
      close_from lines (get_or lines linenum []) linenum start opens (some closes),
      rw (at, close_expression) (rw kind),
      close_from-IsClosing lines linenum start opens closes (closer-ne opens closes kind) s head
          (get_elem?-nil-lines lines linenum start opens at)
          (find_end_from-Finds opens closes (closer-ne opens closes kind) s (suc start) 0),
    )
