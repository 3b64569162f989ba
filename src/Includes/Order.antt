-- ===== src/Includes/Order.antt =====
-- The sections of `_IncludeState` of bin/cpplint.py over a run of headers.
use power_judge.Prelude.{
  ℕ, ◌≤◌, ◌<◌, [], ◌≡◌, ◌≢◌, inl, inr, arith, leb, ◌==◌, if◌then◌else◌, Bool-cases,
}
use power_judge.Text.{Text}
use power_judge.Includes.{
  HeaderType, c_sys_header, cpp_sys_header, likely_my_header, possible_my_header, other_header,
  IncludeState, check_next_include_order, next_section,
}

-- The section that a header of the type belongs to, in a file that is at a section.
abbrev pub own_section : HeaderType → ℕ → ℕ
own_section c_sys_header s = 2
own_section cpp_sys_header s = 3
own_section likely_my_header s = if leb s 1 then 1 else 4
own_section possible_my_header s = if leb s 1 then 1 else 4
own_section other_header s = 4

-- A system header behind the section that it belongs to.
abbrev pub IsLate : HeaderType → ℕ → Type 0
IsLate c_sys_header s = 2 < s
IsLate cpp_sys_header s = 3 < s
IsLate _ s = ⊥

-- Either the header comes late: there is a message, the section stays, and the last header is
-- forgotten. Or there is no message, the section is the header's own and no lower than before, and
-- the last header is forgotten exactly if the section is a new one.
pub data Ordered (h : HeaderType) (st st' : IncludeState) (message : Text) : Type 0 where
  late :
      IsLate h st.section
      → message ≢ []
      → st' ≡ record st { last_header = [] }
      → Ordered h st st' message
  in_order :
      (¬ IsLate h st.section)
      → message ≡ []
      → st.section ≤ own_section h st.section
      → st'.section ≡ own_section h st.section
      → st'.headers ≡ st.headers
      → st'.last_header ≡ (if st.section == own_section h st.section then st.last_header else [])
      → Ordered h st st' message

-- For each type of header and every section up to 4, `CheckNextIncludeOrder` either meets a system
-- header behind its section: it gives a message, keeps the section and forgets the last header. Or it
-- gives no message, moves to the header's own section, which is no lower than the old one, and
-- forgets the last header exactly if the section changes.
pub check_next_include_order-Ordered :
    (h : HeaderType) (st : IncludeState)
    → st.section ≤ 4
    → Ordered h st (check_next_include_order h st).0 (check_next_include_order h st).1
unfolding check_next_include_order next_section
check_next_include_order-Ordered c_sys_header st b = elim (Bool-cases (leb st.section 2)) [
  | inl y ↦
      in_order (ground arith) (ground arith) (ground arith) (ground arith) (ground arith)
        (ground arith)
  | inr n ↦ late (ground arith) (ground arith) (ground arith)
]
check_next_include_order-Ordered cpp_sys_header st b = elim (Bool-cases (leb st.section 3)) [
  | inl y ↦
      in_order (ground arith) (ground arith) (ground arith) (ground arith) (ground arith)
        (ground arith)
  | inr n ↦ late (ground arith) (ground arith) (ground arith)
]
check_next_include_order-Ordered _ st b =
    in_order (λ l. l) (ground arith) (ground arith) (ground arith) (ground arith) (ground arith)
