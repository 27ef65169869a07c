-- ===== src/Cadical/AuxFile.antt =====
-- cadical/src/parse.cpp, `Parser::parse_aux`, and cadical/src/external.cpp, `add_aux` and `is_aux`:
-- the list of variables that the solver must not decide. The input is a list of bytes, and reading
-- past its end gives EOF again and again. The loop runs on fuel.
pub mod Numbers
mod Lines
mod Complete
pub mod Reads
pub mod RoundTrip
mod Tests
use ignore_gates.Prelude.{
  ℕ, zero, suc, ◌+◌, ◌-◌, ◌*◌, ◌/◌, Bool, true, false, ◌&&◌, ◌||◌, Option, none, some, List, [],
  ◌∷◌, ◌++◌, ◌==◌, ltb, leb, if◌then◌else◌, elem, length,
}
use ignore_gates.Features.GateReport.{Bytes}

-- The gate types that the file may name.
pub data Kind : Type 0 where
  eqv def ite and_kind xor_kind ful or_kind tri gen : Kind

-- The counters NUM_EQV to NUM_GEN.
pub record KindCounts : Type 0 where
  pub num_eqv : ℕ
  pub num_def : ℕ
  pub num_ite : ℕ
  pub num_and : ℕ
  pub num_xor : ℕ
  pub num_ful : ℕ
  pub num_or : ℕ
  pub num_tri : ℕ
  pub num_gen : ℕ

abbrev pub no_kinds : KindCounts
no_kinds = record {
  num_eqv = 0;
  num_def = 0;
  num_ite = 0;
  num_and = 0;
  num_xor = 0;
  num_ful = 0;
  num_or = 0;
  num_tri = 0;
  num_gen = 0;
}

abbrev pub count_kind : KindCounts → Option Kind → KindCounts
count_kind c none = c
count_kind c (some eqv) = record c { num_eqv = suc c.num_eqv }
count_kind c (some def) = record c { num_def = suc c.num_def }
count_kind c (some ite) = record c { num_ite = suc c.num_ite }
count_kind c (some and_kind) = record c { num_and = suc c.num_and }
count_kind c (some xor_kind) = record c { num_xor = suc c.num_xor }
count_kind c (some ful) = record c { num_ful = suc c.num_ful }
count_kind c (some or_kind) = record c { num_or = suc c.num_or }
count_kind c (some tri) = record c { num_tri = suc c.num_tri }
count_kind c (some gen) = record c { num_gen = suc c.num_gen }

-- The set `aux` of `External`, as a list without repetition.
abbrev pub add_aux : List ℕ → ℕ → List ℕ
add_aux aux lit = if elem lit aux then aux else aux ++ (lit ∷ [])

-- `is_aux`: the test, and whether NUM_AUX_DETECTED goes up.
abbrev pub is_aux : List ℕ → ℕ → Bool
is_aux aux elit = elem elit aux

pub data AuxError : Type 0 where
  too_large : AuxError
  syntax_error : ℕ → AuxError
  invalid_gate_type : ℕ → AuxError

pub record AuxState : Type 0 where
  pub aux : List ℕ
  pub num_parsed : ℕ
  pub current_line : ℕ
  pub kinds : KindCounts

pub data AuxResult : Type 0 where
  parsed : AuxState → AuxResult
  failed : AuxError → AuxResult
  out_of_fuel : AuxResult

abbrev pub int_max : ℕ
int_max = 2147483647

abbrev pub is_digit : ℕ → Bool
is_digit c = leb b'0' c && leb c b'9'

-- The loop of `parse_positive_int`: the value, and the input past the first byte that is no digit.
-- `none` is the parse error.
pub parse_digits : ℕ → Bytes → Option (ℕ × Bytes)
parse_digits res [] = some (res, [])
parse_digits res (c ∷ input) =
    let digit = c - b'0' in
    let rest = parse_digits (10 * res + digit) input in
    if is_digit c
    then (if ltb (int_max / 10) res || ltb (int_max - digit) (10 * res) then none else rest)
    else some (res, input)

-- `parse_positive_int`, where `ch` is a digit.
unfoldable pub parse_positive_int : ℕ → Bytes → Option (ℕ × Bytes)
unfolding parse_digits
parse_positive_int ch input = parse_digits (ch - b'0') input

-- `parse_char() == a && parse_char() == b`
abbrev match_two : ℕ → ℕ → Bytes → Option Bytes
match_two a b (x ∷ y ∷ input) = if x == a && y == b then some input else none
match_two a b _ = none

abbrev match_one : ℕ → Bytes → Option Bytes
match_one a (x ∷ input) = if x == a then some input else none
match_one a [] = none

abbrev with_kind : Kind → Option Bytes → Option (Option Kind × Bytes)
with_kind k none = none
with_kind k (some input) = some (some k, input)

-- The `switch` on the next byte: `none` is the error for an invalid gate type.
pub parse_kind : Bytes → Option (Option Kind × Bytes)
parse_kind [] = some (none, [])
parse_kind (ch ∷ input) =
    if ch == b'A'
    then with_kind and_kind (match_two b'N' b'D' input)
    else if ch == b'F'
    then with_kind ful (match_two b'U' b'L' input)
    else if ch == b'O'
    then with_kind or_kind (match_one b'R' input)
    else if ch == b'T'
    then with_kind tri (match_two b'R' b'I' input)
    else if ch == b'G'
    then with_kind gen (match_two b'E' b'N' input)
    else if ch == b'E'
    then with_kind eqv (match_two b'Q' b'V' input)
    else if ch == b'X'
    then with_kind xor_kind (match_two b'O' b'R' input)
    else if ch == b'D'
    then with_kind def (match_two b'E' b'F' input)
    else if ch == b'I'
    then with_kind ite (match_two b'T' b'E' input)
    else some (none, input)

-- One entry, from its first digit to the end of its line.
pub data Entry : Type 0 where
  entry : AuxState → Bytes → Entry
  bad : AuxError → Entry

end_line : AuxState → Option Kind → Bytes → Entry
end_line s kind [] = bad (invalid_gate_type s.current_line)
end_line s kind (c ∷ input) =
    if c == b'\n'
    then entry (record s { kinds = count_kind s.kinds kind; current_line = suc s.current_line })
        input
    else bad (invalid_gate_type s.current_line)

pub parse_entry : AuxState → ℕ → Bytes → Entry
unfolding end_line parse_kind parse_positive_int
parse_entry s ch input = elim (parse_positive_int ch input) [
  | none ↦ bad too_large
  | some (v, rest) ↦
      let t = record s { aux = add_aux s.aux v; num_parsed = suc s.num_parsed } in
      elim (parse_kind rest) [
        | none ↦ bad (invalid_gate_type t.current_line)
        | some (kind, later) ↦ end_line t kind later
      ]
]

pub parse_aux_loop : ℕ → AuxState → Bytes → AuxResult
unfolding parse_entry
parse_aux_loop zero s input = out_of_fuel
parse_aux_loop (suc fuel) s [] = parsed s
parse_aux_loop (suc fuel) s (ch ∷ input) =
    let next = parse_aux_loop fuel s input in
    let read : AuxResult = elim (parse_entry s ch input) [
      | entry t rest ↦ parse_aux_loop fuel t rest
      | bad e ↦ failed e
    ] in
    if ch == b' ' || ch == b'\t'
    then next
    else if is_digit ch
    then read
    else failed (syntax_error s.current_line)

abbrev pub fresh_state : AuxState
fresh_state = record { aux = []; num_parsed = 0; current_line = 1; kinds = no_kinds }

-- `parse_aux`, on a file with nothing listed before.
unfoldable pub parse_aux : Bytes → AuxResult
unfolding parse_aux_loop
parse_aux input = parse_aux_loop (suc (length input)) fresh_state input
