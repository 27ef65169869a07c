-- ===== src/Cadical/Dimacs.antt =====
-- cadical/src/parse.cpp: `Parser::parse_dimacs_non_profiled` and its helpers, for a DIMACS file (no
-- pointer `parse_inccnf_too`, so no INCCNF header and no cubes). The input is a list of bytes, whose
-- head is what `parse_char` returns next, or the current `ch` where a function is handed one; past
-- its end is EOF. The calls of the solver are collected: options, `reserve`, and the literals added.
-- An error is the kind of its message, without file name and line.
pub mod Errors
pub mod Body
pub mod Literals
pub mod Ends
pub mod Whole
mod Tests
use ignore_gates.Prelude.{
  ℕ, zero, suc, ◌+◌, ◌-◌, ◌*◌, ◌/◌, Bool, true, false, not, ◌&&◌, ◌||◌, Option, none, some, List,
  [], ◌∷◌, ◌++◌, ◌==◌, ltb, if◌then◌else◌, length,
}
use ignore_gates.Types.Int.{ℤ, pos}
use ignore_gates.Features.GateReport.{Bytes}
use ignore_gates.Cadical.AuxFile.{is_digit}
use Errors.{
  DimacsError, eof_in_header_comment, expected_c_or_p, expected_space, expected_c, expected_char,
  expected_digit, too_large, expected_new_line, Reading, value, refused, ◌>>=◌, require,
}
use Body.{Strict, forced, relaxed, strict, is_strict, is_blank, read_digits, Outcome, body, Loaded}

abbrev pub is_space : ℕ → Bool
is_space c = is_blank c || c == 11 || c == 12

-- The option of a header comment, from its first `-`; `buf` ends at a zero byte, as a C string does.
c_string : Bytes → Bytes
c_string [] = []
c_string (c ∷ buf) = let rest = c ∷ c_string buf in if c == 0 then [] else rest

find_option : Bytes → Option Bytes
find_option [] = none
find_option (c ∷ buf) = let rest = find_option buf in if c == b'-' then some (c ∷ buf) else rest

abbrev add_option : List Bytes → Option Bytes → List Bytes
add_option options none = options
add_option options (some o) = options ++ (o ∷ [])

-- The loop over the comments before the header: in a comment its text so far is at hand. The result
-- has the options, and the input from the byte that is no comment.
unfoldable pub comments : Strict → Option Bytes → List Bytes → Bytes → Reading (List Bytes × Bytes)
unfolding find_option c_string
comments s none options [] = value (options, [])
comments s none options (c ∷ input) =
    let skip = comments s none options input in
    let enter = comments s (some []) options input in
    if not (is_strict s) && is_blank c
    then skip
    else if c == b'c'
    then enter
    else value (options, c ∷ input)
comments s (some buf) options [] = refused eof_in_header_comment
comments s (some buf) options (c ∷ input) =
    let leave = comments s none (add_option options (find_option (c_string buf))) input in
    let stay = comments s (some (if c == b'\r' then buf else buf ++ (c ∷ []))) options input in
    if c == b'\n' then leave else stay

-- `parse_char () == c`, with the error where it is not.
unfoldable pub expect : ℕ → DimacsError → Bytes → Reading Bytes
expect c e [] = refused e
expect c e (x ∷ input) = if x == c then value input else refused e

-- `parse_string`
unfoldable pub parse_string : Bytes → Bytes → Reading Bytes
unfolding expect
parse_string [] input = value input
parse_string (c ∷ str) input =
    expect c (if c == b' ' then expected_space else expected_char) input >>= λ rest.
    parse_string str rest

-- `do ch = parse_char (); while (test (ch));`, up to the current `ch`.
unfoldable pub skip_while : (ℕ → Bool) → Bytes → Bytes
skip_while test [] = []
skip_while test (c ∷ input) = let rest = skip_while test input in if test c then rest else c ∷ input

abbrev head_is : (ℕ → Bool) → Bytes → Bool
head_is test [] = false
head_is test (c ∷ input) = test c

-- `parse_positive_int`, from the current `ch`.
unfoldable pub positive_int : Bytes → Reading (ℕ × Bytes)
unfolding read_digits
positive_int [] = refused expected_digit
positive_int (ch ∷ input) = elim (read_digits (ch - b'0') input) [
  | none ↦ refused too_large
  | some r ↦ value r
]

-- `if (!isdigit (ch)) PER (...)` and the number.
unfoldable pub digits_then : Bytes → Reading (ℕ × Bytes)
unfolding positive_int
digits_then input = do _ ← require (head_is is_digit input) expected_digit; positive_int input

-- One space, then at least one byte consumed while there are more: `ch` is a space.
abbrev spaces : (ℕ → Bool) → Bytes → Reading Bytes
spaces test [] = refused expected_space
spaces test (c ∷ input) = if test c then value (skip_while test input) else refused expected_space

-- The loop to the new-line at the end of a relaxed header.
unfoldable pub end_of_header : Bytes → Reading Bytes
end_of_header [] = refused expected_new_line
end_of_header (c ∷ input) =
    let rest = end_of_header input in
    if c == b'\n' then value input else if is_space c then rest else refused expected_new_line

-- The header after `p` and its white space, from the current `ch`: `nf`, the two numbers, the end.
strict_header : Bytes → Reading (ℕ × ℕ × Bytes)
unfolding parse_string digits_then expect
strict_header input = do
  text ← parse_string (b'n' ∷ b'f' ∷ b' ' ∷ []) input
  (vars, rest) ← digits_then text
  after ← expect b' ' expected_space rest
  (clauses, tail) ← digits_then after
  start ← expect b'\n' expected_new_line tail
  value (vars, clauses, start)

relaxed_header : Bytes → Reading (ℕ × ℕ × Bytes)
unfolding parse_string digits_then skip_while end_of_header
relaxed_header input = do
  text ← parse_string (b'n' ∷ b'f' ∷ []) input
  first ← spaces is_space text
  (vars, rest) ← digits_then first
  second ← spaces is_space rest
  (clauses, tail) ← digits_then second
  start ← end_of_header tail
  value (vars, clauses, start)

abbrev white : ℕ → Bool
white c = c == b' ' || c == b'\t'

abbrev after_p : Strict → Bytes → Reading Bytes
after_p s input = if is_strict s then expect b' ' expected_space input else spaces white input

-- From the byte after the comments to the body.
unfoldable pub header : Strict → Bytes → Reading (ℕ × ℕ × Bytes)
unfolding expect skip_while strict_header relaxed_header
header s input = do
  rest ← expect b'p' expected_c_or_p input
  text ← after_p s rest
  numbers ← expect b'c' expected_c text
  if is_strict s then strict_header numbers else relaxed_header numbers

abbrev pub load : Strict → List Bytes → Reading (ℕ × ℕ × Bytes) → Outcome
load s options (refused e) = Outcome.failed e
load s options (value (vars, clauses, start)) =
    body (suc (length start)) s clauses options
      (record { vars = vars; lit = pos 0; parsed = 0; added = [] }) start

-- `parse_dimacs_non_profiled`
unfoldable pub parse_dimacs : Strict → Bytes → Outcome
unfolding comments header body
parse_dimacs s input = elim (comments s none [] input) [
  | refused e ↦ Outcome.failed e
  | value (options, rest) ↦ load s options (header s rest)
]
