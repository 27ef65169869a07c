-- ===== src/Cadical/Dimacs/Body.antt =====
-- cadical/src/parse.cpp: `parse_lit`, and the part of `parse_dimacs_non_profiled` that reads the
-- clauses.
use ignore_gates.Prelude.{
  ℕ, zero, suc, ◌+◌, ◌-◌, ◌*◌, ◌/◌, Bool, true, false, not, ◌&&◌, ◌||◌, Option, none, some, List,
  [], ◌∷◌, ◌++◌, ◌==◌, ltb, if◌then◌else◌,
}
use ignore_gates.Types.Int.{ℤ, pos, neg_ℤ, is_zero}
use ignore_gates.Features.GateReport.{Bytes}
use ignore_gates.Cadical.AuxFile.{is_digit, int_max}
use ignore_gates.Cadical.Dimacs.Errors.{
  DimacsError, expected_digit, cube_token, literal_too_large, expected_white_space, exceeds_maximum,
  eof_in_comment, too_many_clauses, last_clause_open, clause_missing, Reading, value, refused,
  ◌>>=◌, require,
}

-- FORCED, RELAXED and STRICT.
pub data Strict : Type 0 where
  forced relaxed strict : Strict

abbrev pub is_strict : Strict → Bool
is_strict strict = true
is_strict _ = false

abbrev pub is_forced : Strict → Bool
is_forced forced = true
is_forced _ = false

abbrev pub is_blank : ℕ → Bool
is_blank c = c == b' ' || c == b'\n' || c == b'\t' || c == b'\r'

-- The digits after the first, and the input from the byte that is none. `none` is the overflow.
unfoldable pub read_digits : ℕ → Bytes → Option (ℕ × Bytes)
read_digits res [] = some (res, [])
read_digits res (c ∷ input) =
    let digit = c - b'0' in
    let rest = read_digits (10 * res + digit) input in
    if is_digit c
    then (if ltb (int_max / 10) res || ltb (int_max - digit) (10 * res) then none else rest)
    else some (res, c ∷ input)

unfoldable pub digit_after_minus : Bytes → Reading (Bool × Bytes)
digit_after_minus [] = refused expected_digit
digit_after_minus (c ∷ input) =
    if is_digit c then value (true, c ∷ input) else refused expected_digit

-- The sign of a literal, and the input from its first digit.
unfoldable pub read_sign : Bytes → Reading (Bool × Bytes)
unfolding digit_after_minus
read_sign [] = refused expected_digit
read_sign (ch ∷ input) =
    if ch == b'a'
    then refused cube_token
    else if ch == b'-'
    then digit_after_minus input
    else if is_digit ch
    then value (false, ch ∷ input)
    else refused expected_digit

unfoldable pub read_value : Bytes → Reading (ℕ × Bytes)
unfolding read_digits
read_value [] = refused expected_digit
read_value (ch ∷ input) = elim (read_digits (ch - b'0') input) [
  | none ↦ refused literal_too_large
  | some r ↦ value r
]

abbrev pub skip_cr : Bytes → Bytes
skip_cr [] = []
skip_cr (c ∷ input) = if c == b'\r' then input else c ∷ input

-- The byte behind a literal; the end of the file will do.
abbrev pub may_follow : Bytes → Bool
may_follow [] = true
may_follow (c ∷ input) = c == b'c' || c == b' ' || c == b'\t' || c == b'\n'

abbrev pub check_lit : Strict → ℕ → ℕ → Reading ℕ
check_lit s vars v =
    if ltb vars v then (if is_forced s then value v else refused exceeds_maximum) else value vars

abbrev pub signed : Bool → ℕ → ℤ
signed negative v = if negative then neg_ℤ (pos v) else pos v

-- `parse_lit` from the current `ch`: the literal, `vars`, and the input from the new `ch`.
unfoldable pub parse_lit : Strict → ℕ → Bytes → Reading (ℤ × ℕ × Bytes)
unfolding read_sign read_value neg_ℤ
parse_lit s vars input = do
  (negative, text) ← read_sign input
  (v, rest) ← read_value text
  _ ← require (may_follow (skip_cr rest)) expected_white_space
  vars' ← check_lit s vars v
  value (signed negative v, vars', skip_cr rest)

-- The rest of a comment between clauses: `none` is the end of the file.
unfoldable pub skip_comment : Bytes → Option Bytes
skip_comment [] = none
skip_comment (c ∷ input) = let rest = skip_comment input in if c == b'\n' then some input else rest

-- What follows a literal from the current `ch`: a comment that must end, or one byte that is read.
unfoldable pub after_literal : Bytes → Reading Bytes
unfolding skip_comment
after_literal [] = value []
after_literal (c ∷ input) =
    if c == b'c'
    then elim (skip_comment input) [ none ↦ refused eof_in_comment | some rest ↦ value rest ]
    else value input

-- The variables of the loop over the clauses, and the literals given to the solver.
pub record Loaded : Type 0 where
  pub vars : ℕ
  pub lit : ℤ
  pub parsed : ℕ
  pub added : List ℤ

-- `solver->add (lit)` and the test that counts the clauses.
unfoldable pub add_literal : Strict → ℕ → Loaded → ℤ → ℕ → Reading Loaded
add_literal s clauses b v vars =
    let added = b.added ++ (v ∷ []) in
    let more : Loaded = record { vars = vars; lit = v; parsed = b.parsed; added = added } in
    let closed : Loaded = record { vars = vars; lit = v; parsed = suc b.parsed; added = added } in
    if not (is_zero v)
    then value more
    else if not (ltb b.parsed clauses) && not (is_forced s)
    then refused too_many_clauses
    else value closed

-- One round of the loop.
pub data Step : Type 0 where
  next : Loaded → Bytes → Step
  stop : Step
  fail : DimacsError → Step

unfoldable pub read_literal : Strict → ℕ → Loaded → Bytes → Reading (Loaded × Bytes)
unfolding parse_lit after_literal add_literal
read_literal s clauses b input = do
  (v, vars, rest) ← parse_lit s b.vars input
  later ← after_literal rest
  b' ← add_literal s clauses b v vars
  value (b', later)

abbrev pub to_step : Reading (Loaded × Bytes) → Step
to_step (value (b, rest)) = next b rest
to_step (refused e) = fail e

unfoldable pub body_step : Strict → ℕ → Loaded → Bytes → Step
unfolding read_literal skip_comment
body_step s clauses b [] = stop
body_step s clauses b (c ∷ input) =
    if is_blank c
    then next b input
    else if c == b'c'
    then elim (skip_comment input) [ none ↦ stop | some rest ↦ next b rest ]
    else to_step (read_literal s clauses b (c ∷ input))

-- How reading ends: the options, and what was loaded.
pub data Outcome : Type 0 where
  loaded : List Bytes → Loaded → Outcome
  failed : DimacsError → Outcome
  out_of_fuel : Outcome

-- The tests after the loop.
unfoldable pub after_body : Strict → ℕ → List Bytes → Loaded → Outcome
after_body s clauses options b =
    if not (is_zero b.lit)
    then failed last_clause_open
    else if ltb b.parsed clauses && not (is_forced s)
    then failed clause_missing
    else loaded options b

unfoldable pub body : ℕ → Strict → ℕ → List Bytes → Loaded → Bytes → Outcome
unfolding body_step after_body
body zero s clauses options b input = out_of_fuel
body (suc fuel) s clauses options b input = elim (body_step s clauses b input) [
  | next b' rest ↦ body fuel s clauses options b' rest
  | stop ↦ after_body s clauses options b
  | fail e ↦ failed e
]
