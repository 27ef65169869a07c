-- ===== src/Cadical/Dimacs/Errors.antt =====
-- Errors of the DIMACS reader, and what a part of it gives: a value, or the first error it meets.
use ignore_gates.Prelude.{Bool, if◌then◌else◌}

-- The kinds of messages.
pub data DimacsError : Type 0 where
  eof_in_header_comment expected_c_or_p expected_space expected_c expected_char : DimacsError
  expected_digit too_large expected_new_line cube_token literal_too_large : DimacsError
  expected_white_space exceeds_maximum eof_in_comment too_many_clauses : DimacsError
  last_clause_open clause_missing : DimacsError

pub data Reading {ℓ} (V : Type ℓ) : Type ℓ where
  refused : DimacsError → Reading V
  value : V → Reading V

infixl 5 ◌>>=◌
abbrev pub ◌>>=◌ {κ ℓ} : {V : Type κ} {W : Type ℓ} → Reading V → (V → Reading W) → Reading W
refused message >>= later = refused message
value v >>= later = later v

-- `if (!test) PER (message)`
abbrev pub require : Bool → DimacsError → Reading Bool
require test message = if test then value test else refused message
