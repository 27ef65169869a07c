-- ===== src/Cadical/Dimacs/Whole.antt =====
-- `parse_dimacs_non_profiled` as a whole.
use ignore_gates.Prelude.{ℕ, none, List, []}
use ignore_gates.Features.GateReport.{Bytes}
use ignore_gates.Cadical.Dimacs.{comments, header, parse_dimacs, load}
use ignore_gates.Cadical.Dimacs.Errors.{Reading, value, refused}
use ignore_gates.Cadical.Dimacs.Body.{Strict, failed}
use ignore_gates.Cadical.Dimacs.Ends.{EndsWell, body-EndsWell}

abbrev clauses_of : Reading (ℕ × ℕ × Bytes) → ℕ
clauses_of (refused e) = 0
clauses_of (value (vars, clauses, start)) = clauses

-- The number of clauses in the header of the input.
pub announced : Strict → Bytes → ℕ
announced s input = elim (comments s none [] input) [
  | refused e ↦ 0
  | value (options, rest) ↦ clauses_of (header s rest)
]

load-EndsWell :
    (s : Strict) (options : List Bytes) (h : Reading (ℕ × ℕ × Bytes))
    → EndsWell s (clauses_of h) (load s options h)
unfolding EndsWell
load-EndsWell s options (refused e) = tt
load-EndsWell s options (value (vars, clauses, start)) = body-EndsWell s clauses options vars start

after_comments-EndsWell :
    (s : Strict) (r : Reading (List Bytes × Bytes))
    → EndsWell s
        (elim r [ refused e ↦ 0 | value (options, rest) ↦ clauses_of (header s rest) ])
        (elim r [ refused e ↦ failed e | value (options, rest) ↦ load s options (header s rest) ])
unfolding EndsWell
after_comments-EndsWell s (refused e) = tt
after_comments-EndsWell s (value (options, rest)) = load-EndsWell s options (header s rest)

-- Reading a DIMACS file ends, in every mode: with an error, or with literals that are all within the
-- variables, of which the last one is 0; there are as many zeros among them as the header announces
-- clauses, unless the reader is forced.
pub parse_dimacs-EndsWell :
    (s : Strict) (input : Bytes) → EndsWell s (announced s input) (parse_dimacs s input)
unfolding parse_dimacs announced
parse_dimacs-EndsWell s input = after_comments-EndsWell s (comments s none [] input)
