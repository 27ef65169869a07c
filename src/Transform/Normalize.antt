-- ===== src/Transform/Normalize.antt =====
-- cnftools/src/transform/Normalize.h: `normalize`, which prints a DIMACS file anew and warns where its
-- header is wrong. What goes to each output is a list of items.
mod Tests
use ignore_gates.Prelude.{
  ℕ, zero, suc, Bool, true, false, not, ◌&&◌, ◌||◌, List, [], ◌∷◌, ◌++◌, ◌==◌, max, length,
  if◌then◌else◌,
}
use ignore_gates.Types.Int.{ℤ, pos, abs, is_zero, ltb_ℤ}
use ignore_gates.Features.GateReport.{Bytes}
use ignore_gates.StreamBuffer.{
  StreamBuffer, Read, done, parser_exception, overrun, out_of_fuel, ◌>>=◌, is_space, is_blank, eof,
  inc_pos, content, open_stream, skip_line, skip_whitespace, skip_string, read_integer, starts_with,
}

-- A byte of a comment, the end of its line, a header, a literal, and the end of a clause.
pub data Item : Type 0 where
  comment_byte : ℕ → Item
  comment_end : Item
  header : ℤ → ℤ → Item
  literal : ℤ → Item
  clause_end : Item

pub record Normalizer : Type 0 where
  pub nv : ℤ
  pub nc : ℤ
  pub rv : ℕ
  pub rc : ℕ
  pub out : List Item

abbrev pub print : Normalizer → Item → Normalizer
print n i = record n { out = n.out ++ (i ∷ []) }

-- The loop that prints a comment before the header.
unfoldable pub print_comment : ℕ → ℕ → Normalizer → StreamBuffer → Read (Normalizer × StreamBuffer)
unfolding inc_pos
print_comment size zero n s = out_of_fuel
print_comment size (suc fuel) n s = elim s.ahead [
  | [] ↦ done (n, s)
  | c ∷ cs ↦
      let rest = inc_pos size 1 s >>= print_comment size fuel (print n (comment_byte c)) in
      if not (is_space c) || is_blank c then rest else done (n, s)
]

-- The literals of a clause.
unfoldable pub print_clause : ℕ → ℕ → Normalizer → StreamBuffer → Read (Normalizer × StreamBuffer)
unfolding read_integer
print_clause size zero n s = out_of_fuel
print_clause size (suc fuel) n s = read_integer size s >>= λ (plit, t).
    if is_zero plit
    then done (record (print n clause_end) { rc = suc n.rc }, t)
    else print_clause size fuel (record (print n (literal plit)) { rv = max (abs plit) n.rv }) t

read_comment : ℕ → Normalizer → StreamBuffer → Read (Normalizer × StreamBuffer)
unfolding print_comment skip_line skip_whitespace
read_comment size n s =
    let skip : Read (Normalizer × StreamBuffer) = skip_line size s >>= λ t. done (n, t) in
    let copy : Read (Normalizer × StreamBuffer) =
      print_comment size (suc (length (content s))) n s >>= λ (m, t).
      skip_whitespace size t >>= λ u. done (print m comment_end, u) in
    if ltb_ℤ (pos 0) n.nv && ltb_ℤ (pos 0) n.nc then skip else copy

read_header : ℕ → Normalizer → StreamBuffer → Read (Normalizer × StreamBuffer)
unfolding inc_pos skip_whitespace skip_string read_integer skip_line
read_header size n s = inc_pos size 1 s >>= λ a. skip_whitespace size a >>= λ b.
    skip_string size (b'c' ∷ b'n' ∷ b'f' ∷ []) b >>= λ c. read_integer size c >>= λ (nv, d).
    read_integer size d >>= λ (nc, e).
    skip_line size e >>= λ t. done (print (record n { nv = nv; nc = nc }) (header nv nc), t)

-- One line, at its first byte.
unfoldable pub read_line : ℕ → Normalizer → StreamBuffer → Read (Normalizer × StreamBuffer)
unfolding read_comment read_header print_clause
read_line size n s =
    if starts_with b'c' s.ahead
    then read_comment size n s
    else if starts_with b'p' s.ahead
    then read_header size n s
    else print_clause size (suc (length (content s))) n s

unfoldable pub normalize_lines : ℕ → ℕ → Normalizer → StreamBuffer → Read Normalizer
unfolding skip_whitespace read_line
normalize_lines size zero n s = out_of_fuel
normalize_lines size (suc fuel) n s =
    if eof s
    then done n
    else skip_whitespace size s >>= λ t.
        if eof t then done n else read_line size n t >>= λ (m, u). normalize_lines size fuel m u

-- Whether the warning is printed.
abbrev pub warns : Normalizer → Bool
warns n = not (abs n.nc == n.rc && not (ltb_ℤ n.nc (pos 0))) || ltb_ℤ n.nv (pos n.rv)

unfoldable pub normalize : ℕ → Bytes → Read Normalizer
unfolding open_stream normalize_lines
normalize size file =
    open_stream size file
    >>= normalize_lines size (suc (length file))
        (record { nv = pos 0; nc = pos 0; rv = 0; rc = 0; out = [] })
