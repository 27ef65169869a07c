-- ===== src/StreamBuffer.antt =====
-- cnftools/src/util/StreamBuffer.h: a file read through a buffer that always ends with a word, and
-- `readDimacsFromFile` of cnftools/src/util/CNFFormula.h on top of it.
-- Of the buffer, `ahead` is what stands from `pos` to `end`, and `kept` from `end` to the end of the
-- bytes read; `file` is what the archive has not given yet. `size` is `buffer_size`, 16384 there.
pub mod Refill
pub mod Skips
mod Tests
use ignore_gates.Prelude.{
  ℕ, zero, suc, ◌+◌, ◌-◌, ◌*◌, Bool, true, false, not, ◌&&◌, ◌||◌, Option, none, some, List, [],
  ◌∷◌, ◌++◌, ◌==◌, ltb, if◌then◌else◌, length,
}
use ignore_gates.Types.{Cl, lit}
use ignore_gates.Types.Int.{ℤ, pos, neg_ℤ, abs, is_negative, is_zero}
use ignore_gates.Formula.{CnfFormula, empty, read_clause}
use ignore_gates.Features.GateReport.{Bytes}
use ignore_gates.Cadical.AuxFile.{is_digit}

pub record StreamBuffer : Type 0 where
  pub file : Bytes
  pub ahead : Bytes
  pub kept : Bytes
  pub end_of_file : Bool

-- What an operation ends with; `overrun` has the full buffer without white space in which the search
-- for the end of a word leaves the buffer.
pub data Read {ℓ} (A : Type ℓ) : Type ℓ where
  done : A → Read A
  parser_exception : Read A
  overrun : Bytes → Read A
  out_of_fuel : Read A

infixl 5 ◌>>=◌
abbrev pub ◌>>=◌ {ℓ κ} : {A : Type ℓ} {B : Type κ} → Read A → (A → Read B) → Read B
done a >>= k = k a
parser_exception >>= k = parser_exception
overrun b >>= k = overrun b
out_of_fuel >>= k = out_of_fuel

abbrev pub is_space : ℕ → Bool
is_space c = c == b' ' || (ltb 8 c && ltb c 14)

abbrev pub is_blank : ℕ → Bool
is_blank c = c == b' ' || c == b'\t'

unfoldable pub take : ℕ → Bytes → Bytes
take zero cs = []
take (suc n) [] = []
take (suc n) (c ∷ cs) = c ∷ take n cs

unfoldable pub drop : ℕ → Bytes → Bytes
drop zero cs = cs
drop (suc n) [] = []
drop (suc n) (c ∷ cs) = drop n cs

-- The loop that lowers `end` to the end of a word: what stands before and behind it.
unfoldable pub align : Bytes → Option (Bytes × Bytes)
align [] = none
align (c ∷ cs) = elim (align cs) [
  | some (word, rest) ↦ some (c ∷ word, rest)
  | none ↦ if is_space c then some (c ∷ [], cs) else none
]

aligned : Bytes → Bytes → Option (Bytes × Bytes) → Read StreamBuffer
aligned file bytes none = overrun bytes
aligned file bytes (some (word, rest)) =
    done (record { file = file; ahead = word; kept = rest; end_of_file = false })

-- `check_refill_buffer`
unfoldable pub check_refill_buffer : ℕ → StreamBuffer → Read StreamBuffer
unfolding align aligned take drop
check_refill_buffer size s = elim s.ahead [
  | c ∷ cs ↦ done s
  | [] ↦
      let more = size - length s.kept in
      let bytes = s.kept ++ take more s.file in
      let file = drop more s.file in
      let last : StreamBuffer = record {
        file = file;
        ahead = bytes;
        kept = [];
        end_of_file = true;
      } in
      if s.end_of_file
      then done s
      else if ltb (length bytes) size
      then done last
      else aligned file bytes (align bytes)
]

unfoldable pub open_stream : ℕ → Bytes → Read StreamBuffer
unfolding check_refill_buffer
open_stream size file =
    check_refill_buffer size (record { file = file; ahead = []; kept = []; end_of_file = false })

unfoldable pub inc_pos : ℕ → ℕ → StreamBuffer → Read StreamBuffer
unfolding check_refill_buffer drop
inc_pos size inc s = check_refill_buffer size (record s { ahead = drop inc s.ahead })

abbrev pub eof : StreamBuffer → Bool
eof s = elim s.ahead [ [] ↦ s.end_of_file | c ∷ cs ↦ false ]

-- `while (!eof() && test(buffer[pos])) incPos(1);`. Where `pos` is at `end` before the end of the
-- file, which `check_refill_buffer` rules out, the byte read would be none of the file's.
unfoldable pub skip_while : ℕ → (ℕ → Bool) → ℕ → StreamBuffer → Read StreamBuffer
unfolding inc_pos
skip_while size test zero s = out_of_fuel
skip_while size test (suc fuel) s = elim s.ahead [
  | [] ↦ if s.end_of_file then done s else parser_exception
  | c ∷ cs ↦
      let rest = inc_pos size 1 s >>= skip_while size test fuel in if test c then rest else done s
]

-- All bytes that are not read yet.
abbrev pub content : StreamBuffer → Bytes
content s = s.ahead ++ (s.kept ++ s.file)

abbrev pub skip_all : ℕ → (ℕ → Bool) → StreamBuffer → Read StreamBuffer
skip_all size test s = skip_while size test (suc (length (content s))) s

unfoldable pub skip_whitespace : ℕ → StreamBuffer → Read StreamBuffer
unfolding skip_while
skip_whitespace size s = skip_all size is_space s

unfoldable pub skip_line : ℕ → StreamBuffer → Read StreamBuffer
unfolding skip_while skip_whitespace
skip_line size s =
    skip_all size (λ c. not (is_space c) || is_blank c) s >>= λ t. skip_whitespace size t

abbrev pub starts_with : ℕ → Bytes → Bool
starts_with c [] = false
starts_with c (d ∷ ds) = c == d

unfoldable pub skip_string : ℕ → Bytes → StreamBuffer → Read StreamBuffer
unfolding inc_pos
skip_string size [] s = done s
skip_string size (c ∷ str) s =
    let rest = inc_pos size 1 s >>= λ t. skip_string size str t in
    if starts_with c s.ahead then rest else parser_exception

-- `strtol` on the digits: their value and their number.
unfoldable pub scan_digits : ℕ → ℕ → Bytes → ℕ × ℕ
scan_digits value len [] = (value, len)
scan_digits value len (c ∷ cs) =
    let rest = scan_digits (10 * value + (c - b'0')) (suc len) cs in
    if is_digit c then rest else (value, len)

abbrev digits_after : ℕ → (ℕ → ℤ) → Bytes → Option (ℤ × ℕ)
digits_after sign_len sign cs =
    let (value, len) = scan_digits 0 0 cs in
    if len == 0 then none else some (sign value, len + sign_len)

-- `strtol` where no white space comes first: the number, and how many bytes it takes.
unfoldable pub strtol : Bytes → Option (ℤ × ℕ)
unfolding scan_digits neg_ℤ
strtol [] = none
strtol (c ∷ cs) =
    if c == b'-'
    then digits_after 1 (λ v. neg_ℤ (pos v)) cs
    else if c == b'+'
    then digits_after 1 pos cs
    else digits_after 0 pos (c ∷ cs)

-- The range is that of the test; past it `errno` is ERANGE or the number is too large.
take_integer : ℕ → StreamBuffer → Option (ℤ × ℕ) → Read (ℤ × StreamBuffer)
unfolding inc_pos
take_integer size s none = parser_exception
take_integer size s (some (number, len)) =
    let rest = inc_pos size len s >>= λ t. done (number, t) in
    if ltb (abs number) 2147483647 then rest else parser_exception

unfoldable pub read_integer : ℕ → StreamBuffer → Read (ℤ × StreamBuffer)
unfolding skip_whitespace strtol take_integer
read_integer size s = skip_whitespace size s >>= λ t.
    if eof t then done (pos 0, t) else take_integer size t (strtol t.ahead)

-- The literals up to the number 0.
read_lits : ℕ → ℕ → Cl → StreamBuffer → Read (Cl × StreamBuffer)
unfolding read_integer lit
read_lits size zero clause s = out_of_fuel
read_lits size (suc fuel) clause s = read_integer size s >>= λ (plit, t).
    if is_zero plit
    then done (clause, t)
    else read_lits size fuel (clause ++ (lit (abs plit) (is_negative plit) ∷ [])) t

abbrev one_of : Bytes → Bool
one_of [] = false
one_of (c ∷ cs) = c == b'p' || c == b'c'

-- The loop of `readDimacsFromFile`.
read_dimacs : ℕ → ℕ → CnfFormula → StreamBuffer → Read CnfFormula
unfolding skip_whitespace skip_line read_lits read_clause
read_dimacs size zero f s = out_of_fuel
read_dimacs size (suc fuel) f s =
    let line : StreamBuffer → Read CnfFormula = λ t. skip_line size t >>= read_dimacs size fuel f in
    let clause : StreamBuffer → Read CnfFormula = λ t.
      read_lits size (suc (length (content t))) [] t >>= λ (c, u).
      read_dimacs size fuel (read_clause f c) u in
    if eof s
    then done f
    else skip_whitespace size s >>= λ t.
        if eof t then done f else if one_of t.ahead then line t else clause t

unfoldable pub read_dimacs_from_file : ℕ → Bytes → Read CnfFormula
unfolding open_stream read_dimacs empty
read_dimacs_from_file size file =
    open_stream size file >>= read_dimacs size (suc (length file)) empty
