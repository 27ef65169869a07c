-- ===== src/Cadical/AuxFile/Lines.antt =====
-- What the list of variables is made of, and the parts of one entry.
use ignore_gates.Prelude.{
  ℕ, suc, ◌+◌, ◌-◌, ◌*◌, ◌≤◌, ◌≡◌, inl, inr, true, ◌||◌, Option, none, some, List, [], ◌∷◌, arith,
  ◌==◌, length, Bool-cases, All, All-append, length-append, elem,
}
use ignore_gates.Features.GateReport.{Bytes}
use ignore_gates.Cadical.AuxFile.{
  Kind, KindCounts, eqv, def, ite, and_kind, xor_kind, ful, or_kind, tri, gen, count_kind, AuxState,
  is_digit, int_max, parse_digits, parse_positive_int, parse_kind, add_aux,
}

pub parse_digits_lem :
    (res : ℕ) (input : Bytes) {v : ℕ} {rest : Bytes}
    → parse_digits res input ≡ some (v, rest)
    → res ≤ int_max
    → (length rest ≤ length input) × (v ≤ int_max)
unfolding parse_digits
parse_digits_lem res [] e h = ground arith
parse_digits_lem res (c ∷ input) {v} {rest} e h = ground (
  arith,
  λ (p : parse_digits (10 * res + (c - b'0')) input ≡ some (v, rest)).
      parse_digits_lem (10 * res + (c - b'0')) input p,
)

unfoldable pub total : KindCounts → ℕ
total c =
    c.num_eqv + c.num_def + c.num_ite + c.num_and + c.num_xor + c.num_ful + c.num_or + c.num_tri
    + c.num_gen

-- Every number listed is an `int`, the counters agree with the lines read, and nothing is listed
-- that no line names.
unfoldable pub IsConsistent : AuxState → Type 0
IsConsistent s =
    All (λ v. v ≤ int_max) s.aux
    × ((length s.aux ≤ s.num_parsed)
        × ((s.current_line ≡ suc s.num_parsed) × (total s.kinds ≤ s.num_parsed)))

count_kind-total : (c : KindCounts) (k : Option Kind) → total (count_kind c k) ≤ suc (total c)
unfolding total
count_kind-total c none = omega arith
count_kind-total c (some eqv) = omega arith
count_kind-total c (some def) = omega arith
count_kind-total c (some ite) = omega arith
count_kind-total c (some and_kind) = omega arith
count_kind-total c (some xor_kind) = omega arith
count_kind-total c (some ful) = omega arith
count_kind-total c (some or_kind) = omega arith
count_kind-total c (some tri) = omega arith
count_kind-total c (some gen) = omega arith

add_aux-All :
    (aux : List ℕ) (v : ℕ)
    → v ≤ int_max
    → All (λ w. w ≤ int_max) aux
    → All (λ w. w ≤ int_max) (add_aux aux v)
add_aux-All aux v b h = elim (Bool-cases (elem v aux)) [
  | inl e ↦ rw e h
  | inr e ↦ rw e (All-append _ aux (v ∷ []) h (b, tt))
]

add_aux-le : (aux : List ℕ) (v : ℕ) → length (add_aux aux v) ≤ suc (length aux)
add_aux-le aux v = ground (arith, length-append aux (v ∷ []))

pub parse_kind-le :
    (input : Bytes) {k : Option _} {rest : Bytes}
    → parse_kind input ≡ some (k, rest)
    → length rest ≤ length input
unfolding parse_kind
parse_kind-le [] e = ground arith
parse_kind-le (a ∷ []) e = ground arith
parse_kind-le (a ∷ b ∷ []) e = ground arith
parse_kind-le (a ∷ b ∷ c ∷ input) e = ground arith

-- The state after an entry for the variable `v`, with a gate type or none.
abbrev pub after_entry : AuxState → ℕ → Option Kind → AuxState
after_entry s v k = record {
  aux = add_aux s.aux v;
  num_parsed = suc s.num_parsed;
  current_line = suc s.current_line;
  kinds = count_kind s.kinds k;
}

pub after_entry-IsConsistent :
    (s : AuxState) (v : ℕ) (k : Option Kind)
    → IsConsistent s
    → v ≤ int_max
    → IsConsistent (after_entry s v k)
unfolding IsConsistent
after_entry-IsConsistent s v k (fits, (short, (line, kinds))) b = (
  add_aux-All s.aux v b fits,
  (
    omega (arith, short, add_aux-le s.aux v),
    (omega (arith, line), omega (arith, kinds, count_kind-total s.kinds k)),
  ),
)

-- `t` is what the whole input makes of `s`: it is made, up to its last byte, of blanks and of
-- entries, each a number with the byte after it, the letters of a gate type or one byte that begins
-- none, and a line end.
pub data Lines : AuxState → Bytes → AuxState → Type 0 where
  end_of_input : (s : AuxState) → Lines s [] s
  blank :
      (s t : AuxState) (ch : ℕ) (input : Bytes)
      → (ch == b' ' || ch == b'\t') ≡ true
      → Lines s input t
      → Lines s (ch ∷ input) t
  line :
      (s t : AuxState) (ch v : ℕ) (k : Option Kind) (input rest later : Bytes)
      → is_digit ch ≡ true
      → parse_positive_int ch input ≡ some (v, rest)
      → parse_kind rest ≡ some (k, b'\n' ∷ later)
      → Lines (after_entry s v k) later t
      → Lines s (ch ∷ input) t
