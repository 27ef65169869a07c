-- ===== src/Cadical/AuxFile/Complete.antt =====
-- A list that is made of blanks and entries is read.
use ignore_gates.Prelude.{
  ℕ, zero, suc, ◌-◌, ◌<◌, ◌≡◌, refl, true, false, ◌||◌, Option, some, ◌∷◌, arith, ◌==◌, length,
}
use ignore_gates.Features.GateReport.{Bytes}
use ignore_gates.Cadical.AuxFile.{
  Kind, AuxState, parsed, entry, is_digit, parse_positive_int, parse_kind, end_line, parse_entry,
  parse_aux_loop,
}
use ignore_gates.Cadical.AuxFile.Lines.{
  parse_digits_lem, parse_kind-le, after_entry, Lines, end_of_input, blank, line,
}

digit_not_blank : (ch : ℕ) → is_digit ch ≡ true → (ch == b' ' || ch == b'\t') ≡ false
digit_not_blank ch d = ground (arith, d)

parse_entry_line :
    (s : AuxState) (ch v : ℕ) (k : Option Kind) (input rest later : Bytes)
    → parse_positive_int ch input ≡ some (v, rest)
    → parse_kind rest ≡ some (k, b'\n' ∷ later)
    → parse_entry s ch input ≡ entry (after_entry s v k) later
unfolding parse_entry end_line parse_positive_int
parse_entry_line s ch v k input rest later e f = rw (e, f, parse_entry) refl

line_shortens :
    (ch v : ℕ) (k : Option Kind) (input rest later : Bytes)
    → is_digit ch ≡ true
    → parse_positive_int ch input ≡ some (v, rest)
    → parse_kind rest ≡ some (k, b'\n' ∷ later)
    → length later < length input
unfolding parse_positive_int
line_shortens ch v k input rest later d e f =
    let (len, bound) = parse_digits_lem (ch - b'0') input e (ground (arith, d)) in
    omega (arith, len, parse_kind-le rest f)

pub parse_aux_loop-Lines :
    (fuel : ℕ) (s t : AuxState) (input : Bytes)
    → length input < fuel
    → Lines s input t
    → parse_aux_loop fuel s input ≡ parsed t
unfolding parse_aux_loop
parse_aux_loop-Lines zero s t input h w = absurd (omega (arith, h))
parse_aux_loop-Lines (suc fuel) s t _ h (end_of_input _) = refl
parse_aux_loop-Lines (suc fuel) s t _ h (blank _ _ ch input e w) =
    rw e (parse_aux_loop-Lines fuel s t input (omega (arith, h)) w)
parse_aux_loop-Lines (suc fuel) s t _ h (line _ _ ch v k input rest later d e f w) =
    rw (digit_not_blank ch d, d, parse_entry_line s ch v k input rest later e f)
      (parse_aux_loop-Lines fuel (after_entry s v k) t later
        (omega (arith, h, line_shortens ch v k input rest later d e f)) w)
