-- ===== src/Cadical/AuxFile/Numbers.antt =====
-- The numbers that `printf("%u")` prints are the numbers that `parse_positive_int` reads.
use ignore_gates.Prelude.{
  ℕ, zero, suc, ◌+◌, ◌-◌, ◌*◌, ◌/◌, ◌%◌, ◌≤◌, ◌<◌, ◌≡◌, refl, ap, ◌∙◌, sym, inl, inr, true, some,
  [], ◌∷◌, ◌++◌, arith, ltb, Bool-cases, append_assoc,
}
use ignore_gates.Features.GateReport.{Bytes, digits, number}
use ignore_gates.Cadical.AuxFile.{is_digit, int_max, parse_digits, parse_positive_int}

pub pow10 : ℕ → ℕ
pow10 zero = 1
pow10 (suc n) = 10 * pow10 n

parse_digits-digit :
    (res d : ℕ) (input : Bytes) {v : ℕ}
    → d ≤ 9
    → v ≡ 10 * res + d
    → v ≤ int_max
    → parse_digits res ((b'0' + d) ∷ input) ≡ parse_digits v input
unfolding parse_digits
parse_digits-digit res d input h e b = ground arith

pub parse_digits-digits :
    (fuel n : ℕ) (tail : Bytes)
    → n < pow10 fuel
    → n ≤ int_max
    → parse_digits 0 (digits fuel n ++ tail) ≡ parse_digits n tail
unfolding digits pow10
parse_digits-digits zero n tail h b = ap (λ v. parse_digits v tail) (omega (arith, h))
parse_digits-digits (suc fuel) n tail h b = elim (Bool-cases (ltb n 10)) [
  | inl e ↦ rw e (parse_digits-digit 0 n tail (ground (arith, e)) (omega arith) (ground (arith, e)))
  | inr e ↦
      rw (e, append_assoc (digits fuel (n / 10)) ((b'0' + n % 10) ∷ []) tail)
        (parse_digits-digits fuel (n / 10) ((b'0' + n % 10) ∷ tail) (omega (arith, h))
            (omega (arith, b))
          ∙ parse_digits-digit (n / 10) (n % 10) tail (omega arith) (omega arith)
              (omega (arith, b)))
]

-- The first byte printed is a digit.
pub digits-head :
    (fuel n : ℕ) → (c : ℕ) × ((ds : Bytes) × ((digits (suc fuel) n ≡ c ∷ ds) × (is_digit c ≡ true)))
unfolding digits
digits-head zero n = elim (Bool-cases (ltb n 10)) [
  | inl e ↦ (b'0' + n, ([], (rw e refl, ground (arith, e))))
  | inr e ↦ (b'0' + n % 10, ([], (rw e refl, ground arith)))
]
digits-head (suc fuel) n = elim (Bool-cases (ltb n 10)) [
  | inl e ↦ (b'0' + n, ([], (rw e refl, ground (arith, e))))
  | inr e ↦
      let (c, (ds, (eq, d))) = digits-head fuel (n / 10) in
      (c, (ds ++ ((b'0' + n % 10) ∷ []), (rw (e, eq) refl, d)))
]

first_digit :
    (c : ℕ) (input : Bytes)
    → is_digit c ≡ true
    → parse_digits 0 (c ∷ input) ≡ parse_digits (c - b'0') input
first_digit c input d =
    ap (λ x. parse_digits 0 (x ∷ input)) (ground (arith, d))
    ∙ parse_digits-digit 0 (c - b'0') input (ground (arith, d)) (omega arith) (ground (arith, d))

parse_digits-space : (v : ℕ) (rest : Bytes) → parse_digits v (b' ' ∷ rest) ≡ some (v, rest)
unfolding parse_digits
parse_digits-space v rest = refl

ten_digits : (v : ℕ) → v ≤ int_max → v < pow10 10
unfolding pow10
ten_digits v h = omega (arith, h)

-- A printed number that fits an `int` is read back, up to the space behind it.
pub parse_positive_int-number :
    (v : ℕ) (rest : Bytes) {c : ℕ} {ds : Bytes}
    → v ≤ int_max
    → number v ≡ c ∷ ds
    → is_digit c ≡ true
    → parse_positive_int c (ds ++ (b' ' ∷ rest)) ≡ some (v, rest)
unfolding parse_positive_int
parse_positive_int-number v rest {c} {ds} h e d =
    sym (first_digit c (ds ++ (b' ' ∷ rest)) d)
    ∙ (ap (λ text. parse_digits 0 (text ++ (b' ' ∷ rest))) (sym e)
        ∙ (parse_digits-digits 10 v (b' ' ∷ rest) (ten_digits v h) h ∙ parse_digits-space v rest))
