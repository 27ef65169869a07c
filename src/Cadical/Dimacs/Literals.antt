-- ===== src/Cadical/Dimacs/Literals.antt =====
-- What `parse_lit` and the bytes behind a literal leave, where they give no error.
use ignore_gates.Prelude.{
  ℕ, zero, suc, ◌+◌, ◌-◌, ◌*◌, ◌≤◌, ◌<◌, ◌≡◌, refl, inl, inr, Bool, true, false, some, [], ◌∷◌,
  arith, ◌==◌, ltb, length, Option-cases, if◌then◌else◌,
}
use ignore_gates.Types.Int.{ℤ, abs, neg_ℤ}
use ignore_gates.Features.GateReport.{Bytes}
use ignore_gates.Cadical.AuxFile.{is_digit}
use ignore_gates.Cadical.Dimacs.Errors.{DimacsError, Reading, value, refused, ◌>>=◌, require}
use ignore_gates.Cadical.Dimacs.Body.{
  Strict, is_forced, read_digits, read_sign, read_value, skip_cr, may_follow, check_lit, signed,
  parse_lit, skip_comment, after_literal, digit_after_minus,
}

-- A result satisfies `P` where it is no error.
unfoldable pub Holds : {A : Type 0} → (A → Type 0) → Reading A → Type 0
Holds P (value a) = P a
Holds P (refused e) = Unit {0}

pub bind-Holds :
    {A B : Type 0} (P : A → Type 0) (Q : B → Type 0) (m : Reading A) (f : A → Reading B)
    → Holds P m
    → ((a : A) → P a → Holds Q (f a))
    → Holds Q (m >>= f)
unfolding Holds
bind-Holds P Q (value a) f h k = k a h
bind-Holds P Q (refused e) f h k = tt

pub if-Holds :
    {A : Type 0} (P : A → Type 0) (t : Bool) (m n : Reading A)
    → (t ≡ true → Holds P m)
    → (t ≡ false → Holds P n)
    → Holds P (if t then m else n)
if-Holds P true m n h k = h refl
if-Holds P false m n h k = k refl

abs-signed : (negative : Bool) (v : ℕ) → abs (signed negative v) ≡ v
unfolding neg_ℤ
abs-signed false v = refl
abs-signed true zero = refl
abs-signed true (suc v) = refl

read_digits-le :
    (res : ℕ) (input : Bytes) {v : ℕ} {rest : Bytes}
    → read_digits res input ≡ some (v, rest)
    → length rest ≤ length input
unfolding read_digits
read_digits-le res [] h = ground arith
read_digits-le res (c ∷ input) {v} {rest} h = ground (
  arith,
  λ (p : read_digits (10 * res + (c - b'0')) input ≡ some (v, rest)).
      read_digits-le (10 * res + (c - b'0')) input p,
)

AtMost : ℕ → Bool × Bytes → Type 0
AtMost n r = length r.1 ≤ n

read_sign-Holds : (input : Bytes) → Holds (AtMost (length input)) (read_sign input)
unfolding Holds read_sign digit_after_minus AtMost
read_sign-Holds [] = tt
read_sign-Holds (c ∷ []) =
    if-Holds (AtMost 1) (c == b'a') _ _ (λ _. tt)
      (λ _.
        if-Holds (AtMost 1) (c == b'-') _ _ (λ _. tt)
          (λ _. if-Holds (AtMost 1) (is_digit c) _ _ (λ _. omega arith) (λ _. tt)))
read_sign-Holds (c ∷ d ∷ input) =
    if-Holds (AtMost _) (c == b'a') _ _ (λ _. tt)
      (λ _.
        if-Holds (AtMost _) (c == b'-') _ _
          (λ _. if-Holds (AtMost _) (is_digit d) _ _ (λ _. omega arith) (λ _. tt))
          (λ _. if-Holds (AtMost _) (is_digit c) _ _ (λ _. omega arith) (λ _. tt)))

Below : ℕ → ℕ × Bytes → Type 0
Below n r = length r.1 < n

read_value-Holds : (input : Bytes) → Holds (Below (length input)) (read_value input)
unfolding Holds read_value Below
read_value-Holds [] = tt
read_value-Holds (ch ∷ input) = elim (Option-cases (read_digits (ch - b'0') input)) [
  | inl e ↦ rw (e, read_value) tt
  | inr ((v, rest), e) ↦ rw (e, read_value) (omega (arith, read_digits-le (ch - b'0') input e))
]

skip_cr-le : (input : Bytes) → length (skip_cr input) ≤ length input
skip_cr-le [] = omega arith
skip_cr-le (c ∷ input) = ground arith

require-Holds : (t : Bool) (e : DimacsError) → Holds (λ _. t ≡ true) (require t e)
unfolding Holds
require-Holds true e = refl
require-Holds false e = tt

check_lit-Holds : (s : Strict) (vars v : ℕ) → Holds (λ w. (v ≤ w) × (vars ≤ w)) (check_lit s vars v)
unfolding Holds
check_lit-Holds s vars v =
    if-Holds _ (ltb vars v) _ _
      (λ e. if-Holds _ (is_forced s) _ _ (λ _. (omega arith, ground (arith, e))) (λ _. tt))
      (λ e. (ground (arith, e), omega arith))

-- The literal is within the variables, which do not shrink, and bytes were read.
unfoldable pub Literal : ℕ → ℕ → ℤ × ℕ × Bytes → Type 0
Literal vars n (v, vars', rest) = (abs v ≤ vars') × ((vars ≤ vars') × (length rest < n))

pub parse_lit-Holds :
    (s : Strict) (vars : ℕ) (input : Bytes)
    → Holds (Literal vars (length input)) (parse_lit s vars input)
unfolding parse_lit Holds AtMost Below Literal
parse_lit-Holds s vars input =
    bind-Holds (AtMost _) (Literal _ _) (read_sign input) _ (read_sign-Holds input)
      (λ (negative, text) h.
        bind-Holds (Below _) (Literal _ _) (read_value text) _ (read_value-Holds text)
          (λ (v, rest) k.
            bind-Holds (λ _. may_follow (skip_cr rest) ≡ true) (Literal _ _)
              (require (may_follow (skip_cr rest)) _) _ (require-Holds _ _)
              (λ _ _.
                bind-Holds _ (Literal _ _) (check_lit s vars v) _ (check_lit-Holds s vars v) (λ w l.
                  (rw (abs-signed negative v) l.0, (l.1, omega (arith, h, k, skip_cr-le rest)))))))

pub skip_comment-lt :
    (input : Bytes) {rest : Bytes} → skip_comment input ≡ some rest → length rest < length input
unfolding skip_comment
skip_comment-lt [] h = ground arith
skip_comment-lt (c ∷ input) {rest} h =
    ground (arith, λ (p : skip_comment input ≡ some rest). skip_comment-lt input p)

pub after_literal-Holds :
    (input : Bytes) → Holds (λ rest. length rest ≤ length input) (after_literal input)
unfolding after_literal Holds
after_literal-Holds [] = omega arith
after_literal-Holds (c ∷ input) = elim (Option-cases (skip_comment input)) [
  | inl e ↦ rw e (if-Holds _ (c == b'c') _ _ (λ _. tt) (λ _. omega arith))
  | inr (rest, e) ↦
      rw e (
        if-Holds _ (c == b'c') _ _ (λ _. omega (arith, skip_comment-lt input e)) (λ _. omega arith))
]
