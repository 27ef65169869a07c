-- ===== src/Prelude/Sums.antt =====
-- Sums of a function over the numbers below a bound.
use Prim.Native.Nat.{ℕ, zero, suc, ◌+◌, ◌≤◌, ◌<◌}
use mathlib.Core.Path.{◌≡◌, subst}
use mathlib.Core.Logic.{inl, inr}
use native.Mathlib.Omega.{arith}
use ignore_gates.Prelude.Tests.{◌==◌, Bool-cases}

abbrev pub sum : (ℕ → ℕ) → ℕ → ℕ
sum f zero = 0
sum f (suc n) = sum f n + f n

pub sum-le : (f g : ℕ → ℕ) (n : ℕ) → ((k : ℕ) → f k ≤ g k) → sum f n ≤ sum g n
sum-le f g zero h = omega arith
sum-le f g (suc n) h = omega (arith, h n, sum-le f g n h)

-- One smaller term makes the sum smaller.
pub sum-lt : (f g : ℕ → ℕ) (n x : ℕ) → ((k : ℕ) → f k ≤ g k) → x < n → f x < g x → sum f n < sum g n
sum-lt f g zero x h l d = absurd (omega arith)
sum-lt f g (suc n) x h l d = elim (Bool-cases (x == n)) [
  | inl e ↦
      let at : x ≡ n = ground arith in omega (arith, sum-le f g n h, subst (λ k. f k < g k) at d)
  | inr e ↦ omega (arith, h n, sum-lt f g n x h (ground arith) d)
]
