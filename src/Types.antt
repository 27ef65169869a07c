-- ===== src/Types.antt =====
-- cnftools/src/util/SolverTypes.h: variables, literals, and the truth of clauses.
-- A variable is its `id`, and a literal is its code `x`, both numbers below 2 ^ 32. `~` flips the
-- lowest bit, which is written by cases on the parity.
pub mod Int
pub mod Lbool
pub mod Literals
mod Tests
use ignore_gates.Prelude.{
  ℕ, suc, ◌+◌, ◌-◌, ◌*◌, ◌/◌, ◌%◌, ◌^◌, ◌≤◌, Bool, true, false, not, List, [], ◌∷◌, ◌==◌,
  if◌then◌else◌, any, all,
}
use Int.{ℤ, pos, neg_ℤ}

-- `typedef std::vector<Lit> Cl`, by the codes of its literals.
abbrev pub Cl : Type 0
Cl = List ℕ

-- `Lit(unsigned var_id, bool sign)`; the code wraps at 32 bits.
unfoldable pub lit : ℕ → Bool → ℕ
lit var_id sign = (2 * var_id + (if sign then 1 else 0)) % 2 ^ 32

abbrev pub sign : ℕ → Bool
sign x = x % 2 == 1

abbrev pub var : ℕ → ℕ
var x = x / 2

-- `operator~`
abbrev pub neg : ℕ → ℕ
neg x = if x % 2 == 0 then x + 1 else x - 1

-- `operator^`
abbrev pub neg_if : ℕ → Bool → ℕ
neg_if x b = if b then neg x else x

unfoldable pub positive : ℕ → ℕ
unfolding lit
positive x = lit (var x) false

unfoldable pub negative : ℕ → ℕ
unfolding lit
negative x = lit (var x) true

unfoldable pub to_dimacs : ℕ → ℤ
unfolding neg_ℤ
to_dimacs x = if sign x then neg_ℤ (pos (var x)) else pos (var x)

-- An assignment gives each variable a value; a literal is true if its variable has its polarity.
abbrev pub Assignment : Type 0
Assignment = ℕ → Bool

abbrev pub lit_true : Assignment → ℕ → Bool
lit_true α x = if sign x then not (α (var x)) else α (var x)

abbrev pub clause_true : Assignment → Cl → Bool
clause_true α = any (lit_true α)

-- `α` with the literal `o` made to have the value `b`.
abbrev pub assign : Assignment → ℕ → Bool → Assignment
assign α o b v = if v == var o then (if sign o then not b else b) else α v

-- The variables of a clause strictly ascend from `b`: it is sorted, with no literal twice and no
-- two literals of one variable.
abbrev pub Above : ℕ → Cl → Type 0
Above b [] = Unit {0}
Above b (x ∷ xs) = (b ≤ var x) × Above (suc (var x)) xs
