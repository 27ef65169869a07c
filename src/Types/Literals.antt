-- ===== src/Types/Literals.antt =====
-- Laws of literals and of clause truth. They use the parent `Types`.
use ignore_gates.Prelude.{
  ℕ, ◌^◌, ◌<◌, ◌≡◌, ◌≢◌, refl, Bool, true, false, not, ◌||◌, [], ◌∷◌, ◌++◌, arith,
}
use ignore_gates.Types.{Cl, lit, sign, var, neg, Assignment, lit_true, clause_true, assign}

-- `~` keeps the variable, changes the polarity and undoes itself.
pub neg_lem : (x : ℕ) → (neg (neg x) ≡ x) × (var (neg x) ≡ var x) × (neg x ≢ x)
neg_lem x = ground arith

-- The literals of one variable are a literal and its negation.
pub same_var : (x y : ℕ) → var x ≡ var y → x ≢ y → x ≡ neg y
same_var x y h n = ground arith

-- A negated literal is true when the literal is not.
pub lit_true-neg : (α : Assignment) (x : ℕ) → lit_true α (neg x) ≡ not (lit_true α x)
lit_true-neg α x = ground (arith, neg_lem x)

-- Building a literal below 2 ^ 31 and reading its parts gives them back.
pub lit_parts : (v : ℕ) (b : Bool) → v < 2 ^ 31 → (var (lit v b) ≡ v) × (sign (lit v b) ≡ b)
unfolding lit
lit_parts v true h = ground arith
lit_parts v false h = ground arith

-- The literal `o` has the value that it is given, and other variables keep theirs.
pub lit_true-assign_self : (α : Assignment) (o : ℕ) (b : Bool) → lit_true (assign α o b) o ≡ b
lit_true-assign_self α o true = ground arith
lit_true-assign_self α o false = ground arith

pub lit_true-assign_ne :
    (α : Assignment) (o x : ℕ) (b : Bool) → var x ≢ var o → lit_true (assign α o b) x ≡ lit_true α x
lit_true-assign_ne α o x b h = ground arith

pub clause_true-append :
    (α : Assignment) (c d : Cl) → clause_true α (c ++ d) ≡ (clause_true α c || clause_true α d)
clause_true-append α [] d = refl
clause_true-append α (x ∷ c) d = ground (arith, clause_true-append α c d)
