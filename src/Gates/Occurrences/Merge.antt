-- ===== src/Gates/Occurrences/Merge.antt =====
-- The merging test for blocked clauses agrees with the plain search on sorted clauses.
use ignore_gates.Prelude.{ℕ, suc, ◌<◌, ◌≡◌, refl, false, [], ◌∷◌, arith, ◌==◌, any}
use ignore_gates.Types.{Cl, neg, var, Above}
use ignore_gates.Gates.Occurrences.{is_blocked, is_blocked_unsorted}

-- No literal of a clause past `a` is its negation.
past_none : (a t : ℕ) (c : Cl) → var a < t → Above t c → any (λ l2. a == neg l2) c ≡ false
past_none a t [] h v = refl
past_none a t (x ∷ c) h v = ground (arith, past_none a (suc (var x)) c)

-- A literal before all of `c` blocks nothing of it.
before_skip :
    (o b t : ℕ) (c d : Cl)
    → var b < t
    → Above t c
    → is_blocked_unsorted o c (b ∷ d) ≡ is_blocked_unsorted o c d
before_skip o b t [] d h v = refl
before_skip o b t (x ∷ c) d h v = ground (arith, before_skip o b (suc (var x)) c d)

unsorted_nil : (o : ℕ) (c : Cl) → is_blocked_unsorted o c [] ≡ false
unsorted_nil o [] = refl
unsorted_nil o (x ∷ c) = ground (arith, unsorted_nil o c)

-- On clauses that are sorted and name no variable twice, the merging test gives what the plain
-- search over all pairs gives, for any literal `o`.
pub is_blocked-unsorted :
    (o s t : ℕ) (c1 c2 : Cl)
    → Above s c1
    → Above t c2
    → is_blocked o c1 c2 ≡ is_blocked_unsorted o c1 c2
unfolding is_blocked
is_blocked-unsorted o s t [] c2 v w = refl
is_blocked-unsorted o s t (a ∷ c1) [] v w = ground (arith, unsorted_nil o c1)
is_blocked-unsorted o s t (a ∷ c1) (b ∷ c2) v w = ground (
  arith,
  is_blocked-unsorted o (suc (var a)) t c1 (b ∷ c2) v.1 w,
  is_blocked-unsorted o s (suc (var b)) (a ∷ c1) c2 v w.1,
  past_none a (suc (var b)) c2,
  before_skip o b (suc (var a)) c1 c2,
)
