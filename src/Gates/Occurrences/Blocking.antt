-- ===== src/Gates/Occurrences/Blocking.antt =====
-- What a blocked set of clauses means: its output can always be given a value.
use ignore_gates.Prelude.{
  ℕ, suc, ◌<◌, ◌≡◌, refl, Bool, true, false, not, [], ◌∷◌, arith, ◌==◌, any, all, elem, All,
  Bool-cases, inl, inr,
}
use ignore_gates.Types.{Cl, neg, var, Above, Assignment, lit_true, clause_true, assign}
use ignore_gates.Types.Literals.{lit_true-neg, lit_true-assign_self, lit_true-assign_ne, same_var}
use ignore_gates.Formula.{Clause, For, formula_true}
use ignore_gates.Gates.Occurrences.{OccurrenceList, is_blocked, is_blocked_unsorted, is_blocked_set}
use ignore_gates.Gates.Occurrences.Merge.{is_blocked-unsorted}

-- A clause that holds the literal `o` and is sorted, with no variable twice.
pub record Holds (o : ℕ) (c : Clause) : Type 0 where
  pub holds : elem o c.lits ≡ true
  pub above : Above 0 c.lits

pub elem-true :
    (α : Assignment) (o : ℕ) (c : Cl)
    → elem o c ≡ true
    → lit_true α o ≡ true
    → clause_true α c ≡ true
elem-true α o [] h t = cc
elem-true α o (x ∷ c) h t = ground (arith, elem-true α o c)

pub elem-past : (o b : ℕ) (c : Cl) → Above b c → var o < b → elem o c ≡ false
elem-past o b [] v h = refl
elem-past o b (x ∷ c) v h = ground (arith, elem-past o (suc (var x)) c v.1)

-- A sorted clause with a literal does not hold its negation.
pub elem-neg : (o b : ℕ) (c : Cl) → Above b c → elem o c ≡ true → elem (neg o) c ≡ false
elem-neg o b [] v h = cc
elem-neg o b (x ∷ c) v h = ground (
  arith,
  elem-neg o (suc (var x)) c v.1,
  elem-past o (suc (var x)) c v.1,
  elem-past (neg o) (suc (var x)) c v.1,
)

negation_true :
    (β : Assignment) (a : ℕ) (c : Cl)
    → any (λ l2. a == neg l2) c ≡ true
    → lit_true β a ≡ false
    → clause_true β c ≡ true
negation_true β a [] h f = cc
negation_true β a (x ∷ c) h f = ground (arith, negation_true β a c, lit_true-neg β x)

module _ (α : Assignment) (o : ℕ) where
  blocked_true :
      (c1 c2 : Cl)
      → is_blocked_unsorted o c1 c2 ≡ true
      → elem (neg o) c1 ≡ false
      → clause_true (assign α o false) c1 ≡ false
      → clause_true (assign α o true) c2 ≡ true
  blocked_true [] c2 h n f = cc
  blocked_true (a ∷ c1) c2 h n f = ground (
    arith,
    blocked_true c1 c2,
    negation_true (assign α o true) a c2,
    lit_true-assign_ne α o a true,
    lit_true-assign_ne α o a false,
    same_var a o,
  )

  All-hold_true :
      (β : Assignment) (l : ℕ) (cs : For)
      → All (Holds l) cs
      → lit_true β l ≡ true
      → formula_true β cs ≡ true
  All-hold_true β l [] v t = refl
  All-hold_true β l (c ∷ cs) v t =
      ground (arith, elem-true β l c.lits v.0.holds t, All-hold_true β l cs v.1 t)

  -- One clause of `bwd` fails with `o` false: then all clauses that it blocks hold with `o` true.
  fwd_true :
      (c1 : Clause) (fwd : For)
      → Holds o c1
      → All (Holds (neg o)) fwd
      → all (λ c2. is_blocked o c1.lits c2.lits) fwd ≡ true
      → clause_true (assign α o false) c1.lits ≡ false
      → formula_true (assign α o true) fwd ≡ true
  fwd_true c1 [] h v b f = refl
  fwd_true c1 (c2 ∷ fwd) h v b f = ground (
    arith,
    is_blocked-unsorted o 0 0 c1.lits c2.lits h.above v.0.above,
    blocked_true c1.lits c2.lits,
    elem-neg o 0 c1.lits h.above h.holds,
    fwd_true c1 fwd h v.1,
  )

  bwd_split :
      (bwd fwd : For)
      → All (Holds o) bwd
      → All (Holds (neg o)) fwd
      → all (λ c1. all (λ c2. is_blocked o c1.lits c2.lits) fwd) bwd ≡ true
      → formula_true (assign α o false) bwd ≡ false
      → formula_true (assign α o true) fwd ≡ true
  bwd_split [] fwd v w b f = cc
  bwd_split (c1 ∷ bwd) fwd v w b f = ground (arith, fwd_true c1 fwd v.0 w, bwd_split bwd fwd v.1 w)

-- The value that the clauses of `o` ask for.
abbrev pub gate_value : OccurrenceList → ℕ → Assignment → Bool
gate_value l o α = not (formula_true (assign α o false) (l.index o))

-- Where `isBlockedSet(o)` passes, and the lists of `o` and of its negation hold sorted clauses with
-- those literals, every assignment makes all of these clauses true once `o` is given a value, the one
-- that says whether some clause of `o` fails without it.
pub is_blocked_set-extends :
    (l : OccurrenceList) (o : ℕ) (α : Assignment)
    → All (Holds o) (l.index o)
    → All (Holds (neg o)) (l.index (neg o))
    → is_blocked_set l o ≡ true
    → (formula_true (assign α o (gate_value l o α)) (l.index o) ≡ true)
      × (formula_true (assign α o (gate_value l o α)) (l.index (neg o)) ≡ true)
unfolding is_blocked_set
is_blocked_set-extends l o α v w b =
    elim (Bool-cases (formula_true (assign α o false) (l.index o))) [
      | inl e ↦ rw e (
        e,
        All-hold_true α o (assign α o false) (neg o) (l.index (neg o)) w
            (ground (arith, lit_true-neg (assign α o false) o, lit_true-assign_self α o false)),
      )
      | inr e ↦ rw e (
        All-hold_true α o (assign α o true) o (l.index o) v (lit_true-assign_self α o true),
        bwd_split α o (l.index o) (l.index (neg o)) v w b e,
      )
    ]
