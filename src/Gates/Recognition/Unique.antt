-- ===== src/Gates/Recognition/Unique.antt =====
-- The patterns with one long clause and binary clauses (TRIV, OR, AND) define their output.
use ignore_gates.Prelude.{
  ℕ, ◌≡◌, ◌≢◌, refl, sym, ◌∙◌, subst, ◌⊎◌, inl, inr, Bool, true, false, not, [], ◌∷◌, ◌++◌, arith,
  ◌==◌, any, all, elem, length, All,
}
use ignore_gates.Types.{Cl, neg, var, Above, Assignment, lit_true}
use ignore_gates.Types.Literals.{lit_true-neg, neg_lem}
use ignore_gates.Formula.{Clause, For, formula_true}
use ignore_gates.Gates.Occurrences.{OccurrenceList, is_blocked, is_blocked_unsorted, is_blocked_set}
use ignore_gates.Gates.Occurrences.Merge.{is_blocked-unsorted}
use ignore_gates.Gates.Occurrences.Blocking.{Holds}
use ignore_gates.Gates.Recognition.{
  GateType, triv, or_gate, and_gate, literals, constrain_same_input_variables, f_pattern,
  fixed_clause_size,
}
use ignore_gates.Gates.Recognition.Inputs.{
  names, constrain_same_input_variables_lem, constrain_same_input_variables_back,
}
use ignore_gates.Gates.Recognition.Binary.{AgreeBut, not_both}

-- Both sides of a gate's clauses, true under both assignments.
abbrev pub Solves : Assignment → OccurrenceList → ℕ → Type 0
Solves α l o = (formula_true α (l.index o) ≡ true) × (formula_true α (l.index (neg o)) ≡ true)

pub agree_sym : (α β : Assignment) (o : ℕ) → AgreeBut o α β → AgreeBut o β α
agree_sym α β o g v h = sym (g v h)

pub Bool-same : (a b : Bool) → (a ≡ true → b ≡ false → ⊥) → (b ≡ true → a ≡ false → ⊥) → a ≡ b
Bool-same true true f g = refl
Bool-same false false f g = refl
Bool-same true false f g = absurd (f refl refl)
Bool-same false true f g = absurd (g refl refl)

-- The blocked test, for a single clause on the side of `neg o`.
unsorted_or :
    (o : ℕ) (c : Clause) (ds : For)
    → Above 0 c.lits
    → All (Holds o) ds
    → all (λ d. all (λ c2. is_blocked o d.lits c2.lits) (c ∷ [])) ds ≡ true
    → all (λ d. is_blocked_unsorted o d.lits c.lits) ds ≡ true
unsorted_or o c [] a v b = refl
unsorted_or o c (d ∷ ds) a v b =
    ground (arith, is_blocked-unsorted o 0 0 d.lits c.lits v.0.above a, unsorted_or o c ds a v.1)

swap_member :
    (o a : ℕ) (c d : Cl)
    → not (a == o) ≡ true
    → elem a c ≡ true
    → any (λ b. a == neg b) d ≡ true
    → is_blocked_unsorted (neg o) d c ≡ true
swap_member o a c [] n m h = cc
swap_member o a c (b ∷ d) n m h = ground (arith, swap_member o a c d n m, elem_negates a b c)
  where
    elem_negates : (a b : ℕ) (c : Cl) → a ≡ neg b → elem a c ≡ true → any (λ x. b == neg x) c ≡ true
    elem_negates a b [] e m = cc
    elem_negates a b (x ∷ c) e m = ground (arith, elem_negates a b c e)

swap_sides :
    (o : ℕ) (c0 c d : Cl)
    → ((a : ℕ) → elem a c ≡ true → elem a c0 ≡ true)
    → is_blocked_unsorted o c d ≡ true
    → is_blocked_unsorted (neg o) d c0 ≡ true
swap_sides o c0 [] d i h = cc
swap_sides o c0 (a ∷ c) d i h =
    let rest = swap_sides o c0 c d (λ x m. i x (ground arith)) in
    ground (arith, rest, swap_member o a c0 d, i a)

unsorted_and :
    (o : ℕ) (c : Clause) (ds : For)
    → Above 0 c.lits
    → All (Holds (neg o)) ds
    → all (λ d. is_blocked o c.lits d.lits) ds ≡ true
    → all (λ d. is_blocked_unsorted (neg o) d.lits c.lits) ds ≡ true
unsorted_and o c [] a v b = refl
unsorted_and o c (d ∷ ds) a v b = ground (
  arith,
  is_blocked-unsorted o 0 0 c.lits d.lits a v.0.above,
  swap_sides o c.lits c.lits d.lits (λ x m. m),
  unsorted_and o c ds a v.1,
)

names_of : (o y : ℕ) (c : Cl) → elem y c ≡ true → y ≢ o → names o (var y) (c ++ []) ≡ true
names_of o y [] m n = cc
names_of o y (x ∷ c) m n = ground (arith, names_of o y c)

-- What `checkAddGate` has tested before it looks for a pattern.
pub record IsCandidate (l : OccurrenceList) (o : ℕ) : Type 0 where
  pub with_o : All (Holds o) (l.index o)
  pub with_neg : All (Holds (neg o)) (l.index (neg o))
  pub blocked : is_blocked_set l o ≡ true
  pub same_inputs : constrain_same_input_variables o (l.index (neg o)) (l.index o) ≢ 0

module _ (l : OccurrenceList) (o : ℕ) (v : IsCandidate l o) (α β : Assignment)
    (agree : AgreeBut o α β) (s : Solves α l o) (t : Solves β l o) where
  or_unique :
      (c : Clause)
      → l.index (neg o) ≡ c ∷ []
      → fixed_clause_size (l.index o) 2 ≡ true
      → lit_true α o ≡ lit_true β o
  unfolding fixed_clause_size is_blocked_set
  or_unique c e f =
      let long : Holds (neg o) c = (subst (All (Holds (neg o))) e v.with_neg).0 in
      let sα : formula_true α (c ∷ []) ≡ true = subst (λ x. formula_true α x ≡ true) e s.1 in
      let sβ : formula_true β (c ∷ []) ≡ true = subst (λ x. formula_true β x ≡ true) e t.1 in
      let blocked = unsorted_or o c (l.index o) long.above v.with_o (
        subst (λ x. all (λ c1. all (λ c2. is_blocked o c1.lits c2.lits) x) (l.index o) ≡ true) e
          v.blocked) in
      let cover = λ (y : ℕ) (m : elem y c.lits ≡ true) (n : y ≢ neg o).
        constrain_same_input_variables_lem o (l.index (neg o)) (l.index o) (var y) v.same_inputs (
          subst (λ x. names (neg o) (var y) (literals x) ≡ true) (sym e)
            (names_of (neg o) y c.lits m n)) in
      Bool-same (lit_true α o) (lit_true β o)
        (not_both α β o (neg o) refl agree c (l.index o) long v.with_o f blocked cover t.0
          (ground arith))
        (not_both β α o (neg o) refl (agree_sym α β o agree) c (l.index o) long v.with_o f blocked
          cover s.0 (ground arith))

  and_unique :
      (c : Clause)
      → l.index o ≡ c ∷ []
      → fixed_clause_size (l.index (neg o)) 2 ≡ true
      → lit_true α o ≡ lit_true β o
  unfolding fixed_clause_size is_blocked_set
  and_unique c e f =
      let back : o ≡ neg (neg o) = sym (neg_lem o).0 in
      let long : Holds o c = (subst (All (Holds o)) e v.with_o).0 in
      let sα : formula_true α (c ∷ []) ≡ true = subst (λ x. formula_true α x ≡ true) e s.0 in
      let sβ : formula_true β (c ∷ []) ≡ true = subst (λ x. formula_true β x ≡ true) e t.0 in
      let tested : all (λ c1. all (λ c2. is_blocked o c1.lits c2.lits) (l.index (neg o))) (c ∷ [])
          ≡ true =
        subst (λ x. all (λ c1. all (λ c2. is_blocked o c1.lits c2.lits) (l.index (neg o))) x ≡ true)
          e v.blocked in
      let blocked = unsorted_and o c (l.index (neg o)) long.above v.with_neg (ground arith) in
      let agree' : AgreeBut (neg o) α β = λ w h. agree w (λ q. h (q ∙ sym (neg_lem o).1)) in
      let cover = λ (y : ℕ) (m : elem y c.lits ≡ true) (n : y ≢ o).
        constrain_same_input_variables_back o (l.index (neg o)) (l.index o) (var y) v.same_inputs
          (subst (λ x. names o (var y) (literals x) ≡ true) (sym e) (names_of o y c.lits m n)) in
      let negs : lit_true α (neg o) ≡ lit_true β (neg o) =
        Bool-same (lit_true α (neg o)) (lit_true β (neg o))
          (not_both α β (neg o) o back agree' c (l.index (neg o)) long v.with_neg f blocked cover
            t.1 (ground arith))
          (not_both β α (neg o) o back (agree_sym α β (neg o) agree') c (l.index (neg o)) long
            v.with_neg f blocked cover s.1 (ground arith)) in
      ground (arith, lit_true-neg α o, lit_true-neg β o)

single : (cs : For) → length cs ≡ 1 → (c : Clause) × (cs ≡ c ∷ [])
single [] h = absurd (omega arith)
single (c ∷ []) h = (c, refl)
single (c ∷ d ∷ cs) h = absurd (omega arith)

-- A type that `fPattern` reads off one long clause and binary clauses.
abbrev pub IsBinary : GateType → Type 0
IsBinary g = (g ≡ triv) ⊎ (g ≡ or_gate) ⊎ (g ≡ and_gate)

f_pattern-IsBinary :
    (o n : ℕ) (fwd bwd : For)
    → IsBinary (f_pattern o fwd bwd n)
    → ((length fwd ≡ 1) × (fixed_clause_size bwd 2 ≡ true))
      ⊎ ((length bwd ≡ 1) × (fixed_clause_size fwd 2 ≡ true))
unfolding f_pattern
f_pattern-IsBinary o n fwd bwd h = ground arith

-- A candidate that has passed the blocked-set test and the same-inputs test, and on which `fPattern`
-- finds a trivial, an or- or an and-gate, is determined by its inputs: two assignments that agree on
-- every variable but that of `o` and make all its clauses true give `o` the same value.
pub f_pattern_unique :
    (l : OccurrenceList) (o n : ℕ) (α β : Assignment)
    → IsCandidate l o
    → IsBinary (f_pattern o (l.index (neg o)) (l.index o) n)
    → AgreeBut o α β
    → Solves α l o
    → Solves β l o
    → lit_true α o ≡ lit_true β o
f_pattern_unique l o n α β v b g s t =
    elim (f_pattern-IsBinary o n (l.index (neg o)) (l.index o) b) [
      | inl (one, two) ↦
          let (c, e) = single (l.index (neg o)) one in or_unique l o v α β g s t c e two
      | inr (one, two) ↦ let (c, e) = single (l.index o) one in and_unique l o v α β g s t c e two
    ]
