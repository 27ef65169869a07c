-- ===== src/Gates/Recognition/Binary.antt =====
-- One long clause and binary clauses that it blocks fix the value of their output.
use ignore_gates.Prelude.{
  ℕ, suc, ◌<◌, ◌≡◌, ◌≢◌, refl, sym, ap, ◌∙◌, inl, inr, true, false, not, ◌||◌, [], ◌∷◌, ◌++◌, arith,
  ◌==◌, any, all, elem, length, All, Bool-cases,
}
use ignore_gates.Types.{Cl, neg, var, Above, Assignment, lit_true, clause_true}
use ignore_gates.Types.Literals.{lit_true-neg, neg_lem, same_var}
use ignore_gates.Formula.{Clause, For, formula_true}
use ignore_gates.Gates.Occurrences.{is_blocked_unsorted}
use ignore_gates.Gates.Occurrences.Blocking.{Holds, elem-past, elem-neg}
use ignore_gates.Gates.Recognition.{literals}
use ignore_gates.Gates.Recognition.Inputs.{names}

-- The assignments differ in the variable of `o` at most.
abbrev pub AgreeBut : ℕ → Assignment → Assignment → Type 0
AgreeBut o α β = (v : ℕ) → v ≢ var o → α v ≡ β v

past_negation : (y z t : ℕ) (c : Cl) → Above t c → var z < t → any (λ b. z == neg b) c ≡ false
past_negation y z t [] v h = refl
past_negation y z t (x ∷ c) v h = ground (arith, past_negation y z (suc (var x)) c v.1)

-- In a sorted clause the literal that `z` negates is the one with the variable of `z`.
negates :
    (y z t : ℕ) (c : Cl)
    → Above t c
    → elem y c ≡ true
    → any (λ b. z == neg b) c ≡ true
    → var z ≡ var y
    → z ≡ neg y
negates y z t [] v h n e = cc
negates y z t (x ∷ c) v h n e = ground (
  arith,
  negates y z (suc (var x)) c v.1,
  elem-past y (suc (var x)) c v.1,
  past_negation y z (suc (var x)) c v.1,
)

all_false :
    (α : Assignment) (c : Cl)
    → ((y : ℕ) → elem y c ≡ true → lit_true α y ≡ false)
    → clause_true α c ≡ false
all_false α [] h = refl
all_false α (x ∷ c) h =
    let rest = all_false α c (λ y m. h y (ground arith)) in ground (arith, h x, rest)

names-append : (o v : ℕ) (c d : Cl) → names o v (c ++ d) ≡ (names o v c || names o v d)
names-append o v [] d = refl
names-append o v (x ∷ c) d = ground (arith, names-append o v c d)

module _ (β : Assignment) (o y : ℕ) (c : Clause) (above : Above 0 c.lits)
    (inside : elem y c.lits ≡ true) (off : lit_true β o ≡ false) where
  -- A binary clause that is true without `o`, and is blocked by the long clause.
  binary_forces :
      (d : Cl)
      → length d ≡ 2
      → elem o d ≡ true
      → is_blocked_unsorted o d c.lits ≡ true
      → names o (var y) d ≡ true
      → clause_true β d ≡ true
      → lit_true β y ≡ false
  binary_forces [] l h b n t = cc
  binary_forces (x ∷ []) l h b n t = absurd (omega arith)
  binary_forces (x1 ∷ x2 ∷ []) l h b n t = ground (
    arith,
    negates y x1 0 c.lits above inside,
    negates y x2 0 c.lits above inside,
    lit_true-neg β y,
    λ (e : x1 ≡ o). ap (lit_true β) e,
    λ (e : x2 ≡ o). ap (lit_true β) e,
    λ (e : x1 ≡ neg y). ap (lit_true β) e,
    λ (e : x2 ≡ neg y). ap (lit_true β) e,
  )
  binary_forces (x1 ∷ x2 ∷ x3 ∷ d) l h b n t = absurd (omega arith)

  binaries_force :
      (ds : For)
      → All (Holds o) ds
      → all (λ d. length d.lits == 2) ds ≡ true
      → all (λ d. is_blocked_unsorted o d.lits c.lits) ds ≡ true
      → names o (var y) (literals ds) ≡ true
      → formula_true β ds ≡ true
      → lit_true β y ≡ false
  binaries_force [] v l b n t = cc
  binaries_force (d ∷ ds) v l b n t = ground (
    arith,
    binary_forces d.lits,
    v.0.holds,
    binaries_force ds v.1,
    names-append o (var y) d.lits (literals ds),
  )

pub lit_true-agree :
    (α β : Assignment) (o y : ℕ) → AgreeBut o α β → var y ≢ var o → lit_true α y ≡ lit_true β y
lit_true-agree α β o y g h = ground (arith, g (var y) h)

-- One clause holds `n`, the negation of `o`, and binary clauses that it blocks name all its inputs:
-- then `o` cannot be true in one solution and false in another with the same inputs.
module _ (α β : Assignment) (o n : ℕ) (negation : n ≡ neg o) (agree : AgreeBut o α β) (c : Clause)
    (ds : For) (long : Holds n c) (binary : All (Holds o) ds)
    (size : all (λ d. length d.lits == 2) ds ≡ true)
    (blocked : all (λ d. is_blocked_unsorted o d.lits c.lits) ds ≡ true)
    (cover : (y : ℕ) → elem y c.lits ≡ true → y ≢ n → names o (var y) (literals ds) ≡ true) where
  input_false :
      (y : ℕ)
      → elem y c.lits ≡ true
      → y ≢ n
      → formula_true β ds ≡ true
      → lit_true β o ≡ false
      → lit_true α y ≡ false
  input_false y m ne t f =
      let forced = binaries_force β o y c long.above m f ds binary size blocked (cover y m ne) t in
      let absent = elem-neg n 0 c.lits long.above long.holds in
      let not_o : y ≢ o = λ e.
        let back : neg n ≡ o = ap neg negation ∙ (neg_lem o).0 in
        cc (ap (λ x. elem x c.lits) (back ∙ sym e), absent, m) in
      let other : var y ≢ var o = λ e. ne (same_var y o e not_o ∙ sym negation) in
      lit_true-agree α β o y agree other ∙ forced

  pub not_both :
      formula_true β ds ≡ true
      → clause_true α c.lits ≡ true
      → lit_true α o ≡ true
      → lit_true β o ≡ false
      → ⊥
  not_both t s a b =
      let none_true = all_false α c.lits λ y m. elim (Bool-cases (y == n)) [
        | inl e ↦
            let same : y ≡ neg o = ground arith in
            ap (lit_true α) same ∙ lit_true-neg α o ∙ ap not a
        | inr e ↦ input_false y m (λ q. ground arith) t b
      ] in
      cc (none_true, s)
