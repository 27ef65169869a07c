-- ===== src/Gates/Recognition/Generic.antt =====
-- What a generic gate is: the solver's answer makes its output a function of its inputs.
use ignore_gates.Prelude.{
  ℕ, zero, suc, ◌<◌, ◌≡◌, refl, sym, ap, ◌∙◌, Bool, true, false, not, ◌&&◌, List, [], ◌∷◌, ◌++◌,
  map, arith, ◌==◌, if◌then◌else◌, any, elem, All,
}
use ignore_gates.Types.{
  Cl, lit, neg, var, sign, positive, negative, to_dimacs, Assignment, lit_true, clause_true,
}
use ignore_gates.Types.Int.{ℤ, pos, neg_ℤ}
use ignore_gates.Types.Literals.{lit_true-neg, lit_parts, neg_lem}
use ignore_gates.Formula.{Clause, For, formula_true}
use ignore_gates.Formula.Meaning.{all-append}
use ignore_gates.Gates.Occurrences.Blocking.{Holds, elem-neg}
use ignore_gates.Gates.Recognition.{generic, Solver, ipasir_init, semantic_lit, add_for, f_semantic}
use ignore_gates.Gates.Recognition.Binary.{AgreeBut, lit_true-agree}
use ignore_gates.Gates.Recognition.Unique.{Bool-same, agree_sym}
use ignore_gates.Gates.Recognition.Semantic.{
  int_true, clauses_true, IsSound, InRange, encode, AllInRange, f_semantic_query, f_semantic_state,
  add_for_lem, add_for_open, output_unit,
}

-- `γ` gives the output's variable the value false.
module _ (γ : Assignment) (o : ℕ) (off : γ (var o) ≡ false) where
  int_true-to_dimacs : (x : ℕ) → 0 < var x → int_true γ (to_dimacs x) ≡ lit_true γ x
  unfolding to_dimacs neg_ℤ
  int_true-to_dimacs x h = go (var x) (sign x) h
    where
      go :
          (v : ℕ) (b : Bool)
          → 0 < v
          → int_true γ (if b then neg_ℤ (pos v) else pos v) ≡ (if b then not (γ v) else γ v)
      go zero b h = absurd (omega arith)
      go (suc v) true h = refl
      go (suc v) false h = refl

  int_true-positive : InRange o → int_true γ (to_dimacs (positive o)) ≡ false
  unfolding positive
  int_true-positive h = ground (
    arith,
    int_true-to_dimacs (lit (var o) false),
    lit_parts (var o) false h.1,
    ap γ (lit_parts (var o) false h.1).0,
  )

  int_true-negative : InRange o → int_true γ (to_dimacs (negative o)) ≡ true
  unfolding negative
  int_true-negative h = ground (
    arith,
    int_true-to_dimacs (lit (var o) true),
    lit_parts (var o) true h.1,
    ap γ (lit_parts (var o) true h.1).0,
  )

  semantic_lit-true :
      (x : ℕ)
      → InRange o
      → InRange x
      → int_true γ (semantic_lit o x) ≡ (not (var x == var o) && lit_true γ x)
  unfolding positive
  semantic_lit-true x h v = ground (
    arith,
    int_true-to_dimacs x v.0,
    int_true-positive h,
    λ (e : var x ≡ var o). ap (λ w. int_true γ (to_dimacs (lit w false))) e,
  )

  -- A clause that is true through another variable stays true in the solver's clauses.
  encoded_true :
      (α : Assignment) (n : ℕ) (c : Cl)
      → InRange o
      → All InRange c
      → AgreeBut o α γ
      → var n ≡ var o
      → lit_true α n ≡ false
      → elem (neg n) c ≡ false
      → clause_true α c ≡ true
      → any (int_true γ) (map (semantic_lit o) c) ≡ true
  encoded_true α n [] h v g e f m t = cc
  encoded_true α n (x ∷ c) h v g e f m t = ground (
    arith,
    semantic_lit-true x h v.0,
    lit_true-agree α γ o x g,
    encoded_true α n c h v.1 g e f,
    λ (q : x ≡ n). ap (lit_true α) q,
  )

  encoded-All :
      (α : Assignment) (n : ℕ) (cs : For)
      → InRange o
      → AllInRange cs
      → AgreeBut o α γ
      → var n ≡ var o
      → lit_true α n ≡ false
      → All (Holds n) cs
      → formula_true α cs ≡ true
      → clauses_true γ (encode o cs) ≡ true
  encoded-All α n [] h v g e f a t = refl
  encoded-All α n (c ∷ cs) h v g e f a t = ground (
    arith,
    encoded_true α n c.lits h v.0 g e f (elem-neg n 0 c.lits a.0.above a.0.holds),
    encoded-All α n cs h v.1 g e f a.1,
  )

-- `α` with the variable of `o` false.
abbrev clear_output : Assignment → ℕ → Assignment
clear_output α o v = if v == var o then false else α v

clear_output-AgreeBut : (α : Assignment) (o : ℕ) → AgreeBut o α (clear_output α o)
clear_output-AgreeBut α o v h = ground arith

module _ (solve : List (List ℤ) → List ℤ → ℕ) (sound : IsSound solve) where
  not_both_generic :
      (o : ℕ) (fwd bwd : For) (α β : Assignment)
      → InRange o
      → AllInRange fwd
      → AllInRange bwd
      → All (Holds (neg o)) fwd
      → All (Holds o) bwd
      → (f_semantic solve ipasir_init o fwd bwd).1 ≡ generic
      → AgreeBut o α β
      → formula_true α fwd ≡ true
      → formula_true β bwd ≡ true
      → lit_true α o ≡ true
      → lit_true β o ≡ false
      → ⊥
  not_both_generic o fwd bwd α β h v w a b g agree s t x y =
      let γ = clear_output α o in
      let off : γ (var o) ≡ false = ground arith in
      let agree' : AgreeBut o β γ = λ u n. sym (agree u n) ∙ clear_output-AgreeBut α o u n in
      let first =
        encoded-All γ o off α (neg o) fwd h v (clear_output-AgreeBut α o) (neg_lem o).1
          (lit_true-neg α o ∙ ap not x) a s in
      let second = encoded-All γ o off β o bwd h w agree' refl y b t in
      sound (encode o fwd ++ encode o bwd) (to_dimacs (negative o) ∷ []) γ
        (f_semantic_query solve o fwd bwd v w g)
        (all-append (any (int_true γ)) (encode o fwd) (encode o bwd) ∙ ground arith)
        (ground (arith, int_true-negative γ o off h))

  -- With a solver whose answer 20 is right, a first semantic check that gives GENERIC shows that the
  -- output is determined by the inputs: two assignments that agree on every other variable and make
  -- the clauses of both sides true give `o` the same value. The clauses hold the output as the index
  -- lists them, and all their variables have DIMACS literals.
  pub f_semantic_unique :
      (o : ℕ) (fwd bwd : For) (α β : Assignment)
      → InRange o
      → AllInRange fwd
      → AllInRange bwd
      → All (Holds (neg o)) fwd
      → All (Holds o) bwd
      → (f_semantic solve ipasir_init o fwd bwd).1 ≡ generic
      → AgreeBut o α β
      → (formula_true α fwd ≡ true) × (formula_true α bwd ≡ true)
      → (formula_true β fwd ≡ true) × (formula_true β bwd ≡ true)
      → lit_true α o ≡ lit_true β o
  f_semantic_unique o fwd bwd α β h v w a b g agree s t =
      Bool-same (lit_true α o) (lit_true β o)
        (not_both_generic o fwd bwd α β h v w a b g agree s.0 t.1)
        (not_both_generic o fwd bwd β α h v w a b g (agree_sym α β o agree) t.0 s.1)

f_semantic_closed :
    (solve : List (List ℤ) → List ℤ → ℕ) (s : Solver) (o : ℕ) (fwd bwd : For)
    → InRange o
    → (f_semantic solve s o fwd bwd).0.closed ≡ (add_for o (add_for o s fwd) bwd).closed
unfolding f_semantic
f_semantic_closed solve s o fwd bwd h =
    let s1 = add_for o (add_for o s fwd) bwd in
    ap (λ (t : Solver). t.closed) (output_unit o (record s1 { assumptions = [] }) h)

-- The unit clause that should retire the clauses of a check is not closed: in the next check on the
-- same solver the literal of the earlier output is part of its first clause. Whatever the solver
-- answers, the closed clauses are then those of the first check, that clause, and the others.
pub f_semantic_leaks :
    (solve : List (List ℤ) → List ℤ → ℕ) (s : Solver) (o p : ℕ) (fwd bwd : For) (c : Clause)
    (cs ds : For)
    → InRange o
    → InRange p
    → AllInRange fwd
    → AllInRange bwd
    → AllInRange (c ∷ cs)
    → AllInRange ds
    → s.open_clause ≡ []
    → (f_semantic solve (f_semantic solve s o fwd bwd).0 p (c ∷ cs) ds).0.closed
      ≡ (((s.closed ++ encode o fwd) ++ encode o bwd)
          ++ ((to_dimacs (positive o) ∷ map (semantic_lit p) c.lits) ∷ encode p cs))
        ++ encode p ds
f_semantic_leaks solve s o p fwd bwd c cs ds h k v w x y e =
    let s1 = (f_semantic solve s o fwd bwd).0 in
    let s2 : Solver = record s1 {
      closed = s1.closed ++ ((s1.open_clause ++ map (semantic_lit p) c.lits) ∷ encode p cs);
      open_clause = [];
    } in
    f_semantic_closed solve s1 p (c ∷ cs) ds k
    ∙ ap (λ (t : Solver). (add_for p t ds).closed) (add_for_open p s1 c cs x)
    ∙ ap (λ (t : Solver). t.closed) (add_for_lem p s2 ds y refl)
    ∙ ap
        (λ (t : Solver).
          (t.closed ++ ((t.open_clause ++ map (semantic_lit p) c.lits) ∷ encode p cs))
          ++ encode p ds)
        (f_semantic_state solve s o fwd bwd h v w e)
