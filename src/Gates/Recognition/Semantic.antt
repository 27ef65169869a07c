-- ===== src/Gates/Recognition/Semantic.antt =====
-- `fSemantic`: what the solver is asked, what its answer 20 shows, and what it is left with.
use mathlib.Core.List.{append-nil, append_assoc}
use ignore_gates.Prelude.{
  ℕ, zero, suc, ◌^◌, ◌<◌, ◌≡◌, refl, sym, ap, ◌∙◌, Bool, true, false, not, List, [], ◌∷◌, ◌++◌, map,
  arith, if◌then◌else◌, any, all, All,
}
use ignore_gates.Types.{Cl, lit, var, sign, positive, negative, to_dimacs, Assignment}
use ignore_gates.Types.Int.{ℤ, pos, neg_ℤ, abs, is_negative, is_zero}
use ignore_gates.Types.Literals.{lit_parts}
use ignore_gates.Formula.{Clause, For}
use ignore_gates.Gates.Recognition.{
  generic, Solver, ipasir_init, ipasir_add, ipasir_assume, semantic_lit, add_lits, add_for,
  f_semantic,
}

-- The truth of a DIMACS literal, and of clauses of these.
abbrev pub int_true : Assignment → ℤ → Bool
int_true α z = if is_negative z then not (α (abs z)) else α (abs z)

abbrev pub clauses_true : Assignment → List (List ℤ) → Bool
clauses_true α = all (any (int_true α))

-- Documented of `ipasir_solve`: 20 says that no assignment makes all clauses and assumptions true.
abbrev pub IsSound : (List (List ℤ) → List ℤ → ℕ) → Type 0
IsSound solve =
    (cs : List (List ℤ)) (bs : List ℤ) (γ : Assignment)
    → solve cs bs ≡ 20
    → clauses_true γ cs ≡ true
    → all (int_true γ) bs ≡ true
    → ⊥

-- A variable that has a DIMACS literal and fits a code.
abbrev pub InRange : ℕ → Type 0
InRange x = (0 < var x) × (var x < 2 ^ 31)

abbrev pub encode : ℕ → For → List (List ℤ)
encode o = map (λ c. map (semantic_lit o) c.lits)

to_dimacs-abs : (x : ℕ) → abs (to_dimacs x) ≡ var x
unfolding to_dimacs neg_ℤ
to_dimacs-abs x = go (var x) (sign x)
  where
    go : (v : ℕ) (b : Bool) → abs (if b then neg_ℤ (pos v) else pos v) ≡ v
    go zero true = refl
    go (suc v) true = refl
    go v false = refl

pub semantic_lit-abs : (o x : ℕ) → InRange x → abs (semantic_lit o x) ≡ var x
unfolding positive
semantic_lit-abs o x h =
    ground (arith, to_dimacs-abs x, to_dimacs-abs (lit (var x) false), lit_parts (var x) false h.1)

add_lits_lem :
    (o : ℕ) (s : Solver) (ls : Cl)
    → All InRange ls
    → add_lits o s ls ≡ record s { open_clause = s.open_clause ++ map (semantic_lit o) ls }
unfolding add_lits
add_lits_lem o s [] v = ap (λ x. record s { open_clause = x }) (sym (append-nil s.open_clause))
add_lits_lem o s (l ∷ ls) v =
    let nonzero : is_zero (semantic_lit o l) ≡ false = ground (arith, semantic_lit-abs o l v.0) in
    rw nonzero (
      add_lits_lem o (record s { open_clause = s.open_clause ++ (semantic_lit o l ∷ []) }) ls v.1
      ∙ ap (λ x. record s { open_clause = x })
          (append_assoc s.open_clause (semantic_lit o l ∷ []) (map (semantic_lit o) ls)))

abbrev pub AllInRange : For → Type 0
AllInRange = All (λ c. All InRange c.lits)

-- Adding clauses closes each of them.
pub add_for_lem :
    (o : ℕ) (s : Solver) (cs : For)
    → AllInRange cs
    → s.open_clause ≡ []
    → add_for o s cs ≡ record s { closed = s.closed ++ encode o cs }
unfolding add_for
add_for_lem o s [] v e = ap (λ x. record s { closed = x }) (sym (append-nil s.closed))
add_for_lem o s (c ∷ cs) v e =
    let closed = s.closed ++ ((s.open_clause ++ map (semantic_lit o) c.lits) ∷ []) in
    ap (λ t. add_for o (ipasir_add t (pos 0)) cs) (add_lits_lem o s c.lits v.0)
    ∙ add_for_lem o (record s { closed = closed; open_clause = [] }) cs v.1 refl
    ∙ ground (
      arith,
      append_assoc s.closed (map (semantic_lit o) c.lits ∷ []) (encode o cs),
      ap (λ x. x ++ map (semantic_lit o) c.lits) e,
    )

-- What was open before goes into the first clause.
pub add_for_open :
    (o : ℕ) (s : Solver) (c : Clause) (cs : For)
    → AllInRange (c ∷ cs)
    → add_for o s (c ∷ cs) ≡ record s {
      closed = s.closed ++ ((s.open_clause ++ map (semantic_lit o) c.lits) ∷ encode o cs);
      open_clause = [];
    }
unfolding add_for
add_for_open o s c cs v =
    let first = s.open_clause ++ map (semantic_lit o) c.lits in
    ap (λ t. add_for o (ipasir_add t (pos 0)) cs) (add_lits_lem o s c.lits v.0)
    ∙ add_for_lem o (record s { closed = s.closed ++ (first ∷ []); open_clause = [] }) cs v.1 refl
    ∙ ground (arith, append_assoc s.closed (first ∷ []) (encode o cs))

pub output_unit :
    (o : ℕ) (s : Solver)
    → InRange o
    → ipasir_add s (to_dimacs (positive o))
      ≡ record s { open_clause = s.open_clause ++ (to_dimacs (positive o) ∷ []) }
unfolding positive
output_unit o s h =
    let nonzero : is_zero (to_dimacs (positive o)) ≡ false =
      ground (arith, to_dimacs-abs (lit (var o) false), lit_parts (var o) false h.1) in
    rw nonzero

module _ (solve : List (List ℤ) → List ℤ → ℕ) where
  -- After a check on a solver with no open clause the literal of the output is the open clause, and
  -- no closed clause is that unit: the closed clauses are the old ones and those of the check.
  pub f_semantic_state :
      (s : Solver) (o : ℕ) (fwd bwd : For)
      → InRange o
      → AllInRange fwd
      → AllInRange bwd
      → s.open_clause ≡ []
      → (f_semantic solve s o fwd bwd).0 ≡ record {
        closed = (s.closed ++ encode o fwd) ++ encode o bwd;
        open_clause = to_dimacs (positive o) ∷ [];
        assumptions = [];
      }
  unfolding f_semantic
  f_semantic_state s o fwd bwd h v w e =
      let one = add_for_lem o s fwd v e in
      let two = add_for_lem o (record s { closed = s.closed ++ encode o fwd }) bwd w e in
      ap
        (λ t.
          ipasir_add (record (ipasir_assume t (to_dimacs (negative o))) { assumptions = [] })
            (to_dimacs (positive o)))
        (ap (λ t. add_for o t bwd) one ∙ two)
      ∙ output_unit o
          (record {
            closed = (s.closed ++ encode o fwd) ++ encode o bwd;
            open_clause = s.open_clause;
            assumptions = [];
          })
          h
      ∙ ground (arith, ap (λ x. x ++ (to_dimacs (positive o) ∷ [])) e)

  -- The answer asked for: the clauses of the check, under the assumption that the output is false.
  pub f_semantic_query :
      (o : ℕ) (fwd bwd : For)
      → AllInRange fwd
      → AllInRange bwd
      → (f_semantic solve ipasir_init o fwd bwd).1 ≡ generic
      → solve (encode o fwd ++ encode o bwd) (to_dimacs (negative o) ∷ []) ≡ 20
  unfolding f_semantic ipasir_init
  f_semantic_query o fwd bwd v w g =
      let one = add_for_lem o ipasir_init fwd v refl in
      let two = add_for_lem o (record ipasir_init { closed = encode o fwd }) bwd w refl in
      let added = ap (λ t. add_for o t bwd) one ∙ two in
      let answer =
        ap (λ (t : Solver). solve t.closed (to_dimacs (negative o) ∷ t.assumptions)) added in
      ground (arith, answer)
