-- ===== src/Transform/IndependentSet/Loops.antt =====
-- The edges from a node to itself, which the cliques of `generate_independent_set_problem` have.
use ignore_gates.Prelude.{
  ℕ, zero, suc, ◌+◌, ◌%◌, ◌^◌, ◌≤◌, ◌<◌, ◌≡◌, inl, inr, Bool, true, ◌&&◌, ◌||◌, List, [], ◌∷◌, ◌++◌,
  arith, ◌==◌, ltb, any, length, Bool-cases,
}
use ignore_gates.Formula.{For}
use ignore_gates.Transform.IndependentSet.{
  Edge, IndependentSet, number_clause, number_clauses, clique_row, clique, cliques,
}

-- The edge from the node to itself is there.
abbrev pub has_loop : ℕ → List Edge → Bool
has_loop k es = any (λ (e : Edge). e.0 == k && e.1 == k) es

-- The number of places in the clauses.
abbrev pub places : For → ℕ
places [] = 0
places (c ∷ cs) = length c.lits + places cs

pub has_loop-append :
    (k : ℕ) (es fs : List Edge) → has_loop k (es ++ fs) ≡ (has_loop k es || has_loop k fs)
has_loop-append k [] fs = ground arith
has_loop-append k (e ∷ es) fs = ground (arith, has_loop-append k es fs)

clique-loop : (v n k : ℕ) → v + n < 2 ^ 32 → v ≤ k → k < v + n → has_loop k (clique v n) ≡ true
unfolding clique clique_row
clique-loop v zero k h a b = absurd (omega (arith, a, b))
clique-loop v (suc n) k h a b =
    let next : suc v % 2 ^ 32 ≡ suc v = omega (arith, h) in
    let append = has_loop-append k (clique_row v v (suc n)) (clique (suc v % 2 ^ 32) n) in
    elim (Bool-cases (v == k)) [
      | inl e ↦ ground (arith, append, e)
      | inr e ↦
          let rest : has_loop k (clique (suc v % 2 ^ 32) n) ≡ true = rw next (
            clique-loop (suc v) n k (omega (arith, h)) (ground (arith, a, e)) (omega (arith, b))) in
          ground (arith, append, rest)
    ]

pub cliques-loop :
    (node_id : ℕ) (cs : For) (k : ℕ)
    → node_id + places cs < 2 ^ 32
    → node_id ≤ k
    → k < node_id + places cs
    → has_loop k (cliques node_id cs) ≡ true
unfolding cliques
cliques-loop node_id [] k h a b = absurd (omega (arith, a, b))
cliques-loop node_id (c ∷ cs) k h a b =
    let size = length c.lits in
    let next : (node_id + size) % 2 ^ 32 ≡ node_id + size = omega (arith, h) in
    let append = has_loop-append k (clique node_id size) (cliques ((node_id + size) % 2 ^ 32) cs) in
    elim (Bool-cases (ltb k (node_id + size))) [
      | inl e ↦
          ground
            (arith, append, clique-loop node_id size k (omega (arith, h)) a (ground (arith, e)))
      | inr e ↦
          let rest : has_loop k (cliques ((node_id + size) % 2 ^ 32) cs) ≡ true = rw next (
            cliques-loop (node_id + size) cs k (omega (arith, h)) (ground (arith, e))
              (omega (arith, b))) in
          ground (arith, append, rest)
    ]

pub number_clauses_nodes :
    (s : IndependentSet) (cs : For)
    → s.n_nodes + places cs < 2 ^ 32
    → (number_clauses s cs).n_nodes ≡ s.n_nodes + places cs
unfolding number_clauses number_clause
number_clauses_nodes s [] h = omega arith
number_clauses_nodes s (c ∷ cs) h =
    let size = length c.lits in
    omega (arith, h, number_clauses_nodes (number_clause s c) cs (omega (arith, h)))
