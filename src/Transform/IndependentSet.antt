-- ===== src/Transform/IndependentSet.antt =====
-- cnftools/src/transform/IndependentSet.h: `generate_independent_set_problem`, on the formula that it
-- has read. What it prints is the number of clauses, the two counters of the header, and a list of
-- edges. Counters wrap at 32 bits; a clause has fewer than 2 ^ 32 literals, so that the product of
-- its size and the size before is a `size_t`.
mod Loops
pub mod Edges
mod Tests
use ignore_gates.Prelude.{
  ℕ, zero, suc, ◌+◌, ◌-◌, ◌*◌, ◌/◌, ◌%◌, ◌^◌, Bool, true, false, List, [], ◌∷◌, ◌++◌, ◌==◌,
  if◌then◌else◌, length,
}
use ignore_gates.Types.{Cl, lit}
use ignore_gates.Formula.{Clause, For, CnfFormula, n_clauses, n_vars}

pub record IndependentSet : Type 0 where
  pub literal2nodes : ℕ → List ℕ
  pub n_nodes : ℕ
  pub n_edges : ℕ
  pub node_id : ℕ

-- The inner loop of the first pass: the literals from the place `i` of a clause on.
number_lits : ℕ → (ℕ → List ℕ) → Cl → ℕ → List ℕ
number_lits node nodes [] = nodes
number_lits node nodes (l ∷ ls) =
    number_lits (suc node % 2 ^ 32) (λ k. if k == l then nodes k ++ (node ∷ []) else nodes k) ls

unfoldable pub number_clause : IndependentSet → Clause → IndependentSet
unfolding number_lits
number_clause s c =
    let size = length c.lits in
    record {
      literal2nodes = number_lits s.node_id s.literal2nodes c.lits;
      n_nodes = (s.n_nodes + size) % 2 ^ 32;
      n_edges = (s.n_edges + size * (size - 1) / 2) % 2 ^ 32;
      node_id = (s.node_id + size) % 2 ^ 32;
    }

unfoldable pub number_clauses : IndependentSet → For → IndependentSet
unfolding number_clause
number_clauses s [] = s
number_clauses s (c ∷ cs) = number_clauses (number_clause s c) cs

-- The loop over the variables from `i` on, `left` of them.
unfoldable pub count_opposite : IndependentSet → ℕ → ℕ → IndependentSet
unfolding lit
count_opposite s i zero = s
count_opposite s i (suc left) =
    let pairs = length (s.literal2nodes (lit i false)) * length (s.literal2nodes (lit i true)) in
    count_opposite (record s { n_edges = (s.n_edges + pairs) % 2 ^ 32 }) (suc i) left

abbrev pub Edge : Type 0
Edge = ℕ × ℕ

-- The loop over `j`, with `left` more rounds.
unfoldable pub clique_row : ℕ → ℕ → ℕ → List Edge
clique_row var1 var2 zero = []
clique_row var1 var2 (suc left) = (var1, var2) ∷ clique_row var1 (suc var2 % 2 ^ 32) left

-- The loop over `i`; `j` starts at `i`.
unfoldable pub clique : ℕ → ℕ → List Edge
unfolding clique_row
clique var1 zero = []
clique var1 (suc left) = clique_row var1 var1 (suc left) ++ clique (suc var1 % 2 ^ 32) left

unfoldable pub cliques : ℕ → For → List Edge
unfolding clique
cliques node_id [] = []
cliques node_id (c ∷ cs) =
    clique node_id (length c.lits) ++ cliques ((node_id + length c.lits) % 2 ^ 32) cs

unfoldable pub edges_from : ℕ → List ℕ → List Edge
edges_from node1 [] = []
edges_from node1 (node2 ∷ nodes) = (node1, node2) ∷ edges_from node1 nodes

unfoldable pub edges_between : List ℕ → List ℕ → List Edge
unfolding edges_from
edges_between [] nodes = []
edges_between (node1 ∷ others) nodes = edges_from node1 nodes ++ edges_between others nodes

unfoldable pub opposite_edges : IndependentSet → ℕ → ℕ → List Edge
unfolding edges_between lit
opposite_edges s i zero = []
opposite_edges s i (suc left) =
    edges_between (s.literal2nodes (lit i false)) (s.literal2nodes (lit i true))
    ++ opposite_edges s (suc i) left

pub record Printed : Type 0 where
  pub set_size : ℕ
  pub nodes : ℕ
  pub announced : ℕ
  pub edges : List Edge

unfoldable pub generate_independent_set_problem : CnfFormula → Printed
unfolding number_clauses count_opposite cliques opposite_edges
generate_independent_set_problem f =
    let empty : IndependentSet = record {
      literal2nodes = λ _. [];
      n_nodes = 0;
      n_edges = 0;
      node_id = 1;
    } in
    let s = count_opposite (number_clauses empty f.formula) 1 (n_vars f) in
    record {
      set_size = n_clauses f;
      nodes = s.n_nodes;
      announced = s.n_edges;
      edges = cliques 0 f.formula ++ opposite_edges s 1 (n_vars f);
    }
