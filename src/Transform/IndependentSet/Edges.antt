-- ===== src/Transform/IndependentSet/Edges.antt =====
-- Which edges are printed, and how many, against the number that the header announces.
use ignore_gates.Prelude.{
  ℕ, zero, suc, ◌+◌, ◌-◌, ◌*◌, ◌/◌, ◌%◌, ◌^◌, ◌<◌, ◌≡◌, refl, ap, ◌∙◌, true, false, List, [], ◌∷◌,
  arith, length, length-append,
}
use ignore_gates.Types.{lit}
use ignore_gates.Formula.{For, CnfFormula, n_vars}
use ignore_gates.Transform.IndependentSet.{
  IndependentSet, number_clause, number_clauses, count_opposite, clique_row, clique, cliques,
  edges_from, edges_between, opposite_edges, generate_independent_set_problem,
}
use ignore_gates.Transform.IndependentSet.Loops.{
  has_loop, places, has_loop-append, cliques-loop, number_clauses_nodes,
}

length-clique_row : (v w n : ℕ) → length (clique_row v w n) ≡ n
unfolding clique_row
length-clique_row v w zero = refl
length-clique_row v w (suc n) = ap suc (length-clique_row v (suc w % 2 ^ 32) n)

products : (n : ℕ) → suc (suc n) * suc n ≡ suc n * n + 2 * suc n
products n = grind arith

triangle : (n : ℕ) → suc n * n / 2 ≡ n * (n - 1) / 2 + n
triangle zero = omega arith
triangle (suc n) = rw suc_sub (omega (arith, products n))
  where
    suc_sub : suc n - 1 ≡ n
    suc_sub = omega arith

-- Each clause has an edge for each pair of places, and one from each place to itself.
length-clique : (v n : ℕ) → length (clique v n) ≡ n * (n - 1) / 2 + n
unfolding clique clique_row
length-clique v zero = omega arith
length-clique v (suc n) = rw suc_sub (
    omega (
      arith,
      length-append (clique_row v (suc v % 2 ^ 32) n) (clique (suc v % 2 ^ 32) n),
      length-clique_row v (suc v % 2 ^ 32) n,
      length-clique (suc v % 2 ^ 32) n,
      triangle n,
    ))
  where
    suc_sub : suc n - 1 ≡ n
    suc_sub = omega arith

length-edges_from : (v : ℕ) (nodes : List ℕ) → length (edges_from v nodes) ≡ length nodes
unfolding edges_from
length-edges_from v [] = refl
length-edges_from v (w ∷ nodes) = ap suc (length-edges_from v nodes)

length-edges_between : (vs ws : List ℕ) → length (edges_between vs ws) ≡ length vs * length ws
unfolding edges_between
length-edges_between [] ws = omega arith
length-edges_between (v ∷ vs) ws = omega (
  arith,
  length-append (edges_from v ws) (edges_between vs ws),
  length-edges_from v ws,
  length-edges_between vs ws,
)

-- The wrapped counters after the first pass, by the edges of the cliques.
number_clauses-cliques :
    (cs : For) (s : IndependentSet) (node_id : ℕ)
    → ((number_clauses s cs).n_edges + (number_clauses s cs).n_nodes) % 2 ^ 32
      ≡ (s.n_edges + s.n_nodes + length (cliques node_id cs)) % 2 ^ 32
unfolding number_clauses number_clause cliques
number_clauses-cliques [] s node_id = omega arith
number_clauses-cliques (c ∷ cs) s node_id =
    let size = length c.lits in
    omega (
      arith,
      number_clauses-cliques cs (number_clause s c) ((node_id + size) % 2 ^ 32),
      length-append (clique node_id size) (cliques ((node_id + size) % 2 ^ 32) cs),
      length-clique node_id size,
    )

module _ (nodes : ℕ → List ℕ) where
  abbrev opposite : ℕ → ℕ → ℕ
  opposite i zero = 0
  opposite i (suc left) =
      length (nodes (lit i false)) * length (nodes (lit i true)) + opposite (suc i) left

count_opposite-edges :
    (left i : ℕ) (s : IndependentSet)
    → (count_opposite s i left).n_edges % 2 ^ 32
      ≡ (s.n_edges + opposite s.literal2nodes i left) % 2 ^ 32
unfolding count_opposite
count_opposite-edges zero i s = omega arith
count_opposite-edges (suc left) i s =
    let pairs = length (s.literal2nodes (lit i false)) * length (s.literal2nodes (lit i true)) in
    omega (
      arith,
      count_opposite-edges left (suc i) (record s { n_edges = (s.n_edges + pairs) % 2 ^ 32 }),
    )

length-opposite_edges :
    (left i : ℕ) (s : IndependentSet)
    → length (opposite_edges s i left) ≡ opposite s.literal2nodes i left
unfolding opposite_edges
length-opposite_edges zero i s = refl
length-opposite_edges (suc left) i s =
    let pos = s.literal2nodes (lit i false) in
    let neg = s.literal2nodes (lit i true) in
    omega (
      arith,
      length-append (edges_between pos neg) (opposite_edges s (suc i) left),
      length-edges_between pos neg,
      length-opposite_edges left (suc i) s,
    )

count_opposite-nodes :
    (left i : ℕ) (s : IndependentSet)
    → ((count_opposite s i left).n_nodes ≡ s.n_nodes)
      × ((count_opposite s i left).literal2nodes ≡ s.literal2nodes)
unfolding count_opposite
count_opposite-nodes zero i s = (refl, refl)
count_opposite-nodes (suc left) i s = count_opposite-nodes left (suc i) (record s { n_edges = _ })

abbrev fresh : IndependentSet
fresh = record { literal2nodes = λ _. []; n_nodes = 0; n_edges = 0; node_id = 1 }

printed-edges :
    (f : CnfFormula)
    → length (generate_independent_set_problem f).edges % 2 ^ 32
      ≡ ((generate_independent_set_problem f).announced
          + (generate_independent_set_problem f).nodes)
        % 2 ^ 32
unfolding generate_independent_set_problem
printed-edges f =
    let s = number_clauses fresh f.formula in
    let t = count_opposite s 1 (n_vars f) in
    let same = count_opposite-nodes (n_vars f) 1 s in
    omega (
      arith,
      length-append (cliques 0 f.formula) (opposite_edges t 1 (n_vars f)),
      length-opposite_edges (n_vars f) 1 t,
      ap (λ nodes. opposite nodes 1 (n_vars f)) same.1,
      count_opposite-edges (n_vars f) 1 s,
      same.0,
      number_clauses-cliques f.formula fresh 0,
    )

printed_nodes :
    (f : CnfFormula)
    → places f.formula < 2 ^ 32
    → (generate_independent_set_problem f).nodes ≡ places f.formula
unfolding generate_independent_set_problem
printed_nodes f h =
    (count_opposite-nodes (n_vars f) 1 (number_clauses fresh f.formula)).0
    ∙ (number_clauses_nodes fresh f.formula (omega (arith, h)) ∙ omega arith)

printed_loops :
    (f : CnfFormula) (k : ℕ)
    → places f.formula < 2 ^ 32
    → k < places f.formula
    → has_loop k (generate_independent_set_problem f).edges ≡ true
unfolding generate_independent_set_problem
printed_loops f k h b =
    let s = count_opposite (number_clauses fresh f.formula) 1 (n_vars f) in
    ground (
      arith,
      has_loop-append k (cliques 0 f.formula) (opposite_edges s 1 (n_vars f)),
      cliques-loop 0 f.formula k (omega (arith, h)) (omega arith) (omega (arith, b)),
    )

-- Where the clauses have fewer than 2^32 places, there is a node for each place, each node, counted
-- from 0, has an edge to itself, and the edges printed are as many as the header announces and one
-- more for each node, up to the wrap of the counters.
pub generate_independent_set_problem-edges :
    (f : CnfFormula)
    → places f.formula < 2 ^ 32
    → ((generate_independent_set_problem f).nodes ≡ places f.formula)
      × ((k : ℕ)
          → k < (generate_independent_set_problem f).nodes
          → has_loop k (generate_independent_set_problem f).edges ≡ true)
      × (length (generate_independent_set_problem f).edges % 2 ^ 32
          ≡ ((generate_independent_set_problem f).announced
              + (generate_independent_set_problem f).nodes)
            % 2 ^ 32)
generate_independent_set_problem-edges f h = (
  printed_nodes f h,
  λ k b. printed_loops f k h (omega (arith, b, printed_nodes f h)),
  printed-edges f,
)
