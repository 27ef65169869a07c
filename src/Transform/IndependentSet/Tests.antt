-- ===== src/Transform/IndependentSet/Tests.antt =====
-- A run of the independent-set problem, on the clauses of `1 = 2 and 3`.
use ignore_gates.Prelude.{ℕ, ◌+◌, ◌%◌, ◌^◌, ◌<◌, ◌≡◌, true, length, arith}
use ignore_gates.Gates.Tests.{and_formula}
use ignore_gates.Transform.IndependentSet.{generate_independent_set_problem}
use ignore_gates.Transform.IndependentSet.Loops.{has_loop}
use ignore_gates.Transform.IndependentSet.Edges.{generate_independent_set_problem-edges}

generate_independent_set_problem-edges_example :
    ((generate_independent_set_problem and_formula).nodes ≡ 7)
    × ((k : ℕ)
        → k < (generate_independent_set_problem and_formula).nodes
        → has_loop k (generate_independent_set_problem and_formula).edges ≡ true)
    × (length (generate_independent_set_problem and_formula).edges % 2 ^ 32
        ≡ ((generate_independent_set_problem and_formula).announced
            + (generate_independent_set_problem and_formula).nodes)
          % 2 ^ 32)
generate_independent_set_problem-edges_example =
    generate_independent_set_problem-edges and_formula (omega arith)
