-- ===== src/Formula/Tests.antt =====
-- Runs of the reader of clauses.
use ignore_gates.Prelude.{◌≡◌, ◌↔◌, true, ◌&&◌, [], ◌∷◌, all}
use ignore_gates.Types.{Assignment, clause_true}
use ignore_gates.Formula.{empty, read_clause, read_clauses, formula_true}
use ignore_gates.Formula.Meaning.{read_clauses-true}
use ignore_gates.Formula.Shape.{IsValid, read_clauses-IsValid, read_clause_skips}
use ignore_gates.Gates.Tests.{and_clauses, empty-IsValid, all_true}

read_clauses-true_example :
    formula_true all_true (read_clauses empty and_clauses).formula
    ≡ (formula_true all_true empty.formula && all (clause_true all_true) and_clauses)
read_clauses-true_example = read_clauses-true all_true empty and_clauses

read_clauses-IsValid_example : IsValid (read_clauses empty and_clauses)
read_clauses-IsValid_example = read_clauses-IsValid empty and_clauses empty-IsValid

read_clause_skips_example :
    (read_clause empty (4 ∷ 2 ∷ 5 ∷ []) ≡ empty)
    ↔ ((α : Assignment) → clause_true α (4 ∷ 2 ∷ 5 ∷ []) ≡ true)
read_clause_skips_example = read_clause_skips empty (4 ∷ 2 ∷ 5 ∷ [])
