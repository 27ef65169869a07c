-- ===== src/Gates/Structure/Tests.antt =====
-- Runs of the structure of gates.
use ignore_gates.Prelude.{ℕ, ◌≡◌, ◌&&◌, refl, true, [], ◌∷◌, ◌++◌, arith}
use ignore_gates.Formula.{formula_true}
use ignore_gates.Gates.Recognition.{and_gate}
use ignore_gates.Gates.Structure.{GateFormula, init, get_gate, add_gate}
use ignore_gates.Gates.Structure.Marks.{IsMarked, new_gate, add_gate-IsMarked}
use ignore_gates.Gates.Structure.Normalized.{root_var, normalize_roots, normalize_roots-true}

init-IsMarked : (v : ℕ) → IsMarked (init 3) v
unfolding init
init-IsMarked v = record { output = λ e. ground arith; marked = λ l e. ground arith }

add_gate-IsMarked_example :
    IsMarked (add_gate (init 3) and_gate 2 [] [] (4 ∷ 6 ∷ [])) 1
    × (get_gate (add_gate (init 3) and_gate 2 [] [] (4 ∷ 6 ∷ [])) 2
        ≡ new_gate (init 3) and_gate 2 [] [] (4 ∷ 6 ∷ []))
add_gate-IsMarked_example =
    add_gate-IsMarked (init 3) and_gate 2 [] [] (4 ∷ 6 ∷ []) 1 (init-IsMarked 1)

abbrev two_roots : GateFormula
two_roots = record (init 3) {
  roots = record { ptr = 0; lits = 2 ∷ [] } ∷ [];
  remainder = record { ptr = 1; lits = 5 ∷ 6 ∷ [] } ∷ [];
}

normalize_roots-true_example :
    (formula_true (λ v. true) (normalize_roots 9 two_roots).roots
      && formula_true (λ v. true) ((normalize_roots 9 two_roots).gates (root_var two_roots)).fwd)
    ≡ (true && formula_true (λ v. true) (two_roots.roots ++ two_roots.remainder))
unfolding init
normalize_roots-true_example = normalize_roots-true (λ v. true) 9 two_roots (omega arith) refl
