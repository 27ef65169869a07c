-- ===== src/Gates/Analyzer/Tests.antt =====
-- A run of the search for gates.
use ignore_gates.Prelude.{◌≢◌, refl, false, inl, inr, true, [], ◌∷◌, arith}
use ignore_gates.Gates.Occurrences.Roots.{non_units, init-Represents}
use ignore_gates.Gates.Analyzer.Whole.{Accounted, analyze-Accounted}
use ignore_gates.Gates.Analyzer.{analyze, init, out_of_fuel, gate_recognition}
use ignore_gates.Gates.Analyzer.Ends.{gate_recognition_ends}
use ignore_gates.Gates.Tests.{and_formula, and_formula-IsValid}

gate_recognition_ends_example :
    gate_recognition
      (λ _ _. 0)
      (λ _. true)
      (λ frontier. frontier)
      5
      (init and_formula true true)
      (2 ∷ [])
    ≢ out_of_fuel
unfolding init
gate_recognition_ends_example =
    gate_recognition_ends (λ _ _. 0) (λ _. true) (λ frontier. frontier) refl 5
      (init and_formula true true) (non_units and_formula.formula) (2 ∷ [])
      (init-Represents and_formula and_formula-IsValid).2
      (init-Represents and_formula and_formula-IsValid).0 (omega arith)

analyze-Accounted_example :
    Accounted
      (record { ptr = 2; lits = 2 ∷ 5 ∷ 7 ∷ [] })
      (analyze
        (λ _ _. 0)
        (λ _. true)
        (λ frontier. frontier)
        (λ _. false)
        5
        5
        (init and_formula true true))
analyze-Accounted_example =
    analyze-Accounted (λ _ _. 0) (λ _. true) (λ frontier. frontier) (λ _. false) 5 5 and_formula
      true true refl (λ k. refl) and_formula-IsValid (omega arith) (omega arith)
      (record { ptr = 2; lits = 2 ∷ 5 ∷ 7 ∷ [] }) (inr (inr (inl refl))) (λ e. cc)
