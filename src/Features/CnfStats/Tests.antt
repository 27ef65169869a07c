-- ===== src/Features/CnfStats/Tests.antt =====
-- Runs of the counters on the clauses of an and-gate.
use ignore_gates.Prelude.{◌%◌, ◌≡◌, refl, [], ◌∷◌, map, arith}
use ignore_gates.Gates.Tests.{and_formula, and_formula-IsValid}
use ignore_gates.Features.CnfStats.{analyze_occurrences, analyze_degrees}
use ignore_gates.Features.CnfStats.Degrees.{neighbours, analyze_degrees-occurrences}
use ignore_gates.Features.CnfStats.Counts.{IsCounted, analyze_occurrences-IsCounted}

degrees : analyze_degrees and_formula ≡ 2 ∷ 2 ∷ 4 ∷ []
unfolding analyze_degrees
degrees = refl

analyze_degrees-occurrences_example :
    analyze_degrees and_formula
    ≡ map (λ c. neighbours and_formula.formula c.lits % 4294967296) and_formula.formula
analyze_degrees-occurrences_example = analyze_degrees-occurrences and_formula and_formula-IsValid

analyze_occurrences-IsCounted_example :
    IsCounted (λ _. 7) and_formula (analyze_occurrences (λ _. 7) and_formula)
analyze_occurrences-IsCounted_example =
    analyze_occurrences-IsCounted (λ _. 7) and_formula (omega arith)
      (omega arith, (omega arith, (omega arith, tt)))
