-- ===== src/Cadical/Scores/Tests.antt =====
-- A run of the search by score, with the gate output 1 alone in the heap.
use ignore_gates.Prelude.{ℕ, ◌≡◌, false, refl, ◌==◌, if◌then◌else◌, [], ◌∷◌, arith, ltb}
use ignore_gates.Cadical.Scores.Rounds.{IsSound}
use ignore_gates.Cadical.Scores.Decides.{Chooses, best_score-Chooses}
use ignore_gates.Cadical.Heap.Tests.{
  one_heap, one_heap-IsIndexed, two_heap, two_heap-IsIndexed, ltb-IsOrder,
}
use ignore_gates.Cadical.Scores.{Scores, out_of_fuel, next_decision_variable_with_best_score}
use ignore_gates.Cadical.Scores.Starves.{IsStarved, best_score-starves}

abbrev pub one_aux : Scores ℕ
one_aux = record {
  scores = one_heap;
  stab = λ _. 5;
  assigned = λ _. false;
  aux = 1 ∷ [];
  i2e = λ v. v;
}

one_aux-IsStarved : IsStarved ltb 0 one_aux
one_aux-IsStarved = record {
  indexed = one_heap-IsIndexed;
  some_left = omega arith;
  only_aux = λ e p. ground (arith, p);
}

best_score-starves_example : next_decision_variable_with_best_score ltb 0 100 one_aux ≡ out_of_fuel
best_score-starves_example = best_score-starves ltb 0 100 one_aux one_aux-IsStarved

-- The gate output 2 with the best score, and the free variable 1.
abbrev two_scores : Scores ℕ
two_scores = record {
  scores = two_heap;
  stab = λ e. if e == 2 then 9 else 5;
  assigned = λ _. false;
  aux = 2 ∷ [];
  i2e = λ v. v;
}

two_scores-IsSound : IsSound ltb 0 ltb-IsOrder 3 two_scores
two_scores-IsSound = record {
  indexed = two_heap-IsIndexed;
  ordered = λ i h l. ground (arith, h, l);
  bounded = λ e p. ground (arith, p);
}

best_score-Chooses_example :
    Chooses ltb 0 ltb-IsOrder 3 two_scores
      (next_decision_variable_with_best_score ltb 0 10 two_scores)
best_score-Chooses_example =
    best_score-Chooses ltb 0 ltb-IsOrder 3 10 two_scores 1 two_scores-IsSound
      ((λ e. ground (arith, e)), refl, refl) refl (omega arith)
