-- ===== src/Cadical/NextVariable.antt =====
-- cadical/src/decide.cpp: `next_decision_variable`, which joins the search by score and the search of
-- the queue, and aborts where a gate output was selected. The queue and the heap are two parts of
-- `Internal`, each with the fields that its search touches.
pub mod NoAux
mod Tests
use ignore_gates.Prelude.{ℕ, Bool, Option, none, some, if◌then◌else◌}
use ignore_gates.Cadical.Queue.{Internal, aux_var, next_decision_variable_on_queue}
use ignore_gates.Cadical.Scores.{
  Scores, Decision, decided, ran_out, out_of_fuel, aux_scored,
  next_decision_variable_with_best_score,
}

-- A variable, the abort where it is a gate output, or no variable found.
pub data Selection : Type 0 where
  selected : ℕ → Selection
  aux_selected : Selection
  none_found : Selection

abbrev pub select : Bool → ℕ → Selection
select is_output var = if is_output then aux_selected else selected var

abbrev pub from_queue : Option (Internal × ℕ) → Selection
from_queue none = none_found
from_queue (some (s, var)) = select (aux_var s var) var

abbrev pub from_scores : {Score : Type 0} → Decision Score → Selection
from_scores (decided s var) = select (aux_scored s var) var
from_scores ran_out = none_found
from_scores out_of_fuel = none_found

unfoldable pub next_decision_variable :
    {Score : Type 0}
    → (Score → Score → Bool)
    → Score
    → Bool
    → ℕ
    → Scores Score
    → Internal
    → Selection
unfolding next_decision_variable_with_best_score next_decision_variable_on_queue
next_decision_variable lower minus_one use_scores fuel s q =
    if use_scores
    then from_scores (next_decision_variable_with_best_score lower minus_one fuel s)
    else from_queue (next_decision_variable_on_queue fuel q)
