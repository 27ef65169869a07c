-- ===== src/Cadical/Queue/Tests.antt =====
-- Runs of the decision queue.
use ignore_gates.Prelude.{ℕ, ◌≡◌, refl, false, Option, none, some, [], ◌∷◌, arith}
use ignore_gates.Types.Int.{pos}
use ignore_gates.Cadical.Queue.{
  Internal, init_queue, next_decision_variable_on_queue, next_decision_variable_plain, bump_queue,
  unassign,
}
use ignore_gates.Cadical.Queue.Stamps.{IsQueue}
use ignore_gates.Cadical.Queue.Init.{Filled, init_queue-IsQueue, next_decision_variable-plain}
use ignore_gates.Cadical.Queue.Keeps.{Bumped, bump_queue-Bumped, unassign-IsQueue}
use ignore_gates.Cadical.Queue.Decide.{Decides, next_decision_variable_on_queue-Decides}

-- No variables yet; variable 3 will be a gate output.
abbrev pub fresh : Internal
fresh = record {
  prev = λ _. 0;
  next = λ _. 0;
  first = 0;
  last = 0;
  unassigned = 0;
  bumped = pos 0;
  btab = λ _. pos 0;
  stats_bumped = pos 0;
  searched = 0;
  assigned = λ _. false;
  aux = 3 ∷ [];
  i2e = λ k. k;
}

fresh-Filled : Filled fresh []
fresh-Filled = record {
  linked = record { at_last = refl; at_first = refl; chain = tt; once = tt };
  stamped = tt;
}

pub three : Internal
three = init_queue false fresh 0 3

decided : Option (Internal × ℕ) → ℕ
decided none = 0
decided (some (s, x)) = x

-- The last variable is passed over.
second_decided : decided (next_decision_variable_on_queue 4 three) ≡ 2
unfolding decided three init_queue next_decision_variable_on_queue
second_decided = refl

init_queue-IsQueue_example : IsQueue (init_queue false fresh 0 3) (3 ∷ 2 ∷ 1 ∷ [])
init_queue-IsQueue_example = init_queue-IsQueue fresh 0 2 [] fresh-Filled tt

pub three-IsQueue : IsQueue three (3 ∷ 2 ∷ 1 ∷ [])
unfolding three
three-IsQueue = init_queue-IsQueue fresh 0 2 [] fresh-Filled tt

next_decision_variable_on_queue-Decides_example :
    Decides three (3 ∷ 2 ∷ 1 ∷ []) (next_decision_variable_on_queue 4 three)
unfolding three init_queue
next_decision_variable_on_queue-Decides_example =
    next_decision_variable_on_queue-Decides 4 three (3 ∷ 2 ∷ 1 ∷ []) 2 three-IsQueue refl refl
      (omega arith)

bump_queue-Bumped_example : Bumped 2 (3 ∷ 2 ∷ 1 ∷ []) (bump_queue three 2)
bump_queue-Bumped_example = bump_queue-Bumped three (3 ∷ 2 ∷ 1 ∷ []) 2 three-IsQueue refl

unassign-IsQueue_example : IsQueue (unassign three 1) (3 ∷ 2 ∷ 1 ∷ [])
unassign-IsQueue_example = unassign-IsQueue three (3 ∷ 2 ∷ 1 ∷ []) 1 three-IsQueue refl

next_decision_variable-plain_example :
    next_decision_variable_on_queue 4 (record fresh { aux = [] })
    ≡ next_decision_variable_plain 4 (record fresh { aux = [] })
next_decision_variable-plain_example =
    next_decision_variable-plain 4 (record fresh { aux = [] }) (λ y. refl)
