-- ===== src/Cadical/Scores.antt =====
-- The decisions by score: `next_decision_variable_with_best_score` of cadical/src/decide.cpp, where
-- BRANCHAUX is defined and where it is not, and `score_smaller` of cadical/src/internal.hpp.
-- Scores are floating-point numbers there: their type, their order and -1 are parameters.
pub mod Starves
pub mod Order
pub mod Rounds
pub mod Decides
pub mod Tests
use ignore_gates.Prelude.{
  ℕ, zero, suc, Bool, true, false, not, ◌&&◌, Option, none, some, List, ltb, if◌then◌else◌,
}
use ignore_gates.Cadical.AuxFile.{is_aux}
use ignore_gates.Cadical.Queue.{put}
use ignore_gates.Cadical.Heap.{Heap, is_empty, front, update, pop_front}

pub record Scores (Score : Type 0) : Type 0 where
  pub scores : Heap
  pub stab : ℕ → Score
  pub assigned : ℕ → Bool
  pub aux : List ℕ
  pub i2e : ℕ → ℕ

-- How the search ends: with a variable, or with `abort ()` on an empty heap.
pub data Decision (Score : Type 0) : Type 0 where
  decided : Scores Score → ℕ → Decision Score
  ran_out : Decision Score
  out_of_fuel : Decision Score

-- `external->is_aux(i2e[vidx(res)])`
abbrev pub aux_scored : {Score : Type 0} → Scores Score → ℕ → Bool
aux_scored s res = is_aux s.aux (s.i2e res)

module _ {Score : Type 0} (lower : Score → Score → Bool) (minus_one : Score) where
  abbrev pub score_smaller : (ℕ → Score) → ℕ → ℕ → Bool
  score_smaller stab a b =
      if lower (stab a) (stab b) then true else if lower (stab b) (stab a) then false else ltb b a

  -- The heap with the variable pushed down: `stab[res] = -1; scores.update(res);`.
  unfoldable pub push_down : Scores Score → ℕ → Option (Scores Score)
  unfolding update
  push_down s res =
      let stab = put s.stab res minus_one in
      elim (update (score_smaller stab) s.scores res) [
        | none ↦ none
        | some h ↦ some (record s { stab = stab; scores = h })
      ]

  unfoldable pub pop : Scores Score → Option (Scores Score)
  unfolding pop_front
  pop s = elim (pop_front (score_smaller s.stab) s.scores) [
    | none ↦ none
    | some h ↦ some (record s { scores = h })
  ]

  -- The loop, a round for each unit of fuel.
  unfoldable pub next_decision_variable_with_best_score : ℕ → Scores Score → Decision Score
  unfolding push_down pop
  next_decision_variable_with_best_score zero s = out_of_fuel
  next_decision_variable_with_best_score (suc fuel) s =
      let res = front s.scores in
      let pushed : Decision Score = elim (push_down s res) [
        | none ↦ out_of_fuel
        | some t ↦ next_decision_variable_with_best_score fuel t
      ] in
      let popped : Decision Score = elim (pop s) [
        | none ↦ out_of_fuel
        | some t ↦ next_decision_variable_with_best_score fuel t
      ] in
      if is_empty s.scores
      then ran_out
      else if not (s.assigned res) && not (aux_scored s res)
      then decided s res
      else if aux_scored s res
      then pushed
      else popped

  -- The loop of the unchanged solver, on a heap that is not empty.
  unfoldable pub best_score_plain : ℕ → Scores Score → Decision Score
  unfolding pop
  best_score_plain zero s = out_of_fuel
  best_score_plain (suc fuel) s =
      let popped : Decision Score = elim (pop s) [
        | none ↦ out_of_fuel
        | some t ↦ best_score_plain fuel t
      ] in
      if not (s.assigned (front s.scores)) then decided s (front s.scores) else popped
