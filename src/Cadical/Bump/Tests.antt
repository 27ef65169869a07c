-- ===== src/Cadical/Bump/Tests.antt =====
-- A run of the bumping, of the variables 1, 2 and the gate output 3.
use ignore_gates.Prelude.{ℕ, ◌≡◌, refl, true, false, [], ◌∷◌, elem}
use ignore_gates.Types.{var}
use ignore_gates.Cadical.Queue.{aux_var}
use ignore_gates.Cadical.Queue.Tests.{three, three-IsQueue}
use ignore_gates.Cadical.Bump.{analyze_bumped_rank, bump_variables}
use ignore_gates.Cadical.Bump.Sorts.{IsGreatest}
use ignore_gates.Cadical.Bump.Keeps.{Kept, bump_variables-Kept}

bump_variables-Kept_example :
    Kept (3 ∷ 2 ∷ 1 ∷ []) three (bump_variables true three (4 ∷ 7 ∷ 2 ∷ []))
    × ((x : ℕ)
        → elem x (4 ∷ 7 ∷ 2 ∷ []) ≡ true
        → aux_var three (var x) ≡ false
        → IsGreatest
            (aux_var three)
            (analyze_bumped_rank three)
            (4 ∷ 7 ∷ 2 ∷ [])
            (bump_variables true three (4 ∷ 7 ∷ 2 ∷ [])).last)
bump_variables-Kept_example =
    bump_variables-Kept three (3 ∷ 2 ∷ 1 ∷ []) (4 ∷ 7 ∷ 2 ∷ []) three-IsQueue
      (refl, (refl, (refl, tt)))
