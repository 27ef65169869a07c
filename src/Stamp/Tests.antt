-- ===== src/Stamp/Tests.antt =====
-- A run of a stamp of one bit, which wraps at once.
use ignore_gates.Prelude.{ℕ, ◌≡◌, false, [], ◌∷◌, arith}
use ignore_gates.Stamp.{init, size, is_stamped}
use ignore_gates.Stamp.Sets.{IsValid, run, run_set, clear_all, add, extend, run-sets, init-empty}

init-empty_example :
    IsValid 1 (init 1 2) × (size (init 1 2) ≡ 2) × ((j : ℕ) → is_stamped (init 1 2) j ≡ false)
init-empty_example = init-empty 1 2 (omega arith)

run-sets_example :
    IsValid 1 (run 1 (add 1 ∷ extend ∷ clear_all ∷ add 2 ∷ []) (init 1 2))
    × ((j : ℕ)
        → is_stamped (run 1 (add 1 ∷ extend ∷ clear_all ∷ add 2 ∷ []) (init 1 2)) j
          ≡ run_set (add 1 ∷ extend ∷ clear_all ∷ add 2 ∷ []) (is_stamped (init 1 2)) j)
unfolding init
run-sets_example =
    run-sets 1 (add 1 ∷ extend ∷ clear_all ∷ add 2 ∷ []) (init 1 2) (omega arith)
      (omega arith, (omega arith, tt)) (init-empty 1 2 (omega arith)).0
