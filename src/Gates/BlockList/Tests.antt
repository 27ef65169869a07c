-- ===== src/Gates/BlockList/Tests.antt =====
-- Runs of the block list, on the clauses of `1 = 2 and 3`.
use ignore_gates.Prelude.{◌≡◌, refl, true, arith}
use ignore_gates.Gates.Occurrences
use ignore_gates.Gates.Tests.{and_formula}
use ignore_gates.Gates.BlockList.{BlockList, init, init_blocking_counter, is_blocked_set}
use ignore_gates.Gates.BlockList.Counter.{
  Counted, init_blocking_counter-Counted, is_blocked_set-init_blocking_counter,
}

abbrev and_list : BlockList
and_list = init and_formula

init_blocking_counter-Counted_example : Counted 3 and_list (init_blocking_counter and_list 3)
unfolding init Occurrences.push_lits
init_blocking_counter-Counted_example = init_blocking_counter-Counted and_list 3 (omega arith)

is_blocked_set-init_blocking_counter_example :
    is_blocked_set (init_blocking_counter and_list 3) 3
    ≡ Occurrences.is_blocked_set (Occurrences.init and_formula) 3
unfolding init Occurrences.init Occurrences.push_lits
is_blocked_set-init_blocking_counter_example =
    is_blocked_set-init_blocking_counter and_list 3 (Occurrences.init and_formula) refl
      (omega arith)

counted_three : is_blocked_set (init_blocking_counter and_list 3) 3 ≡ true
unfolding init init_blocking_counter Occurrences.push_lits Occurrences.is_blocked
counted_three = refl
