-- ===== src/Cadical/Heap/Tests.antt =====
-- Runs of the heap, with its one element 1 and a second one.
use ignore_gates.Prelude.{ℕ, refl, arith, ltb, ◌==◌, if◌then◌else◌}
use ignore_gates.Cadical.Heap.{invalid, Heap, update, push_back, pop_front}
use ignore_gates.Cadical.Heap.Indexed.{IsIndexed}
use ignore_gates.Cadical.Heap.Sifts.{IsOrder}
use ignore_gates.Cadical.Heap.Order.{Settled, update-Settled}
use ignore_gates.Cadical.Heap.Pops.{Popped, pop_front-Popped}
use ignore_gates.Cadical.Heap.Loops.{Ends, update-Ends}
use ignore_gates.Cadical.Heap.Grows.{appended, push_back-Settled}

abbrev pub one_heap : Heap
one_heap = record { array = λ _. 1; count = 1; pos = λ e. if e == 1 then 0 else invalid }

pub one_heap-IsIndexed : IsIndexed one_heap
one_heap-IsIndexed = record {
  small = omega arith;
  placed = λ i l. omega (arith, l);
  within = λ e p. ground (arith, p);
  listed = λ e p. ground (arith, p);
}

update-Ends_example : Ends one_heap (update ltb one_heap 1)
update-Ends_example = update-Ends ltb one_heap 1 one_heap-IsIndexed (λ e. ground (arith, e))

pub ltb-IsOrder : IsOrder ltb
ltb-IsOrder = record { asym = λ a b e. ground arith; trans = λ a b c e f. ground arith }

flipped-IsOrder : IsOrder (λ (a : ℕ) b. ltb b a)
flipped-IsOrder = record { asym = λ a b e. ground arith; trans = λ a b c e f. ground arith }

abbrev pub two_heap : Heap
two_heap = record {
  array = λ i. if i == 0 then 2 else 1;
  count = 2;
  pos = λ e. if e == 2 then 0 else if e == 1 then 1 else invalid;
}

pub two_heap-IsIndexed : IsIndexed two_heap
two_heap-IsIndexed = record {
  small = omega arith;
  placed = λ i l. ground (arith, l);
  within = λ e p. ground (arith, p);
  listed = λ e p. ground (arith, p);
}

-- The scores have changed: 1 is above 2 now.
update-Settled_example :
    Settled (λ a b. ltb b a) flipped-IsOrder two_heap (update (λ a b. ltb b a) two_heap 1)
update-Settled_example =
    update-Settled (λ a b. ltb b a) flipped-IsOrder two_heap 1 two_heap-IsIndexed
      (λ e. ground (arith, e))
      (record {
        edge = λ i h l m k. absurd (ground (arith, h, l, m));
        skip = λ i h l e f. absurd (ground (arith, h, l, e));
      })

push_back-Settled_example : Settled ltb ltb-IsOrder (appended two_heap 7) (push_back ltb two_heap 7)
push_back-Settled_example =
    push_back-Settled ltb ltb-IsOrder two_heap 7 two_heap-IsIndexed (λ i h l. ground (arith, h, l))
      refl (omega arith)

pop_front-Popped_example : Popped ltb ltb-IsOrder two_heap (pop_front ltb two_heap)
pop_front-Popped_example =
    pop_front-Popped ltb ltb-IsOrder two_heap two_heap-IsIndexed (λ i h l. ground (arith, h, l))
      (omega arith)
