-- ===== src/Cadical/Heap.antt =====
-- cadical/src/heap.hpp: a priority queue of numbers with their positions in it.
-- The vectors are functions; `count` is the size of `array`. A position is `invalid` where the
-- element is not in the heap, also past the end of `pos`, which is filled so when it grows. `less`
-- is the comparison of elements, which the client may change between the calls.
pub mod Indexed
pub mod Loops
pub mod Grows
pub mod Sifts
pub mod Order
pub mod Pops
pub mod Tests
use ignore_gates.Prelude.{
  ℕ, zero, suc, ◌+◌, ◌-◌, ◌*◌, ◌/◌, Bool, true, false, not, ◌&&◌, Option, none, some, ◌==◌, ltb,
  if◌then◌else◌,
}
use ignore_gates.Cadical.Queue.{put}

-- `UINT_MAX`
abbrev pub invalid : ℕ
invalid = 4294967295

pub record Heap : Type 0 where
  pub array : ℕ → ℕ
  pub count : ℕ
  pub pos : ℕ → ℕ

abbrev pub has_parent : Heap → ℕ → Bool
has_parent h e = ltb 0 (h.pos e)

abbrev pub has_left : Heap → ℕ → Bool
has_left h e = ltb (2 * h.pos e + 1) h.count

abbrev pub has_right : Heap → ℕ → Bool
has_right h e = ltb (2 * h.pos e + 2) h.count

abbrev pub parent : Heap → ℕ → ℕ
parent h e = h.array ((h.pos e - 1) / 2)

abbrev pub left : Heap → ℕ → ℕ
left h e = h.array (2 * h.pos e + 1)

abbrev pub right : Heap → ℕ → ℕ
right h e = h.array (2 * h.pos e + 2)

unfoldable pub exchange : Heap → ℕ → ℕ → Heap
exchange h a b =
    let i = h.pos a in
    let j = h.pos b in
    record h {
      array = put (put h.array i (h.array j)) j (h.array i);
      pos = put (put h.pos a j) b i;
    }

-- The loops; `none` is want of fuel.
unfoldable pub up : (ℕ → ℕ → Bool) → ℕ → Heap → ℕ → Option Heap
unfolding exchange
up less zero h e = none
up less (suc fuel) h e =
    let rest = up less fuel (exchange h (parent h e) e) e in
    if has_parent h e && less (parent h e) e then rest else some h

-- The child that `e` is compared with.
abbrev pub child : (ℕ → ℕ → Bool) → Heap → ℕ → ℕ
child less h e = if has_right h e && less (left h e) (right h e) then right h e else left h e

unfoldable pub down : (ℕ → ℕ → Bool) → ℕ → Heap → ℕ → Option Heap
unfolding exchange
down less zero h e = none
down less (suc fuel) h e =
    let rest = down less fuel (exchange h e (child less h e)) e in
    if has_left h e && less e (child less h e) then rest else some h

abbrev pub is_empty : Heap → Bool
is_empty h = h.count == 0

abbrev pub contains : Heap → ℕ → Bool
contains h e = not (h.pos e == invalid)

-- `up (e); down (e);`, each with a round for each element and one more.
unfoldable pub update : (ℕ → ℕ → Bool) → Heap → ℕ → Option Heap
unfolding up down
update less h e = elim (up less (suc h.count) h e) [
  | none ↦ none
  | some k ↦ down less (suc k.count) k e
]

unfoldable pub push_back : (ℕ → ℕ → Bool) → Heap → ℕ → Option Heap
unfolding update
push_back less h e =
    let i = h.count in
    update less (record { array = put h.array i e; count = suc h.count; pos = put h.pos e i }) e

abbrev pub front : Heap → ℕ
front h = h.array 0

-- The heap after `pop_front`; the element that it returns is the front.
unfoldable pub pop_front : (ℕ → ℕ → Bool) → Heap → Option Heap
unfolding exchange down
pop_front less h =
    let res = h.array 0 in
    let last = h.array (h.count - 1) in
    let k = if ltb 1 h.count then exchange h res last else h in
    let l = record k { pos = put k.pos res invalid; count = k.count - 1 } in
    let sunk = down less (suc l.count) l last in if ltb 1 l.count then sunk else some l

unfoldable pub clear_heap : Heap → Heap
clear_heap h = record h { count = 0; pos = λ _. invalid }
