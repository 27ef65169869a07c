-- ===== src/Cadical/Queue.antt =====
-- The decision queue of the solver: cadical/src/queue.hpp, cadical/src/queue.cpp, the queue part of
-- cadical/src/decide.cpp, `bump_queue` of cadical/src/analyze.cpp, `unassign` of
-- cadical/src/backtrack.cpp and `update_queue_unassigned` of cadical/src/internal.hpp.
-- The record holds the fields of `queue` and the parts of `Internal` that these functions touch; the
-- vectors `links` and `btab` are functions of the variable. `val` is kept as whether it is not zero.
pub mod Chain
pub mod Links
pub mod Stamps
pub mod FirstFree
pub mod Search
pub mod Decide
pub mod Keeps
pub mod Untouched
pub mod Init
pub mod Tests
use ignore_gates.Prelude.{
  ℕ, zero, suc, ◌+◌, Bool, true, false, not, ◌&&◌, ◌||◌, Option, none, some, List, [], ◌∷◌, ◌==◌,
  if◌then◌else◌,
}
use ignore_gates.Types.Int.{ℤ, pos, suc_ℤ, pred_ℤ, ltb_ℤ}
use ignore_gates.Cadical.AuxFile.{is_aux}

pub record Internal : Type 0 where
  pub prev : ℕ → ℕ
  pub next : ℕ → ℕ
  pub first : ℕ
  pub last : ℕ
  pub unassigned : ℕ
  pub bumped : ℤ
  pub btab : ℕ → ℤ
  pub stats_bumped : ℤ
  pub searched : ℕ
  pub assigned : ℕ → Bool
  pub aux : List ℕ
  pub i2e : ℕ → ℕ

-- `f[k] = v`
abbrev pub put {ℓ} : {A : Type ℓ} → (ℕ → A) → ℕ → A → ℕ → A
put f k v j = if j == k then v else f j

-- The two lines of `Queue::dequeue`.
dequeue_prev : Internal → ℕ → Internal
dequeue_prev s idx =
    if s.prev idx == 0
    then record s { first = s.next idx }
    else record s { next = put s.next (s.prev idx) (s.next idx) }

dequeue_next : Internal → ℕ → Internal
dequeue_next s idx =
    if s.next idx == 0
    then record s { last = s.prev idx }
    else record s { prev = put s.prev (s.next idx) (s.prev idx) }

unfoldable pub dequeue : Internal → ℕ → Internal
unfolding dequeue_prev dequeue_next
dequeue s idx = dequeue_next (dequeue_prev s idx) idx

link_last : Internal → ℕ → Internal
link_last s idx =
    if s.last == 0 then record s { first = idx } else record s { next = put s.next s.last idx }

-- `Queue::enqueue`
unfoldable pub enqueue : Internal → ℕ → Internal
unfolding link_last
enqueue s idx =
    let t = link_last (record s { prev = put s.prev idx s.last }) idx in
    record t { last = idx; next = put t.next idx 0 }

unfoldable pub update_queue_unassigned : Internal → ℕ → Internal
update_queue_unassigned s idx = record s { unassigned = idx; bumped = s.btab idx }

-- What the search does with a variable that it must not decide, after `dequeue`.
unfoldable pub push_first : Internal → ℕ → Internal
push_first s temp =
    let t = record s { next = put s.next temp s.first; prev = put s.prev s.first temp } in
    record t {
      first = temp;
      prev = put t.prev temp 0;
      btab = put t.btab temp (pred_ℤ (t.btab (t.next temp)));
    }

-- `external->is_aux(i2e[vidx(idx)])`
abbrev pub aux_var : Internal → ℕ → Bool
aux_var s idx = is_aux s.aux (s.i2e idx)

abbrev pub is_free : Internal → ℕ → Bool
is_free s x = not (s.assigned x) && not (aux_var s x)

-- The loop of `next_decision_variable_on_queue` where BRANCHAUX is defined: the state, `res` and
-- `searched` at its end. `none` is want of fuel.
unfoldable pub search_queue : ℕ → Internal → ℕ → ℕ → Option (Internal × ℕ × ℕ)
unfolding dequeue push_first
search_queue zero s res searched = none
search_queue (suc fuel) s res searched =
    let moved = if aux_var s res then push_first (dequeue s res) res else s in
    let rest = search_queue fuel moved (s.prev res) (suc searched) in
    if s.assigned res || aux_var s res then rest else some (s, res, searched)

-- The same loop where it is not.
pub search_plain : ℕ → Internal → ℕ → ℕ → Option (Internal × ℕ × ℕ)
search_plain zero s res searched = none
search_plain (suc fuel) s res searched =
    let rest = search_plain fuel s (s.prev res) (suc searched) in
    if s.assigned res then rest else some (s, res, searched)

-- What follows either loop.
abbrev pub after_search : Option (Internal × ℕ × ℕ) → Option (Internal × ℕ)
after_search none = none
after_search (some (s, res, searched)) = some (
  if searched == 0
      then s
      else update_queue_unassigned (record s { searched = s.searched + searched }) res,
  res,
)

unfoldable pub next_decision_variable_on_queue : ℕ → Internal → Option (Internal × ℕ)
unfolding search_queue update_queue_unassigned
next_decision_variable_on_queue fuel s = after_search (search_queue fuel s s.unassigned 0)

unfoldable pub next_decision_variable_plain : ℕ → Internal → Option (Internal × ℕ)
unfolding search_plain update_queue_unassigned
next_decision_variable_plain fuel s = after_search (search_plain fuel s s.unassigned 0)

unfoldable pub bump_queue : Internal → ℕ → Internal
unfolding dequeue enqueue update_queue_unassigned
bump_queue s idx =
    let t = enqueue (dequeue s idx) idx in
    let b = suc_ℤ t.stats_bumped in
    let u = record t { stats_bumped = b; btab = put t.btab idx b } in
    if s.next idx == 0 then s else if u.assigned idx then u else update_queue_unassigned u idx

-- The queue's part of `unassign`, after the value is reset.
unfoldable pub unassign : Internal → ℕ → Internal
unfolding update_queue_unassigned
unassign s idx =
    let t = record s { assigned = put s.assigned idx false } in
    if ltb_ℤ t.bumped (t.btab idx) then update_queue_unassigned t idx else t

-- `init_enqueue` with and without `opts.reverse`.
init_first : Internal → ℕ → Internal
init_first s idx =
    if s.first == 0
    then record s { last = idx; btab = put s.btab idx (pos 0) }
    else record s { prev = put s.prev s.first idx; btab = put s.btab idx (pred_ℤ (s.btab s.first)) }

init_last : Internal → ℕ → Internal
init_last s idx =
    if s.last == 0 then record s { first = idx } else record s { next = put s.next s.last idx }

unfoldable pub init_enqueue : Bool → Internal → ℕ → Internal
unfolding init_first init_last update_queue_unassigned
init_enqueue true s idx =
    let t = init_first (record s { prev = put s.prev idx 0 }) idx in
    let u = record t { next = put t.next idx t.first; first = idx } in
    if u.unassigned == 0 then update_queue_unassigned u u.last else u
init_enqueue false s idx =
    let t = init_last (record s { next = put s.next idx 0 }) idx in
    let b = suc_ℤ t.stats_bumped in
    update_queue_unassigned
      (record t {
        stats_bumped = b;
        btab = put t.btab idx b;
        prev = put t.prev idx t.last;
        last = idx;
      })
      idx

-- `init_queue` for the `count` variables after `old_max_var`.
unfoldable pub init_queue : Bool → Internal → ℕ → ℕ → Internal
unfolding init_enqueue
init_queue reverse s old_max_var zero = s
init_queue reverse s old_max_var (suc count) =
    init_queue reverse (init_enqueue reverse s (suc old_max_var)) (suc old_max_var) count
