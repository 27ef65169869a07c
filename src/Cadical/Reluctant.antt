-- ===== src/Cadical/Reluctant.antt =====
-- cadical/src/reluctant.hpp: reluctant doubling, which says when the solver restarts in stable mode.
-- The words have 64 bits; `limit` holds a value only where `limited`.
pub mod Ticks
mod Tests
use Prim.Native.Nat.{bit_and}
use ignore_gates.Prelude.{
  ℕ, zero, suc, ◌+◌, ◌-◌, ◌*◌, ◌%◌, ◌^◌, Bool, true, false, ◌&&◌, ◌==◌, leb, if◌then◌else◌,
}
use ignore_gates.Types.Int.{ℤ, pos_part}

pub record Reluctant : Type 0 where
  pub u : ℕ
  pub v : ℕ
  pub limit : ℕ
  pub period : ℕ
  pub countdown : ℕ
  pub trigger : Bool
  pub limited : Bool

-- `enable (p, l)`, for a positive `p`.
unfoldable pub enable : Reluctant → ℕ → ℤ → Reluctant
enable r p l =
    let positive = leb 1 (pos_part l) in
    record {
      u = 1;
      v = 1;
      limit = if positive then pos_part l else r.limit;
      period = p;
      countdown = p;
      trigger = false;
      limited = positive;
    }

abbrev pub disable : Reluctant → Reluctant
disable r = record r { period = 0; trigger = false }

-- The next pair of the doubling sequence: `u & -u` is the lowest bit of `u`.
unfoldable pub advance : Reluctant → Reluctant
advance r =
    if bit_and r.u ((2 ^ 64 - r.u) % 2 ^ 64) == r.v
    then record r { u = (r.u + 1) % 2 ^ 64; v = 1 }
    else record r { v = 2 * r.v % 2 ^ 64 }

unfoldable pub start_over : Reluctant → Reluctant
start_over r = if r.limited && leb r.limit r.v then record r { u = 1; v = 1 } else r

-- `--countdown`
abbrev pub ticks_left : Reluctant → ℕ
ticks_left r = (r.countdown + 2 ^ 64 - 1) % 2 ^ 64

-- The last lines of `tick`.
unfoldable pub fire : Reluctant → Reluctant
unfolding advance start_over
fire r =
    let next = start_over (advance r) in
    record next { countdown = next.v * r.period % 2 ^ 64; trigger = true }

unfoldable pub tick : Reluctant → Reluctant
unfolding fire
tick r =
    if r.period == 0
    then r
    else if r.trigger
    then r
    else if ticks_left r == 0
    then fire r
    else record r { countdown = ticks_left r }

-- `operator bool`, which resets the trigger.
abbrev pub deliver : Reluctant → Reluctant × Bool
deliver r = if r.trigger then (record r { trigger = false }, true) else (r, false)
