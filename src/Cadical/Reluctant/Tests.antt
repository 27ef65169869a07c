-- ===== src/Cadical/Reluctant/Tests.antt =====
-- Runs of reluctant doubling.
use ignore_gates.Prelude.{◌≡◌, refl, true, false, arith}
use ignore_gates.Cadical.Reluctant.{Reluctant, tick}
use ignore_gates.Cadical.Reluctant.Ticks.{ticks, ticks-trigger}

abbrev running : Reluctant
running = record {
  u = 1;
  v = 1;
  limit = 0;
  period = 3;
  countdown = 3;
  trigger = false;
  limited = false;
}

ticks-trigger_example :
    (ticks 2 running ≡ record running { countdown = 1 }) × ((tick (ticks 2 running)).trigger ≡ true)
ticks-trigger_example = ticks-trigger 2 running (λ e. ground (arith, e)) refl refl (omega arith)
