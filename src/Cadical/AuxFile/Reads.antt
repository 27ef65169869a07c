-- ===== src/Cadical/AuxFile/Reads.antt =====
-- `parse_aux` reads its whole input or fails: the loop ends, and the numbers fit an `int`.
use ignore_gates.Prelude.{ℕ, ◌<◌, length}
use ignore_gates.Features.GateReport.{Bytes}
use ignore_gates.Cadical.AuxFile.{
  AuxState, AuxResult, parsed, failed, out_of_fuel, Entry, entry, bad, parse_aux_loop,
}
use ignore_gates.Cadical.AuxFile.Lines.{IsConsistent, Lines}

-- What a run of the loop from `s` may end with.
pub EndsWell : AuxState → Bytes → AuxResult → Type 0
EndsWell s input (parsed t) = Lines s input t × IsConsistent t
EndsWell s input (failed e) = Unit {0}
EndsWell s input out_of_fuel = ⊥

module _ (s : AuxState) (ch : ℕ) (input : Bytes) (fuel : ℕ) (room : length input < fuel) where
  abbrev Onward : Type 0
  Onward =
      (t : AuxState) (rest : Bytes)
      → length rest < fuel
      → IsConsistent t
      → EndsWell t rest (parse_aux_loop fuel t rest)

  abbrev run : Entry → AuxResult
  run r = elim r [ entry t rest ↦ parse_aux_loop fuel t rest | bad e ↦ failed e ]
