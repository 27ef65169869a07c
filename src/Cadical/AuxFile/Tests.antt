-- ===== src/Cadical/AuxFile/Tests.antt =====
-- Runs of the reader of auxiliary variables.
use ignore_gates.Prelude.{◌≡◌, refl, [], ◌∷◌, arith}
use ignore_gates.Gates.Recognition.{and_gate}
use ignore_gates.Gates.Structure.{GateFormula, init, add_gate}
use ignore_gates.Features.GateReport.{codes, gate_report}
use ignore_gates.Cadical.AuxFile.{parsed, parse_aux, failed, syntax_error}
use ignore_gates.Cadical.AuxFile.Lines.{Lines}
use ignore_gates.Cadical.AuxFile.RoundTrip.{report_state, parse_aux-gate_report}

parse_aux_word : parse_aux (codes "x AND\n") ≡ failed (syntax_error 1)
unfolding parse_aux
parse_aux_word = refl

abbrev one_gate : GateFormula
one_gate = add_gate (init 3) and_gate 2 [] [] (4 ∷ 6 ∷ [])

parse_aux-gate_report_example :
    parse_aux (gate_report one_gate 3).1 ≡ parsed (report_state one_gate 3)
parse_aux-gate_report_example = parse_aux-gate_report one_gate 3 (omega arith)
