-- ===== src/Cadical/NextVariable/Tests.antt =====
-- A run of the choice of the next variable, where one gate output is left.
use ignore_gates.Prelude.{◌≢◌, true, ltb}
use ignore_gates.Cadical.Queue.Tests.{fresh}
use ignore_gates.Cadical.Scores.Tests.{one_aux}
use ignore_gates.Cadical.NextVariable.{aux_selected, next_decision_variable}
use ignore_gates.Cadical.NextVariable.NoAux.{next_decision_variable-NoAux}

next_decision_variable-NoAux_example :
    next_decision_variable ltb 0 true 5 one_aux fresh ≢ aux_selected
next_decision_variable-NoAux_example = next_decision_variable-NoAux ltb 0 true 5 one_aux fresh
