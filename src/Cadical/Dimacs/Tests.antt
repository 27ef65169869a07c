-- ===== src/Cadical/Dimacs/Tests.antt =====
-- Runs of the DIMACS reader.
use ignore_gates.Prelude.{◌≡◌, refl, [], ◌∷◌}
use ignore_gates.Types.Int.{pos, negsuc}
use ignore_gates.Features.GateReport.{Bytes, codes}
use ignore_gates.Cadical.Dimacs.{parse_dimacs}
use ignore_gates.Cadical.Dimacs.Errors.{too_many_clauses}
use ignore_gates.Cadical.Dimacs.Body.{strict, relaxed, loaded, failed}
use ignore_gates.Cadical.Dimacs.Ends.{EndsWell}
use ignore_gates.Cadical.Dimacs.Whole.{announced, parse_dimacs-EndsWell}

abbrev small : Bytes
small = codes "c x --plain=1\np cnf 2 1\n1 -2 0\n"

parse_dimacs-small :
    parse_dimacs strict small
    ≡ loaded
        (codes "--plain=1" ∷ [])
        (record { vars = 2; lit = pos 0; parsed = 1; added = pos 1 ∷ negsuc 1 ∷ pos 0 ∷ [] })
unfolding parse_dimacs
parse_dimacs-small = refl

parse_dimacs-many : parse_dimacs relaxed (codes "p  cnf 2  1\n1 0 2 0\n") ≡ failed too_many_clauses
unfolding parse_dimacs
parse_dimacs-many = refl

parse_dimacs-EndsWell_example : EndsWell strict (announced strict small) (parse_dimacs strict small)
parse_dimacs-EndsWell_example = parse_dimacs-EndsWell strict small
