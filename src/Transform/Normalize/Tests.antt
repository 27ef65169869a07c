-- ===== src/Transform/Normalize/Tests.antt =====
-- A run of the normaliser.
use ignore_gates.Prelude.{◌≡◌, refl, [], ◌∷◌}
use ignore_gates.Types.Int.{pos, negsuc}
use ignore_gates.Features.GateReport.{codes}
use ignore_gates.StreamBuffer.{done}
use ignore_gates.Transform.Normalize.{normalize, header, literal, clause_end}

normalize-lines :
    normalize 16 (codes "p cnf 2 1\n1 -2 0\n")
    ≡ done (record {
      nv = pos 2;
      nc = pos 1;
      rv = 2;
      rc = 1;
      out = header (pos 2) (pos 1) ∷ literal (pos 1) ∷ literal (negsuc 1) ∷ clause_end ∷ [];
    })
unfolding normalize
normalize-lines = refl
