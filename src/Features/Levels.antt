-- ===== src/Features/Levels.antt =====
-- The levels of the gates in `GateStats::analyze` of cnftools/src/features/GateStats.h: a search in
-- breadth from the literals of the roots. The vector `levels` is a function of the variable; there it
-- has an entry for each variable but the last, whose level is out of bounds.
use ignore_gates.Prelude.{
  ℕ, zero, suc, ◌&&◌, Option, none, some, [], ◌∷◌, ◌++◌, ◌==◌, if◌then◌else◌,
}
use ignore_gates.Types.{Cl, var}
use ignore_gates.Gates.Structure.{GateFormula, get_gate, is_defined, get_roots}

-- The loop over the literals of one level: the levels, and the literals of the next one.
unfoldable pub visit_level : GateFormula → ℕ → (ℕ → ℕ) → Cl → Cl → (ℕ → ℕ) × Cl
visit_level g level levels [] next = (levels, next)
visit_level g level levels (l ∷ ls) next =
    let set = λ (v : ℕ). if v == var l then level else levels v in
    let new = visit_level g level set ls (next ++ (get_gate g l).inp) in
    let old = visit_level g level levels ls next in
    if is_defined (get_gate g l) && levels (var l) == 0 then new else old

-- The loop over the levels; `none` is want of fuel.
unfoldable pub visit_levels : ℕ → GateFormula → ℕ → (ℕ → ℕ) → Cl → Option (ℕ → ℕ)
unfolding visit_level
visit_levels zero g level levels current = none
visit_levels (suc fuel) g level levels [] = some levels
visit_levels (suc fuel) g level levels (l ∷ ls) =
    let (set, next) = visit_level g (suc level) levels (l ∷ ls) [] in
    visit_levels fuel g (suc level) set next

unfoldable pub gate_levels : ℕ → GateFormula → Option (ℕ → ℕ)
unfolding visit_levels
gate_levels fuel g = visit_levels fuel g 0 (λ _. 0) (get_roots g)
