-- ===== src/Gates/Tests.antt =====
-- Runs of the gate analyzer's parts, on the clauses of `1 = 2 and 3` and of `1 = 2`.
use ignore_gates.Prelude.{◌≡◌, refl, subst, true, List, [], ◌∷◌, arith, All}
use ignore_gates.Types.{Cl, Assignment, assign}
use ignore_gates.Formula.{For, CnfFormula, empty, read_clauses, formula_true}
use ignore_gates.Formula.Shape.{IsValid, read_clauses-IsValid}
use ignore_gates.Gates.Occurrences.{
  OccurrenceList, init, is_blocked_set, is_blocked, is_blocked_unsorted, remove, estimate_roots,
}
use ignore_gates.Gates.Occurrences.Blocking.{Holds, gate_value, is_blocked_set-extends}
use ignore_gates.Gates.Occurrences.Merge.{is_blocked-unsorted}
use ignore_gates.Gates.Occurrences.Live.{Represents, Distinct, free_of}
use ignore_gates.Gates.Occurrences.Roots.{
  Picks, units, non_units, init-Represents, remove-Represents, estimate_roots-Picks,
}

abbrev pub and_clauses : List Cl
and_clauses = (3 ∷ 4 ∷ []) ∷ (3 ∷ 6 ∷ []) ∷ (2 ∷ 5 ∷ 7 ∷ []) ∷ []

abbrev pub and_formula : CnfFormula
and_formula = record {
  formula =
      record { ptr = 0; lits = 3 ∷ 4 ∷ [] }
      ∷ record { ptr = 1; lits = 3 ∷ 6 ∷ [] }
      ∷ record { ptr = 2; lits = 2 ∷ 5 ∷ 7 ∷ [] }
      ∷ [];
  variables = 3;
}

and_formula_read : read_clauses empty and_clauses ≡ and_formula
unfolding read_clauses empty
and_formula_read = refl

abbrev pub all_true : Assignment
all_true v = true

pub empty-IsValid : IsValid empty
unfolding empty
empty-IsValid = record { clauses = tt; numbered = tt }

pub and_formula-IsValid : IsValid and_formula
and_formula-IsValid =
    subst IsValid and_formula_read (read_clauses-IsValid empty and_clauses empty-IsValid)

and_list : OccurrenceList
and_list = init and_formula

init-Represents_example :
    Represents (init and_formula).index (non_units and_formula.formula)
    × ((init and_formula).unitc ≡ units and_formula.formula)
    × Distinct (non_units and_formula.formula)
init-Represents_example = init-Represents and_formula and_formula-IsValid

abbrev the_live : For
the_live = non_units and_formula.formula

remove-Represents_example :
    Represents
      (remove
        (remove (init and_formula) ((init and_formula).index 3))
        ((init and_formula).index 2)).index
      (free_of 2 (free_of 3 the_live))
remove-Represents_example =
    remove-Represents (init and_formula) 2 the_live
      (init-Represents and_formula and_formula-IsValid).2
      (init-Represents and_formula and_formula-IsValid).0

estimate_roots-Picks_example :
    Picks
      (init and_formula)
      (estimate_roots (init and_formula)).0
      the_live
      (estimate_roots (init and_formula)).1
unfolding init
estimate_roots-Picks_example =
    estimate_roots-Picks (init and_formula) the_live
      (init-Represents and_formula and_formula-IsValid).2
      (init-Represents and_formula and_formula-IsValid).0 refl

is_blocked-unsorted_example :
    is_blocked 2 (2 ∷ 5 ∷ 7 ∷ []) (3 ∷ 4 ∷ []) ≡ is_blocked_unsorted 2 (2 ∷ 5 ∷ 7 ∷ []) (3 ∷ 4 ∷ [])
is_blocked-unsorted_example =
    is_blocked-unsorted 2 0 0 (2 ∷ 5 ∷ 7 ∷ []) (3 ∷ 4 ∷ [])
      (omega arith, (omega arith, (omega arith, tt))) (omega arith, (omega arith, tt))

pub with_o : All (Holds 2) ((init and_formula).index 2)
unfolding init
with_o = (record { holds = refl; above = (omega arith, (omega arith, (omega arith, tt))) }, tt)

pub with_neg : All (Holds 3) ((init and_formula).index 3)
unfolding init
with_neg = (
  record { holds = refl; above = (omega arith, (omega arith, tt)) },
  (record { holds = refl; above = (omega arith, (omega arith, tt)) }, tt),
)

pub and_blocked : is_blocked_set (init and_formula) 2 ≡ true
unfolding init is_blocked_set
and_blocked = refl

is_blocked_set-extends_example :
    (formula_true
        (assign all_true 2 (gate_value (init and_formula) 2 all_true))
        ((init and_formula).index 2)
      ≡ true)
    × (formula_true
          (assign all_true 2 (gate_value (init and_formula) 2 all_true))
          ((init and_formula).index 3)
        ≡ true)
is_blocked_set-extends_example =
    is_blocked_set-extends (init and_formula) 2 all_true with_o with_neg and_blocked
