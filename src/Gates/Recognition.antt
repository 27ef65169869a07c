-- ===== src/Gates/Recognition.antt =====
-- cnftools/src/gates/GateAnalyzer.h: the tests that tell whether clauses define a gate.
-- The sets of variables are lists without repetition. The SAT solver behind `ipasir.h` is the
-- parameter `solve`, which is given the closed clauses and the assumptions; what `ipasir_add` and
-- `ipasir_assume` do is as that header documents it.
pub mod Inputs
pub mod Binary
pub mod Unique
pub mod Semantic
pub mod Generic
pub mod InputList
mod Tests
use ignore_gates.Prelude.{
  ℕ, zero, suc, ◌+◌, ◌%◌, ◌^◌, Bool, true, false, not, ◌&&◌, ◌||◌, Option, none, some, List, [],
  ◌∷◌, ◌++◌, ◌==◌, ltb, if◌then◌else◌, length, all, elem,
}
use ignore_gates.Types.{Cl, neg, var, positive, negative, to_dimacs}
use ignore_gates.Types.Int.{ℤ, pos, is_zero}
use ignore_gates.Formula.{Clause, For}

-- `enum GateType`
pub data GateType : Type 0 where
  none_type generic mono and_gate or_gate triv eqiv full : GateType

unfoldable pub fixed_clause_size : For → ℕ → Bool
fixed_clause_size f n = all (λ c. length c.lits == n) f

-- `std::unordered_set<Var>::insert`
abbrev pub insert_var : ℕ → List ℕ → List ℕ
insert_var v vs = if elem v vs then vs else v ∷ vs

-- The literals of all clauses, in the order in which the nested loops meet them.
abbrev pub literals : For → Cl
literals [] = []
literals (c ∷ cs) = c.lits ++ literals cs

-- The loop that fills `fwd_vars`: `skip` is `~o`.
pub collect_vars : ℕ → Cl → List ℕ → List ℕ
collect_vars skip [] vs = vs
collect_vars skip (l ∷ ls) vs =
    collect_vars skip ls (if l == skip then vs else insert_var (var l) vs)

-- The loop that fills `bwd_vars`: `skip` is `o`, and `none` is its return of 0.
pub check_vars : ℕ → List ℕ → Cl → List ℕ → Option (List ℕ)
check_vars skip fwd_vars [] vs = some vs
check_vars skip fwd_vars (l ∷ ls) vs =
    let rest = check_vars skip fwd_vars ls (if l == skip then vs else insert_var (var l) vs) in
    if not (l == skip) && not (elem (var l) vs) && not (elem (var l) fwd_vars) then none else rest

unfoldable pub constrain_same_input_variables : ℕ → For → For → ℕ
unfolding collect_vars check_vars
constrain_same_input_variables o fwd bwd =
    let fwd_vars = collect_vars (neg o) (literals fwd) [] in
    elim (check_vars o fwd_vars (literals bwd) []) [
      | none ↦ 0
      | some bwd_vars ↦ if ltb (length bwd_vars) (length fwd_vars) then 0 else length fwd_vars
    ]

-- `fPattern`; the shift is that of a 64-bit word.
unfoldable pub f_pattern : ℕ → For → For → ℕ → GateType
unfolding fixed_clause_size
f_pattern o fwd bwd input_size =
    if length fwd == 1 && fixed_clause_size bwd 2
    then (if input_size == 1 then triv else or_gate)
    else if length bwd == 1 && fixed_clause_size fwd 2
    then and_gate
    else if length fwd + length bwd == 2 ^ input_size % 2 ^ 64
        && fixed_clause_size fwd (input_size + 1)
        && fixed_clause_size bwd (input_size + 1)
    then (if input_size == 2 && length fwd == length bwd then eqiv else full)
    else none_type

-- The solver as its clients see it: closed clauses, the clause being added, and the assumptions.
pub record Solver : Type 0 where
  pub closed : List (List ℤ)
  pub open_clause : List ℤ
  pub assumptions : List ℤ

unfoldable pub ipasir_init : Solver
ipasir_init = record { closed = []; open_clause = []; assumptions = [] }

abbrev pub ipasir_add : Solver → ℤ → Solver
ipasir_add s z =
    if is_zero z
    then record s { closed = s.closed ++ (s.open_clause ∷ []); open_clause = [] }
    else record s { open_clause = s.open_clause ++ (z ∷ []) }

abbrev pub ipasir_assume : Solver → ℤ → Solver
ipasir_assume s z = record s { assumptions = z ∷ s.assumptions }

-- What is added for a literal: literals of the output's variable all become positive.
abbrev pub semantic_lit : ℕ → ℕ → ℤ
semantic_lit o l = if not (var l == var o) then to_dimacs l else to_dimacs (positive l)

pub add_lits : ℕ → Solver → Cl → Solver
add_lits o s [] = s
add_lits o s (l ∷ ls) = add_lits o (ipasir_add s (semantic_lit o l)) ls

pub add_for : ℕ → Solver → For → Solver
unfolding add_lits
add_for o s [] = s
add_for o s (c ∷ cs) = add_for o (ipasir_add (add_lits o s c.lits) (pos 0)) cs

-- `fSemantic`. Solving forgets the assumptions.
unfoldable pub f_semantic :
    (List (List ℤ) → List ℤ → ℕ) → Solver → ℕ → For → For → Solver × GateType
unfolding add_for add_lits to_dimacs positive negative
f_semantic solve s o fwd bwd =
    let s1 = ipasir_assume (add_for o (add_for o s fwd) bwd) (to_dimacs (negative o)) in
    let result = solve s1.closed s1.assumptions in
    let s2 = ipasir_add (record s1 { assumptions = [] }) (to_dimacs (positive o)) in
    (s2, if result == 20 then generic else none_type)

-- One clause of `getInputLiterals`: what is left of the clause, against `inp` from `pos` on.
-- `append_rest` is the branch at the end of `inp`. Its loop over the literals below the output has no
-- end test: it stops at a literal that reaches the output. Where there is none the source reads past
-- the clause, which `overruns` tells; what `append_rest` gives there, nothing more, says nothing of
-- it.
drop_to : ℕ → Cl → Cl × Cl
drop_to output [] = ([], [])
drop_to output (x ∷ c) =
    let (before, rest) = drop_to output c in
    if ltb x output then (x ∷ before, rest) else ([], x ∷ c)

pub append_rest : ℕ → Cl → Cl
unfolding drop_to
append_rest output c =
    let (before, rest) = drop_to output c in before ++ elim rest [ [] ↦ [] | _ ∷ later ↦ later ]

-- `inp[pos]` moves up past the smaller entries; the part that was passed comes back in front.
pub merge_clause : ℕ → Cl → Cl → Cl
unfolding append_rest
merge_clause output inp [] = inp
merge_clause output [] (x ∷ c) =
    let next = merge_clause output [] c in if x == output then next else append_rest output (x ∷ c)
merge_clause output (i ∷ inp) (x ∷ c) =
    let skip = merge_clause output (i ∷ inp) c in
    let pass = i ∷ merge_clause output inp (x ∷ c) in
    let found = i ∷ merge_clause output inp c in
    let new = x ∷ merge_clause output (i ∷ inp) c in
    if x == output then skip else if ltb i x then pass else if ltb x i then new else found

pub merge_clauses : ℕ → Cl → For → Cl
unfolding merge_clause
merge_clauses output inp [] = inp
merge_clauses output inp (c ∷ cs) = merge_clauses output (merge_clause output inp c.lits) cs

-- Whether the loop over the literals below the output comes to the end of the clause.
pub overruns_rest : ℕ → Cl → Bool
overruns_rest output [] = true
overruns_rest output (x ∷ c) =
    let rest = overruns_rest output c in if ltb x output then rest else false

-- Whether it does on the way of `merge_clause`.
pub overruns_clause : ℕ → Cl → Cl → Bool
unfolding overruns_rest
overruns_clause output inp [] = false
overruns_clause output [] (x ∷ c) =
    let next = overruns_clause output [] c in
    if x == output then next else overruns_rest output (x ∷ c)
overruns_clause output (i ∷ inp) (x ∷ c) =
    let skip = overruns_clause output (i ∷ inp) c in
    let pass = overruns_clause output inp (x ∷ c) in
    let found = overruns_clause output inp c in
    if x == output then skip else if ltb i x then pass else if ltb x i then skip else found

-- Whether `get_input_literals` reads past a clause, from the inputs found so far.
unfoldable pub overruns : ℕ → Cl → For → Bool
unfolding overruns_clause merge_clause
overruns output inp [] = false
overruns output inp (c ∷ cs) =
    overruns_clause output inp c.lits || overruns output (merge_clause output inp c.lits) cs

unfoldable pub get_input_literals : ℕ → For → Cl
unfolding merge_clauses
get_input_literals output clauses = merge_clauses output [] clauses
