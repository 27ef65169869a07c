-- ===== src/Gates/Analyzer.antt =====
-- cnftools/src/gates/GateAnalyzer.h: the search for gates, from the roots down.
-- Three things come from outside: `solve` is the SAT solver, `within n` says whether the n-th poll of
-- the resource limits passes, and `order` is the order in which the set `frontier` is walked.
-- Both loops run on fuel. The clock of `analyze` is the function `timed_out` of the round.
pub mod Ends
pub mod Accounts
pub mod Rounds
pub mod Remainder
pub mod Taking
pub mod Whole
mod Tests
use ignore_gates.Prelude.{
  ℕ, zero, suc, ◌+◌, Bool, true, false, not, ◌&&◌, List, [], ◌∷◌, ◌++◌, ◌==◌, ltb, if◌then◌else◌,
  length, elem,
}
use ignore_gates.Types.{Cl, neg, var}
use ignore_gates.Types.Int.{ℤ}
use ignore_gates.Formula.{Clause, For, CnfFormula, n_vars}
use ignore_gates.Gates.Occurrences
use ignore_gates.Gates.Occurrences.{OccurrenceList, is_blocked_set, remove, estimate_roots}
use ignore_gates.Gates.Recognition.{
  GateType, none_type, generic, mono, and_gate, or_gate, triv, eqiv, full, Solver, ipasir_init,
  literals, constrain_same_input_variables, f_pattern, f_semantic, get_input_literals,
}
use ignore_gates.Gates.Structure
use ignore_gates.Gates.Structure.{GateFormula, add_root, add_gate, get_gate}

pub record Analyzer : Type 0 where
  pub solver : Solver
  pub gate_formula : GateFormula
  pub index : OccurrenceList
  pub patterns : Bool
  pub semantic : Bool
  pub polls : ℕ

-- The constructor.
unfoldable pub init : CnfFormula → Bool → Bool → Analyzer
init formula patterns semantic = record {
  solver = ipasir_init;
  gate_formula = Structure.init (n_vars formula);
  index = Occurrences.init formula;
  patterns = patterns;
  semantic = semantic;
  polls = 0;
}

abbrev pub is_none : GateType → Bool
is_none none_type = true
is_none _ = false

-- The first part of `checkAddGate`, under its outer test: the pattern, where patterns are on and
-- both sides name the same inputs.
pattern_type : Analyzer → ℕ → For → For → GateType
pattern_type a out fwd bwd =
    let input_size = constrain_same_input_variables out fwd bwd in
    if a.patterns && ltb 0 input_size then f_pattern out fwd bwd input_size else none_type

-- The second part: the semantic check, where no pattern fits.
semantic_type :
    (List (List ℤ) → List ℤ → ℕ) → Analyzer → ℕ → For → For → GateType → Solver × GateType
semantic_type solve a out fwd bwd type =
    if is_none type && a.semantic && ltb 1 (length fwd) && ltb 1 (length bwd)
    then f_semantic solve a.solver out fwd bwd
    else (a.solver, type)

pub gate_type : (List (List ℤ) → List ℤ → ℕ) → Analyzer → ℕ → Solver × GateType
unfolding pattern_type semantic_type
gate_type solve a out =
    let fwd = a.index.index (neg out) in
    let bwd = a.index.index out in
    if ltb 0 (length fwd) && is_blocked_set a.index out
    then semantic_type solve a out fwd bwd (pattern_type a out fwd bwd)
    else (a.solver, none_type)

-- `checkAddGate(out)`
unfoldable pub check_add_gate : (List (List ℤ) → List ℤ → ℕ) → Analyzer → ℕ → Analyzer × Bool
unfolding gate_type
check_add_gate solve a out =
    let (solver, type) = gate_type solve a out in
    let fwd = a.index.index (neg out) in
    if is_none type then (record a { solver = solver }, false) else (
      record a {
        solver = solver;
        gate_formula =
            add_gate a.gate_formula type out fwd (a.index.index out)
              (get_input_literals (neg out) fwd);
      },
      true,
    )

-- `frontier.insert(begin, end)`
insert_all : List ℕ → Cl → List ℕ
insert_all set [] = set
insert_all set (l ∷ ls) = insert_all (if elem l set then set else set ++ (l ∷ [])) ls

-- What `gate_recognition` does with one candidate.
pub try_candidate : (List (List ℤ) → List ℤ → ℕ) → Analyzer × List ℕ → ℕ → Analyzer × List ℕ
unfolding check_add_gate insert_all
try_candidate solve (a, frontier) candidate =
    let (b, found) = check_add_gate solve a candidate in
    let gate = get_gate b.gate_formula candidate in
    if found
    then (
      record b { index = remove (remove b.index gate.fwd) gate.bwd },
      insert_all frontier gate.inp,
    )
    else (b, frontier)

pub try_candidates : (List (List ℤ) → List ℤ → ℕ) → Analyzer × List ℕ → List ℕ → Analyzer × List ℕ
unfolding try_candidate
try_candidates solve s [] = s
try_candidates solve s (c ∷ cs) = try_candidates solve (try_candidate solve s c) cs

-- How a loop ends: by its own test, by the exception of the limits, or for want of fuel.
pub data Outcome : Type 0 where
  finished : Analyzer → Outcome
  limits_exceeded : Outcome
  out_of_fuel : Outcome

-- `gate_recognition(roots)`
unfoldable pub gate_recognition :
    (List (List ℤ) → List ℤ → ℕ) → (ℕ → Bool) → (List ℕ → List ℕ) → ℕ → Analyzer → List ℕ → Outcome
unfolding try_candidates
gate_recognition solve within order zero a candidates = out_of_fuel
gate_recognition solve within order (suc fuel) a [] = finished a
gate_recognition solve within order (suc fuel) a (c ∷ cs) =
    let polled = record a { polls = suc a.polls } in
    let next = try_candidates solve (polled, []) (c ∷ cs) in
    let rest = gate_recognition solve within order fuel next.0 (order next.1) in
    if within a.polls then rest else limits_exceeded

pub add_roots : GateFormula → For → GateFormula
add_roots g [] = g
add_roots g (c ∷ cs) = add_roots (add_root g c) cs

pub insert_clauses : For → For → For
insert_clauses set [] = set
insert_clauses set (c ∷ cs) =
    insert_clauses (if Occurrences.Live.has_ptr c.ptr set then set else set ++ (c ∷ [])) cs

-- The set of all clauses that the index still lists, for the literals below `n`.
pub collect_remainder : Occurrences.Index → ℕ → For
unfolding insert_clauses
collect_remainder ix zero = []
collect_remainder ix (suc n) = insert_clauses (collect_remainder ix n) (ix n)

unfoldable pub finish : Analyzer → Analyzer
unfolding collect_remainder
finish a =
    let g = a.gate_formula in
    record a {
      gate_formula = record g {
        remainder = g.remainder ++ collect_remainder a.index.index a.index.size;
      };
    }

-- The outer loop of `analyze`, with the roots of this round; `inner` is the fuel of each
-- `gate_recognition`, and `timed_out` is what the clock says after each round.
pub analyze_loop :
    (List (List ℤ) → List ℤ → ℕ)
    → (ℕ → Bool)
    → (List ℕ → List ℕ)
    → (ℕ → Bool)
    → ℕ
    → ℕ
    → Analyzer
    → For
    → Bool
    → Outcome
unfolding finish add_roots gate_recognition
analyze_loop solve within order timed_out inner zero a roots late = out_of_fuel
analyze_loop solve within order timed_out inner (suc fuel) a [] late = finished (finish a)
analyze_loop solve within order timed_out inner (suc fuel) a (c ∷ cs) true = finished (finish a)
analyze_loop solve within order timed_out inner (suc fuel) a (c ∷ cs) false =
    let rooted = record a { gate_formula = add_roots a.gate_formula (c ∷ cs) } in
    elim (gate_recognition solve within order inner rooted (literals (c ∷ cs))) [
      | finished b ↦
          let (index, roots) = estimate_roots b.index in
          analyze_loop solve within order timed_out inner fuel (record b { index = index }) roots
            (timed_out fuel)
      | limits_exceeded ↦ limits_exceeded
      | out_of_fuel ↦ out_of_fuel
    ]

-- `analyze()`
unfoldable pub analyze :
    (List (List ℤ) → List ℤ → ℕ)
    → (ℕ → Bool)
    → (List ℕ → List ℕ)
    → (ℕ → Bool)
    → ℕ
    → ℕ
    → Analyzer
    → Outcome
unfolding analyze_loop
analyze solve within order timed_out inner fuel a =
    let (index, roots) = estimate_roots a.index in
    analyze_loop solve within order timed_out inner fuel (record a { index = index }) roots false
