-- ===== src/Cadical/Analyze.antt =====
-- The core of `analyze ()` in cadical/src/analyze.cpp, where UIPAUX is defined and where it is not:
-- the clause of the first unique implication point. A literal of the solver is written as its code,
-- so that `-lit` is `neg lit` and `vidx (lit)` is `var lit`. The conflict and the reasons are given
-- by their literals. `bump_clause` changes only the clauses' use flags and is left out.
pub mod Marks
pub mod Marking
pub mod Reasons
pub mod Resolves
pub mod Steps
pub mod Learns
pub mod Expands
pub mod Cleans
pub mod Traces
mod Tests
use ignore_gates.Prelude.{
  ℕ, zero, suc, ◌+◌, ◌-◌, Bool, true, false, not, ◌&&◌, ◌||◌, Option, none, some, List, [], ◌∷◌,
  ◌++◌, ◌==◌, ltb, if◌then◌else◌, length, get_or, min,
}
use ignore_gates.Types.{Cl, neg, var}
use ignore_gates.Cadical.AuxFile.{is_aux}
use ignore_gates.Cadical.Queue.{put}

-- What the analysis only reads: levels, trail heights and reasons of the variables, the current
-- level, and the gate outputs.
pub record Implications : Type 0 where
  pub level_of : ℕ → ℕ
  pub trail_of : ℕ → ℕ
  pub reason_of : ℕ → Option Cl
  pub level : ℕ
  pub aux : List ℕ
  pub i2e : ℕ → ℕ

-- What it changes: `flags`, `clause`, `analyzed`, `levels`, the records of `control`, and `open`, here `n_open`.
pub record Analysis : Type 0 where
  pub seen : ℕ → Bool
  pub clause : Cl
  pub analyzed : Cl
  pub levels : List ℕ
  pub seen_count : ℕ → ℕ
  pub seen_trail : ℕ → ℕ
  pub n_open : ℕ

-- `external->is_aux(i2e[vidx(lit)])`
abbrev pub aux_lit : Implications → ℕ → Bool
aux_lit e x = is_aux e.aux (e.i2e (var x))

-- The part of `analyze_literal` behind its two early returns.
abbrev pub mark_literal : Implications → ℕ → Analysis → Analysis
mark_literal e x s =
    let l = e.level_of (var x) in
    record {
      seen = put s.seen (var x) true;
      clause = if ltb l e.level then s.clause ++ (x ∷ []) else s.clause;
      analyzed = s.analyzed ++ (x ∷ []);
      levels = if s.seen_count l == 0 then s.levels ++ (l ∷ []) else s.levels;
      seen_count = put s.seen_count l (suc (s.seen_count l));
      seen_trail = put s.seen_trail l (min (e.trail_of (var x)) (s.seen_trail l));
      n_open = if l == e.level then suc s.n_open else s.n_open;
    }

unfoldable pub analyze_literal : Implications → ℕ → Analysis → Analysis
analyze_literal e x s =
    if s.seen (var x) then s else if e.level_of (var x) == 0 then s else mark_literal e x s

-- `analyze_reason (lit, reason, open)`
unfoldable pub analyze_reason : Implications → ℕ → Cl → Analysis → Analysis
unfolding analyze_literal
analyze_reason e l [] s = s
analyze_reason e l (x ∷ xs) s = analyze_reason e l xs (if x == l then s else analyze_literal e x s)

-- How the search for the UIP ends: with it, before the start of the trail, or at a decision whose
-- missing reason would be analyzed. The last two are excluded by assertions.
pub data Derived : Type 0 where
  found : Analysis → ℕ → Derived
  no_uip : Derived
  no_reason : Derived

-- The end of the loop: `open` is what is left of it, and it counts only seen literals.
abbrev pub stops : Bool → Implications → ℕ → ℕ → Bool
stops uipaux e left uip =
    (left == 0)
    && (not uipaux
        || not (aux_lit e uip)
        || elim (e.reason_of (var uip)) [ none ↦ true | some r ↦ false ])

-- The loop, on the trail below `i` from its end. The inner loop's `continue` is the first branch.
unfoldable pub search_uip : Bool → Implications → Analysis → Cl → Derived
unfolding analyze_reason
search_uip uipaux e s [] = no_uip
search_uip uipaux e s (uip ∷ below) =
    let skip = search_uip uipaux e s below in
    let left = record s { n_open = s.n_open - 1 } in
    let go : Derived = elim (e.reason_of (var uip)) [
      | none ↦ no_reason
      | some r ↦ search_uip uipaux e (analyze_reason e uip r left) below
    ] in
    if s.seen (var uip) && (e.level_of (var uip) == e.level)
    then (if stops uipaux e left.n_open uip then found left uip else go)
    else skip

-- The analysis of a conflict up to the UIP. `trail` is the trail from its end.
unfoldable pub derive : Bool → Implications → Analysis → Cl → Cl → Derived
unfolding search_uip analyze_reason
derive uipaux e s conflict trail = search_uip uipaux e (analyze_reason e 0 conflict s) trail

-- The clause so far, where the loop has found the UIP: `clause.push_back (-uip);`.
abbrev pub push_uip : Analysis → ℕ → Analysis
push_uip s uip = record s { clause = s.clause ++ (neg uip ∷ []) }

-- `clause.erase (clause.begin () + i)`
pub erase_at : Cl → ℕ → Cl
erase_at [] i = []
erase_at (x ∷ xs) zero = xs
erase_at (x ∷ xs) (suc i) = x ∷ erase_at xs i

-- The loop of UIPAUX that takes gate outputs out of the clause; `none` is want of fuel.
unfoldable pub remove_aux : Implications → ℕ → Analysis → ℕ → Option Analysis
unfolding erase_at analyze_reason
remove_aux e zero s i = none
remove_aux e (suc fuel) s i =
    let lit = get_or s.clause i 0 in
    let expanded : Analysis = elim (e.reason_of (var lit)) [
      | none ↦ s
      | some r ↦ analyze_reason e lit r s
    ] in
    let erased = remove_aux e fuel (record expanded { clause = erase_at expanded.clause i }) i in
    let kept = remove_aux e fuel s (suc i) in
    if ltb i (length s.clause) then (if aux_lit e lit then erased else kept) else some s
