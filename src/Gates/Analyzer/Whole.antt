-- ===== src/Gates/Analyzer/Whole.antt =====
-- The whole run of the analyzer: it ends, and every clause of the problem is a root, a clause of a
-- gate, or in the remainder.
use ignore_gates.Prelude.{
  ℕ, zero, suc, ◌+◌, ◌*◌, ◌≤◌, ◌<◌, ◌≡◌, ◌≢◌, refl, sym, subst, ◌⊎◌, inl, inr, Bool, true, false,
  List, [], ◌∷◌, arith, length, elem, All,
}
use ignore_gates.Types.{Cl, var}
use ignore_gates.Types.Int.{ℤ}
use ignore_gates.Formula.{Clause, For, CnfFormula}
use ignore_gates.Formula.Shape.{IsNormal, IsValid}
use ignore_gates.Gates.Occurrences.{estimate_roots}
use ignore_gates.Gates.Occurrences.Live.{Has}
use ignore_gates.Gates.Recognition.{literals}
use ignore_gates.Gates.Analyzer.{
  Analyzer, Outcome, init, finished, limits_exceeded, out_of_fuel, gate_recognition, add_roots,
  collect_remainder, finish, analyze_loop, analyze,
}
use ignore_gates.Gates.Analyzer.Accounts.{Found, Has-filter, Keeps}
use ignore_gates.Gates.Analyzer.Remainder.{Has-append, collect_remainder-Has}
use ignore_gates.Gates.Analyzer.Rounds.{Ended, gate_recognition-Ended}
use ignore_gates.Gates.Analyzer.Taking.{estimate_roots-Rooted, start-Rooted}

-- The run ended, and where it was not the limits that stopped it, `c` is somewhere.
abbrev pub Accounted : Clause → Outcome → Type 0
Accounted c (finished a) = Found a.gate_formula c ⊎ Has c a.gate_formula.remainder
Accounted c limits_exceeded = Unit
Accounted c out_of_fuel = ⊥

-- After `gate_recognition`, what goes on only where it finished.
after_round :
    (c : Clause) (n : ℕ) (solve : List (List ℤ) → List ℤ → ℕ) (f : Analyzer → Outcome) (bound : ℕ)
    (r : Outcome)
    → Ended solve c n bound r
    → ((b : Analyzer) (live : For) → Keeps c n b live → length live ≤ bound → Accounted c (f b))
    → Accounted c (elim r [
      | finished b ↦ f b
      | limits_exceeded ↦ limits_exceeded
      | out_of_fuel ↦ out_of_fuel
    ])
after_round c n solve f bound (finished b) (live, k, le) go = go b live k le
after_round c n solve f bound limits_exceeded e go = tt
after_round c n solve f bound out_of_fuel e go = e

fuel_left :
    (roots others still live live1 : For) (fuel : ℕ)
    → others ≢ []
    → ((roots ≡ []) × (length still ≤ length live1)) ⊎ (length still < length live1)
    → length live1 ≤ length live
    → ((others ≡ []) × (0 < suc fuel)) ⊎ (length live + 1 < suc fuel)
    → ((roots ≡ []) × (0 < fuel)) ⊎ (length still + 1 < fuel)
fuel_left roots others still live live1 fuel n fewer le (inl e) = absurd (n e.0)
fuel_left roots others still live live1 fuel n (inl f) le (inr e) = inl (f.0, omega arith)
fuel_left roots others still live live1 fuel n (inr f) le (inr e) = inr (omega arith)

-- `l` is a literal of `c` that the vector of the index has a place for.
module _ (c : Clause) (n l : ℕ) (l_in : elem l c.lits ≡ true) (l_lt : l < n) where
  finish-Accounted :
      (a : Analyzer) (live : For) → Keeps c n a live → Accounted c (finished (finish a))
  unfolding finish
  finish-Accounted a live k = elim k.accounted [
    | inl f ↦ inl f
    | inr h ↦
        let there = subst (Has c) (sym (k.represents l)) (Has-filter _ c live l_in h) in
        let all = collect_remainder-Has live k.distinct c a.index.index a.index.size k.represents in
        inr (
          (Has-append c a.gate_formula.remainder (collect_remainder a.index.index a.index.size)).1
            (all.1 l (subst (λ x. l < x) (sym k.size) l_lt) there))
  ]

  module _ (solve : List (List ℤ) → List ℤ → ℕ) (within : ℕ → Bool) (order : List ℕ → List ℕ)
      (timed_out : ℕ → Bool) (inner : ℕ) (order_nil : order [] ≡ [])
      (in_time : (k : ℕ) → timed_out k ≡ false) where
    analyze_loop-Accounted :
        (fuel : ℕ) (a : Analyzer) (roots live : For)
        → Keeps c n (record a { gate_formula = add_roots a.gate_formula roots }) live
        → length live + 1 < inner
        → ((roots ≡ []) × (0 < fuel)) ⊎ (length live + 1 < fuel)
        → Accounted c (analyze_loop solve within order timed_out inner fuel a roots false)
    unfolding analyze_loop add_roots
    analyze_loop-Accounted zero a roots live k h enough = absurd (ground arith)
    analyze_loop-Accounted (suc fuel) a [] live k h enough = finish-Accounted a live k
    analyze_loop-Accounted (suc fuel) a (d ∷ ds) live k h enough =
        let start = record a { gate_formula = add_roots a.gate_formula (d ∷ ds) } in
        after_round c n solve
          (λ b.
            analyze_loop solve within order timed_out inner fuel
              (record b { index = (estimate_roots b.index).0 }) (estimate_roots b.index).1
              (timed_out fuel))
          (length live) (gate_recognition solve within order inner start (literals (d ∷ ds)))
          (gate_recognition-Ended solve c n within order order_nil inner start live
            (literals (d ∷ ds)) k h)
          (λ b live1 k1 le.
            let next = estimate_roots-Rooted c n b live1 k1 in
            rw (in_time fuel) (
              analyze_loop-Accounted fuel (record b { index = (estimate_roots b.index).0 })
                (estimate_roots b.index).1 next.still next.keeps (ground (arith, next.fewer))
                (fuel_left (estimate_roots b.index).1 (d ∷ ds) next.still live live1 fuel (λ e. cc)
                  next.fewer le enough)))

All-Has {κ} : (P : Clause → Type κ) (c : Clause) (cs : For) → All P cs → Has c cs → P c
All-Has P c [] a h = absurd h
All-Has P c (d ∷ ds) a (inl e) = subst P (sym e) a.0
All-Has P c (d ∷ ds) a (inr h) = All-Has P c ds a.1 h

below : (x n : ℕ) → var x ≤ n → x < 2 + 2 * n
below x n h = ground arith

some_lit :
    (n : ℕ) (ls : Cl) → IsNormal n ls → ls ≢ [] → (l : ℕ) × (elem l ls ≡ true) × (l < 2 + 2 * n)
some_lit n [] v e = absurd (e refl)
some_lit n (x ∷ xs) v e = (x, ground arith, below x n v.within.0)

-- A clause with a literal has one below the size of the index.
first_lit :
    (c : Clause) (f : CnfFormula)
    → IsValid f
    → Has c f.formula
    → c.lits ≢ []
    → (l : ℕ) × (elem l c.lits ≡ true) × (l < 2 + 2 * f.variables)
first_lit c f v h n =
    some_lit f.variables c.lits (All-Has (λ d. IsNormal f.variables d.lits) c f.formula v.clauses h)
      n

-- Take a valid formula, both loops with fuel for a round for each clause and two more, an order that
-- walks the empty set as empty, and a clock that does not run out. The run of the analyzer ends, and
-- if it was not the limits that stopped it, every clause of the formula that is not empty is a root,
-- a clause of a gate, or in the remainder.
pub analyze-Accounted :
    (solve : List (List ℤ) → List ℤ → ℕ) (within : ℕ → Bool) (order : List ℕ → List ℕ)
    (timed_out : ℕ → Bool) (inner fuel : ℕ) (f : CnfFormula) (patterns semantic : Bool)
    → order [] ≡ []
    → ((k : ℕ) → timed_out k ≡ false)
    → IsValid f
    → length f.formula + 1 < inner
    → length f.formula + 1 < fuel
    → (c : Clause) → Has c f.formula
    → c.lits ≢ []
    → Accounted c (analyze solve within order timed_out inner fuel (init f patterns semantic))
unfolding analyze
analyze-Accounted solve within order timed_out inner fuel f patterns semantic nil in_time v i j c h
      n =
    let a = init f patterns semantic in
    let (l, l_in, l_lt) = first_lit c f v h n in
    let (live, k, le) = start-Rooted c f patterns semantic v h in
    analyze_loop-Accounted c (2 + 2 * f.variables) l l_in l_lt solve within order timed_out inner
      nil in_time fuel (record a { index = (estimate_roots a.index).0 }) (estimate_roots a.index).1
      live k (omega arith) (inr (omega arith))
