-- ===== src/Gates/Analyzer/Rounds.antt =====
-- Gate recognition ends with every clause accounted for.
use ignore_gates.Prelude.{
  ℕ, zero, suc, ◌+◌, ◌≤◌, ◌<◌, ◌≡◌, refl, sym, ap, ◌∙◌, subst, ◌⊎◌, inl, inr, Bool, not, List, [],
  ◌∷◌, arith, length, elem, Bool-cases,
}
use ignore_gates.Types.{neg}
use ignore_gates.Types.Int.{ℤ}
use ignore_gates.Formula.{Clause, For}
use ignore_gates.Gates.Occurrences.{remove}
use ignore_gates.Gates.Occurrences.Live.{free_of}
use ignore_gates.Gates.Recognition.{get_input_literals}
use ignore_gates.Gates.Structure.{Gate, add_gate}
use ignore_gates.Gates.Analyzer.{
  Analyzer, Outcome, is_none, gate_type, check_add_gate, try_candidate, try_candidates, finished,
  limits_exceeded, out_of_fuel, gate_recognition,
}
use ignore_gates.Gates.Analyzer.Ends.{length-filter_if-le, free_of_fewer, gate_type_needs, added}
use ignore_gates.Gates.Analyzer.Accounts.{Keeps, Keeps-aside, add_gate-Keeps}

module _ (solve : List (List ℤ) → List ℤ → ℕ) (c : Clause) (n : ℕ) where
  -- What is in play after some candidates; the frontier grows only if it is less.
  record Round (live : For) (frontier : List ℕ) (s : Analyzer × List ℕ) : Type 0 where
    still : For
    keeps : Keeps c n s.0 still
    fewer : ((s.1 ≡ frontier) × (length still ≤ length live)) ⊎ (length still < length live)

  try_candidate-Round :
      (a : Analyzer) (frontier : List ℕ) (o : ℕ) (live : For)
      → Keeps c n a live
      → Round live frontier (try_candidate solve (a, frontier) o)
  unfolding try_candidate check_add_gate
  try_candidate-Round a frontier o live k = elim (Bool-cases (is_none (gate_type solve a o).1)) [
    | inl e ↦ rw e (record {
      still = live;
      keeps = Keeps-aside c n a live (gate_type solve a o).0 a.polls k;
      fewer = inl (refl, omega arith);
    })
    | inr e ↦
        let needs = gate_type_needs solve a o e in
        rw e (record {
          still = free_of o (free_of (neg o) live);
          keeps =
              subst
                (λ (x : Gate).
                  Keeps c n
                    (record a {
                      solver = (gate_type solve a o).0;
                      gate_formula =
                          add_gate a.gate_formula (gate_type solve a o).1 o (a.index.index (neg o))
                            (a.index.index o) (get_input_literals (neg o) (a.index.index (neg o)));
                      index = remove (remove a.index x.fwd) x.bwd;
                    })
                    (free_of o (free_of (neg o) live)))
                (sym (added solve a o))
                (add_gate-Keeps c n a live (gate_type solve a o).0 (gate_type solve a o).1 o
                  (get_input_literals (neg o) (a.index.index (neg o))) k needs);
          fewer = inr (
              omega (
                arith,
                length-filter_if-le (λ d. not (elem o d.lits)) (free_of (neg o) live),
                free_of_fewer (neg o) live (subst (λ x. 0 < length x) (k.represents (neg o)) needs),
              ));
        })
  ]

  Round-trans :
      (live : For) (f g : List ℕ) (s t : Analyzer × List ℕ)
      → (x : Round live f s) → s.1 ≡ g
      → Round x.still g t
      → Round live f t
  Round-trans live f g s t x e y = record {
    still = y.still;
    keeps = y.keeps;
    fewer = ground (arith, x.fewer, y.fewer);
  }

  try_candidates-Round :
      (s : Analyzer × List ℕ) (live : For) (cs : List ℕ)
      → Keeps c n s.0 live
      → Round live s.1 (try_candidates solve s cs)
  unfolding try_candidates
  try_candidates-Round s live [] k = record {
    still = live;
    keeps = k;
    fewer = inl (refl, omega arith);
  }
  try_candidates-Round (a, f) live (o ∷ os) k =
      let one = try_candidate-Round a f o live k in
      let s = try_candidate solve (a, f) o in
      Round-trans live f s.1 s (try_candidates solve s os) one refl
        (try_candidates-Round s one.still os one.keeps)

  -- It ended, and if it was not the limits that stopped it, no clause is lost.
  abbrev pub Ended : ℕ → Outcome → Type 0
  Ended bound (finished a) = (live : For) × Keeps c n a live × (length live ≤ bound)
  Ended bound limits_exceeded = Unit
  Ended bound out_of_fuel = ⊥

  Ended-le : (b d : ℕ) (r : Outcome) → b ≤ d → Ended b r → Ended d r
  Ended-le b d (finished a) h (live, k, l) = (live, k, omega arith)
  Ended-le b d limits_exceeded h e = tt
  Ended-le b d out_of_fuel h e = e

  module _ (within : ℕ → Bool) (order : List ℕ → List ℕ) (order_nil : order [] ≡ []) where
    nil-Ended :
        (fuel : ℕ) (a : Analyzer) (live : For) (cs : List ℕ)
        → 0 < fuel
        → cs ≡ []
        → Keeps c n a live
        → Ended (length live) (gate_recognition solve within order fuel a cs)
    unfolding gate_recognition
    nil-Ended zero a live cs h e k = absurd (omega arith)
    nil-Ended (suc fuel) a live [] h e k = (live, k, omega arith)
    nil-Ended (suc fuel) a live (o ∷ os) h e k = absurd cc

    pub gate_recognition-Ended :
        (fuel : ℕ) (a : Analyzer) (live : For) (candidates : List ℕ)
        → Keeps c n a live
        → length live + 1 < fuel
        → Ended (length live) (gate_recognition solve within order fuel a candidates)
    unfolding gate_recognition
    gate_recognition-Ended zero a live cands k h = absurd (omega arith)
    gate_recognition-Ended (suc fuel) a live [] k h = (live, k, omega arith)
    gate_recognition-Ended (suc fuel) a live (o ∷ os) k h =
        let polled = record a { polls = suc a.polls } in
        let next = try_candidates solve (polled, []) (o ∷ os) in
        let round =
          try_candidates-Round (polled, []) live (o ∷ os)
            (Keeps-aside c n a live a.solver (suc a.polls) k) in
        let rest : Ended (length live)
            (gate_recognition solve within order fuel next.0 (order next.1)) =
          elim round.fewer [
            | inl (same, le) ↦ Ended-le _ (length live) _ le (
                nil-Ended fuel next.0 round.still (order next.1) (omega arith)
                  (ap order same ∙ order_nil) round.keeps)
            | inr lt ↦ Ended-le _ (length live) _ (omega arith) (
                gate_recognition-Ended fuel next.0 round.still (order next.1) round.keeps
                  (omega arith))
          ] in
        elim (Bool-cases (within a.polls)) [ inl e ↦ rw e rest | inr e ↦ rw e tt ]
