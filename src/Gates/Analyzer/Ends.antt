-- ===== src/Gates/Analyzer/Ends.antt =====
-- Gate recognition ends: each round but the last takes clauses out of play.
use ignore_gates.Prelude.{
  ℕ, zero, suc, ◌+◌, ◌≤◌, ◌<◌, ◌≡◌, ◌≢◌, refl, sym, ap, ◌∙◌, subst, ◌⊎◌, inl, inr, Bool, false, not,
  List, [], ◌∷◌, arith, ltb, length, elem, filter_if, Bool-cases,
}
use ignore_gates.Types.{neg}
use ignore_gates.Types.Int.{ℤ}
use ignore_gates.Formula.{Clause, For}
use ignore_gates.Gates.Occurrences.{remove}
use ignore_gates.Gates.Occurrences.Live.{
  occurrences, free_of, Distinct, Distinct-filter, Represents,
}
use ignore_gates.Gates.Occurrences.Roots.{remove-Represents}
use ignore_gates.Gates.Recognition.{get_input_literals}
use ignore_gates.Gates.Structure.{Gate, add_gate, get_gate}
use ignore_gates.Gates.Structure.Marks.{new_gate, add_gate_self}
use ignore_gates.Gates.Analyzer.{
  Analyzer, is_none, gate_type, check_add_gate, try_candidate, try_candidates, out_of_fuel,
  gate_recognition,
}

pub length-filter_if-le : (p : Clause → Bool) (cs : For) → length (filter_if p cs) ≤ length cs
length-filter_if-le p [] = omega arith
length-filter_if-le p (c ∷ cs) = ground (arith, length-filter_if-le p cs)

-- A literal with clauses: taking them out leaves fewer.
pub free_of_fewer :
    (l : ℕ) (cs : For) → 0 < length (occurrences l cs) → length (free_of l cs) < length cs
free_of_fewer l [] h = absurd (omega arith)
free_of_fewer l (c ∷ cs) h =
    ground (arith, free_of_fewer l cs, length-filter_if-le (λ d. not (elem l d.lits)) cs)

module _ (solve : List (List ℤ) → List ℤ → ℕ) where
  -- A gate is only found for an output whose negation has clauses.
  pub gate_type_needs :
      (a : Analyzer) (o : ℕ)
      → is_none (gate_type solve a o).1 ≡ false
      → 0 < length (a.index.index (neg o))
  unfolding gate_type
  gate_type_needs a o h = elim (Bool-cases (ltb 0 (length (a.index.index (neg o))))) [
    | inl e ↦ ground arith
    | inr e ↦ cc (rw (e, gate_type) at h)
  ]

  pub added :
      (a : Analyzer) (o : ℕ)
      → get_gate
          (add_gate a.gate_formula
            (gate_type solve a o).1
            o
            (a.index.index (neg o))
            (a.index.index o)
            (get_input_literals (neg o) (a.index.index (neg o))))
          o
        ≡ new_gate a.gate_formula
            (gate_type solve a o).1
            o
            (a.index.index (neg o))
            (a.index.index o)
            (get_input_literals (neg o) (a.index.index (neg o)))
  added a o =
      add_gate_self a.gate_formula (gate_type solve a o).1 o (a.index.index (neg o))
        (a.index.index o) (get_input_literals (neg o) (a.index.index (neg o)))

  -- What is left in play after a candidate, and that the frontier grows only if it is less.
  record Left (live : For) (frontier : List ℕ) (s : Analyzer × List ℕ) : Type 0 where
    still : For
    represents : Represents s.0.index.index still
    distinct : Distinct still
    fewer : ((s.1 ≡ frontier) × (length still ≤ length live)) ⊎ (length still < length live)

  try_candidate-Left :
      (a : Analyzer) (frontier : List ℕ) (o : ℕ) (live : For)
      → Distinct live
      → Represents a.index.index live
      → Left live frontier (try_candidate solve (a, frontier) o)
  unfolding try_candidate check_add_gate
  try_candidate-Left a frontier o live v r = elim (Bool-cases (is_none (gate_type solve a o).1)) [
    | inl e ↦
        rw e
          (record { still = live; represents = r; distinct = v; fewer = inl (refl, omega arith) })
    | inr e ↦ rw e (record {
      still = free_of o (free_of (neg o) live);
      represents =
          subst
            (λ (x : Gate).
              Represents (remove (remove a.index x.fwd) x.bwd).index
                (free_of o (free_of (neg o) live)))
            (sym (added a o)) (remove-Represents a.index o live v r);
      distinct = Distinct-filter _ _ (Distinct-filter _ live v);
      fewer = inr (
          omega (
            arith,
            length-filter_if-le (λ d. not (elem o d.lits)) (free_of (neg o) live),
            free_of_fewer (neg o) live
                (subst (λ x. 0 < length x) (r (neg o)) (gate_type_needs a o e)),
          ));
    })
  ]

  Left-trans :
      (live : For) (f g : List ℕ) (s t : Analyzer × List ℕ)
      → (x : Left live f s) → s.1 ≡ g
      → Left x.still g t
      → Left live f t
  Left-trans live f g s t x e y = record {
    still = y.still;
    represents = y.represents;
    distinct = y.distinct;
    fewer = ground (arith, x.fewer, y.fewer);
  }

  try_candidates-Left :
      (s : Analyzer × List ℕ) (live : For) (cs : List ℕ)
      → Distinct live
      → Represents s.0.index.index live
      → Left live s.1 (try_candidates solve s cs)
  unfolding try_candidates
  try_candidates-Left s live [] v r = record {
    still = live;
    represents = r;
    distinct = v;
    fewer = inl (refl, omega arith);
  }
  try_candidates-Left (a, f) live (c ∷ cs) v r =
      let one = try_candidate-Left a f c live v r in
      let s = try_candidate solve (a, f) c in
      Left-trans live f s.1 s (try_candidates solve s cs) one refl
        (try_candidates-Left s one.still cs one.distinct one.represents)

  module _ (within : ℕ → Bool) (order : List ℕ → List ℕ) (order_nil : order [] ≡ []) where
    nil_ends :
        (fuel : ℕ) (a : Analyzer) (cs : List ℕ)
        → 0 < fuel
        → cs ≡ []
        → gate_recognition solve within order fuel a cs ≢ out_of_fuel
    unfolding gate_recognition
    nil_ends zero a cs h e = absurd (omega arith)
    nil_ends (suc fuel) a [] h e = λ q. cc
    nil_ends (suc fuel) a (c ∷ cs) h e = cc

    -- With more fuel than one round for each clause in play and two more, `gate_recognition` ends:
    -- it finishes, or the limits stop it.
    pub gate_recognition_ends :
        (fuel : ℕ) (a : Analyzer) (live : For) (candidates : List ℕ)
        → Distinct live
        → Represents a.index.index live
        → length live + 1 < fuel
        → gate_recognition solve within order fuel a candidates ≢ out_of_fuel
    unfolding gate_recognition
    gate_recognition_ends zero a live cands v r h = absurd (omega arith)
    gate_recognition_ends (suc fuel) a live [] v r h = λ e. cc
    gate_recognition_ends (suc fuel) a live (c ∷ cs) v r h =
        let polled = record a { polls = suc a.polls } in
        let next = try_candidates solve (polled, []) (c ∷ cs) in
        let left = try_candidates-Left (polled, []) live (c ∷ cs) v r in
        let rest : gate_recognition solve within order fuel next.0 (order next.1) ≢ out_of_fuel =
          elim left.fewer [
            | inl (same, _) ↦
                nil_ends fuel next.0 (order next.1) (omega arith) (ap order same ∙ order_nil)
            | inr lt ↦
                gate_recognition_ends fuel next.0 left.still (order next.1) left.distinct
                  left.represents (omega arith)
          ] in
        elim (Bool-cases (within a.polls)) [ inl e ↦ rw e rest | inr e ↦ rw e (λ q. cc) ]
