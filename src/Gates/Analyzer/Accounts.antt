-- ===== src/Gates/Analyzer/Accounts.antt =====
-- Gate recognition loses no clause: each is a root, a clause of a gate, or still in play.
use ignore_gates.Prelude.{
  ℕ, ◌<◌, ◌≡◌, ◌≢◌, refl, sym, ap, ◌∙◌, subst, ◌⊎◌, inl, inr, Bool, true, not, [], ◌∷◌, arith,
  length, elem, filter_if, Bool-cases, ◌==◌, if_eq, if_ne,
}
use ignore_gates.Types.{Cl, neg, var}
use ignore_gates.Types.Literals.{neg_lem}
use ignore_gates.Formula.{Clause, For}
use ignore_gates.Gates.Occurrences.{remove}
use ignore_gates.Gates.Occurrences.Live.{
  occurrences, free_of, Has, Distinct, Distinct-filter, Represents,
}
use ignore_gates.Gates.Occurrences.Roots.{remove-Represents, occurrences_gone, occurrences-free_of}
use ignore_gates.Gates.Recognition.{GateType, Solver}
use ignore_gates.Gates.Structure.{Gate, GateFormula, add_gate}
use ignore_gates.Gates.Structure.Marks.{new_gate, add_gate_gates, add_gate_roots}
use ignore_gates.Gates.Analyzer.{Analyzer}

-- A gate without clauses.
abbrev pub Blank : Gate → Type 0
Blank g = (g.fwd ≡ []) × (g.bwd ≡ [])

-- `c` is a root or a clause of a gate.
abbrev pub Found : GateFormula → Clause → Type 0
Found g c = Has c g.roots ⊎ ((v : ℕ) × (Has c (g.gates v).fwd ⊎ Has c (g.gates v).bwd))

pub Has-filter :
    (q : Clause → Bool) (c : Clause) (cs : For) → q c ≡ true → Has c cs → Has c (filter_if q cs)
Has-filter q c [] e h = h
Has-filter q c (d ∷ ds) e (inl s) = let same : q d ≡ true = ap q (sym s) ∙ e in rw same (inl s)
Has-filter q c (d ∷ ds) e (inr h) = elim (Bool-cases (q d)) [
  | inl s ↦ rw s (inr (Has-filter q c ds e h))
  | inr s ↦ rw s (Has-filter q c ds e h)
]

-- A literal that has no clause has none among fewer.
pub occurrences_fewer :
    (l m : ℕ) (cs : For) → occurrences l cs ≡ [] → occurrences l (free_of m cs) ≡ []
occurrences_fewer l m [] h = refl
occurrences_fewer l m (c ∷ cs) h = ground (arith, occurrences_fewer l m cs)

-- A clause in play holds `l`, or stays when the clauses of `l` leave.
pub occurs_or_stays :
    (l : ℕ) (c : Clause) (cs : For) → Has c cs → Has c (occurrences l cs) ⊎ Has c (free_of l cs)
occurs_or_stays l c cs h = elim (Bool-cases (elem l c.lits)) [
  | inl e ↦ inl (Has-filter _ c cs e h)
  | inr e ↦ inr (Has-filter _ c cs (ap not e) h)
]

pub record Keeps (c : Clause) (n : ℕ) (a : Analyzer) (live : For) : Type 0 where
  pub represents : Represents a.index.index live
  pub distinct : Distinct live
  pub settled : (l : ℕ) → (occurrences l live ≡ []) ⊎ Blank (a.gate_formula.gates (var l))
  pub accounted : Found a.gate_formula c ⊎ Has c live
  pub no_units : a.index.unitc ≡ []
  pub size : a.index.size ≡ n

-- Neither the solver's state nor the count of polls matters.
pub Keeps-aside :
    (c : Clause) (n : ℕ) (a : Analyzer) (live : For) (solver : Solver) (polls : ℕ)
    → Keeps c n a live
    → Keeps c n (record a { solver = solver; polls = polls }) live
Keeps-aside c n a live solver polls k = record {
  represents = k.represents;
  distinct = k.distinct;
  settled = k.settled;
  accounted = k.accounted;
  no_units = k.no_units;
  size = k.size;
}

-- The two literals of a variable.
same_var : (l o : ℕ) → var l ≡ var o → (l ≡ o) ⊎ (l ≡ neg o)
same_var l o e = ground arith

gone_both :
    (o l : ℕ) (live : For) → var l ≡ var o → occurrences l (free_of o (free_of (neg o) live)) ≡ []
gone_both o l live e = elim (same_var l o e) [
  | inl s ↦
      subst (λ x. occurrences x (free_of o (free_of (neg o) live)) ≡ []) (sym s)
        (occurrences_gone o (free_of (neg o) live))
  | inr s ↦
      subst (λ x. occurrences x (free_of o (free_of (neg o) live)) ≡ []) (sym s)
        (occurrences_fewer (neg o) o (free_of (neg o) live) (occurrences_gone (neg o) live))
]

nonempty : (cs : For) → 0 < length cs → cs ≢ []
nonempty [] h e = absurd (omega arith)
nonempty (c ∷ cs) h e = cc

-- What `addGate` does to the clauses found, where the variable of `o` had a gate without clauses.
module _ (g : GateFormula) (type : GateType) (o : ℕ) (fwd bwd : For) (inp : Cl) where
  add_gate_ne : (v : ℕ) → v ≢ var o → (add_gate g type o fwd bwd inp).gates v ≡ g.gates v
  add_gate_ne v n = add_gate_gates g type o fwd bwd inp v ∙ if_ne v (var o) _ _ n

  add_gate_eq :
      (v : ℕ) → v ≡ var o → (add_gate g type o fwd bwd inp).gates v ≡ new_gate g type o fwd bwd inp
  add_gate_eq v e = add_gate_gates g type o fwd bwd inp v ∙ if_eq v (var o) _ _ e

  add_gate-Found :
      (c : Clause) → Blank (g.gates (var o)) → Found g c → Found (add_gate g type o fwd bwd inp) c
  add_gate-Found c b (inl h) = inl (subst (Has c) (sym (add_gate_roots g type o fwd bwd inp)) h)
  add_gate-Found c b (inr (v, h)) = elim (Bool-cases (v == var o)) [
    | inl e ↦
        let same : var o ≡ v = ground arith in
        let none : Blank (g.gates v) = subst (λ x. Blank (g.gates x)) same b in
        elim h [ inl k ↦ absurd (subst (Has c) none.0 k) | inr k ↦ absurd (subst (Has c) none.1 k) ]
    | inr e ↦
        let other : v ≢ var o = ground arith in
        inr (v, subst (λ (x : Gate). Has c x.fwd ⊎ Has c x.bwd) (sym (add_gate_ne v other)) h)
  ]

  add_gate-Found_new :
      (c : Clause) → Has c fwd ⊎ Has c bwd → Found (add_gate g type o fwd bwd inp) c
  add_gate-Found_new c h =
      inr
        (var o, subst (λ (x : Gate). Has c x.fwd ⊎ Has c x.bwd) (sym (add_gate_eq (var o) refl)) h)

-- A gate found takes its clauses out of play and nothing else.
pub add_gate-Keeps :
    (c : Clause) (n : ℕ) (a : Analyzer) (live : For) (solver : Solver) (type : GateType) (o : ℕ)
    (inp : Cl)
    → Keeps c n a live
    → 0 < length (a.index.index (neg o))
    → Keeps c n
        (record a {
          solver = solver;
          gate_formula =
              add_gate a.gate_formula type o (a.index.index (neg o)) (a.index.index o) inp;
          index = remove (remove a.index (a.index.index (neg o))) (a.index.index o);
        })
        (free_of o (free_of (neg o) live))
unfolding remove
add_gate-Keeps c n a live solver type o inp k h =
    let g = a.gate_formula in
    let fwd = a.index.index (neg o) in
    let bwd = a.index.index o in
    let blank : Blank (g.gates (var o)) = elim (k.settled (neg o)) [
      | inl e ↦ absurd (nonempty fwd h (k.represents (neg o) ∙ e))
      | inr b ↦ subst (λ v. Blank (g.gates v)) (neg_lem o).1 b
    ] in
    record {
      represents = remove-Represents a.index o live k.distinct k.represents;
      distinct = Distinct-filter _ _ (Distinct-filter _ live k.distinct);
      settled = λ l. elim (Bool-cases (var l == var o)) [
        | inl e ↦ inl (gone_both o l live (ground arith))
        | inr e ↦ elim (k.settled l) [
          | inl s ↦
              inl
                (occurrences_fewer l o (free_of (neg o) live) (occurrences_fewer l (neg o) live s))
          | inr b ↦
              inr (subst Blank (sym (add_gate_ne g type o fwd bwd inp (var l) (ground arith))) b)
        ]
      ];
      accounted = elim k.accounted [
        | inl f ↦ inl (add_gate-Found g type o fwd bwd inp c blank f)
        | inr m ↦ elim (occurs_or_stays (neg o) c live m) [
          | inl i ↦ inl (
              add_gate-Found_new g type o fwd bwd inp c
                (inl (subst (Has c) (sym (k.represents (neg o))) i)))
          | inr s ↦ elim (occurs_or_stays o c (free_of (neg o) live) s) [
            | inl i ↦ inl (
                add_gate-Found_new g type o fwd bwd inp c (
                  inr (
                    subst (Has c) (occurrences-free_of o live k.distinct ∙ sym (k.represents o))
                      i)))
            | inr t ↦ inr t
          ]
        ]
      ];
      no_units = k.no_units;
      size = k.size;
    }
