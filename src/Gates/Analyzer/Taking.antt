-- ===== src/Gates/Analyzer/Taking.antt =====
-- Taking roots keeps every clause accounted for, from the start on.
use ignore_gates.Prelude.{
  append_assoc, append-nil, ℕ, ◌+◌, ◌*◌, ◌≤◌, ◌<◌, ◌≡◌, ◌≢◌, refl, sym, ap, ◌∙◌, subst, ◌⊎◌, inl,
  inr, Bool, not, [], ◌∷◌, ◌++◌, arith, ◌==◌, length, Bool-cases,
}
use ignore_gates.Types.{var}
use ignore_gates.Formula.{Clause, For, CnfFormula}
use ignore_gates.Formula.Shape.{IsValid}
use ignore_gates.Gates.Occurrences
use ignore_gates.Gates.Occurrences.{OccurrenceList, estimate_roots}
use ignore_gates.Gates.Occurrences.Live.{occurrences, free_of, Has, Distinct-filter}
use ignore_gates.Gates.Occurrences.Roots.{
  is_unit, units, non_units, init-Represents, estimate_roots_units, estimate_roots_fields,
  init_size, estimate_roots-Picks,
}
use ignore_gates.Gates.Structure
use ignore_gates.Gates.Structure.{Gate, GateFormula, add_root}
use ignore_gates.Gates.Analyzer.{Analyzer, init, add_roots}
use ignore_gates.Gates.Analyzer.Ends.{length-filter_if-le, free_of_fewer}
use ignore_gates.Gates.Analyzer.Accounts.{
  Blank, Found, Has-filter, occurrences_fewer, occurs_or_stays, Keeps,
}
use ignore_gates.Gates.Analyzer.Remainder.{Has-append}

some_length : (cs : For) → cs ≢ [] → 0 < length cs
some_length [] n = absurd (n refl)
some_length (c ∷ cs) n = omega arith

add_roots_lem :
    (g : GateFormula) (cs : For)
    → ((add_roots g cs).roots ≡ g.roots ++ cs) × ((add_roots g cs).gates ≡ g.gates)
unfolding add_roots add_root
add_roots_lem g [] = (sym (append-nil g.roots), refl)
add_roots_lem g (c ∷ cs) =
    let ih = add_roots_lem (add_root g c) cs in (ih.0 ∙ append_assoc g.roots (c ∷ []) cs, ih.1)

add_roots-Found :
    (g : GateFormula) (cs : For) (c : Clause) → Found g c ⊎ Has c cs → Found (add_roots g cs) c
add_roots-Found g cs c (inl (inl h)) =
    inl (subst (Has c) (sym (add_roots_lem g cs).0) ((Has-append c g.roots cs).0 h))
add_roots-Found g cs c (inl (inr (v, h))) =
    inr (
      v,
      subst (λ (f : ℕ → Gate). Has c (f v).fwd ⊎ Has c (f v).bwd) (sym (add_roots_lem g cs).1) h,
    )
add_roots-Found g cs c (inr h) =
    inl (subst (Has c) (sym (add_roots_lem g cs).0) ((Has-append c g.roots cs).1 h))

-- The analyzer with the index and the roots that `estimateRoots` gives.
abbrev pub rooted : Analyzer → OccurrenceList × For → Analyzer
rooted a (index, roots) = record a { index = index; gate_formula = add_roots a.gate_formula roots }

-- What is left after roots are taken: fewer clauses, or no roots.
pub record Rooted (c : Clause) (n : ℕ) (a : Analyzer) (live : For) : Type 0 where
  pub still : For
  pub keeps : Keeps c n (rooted a (estimate_roots a.index)) still
  pub fewer :
      (((estimate_roots a.index).1 ≡ []) × (length still ≤ length live))
      ⊎ (length still < length live)

pub estimate_roots-Rooted :
    (c : Clause) (n : ℕ) (a : Analyzer) (live : For) → Keeps c n a live → Rooted c n a live
estimate_roots-Rooted c n a live k =
    let g = a.gate_formula in
    let l = (estimate_roots a.index).0 in
    let roots = (estimate_roots a.index).1 in
    let picks = estimate_roots-Picks a.index live k.distinct k.represents k.no_units in
    let fields = estimate_roots_fields a.index k.no_units in
    let gates = sym (add_roots_lem g roots).1 in
    elim (Bool-cases (l.max_literal == 0)) [
      | inl e ↦ record {
        still = live;
        keeps = record {
          represents = picks.unchanged (ground arith);
          distinct = k.distinct;
          settled =
              subst (λ (f : ℕ → Gate). (x : ℕ) → (occurrences x live ≡ []) ⊎ Blank (f (var x)))
                gates k.settled;
          accounted = elim k.accounted [
            | inl f ↦ inl (add_roots-Found g roots c (inl f))
            | inr h ↦ inr h
          ];
          no_units = fields.0;
          size = fields.1 ∙ k.size;
        };
        fewer = inl (picks.none_left (ground arith), omega arith);
      }
      | inr e ↦
          let m = l.max_literal in
          let some = picks.roots_are (ground arith) in
          record {
            still = free_of m live;
            keeps = record {
              represents = picks.remains (ground arith);
              distinct = Distinct-filter _ live k.distinct;
              settled = λ x. elim (k.settled x) [
                | inl s ↦ inl (occurrences_fewer x m live s)
                | inr b ↦ inr (subst (λ (f : ℕ → Gate). Blank (f (var x))) gates b)
              ];
              accounted = elim k.accounted [
                | inl f ↦ inl (add_roots-Found g roots c (inl f))
                | inr h ↦ elim (occurs_or_stays m c live h) [
                  | inl o ↦ inl (add_roots-Found g roots c (inr (subst (Has c) (sym some.0) o)))
                  | inr s ↦ inr s
                ]
              ];
              no_units = fields.0;
              size = fields.1 ∙ k.size;
            };
            fewer = inr (
                free_of_fewer m live (subst (λ x. 0 < length x) some.0 (some_length roots some.1)));
          }
    ]

-- A clause of the problem is a unit or one that the index lists.
Has-split : (c : Clause) (cs : For) → Has c cs → Has c (units cs) ⊎ Has c (non_units cs)
Has-split c cs h = elim (Bool-cases (is_unit c)) [
  | inl e ↦ inl (Has-filter is_unit c cs e h)
  | inr e ↦ inr (Has-filter (λ d. not (is_unit d)) c cs (ap not e) h)
]

For-cases : (cs : For) → (cs ≡ []) ⊎ (cs ≢ [])
For-cases [] = inl refl
For-cases (c ∷ cs) = inr (λ e. cc)

init-Blank : (n v : ℕ) → Blank ((Structure.init n).gates v)
unfolding Structure.init
init-Blank n v = (refl, refl)

module _ (c : Clause) (f : CnfFormula) (patterns semantic : Bool) (v : IsValid f) where
  abbrev first : Analyzer
  first = init f patterns semantic

  abbrev total : ℕ
  total = 2 + 2 * f.variables

  -- With unit clauses, they are the first roots.
  start_units :
      Has c f.formula
      → first.index.unitc ≢ []
      → Keeps c total (rooted first (estimate_roots first.index)) (non_units f.formula)
  unfolding init
  start_units h n =
      let l = Occurrences.init f in
      let built = init-Represents f v in
      let g = Structure.init f.variables in
      subst (λ x. Keeps c total (rooted first x) (non_units f.formula))
        (sym (estimate_roots_units l n))
        (record {
          represents = built.0;
          distinct = built.2;
          settled = λ x. inr (
              subst (λ (k : ℕ → Gate). Blank (k (var x))) (sym (add_roots_lem g l.unitc).1)
                (init-Blank f.variables (var x)));
          accounted = elim (Has-split c f.formula h) [
            | inl u ↦ inl (add_roots-Found g l.unitc c (inr (subst (Has c) (sym built.1) u)))
            | inr k ↦ inr k
          ];
          no_units = refl;
          size = init_size f;
        })

  start_no_units :
      Has c f.formula → first.index.unitc ≡ [] → Rooted c total first (non_units f.formula)
  unfolding init
  start_no_units h n =
      let built = init-Represents f v in
      estimate_roots-Rooted c total first (non_units f.formula) (record {
        represents = built.0;
        distinct = built.2;
        settled = λ x. inr (init-Blank f.variables (var x));
        accounted = elim (Has-split c f.formula h) [
          | inl u ↦ absurd (subst (Has c) (sym built.1 ∙ n) u)
          | inr k ↦ inr k
        ];
        no_units = n;
        size = init_size f;
      })

  pub start-Rooted :
      Has c f.formula
      → (live : For) × Keeps c total (rooted first (estimate_roots first.index)) live
        × (length live ≤ length f.formula)
  start-Rooted h =
      let le = length-filter_if-le (λ d. not (is_unit d)) f.formula in
      elim (For-cases first.index.unitc) [
        | inl n ↦ let x = start_no_units h n in (x.still, x.keeps, ground (arith, x.fewer, le))
        | inr n ↦ (non_units f.formula, start_units h n, le)
      ]
