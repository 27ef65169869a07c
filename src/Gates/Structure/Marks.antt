-- ===== src/Gates/Structure/Marks.antt =====
-- `addGate` keeps the marks which decide whether a gate is nested monotonically.
use ignore_gates.Prelude.{
  ℕ, ◌≡◌, refl, ap, ◌∙◌, Bool, true, false, ◌&&◌, ◌||◌, [], ◌∷◌, arith, ◌==◌, if◌then◌else◌, elem,
  Bool-cases, inl, inr,
}
use ignore_gates.Types.{Cl, neg, var}
use ignore_gates.Types.Literals.{neg_lem}
use ignore_gates.Formula.{For}
use ignore_gates.Gates.Recognition.{GateType}
use ignore_gates.Gates.Structure.{
  Gate, GateFormula, get_gate, is_defined, mark_input, mark_inputs, put_gate, add_gate,
}

mark_inputs_gates : (b : Bool) (g : GateFormula) (ls : Cl) → (mark_inputs b g ls).gates ≡ g.gates
unfolding mark_inputs
mark_inputs_gates b g [] = refl
mark_inputs_gates b g (l ∷ ls) = mark_inputs_gates b (mark_input b g l) ls

mark_inputs_roots : (b : Bool) (g : GateFormula) (ls : Cl) → (mark_inputs b g ls).roots ≡ g.roots
unfolding mark_inputs
mark_inputs_roots b g [] = refl
mark_inputs_roots b g (l ∷ ls) = mark_inputs_roots b (mark_input b g l) ls

-- What the loop over the inputs marks.
mark_inputs_direct :
    (b : Bool) (g : GateFormula) (ls : Cl) (k : ℕ)
    → (mark_inputs b g ls).direct k ≡ (g.direct k || elem k ls)
unfolding mark_inputs
mark_inputs_direct b g [] k = ground arith
mark_inputs_direct b g (l ∷ ls) k = ground (arith, mark_inputs_direct b (mark_input b g l) ls k)

neg_flip : (k l : ℕ) → (k == neg l) ≡ (neg k == l)
neg_flip k l = ground arith

mark_twice :
    (b : Bool) (g : GateFormula) (k l : ℕ)
    → (mark_input b g l).inputs k ≡ (g.inputs k || (k == l) || (b && (k == neg l)))
mark_twice true g k l = elim (Bool-cases (k == neg l)) [
  | inl e ↦ rw e (ground arith)
  | inr e ↦ rw e (ground arith)
]
mark_twice false g k l = ground arith

Bool-regroup :
    (a b c d e f : Bool)
    → ((a || b || (f && c)) || d || (f && e)) ≡ (a || (b || d) || (f && (c || e)))
Bool-regroup a b c d e f = ground arith

mark_inputs_inputs :
    (b : Bool) (g : GateFormula) (ls : Cl) (k : ℕ)
    → (mark_inputs b g ls).inputs k ≡ (g.inputs k || elem k ls || (b && elem (neg k) ls))
unfolding mark_inputs
mark_inputs_inputs b g [] k = ground arith
mark_inputs_inputs b g (l ∷ ls) k =
    mark_inputs_inputs b (mark_input b g l) ls k
    ∙ ap (λ x. x || elem k ls || (b && elem (neg k) ls)) (mark_twice b g k l)
    ∙ Bool-regroup (g.inputs k) (k == l) (k == neg l) (elem k ls) (elem (neg k) ls) b
    ∙ ap (λ x. g.inputs k || (k == l || elem k ls) || (b && (x || elem (neg k) ls))) (neg_flip k l)

-- The gate of each variable has an output with that variable, its inputs are marked as inputs, in
-- `direct` too, and if it is not nested monotonically their negations are marked as well.
pub record IsMarked (g : GateFormula) (v : ℕ) : Type 0 where
  pub output : is_defined (g.gates v) ≡ true → var (g.gates v).out ≡ v
  pub marked :
      (l : ℕ)
      → is_defined (g.gates v) ≡ true
      → elem l (g.gates v).inp ≡ true
      → (g.inputs l ≡ true)
        × (g.direct l ≡ true)
        × ((g.gates v).not_mono ≡ true → g.inputs (neg l) ≡ true)

-- What `addGate` builds.
abbrev pub new_gate : GateFormula → GateType → ℕ → For → For → Cl → Gate
new_gate g type o fwd bwd inp = record {
  type = type;
  out = o;
  fwd = fwd;
  bwd = bwd;
  not_mono = g.inputs o && g.inputs (neg o);
  inp = inp;
}

module _ (g : GateFormula) (type : GateType) (o : ℕ) (fwd bwd : For) (inp : Cl) where
  add_gate_lem :
      add_gate g type o fwd bwd inp
      ≡ mark_inputs
          (g.inputs o && g.inputs (neg o))
          (put_gate g (new_gate g type o fwd bwd inp))
          inp
  unfolding add_gate
  add_gate_lem =
      ap
        (λ b.
          mark_inputs b
            (put_gate g
              (record { type = type; out = o; fwd = fwd; bwd = bwd; not_mono = b; inp = inp }))
            inp)
        (ground arith)

  pub add_gate_gates :
      (v : ℕ)
      → (add_gate g type o fwd bwd inp).gates v
        ≡ (if v == var o then new_gate g type o fwd bwd inp else g.gates v)
  add_gate_gates v =
      ap (λ (x : GateFormula). x.gates v) add_gate_lem
      ∙ ap (λ f. f v)
          (mark_inputs_gates (g.inputs o && g.inputs (neg o))
            (put_gate g (new_gate g type o fwd bwd inp)) inp)

  pub add_gate_roots : (add_gate g type o fwd bwd inp).roots ≡ g.roots
  add_gate_roots =
      ap (λ (x : GateFormula). x.roots) add_gate_lem
      ∙ mark_inputs_roots (g.inputs o && g.inputs (neg o))
          (put_gate g (new_gate g type o fwd bwd inp)) inp

  -- The gate of the output's variable is the one just added.
  pub add_gate_self : get_gate (add_gate g type o fwd bwd inp) o ≡ new_gate g type o fwd bwd inp
  add_gate_self = ground (arith, add_gate_gates (var o))

  add_gate_marks :
      (l : ℕ)
      → ((add_gate g type o fwd bwd inp).inputs l
          ≡ (g.inputs l || elem l inp || ((g.inputs o && g.inputs (neg o)) && elem (neg l) inp)))
        × ((add_gate g type o fwd bwd inp).direct l ≡ (g.direct l || elem l inp))
  add_gate_marks l =
      let b = g.inputs o && g.inputs (neg o) in
      let start = put_gate g (new_gate g type o fwd bwd inp) in
      (
        ap (λ (x : GateFormula). x.inputs l) add_gate_lem ∙ mark_inputs_inputs b start inp l,
        ap (λ (x : GateFormula). x.direct l) add_gate_lem ∙ mark_inputs_direct b start inp l,
      )

  -- Adding a gate keeps this of every variable: the new gate's inputs become marked, in both
  -- polarities where its output was already an input in both, and no mark is lost. The gate of the
  -- output's variable is then the new one, nested monotonically unless both polarities of its output
  -- were marked before.
  pub add_gate-IsMarked :
      (v : ℕ)
      → IsMarked g v
      → IsMarked (add_gate g type o fwd bwd inp) v
        × (get_gate (add_gate g type o fwd bwd inp) o ≡ new_gate g type o fwd bwd inp)
  add_gate-IsMarked v m = (
    record {
      output = ground (arith, add_gate_gates v);
      marked = λ l d e. ground (
        arith,
        add_gate_gates v,
        add_gate_marks l,
        add_gate_marks (neg l),
        neg_lem l,
        m.marked l,
      );
    },
    add_gate_self,
  )
