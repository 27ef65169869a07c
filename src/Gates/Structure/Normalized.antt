-- ===== src/Gates/Structure/Normalized.antt =====
-- `normalizeRoots` of cnftools/src/gates/GateFormula.h: one gate for all roots, with a new variable.
-- The new clauses are numbered from `fresh` on. The root clauses themselves also get the new literal
-- there, which nothing reads afterwards.
use ignore_gates.Prelude.{
  ℕ, suc, ◌-◌, ◌^◌, ◌<◌, ◌≡◌, refl, ap, ◌∙◌, inl, inr, Bool, true, false, not, ◌&&◌, ◌||◌, [], ◌∷◌,
  ◌++◌, ◌==◌, ltb, if◌then◌else◌, Bool-cases, if_eq,
}
use ignore_gates.Types.{Cl, lit, Assignment, lit_true, clause_true}
use ignore_gates.Types.Literals.{lit_parts}
use ignore_gates.Formula.{For, formula_true}
use ignore_gates.Gates.Structure.{Gate, GateFormula}

-- `std::set<Lit>::insert`
insert_sorted : ℕ → Cl → Cl
insert_sorted l [] = l ∷ []
insert_sorted l (k ∷ ks) =
    let rest = insert_sorted l ks in
    if ltb k l then k ∷ rest else if k == l then k ∷ ks else l ∷ k ∷ ks

collect_set : Cl → Cl → Cl
unfolding insert_sorted
collect_set set [] = set
collect_set set (l ∷ ls) = collect_set (insert_sorted l set) ls

root_inputs : Cl → For → Cl
unfolding collect_set
root_inputs set [] = set
root_inputs set (c ∷ cs) = root_inputs (collect_set set c.lits) cs

-- The clauses with one literal more.
unfoldable pub extend_clauses : ℕ → ℕ → For → For
extend_clauses fresh l [] = []
extend_clauses fresh l (c ∷ cs) =
    record { ptr = fresh; lits = c.lits ++ (l ∷ []) } ∷ extend_clauses (suc fresh) l cs

abbrev pub root_var : GateFormula → ℕ
root_var g = g.n_slots - 1

unfoldable pub normalize_roots : ℕ → GateFormula → GateFormula
unfolding extend_clauses root_inputs lit
normalize_roots fresh g =
    let root = root_var g in
    let roots = g.roots ++ g.remainder in
    let old = g.gates root in
    let gate : Gate = record old {
      out = lit root false;
      not_mono = false;
      fwd = old.fwd ++ extend_clauses (suc fresh) (lit root true) roots;
      inp = old.inp ++ root_inputs [] roots;
    } in
    record g {
      gates = λ v. if v == root then gate else g.gates v;
      remainder = [];
      roots = record { ptr = fresh; lits = lit root false ∷ [] } ∷ [];
      artificial_root = true;
    }

or_false : (b : Bool) → (b || false) ≡ b
or_false true = refl
or_false false = refl

or_more : (b x y z : Bool) → x ≡ (y || z) → (b || x) ≡ ((b || y) || z)
or_more true x y z h = refl
or_more false x y z h = h

extended_true :
    (α : Assignment) (l : ℕ) (ls : Cl)
    → clause_true α (ls ++ (l ∷ [])) ≡ (clause_true α ls || lit_true α l)
extended_true α l [] = or_false (lit_true α l)
extended_true α l (k ∷ ks) = or_more (lit_true α k) _ _ _ (extended_true α l ks)

extend_clauses-true :
    (α : Assignment) (l fresh : ℕ) (cs : For)
    → lit_true α l ≡ false
    → formula_true α (extend_clauses fresh l cs) ≡ formula_true α cs
unfolding extend_clauses
extend_clauses-true α l fresh [] h = refl
extend_clauses-true α l fresh (c ∷ cs) h =
    rw
      (
        extended_true α l c.lits,
        h,
        or_false (clause_true α c.lits),
        extend_clauses-true α l (suc fresh) cs h,
      )
      refl

root_lits :
    (α : Assignment) (r : ℕ)
    → r < 2 ^ 31
    → (lit_true α (lit r false) ≡ α r) × (lit_true α (lit r true) ≡ not (α r))
root_lits α r h =
    let (v, s) = lit_parts r false h in
    let (w, t) = lit_parts r true h in (rw (v, s) refl, rw (w, t) refl)

-- Where the last place holds no clauses yet, and its variable has a literal, the new root and the
-- clauses of the new gate are true exactly when the new variable is and all roots and all remaining
-- clauses were.
pub normalize_roots-true :
    (α : Assignment) (fresh : ℕ) (g : GateFormula)
    → root_var g < 2 ^ 31
    → (g.gates (root_var g)).fwd ≡ []
    → (formula_true α (normalize_roots fresh g).roots
        && formula_true α ((normalize_roots fresh g).gates (root_var g)).fwd)
      ≡ (α (root_var g) && formula_true α (g.roots ++ g.remainder))
unfolding normalize_roots
normalize_roots-true α fresh g h e =
    let r = root_var g in
    let cs = g.roots ++ g.remainder in
    let (root, other) = root_lits α r h in
    rw (if_eq {A = Gate} r r _ _ refl, e, root)
      (elim (Bool-cases (α r)) [
        | inl t ↦ rw (t, extend_clauses-true α (lit r true) (suc fresh) cs (other ∙ ap not t)) refl
        | inr t ↦ rw t refl
      ])
