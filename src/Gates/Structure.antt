-- ===== src/Gates/Structure.antt =====
-- cnftools/src/gates/GateFormula.h: the gates found, the roots, and which literals are inputs.
-- The vectors `inputs`, `direct` and `gates` are functions of the literal or the variable, and
-- `n_slots` is the length of `gates`. What `verbose` prints is left out.
pub mod Marks
pub mod Normalized
mod Tests
use ignore_gates.Prelude.{
  ℕ, zero, suc, ◌+◌, Bool, true, false, not, ◌&&◌, ◌||◌, List, [], ◌∷◌, ◌++◌, ◌==◌, if◌then◌else◌,
  length,
}
use ignore_gates.Types.{Cl, neg, var}
use ignore_gates.Formula.{Clause, For}
use ignore_gates.Gates.Recognition.{GateType, none_type, literals}

pub record Gate : Type 0 where
  pub type : GateType
  pub out : ℕ
  pub fwd : For
  pub bwd : For
  pub not_mono : Bool
  pub inp : Cl

abbrev pub no_gate : Gate
no_gate = record { type = none_type; out = 0; fwd = []; bwd = []; not_mono = false; inp = [] }

-- `out != lit_Undef`
abbrev pub is_defined : Gate → Bool
is_defined g = not (g.out == 0)

abbrev pub has_non_monotonic_parent : Gate → Bool
has_non_monotonic_parent g = g.not_mono

pub record GateFormula : Type 0 where
  pub roots : For
  pub inputs : ℕ → Bool
  pub direct : ℕ → Bool
  pub gates : ℕ → Gate
  pub n_slots : ℕ
  pub remainder : For
  pub artificial_root : Bool

-- The constructor for `nVars` variables.
unfoldable pub init : ℕ → GateFormula
init n = record {
  roots = [];
  inputs = λ _. false;
  direct = λ _. false;
  gates = λ _. no_gate;
  n_slots = 2 + n;
  remainder = [];
  artificial_root = false;
}

abbrev pub mark : (ℕ → Bool) → ℕ → ℕ → Bool
mark f l k = if k == l then true else f k

pub mark_all : (ℕ → Bool) → Cl → ℕ → Bool
mark_all f [] = f
mark_all f (l ∷ ls) = mark_all (mark f l) ls

unfoldable pub add_root : GateFormula → Clause → GateFormula
unfolding mark_all
add_root g c = record g { roots = g.roots ++ (c ∷ []); inputs = mark_all g.inputs c.lits }

abbrev pub is_nested_monotonic : GateFormula → ℕ → Bool
is_nested_monotonic g l = not (g.inputs l) || not (g.inputs (neg l))

-- The loop over `gate.inp`, and its body.
abbrev pub mark_input : Bool → GateFormula → ℕ → GateFormula
mark_input not_mono g l =
    let inputs = mark g.inputs l in
    record g { inputs = if not_mono then mark inputs (neg l) else inputs; direct = mark g.direct l }

mark_inputs : Bool → GateFormula → Cl → GateFormula
mark_inputs not_mono g [] = g
mark_inputs not_mono g (l ∷ ls) = mark_inputs not_mono (mark_input not_mono g l) ls

abbrev pub put_gate : GateFormula → Gate → GateFormula
put_gate g gate = record g { gates = λ v. if v == var gate.out then gate else g.gates v }

unfoldable pub add_gate : GateFormula → GateType → ℕ → For → For → Cl → GateFormula
unfolding mark_inputs
add_gate g type o fwd bwd inp =
    let not_mono = not (is_nested_monotonic g o) in
    let gate : Gate = record {
      type = type;
      out = o;
      fwd = fwd;
      bwd = bwd;
      not_mono = not_mono;
      inp = inp;
    } in
    mark_inputs not_mono (put_gate g gate) inp

abbrev pub get_gate : GateFormula → ℕ → Gate
get_gate g o = g.gates (var o)

abbrev pub is_gate_output : GateFormula → ℕ → Bool
is_gate_output g o = is_defined (g.gates (var o))

-- `std::count_if` over the gates of the variables below `n`.
count_gates : (Gate → Bool) → (ℕ → Gate) → ℕ → ℕ
count_gates p gates zero = 0
count_gates p gates (suc n) = count_gates p gates n + (if p (gates n) then 1 else 0)

unfoldable pub n_gates : GateFormula → ℕ
unfolding count_gates
n_gates g = count_gates is_defined g.gates g.n_slots

unfoldable pub n_monotonic_gates : GateFormula → ℕ
unfolding count_gates
n_monotonic_gates g =
    count_gates (λ x. is_defined x && not (has_non_monotonic_parent x)) g.gates g.n_slots

abbrev pub n_roots : GateFormula → ℕ
n_roots g = length g.roots

abbrev pub get_roots : GateFormula → Cl
get_roots g = literals g.roots

abbrev pub has_artificial_root : GateFormula → Bool
has_artificial_root g = g.artificial_root

-- For problems with one root that is a unit clause, as the source asserts.
abbrev pub get_root : GateFormula → ℕ
get_root g = elim (get_roots g) [ [] ↦ 0 | l ∷ ls ↦ l ]
