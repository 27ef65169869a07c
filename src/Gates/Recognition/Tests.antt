-- ===== src/Gates/Recognition/Tests.antt =====
-- Runs of the recognition of gates.
use ignore_gates.Prelude.{
  ℕ, ◌≡◌, refl, ap, Bool, true, not, ◌&&◌, List, [], ◌∷◌, ◌++◌, map, arith, ◌==◌, if◌then◌else◌,
  elem, inr, All, false,
}
use ignore_gates.Types.{lit_true, Assignment, to_dimacs, positive}
use ignore_gates.Types.Int.{ℤ, abs, is_negative}
use ignore_gates.Formula.{For}
use ignore_gates.Gates.Occurrences.{init}
use ignore_gates.Gates.Recognition.{
  ipasir_init, literals, constrain_same_input_variables, f_pattern, f_semantic, semantic_lit,
  overruns, get_input_literals,
}
use ignore_gates.Gates.Recognition.Inputs.{names, constrain_same_input_variables_lem}
use ignore_gates.Gates.Recognition.Unique.{IsCandidate, f_pattern_unique}
use ignore_gates.Gates.Recognition.Semantic.{int_true, IsSound, encode, f_semantic_state}
use ignore_gates.Gates.Recognition.Generic.{f_semantic_unique, f_semantic_leaks}
use ignore_gates.Gates.Recognition.InputList.{
  Closed, get_input_literals-elem, get_input_literals_drops,
}
use ignore_gates.Gates.Tests.{and_formula, all_true, with_o, with_neg, and_blocked}

and_IsCandidate : IsCandidate (init and_formula) 2
unfolding init constrain_same_input_variables
and_IsCandidate = record {
  with_o = with_o;
  with_neg = with_neg;
  blocked = and_blocked;
  same_inputs = omega arith;
}

f_pattern_unique_example : lit_true all_true 2 ≡ lit_true all_true 2
unfolding init f_pattern
f_pattern_unique_example =
    f_pattern_unique (init and_formula) 2 2 all_true all_true and_IsCandidate (inr (inr refl))
      (λ v h. refl) (refl, refl) (refl, refl)

-- A solver that answers 20 where two clauses and one assumption ask for both values of a variable.
abbrev opposite : ℤ → ℤ → Bool
opposite x y = abs x == abs y && (if is_negative x then not (is_negative y) else is_negative y)

abbrev small_solve : List (List ℤ) → List ℤ → ℕ
small_solve ((a ∷ b ∷ []) ∷ (c ∷ d ∷ []) ∷ []) (e ∷ []) =
    if opposite e a && opposite e c && opposite b d then 20 else 0
small_solve _ _ = 0

opposite-true : (γ : Assignment) (x y : ℤ) → opposite x y ≡ true → int_true γ x ≡ not (int_true γ y)
opposite-true γ x y h = let same : abs x ≡ abs y = ground (arith, h) in ground (arith, ap γ same, h)

small_solve-IsSound : IsSound small_solve
small_solve-IsSound [] bs γ h t u = omega (arith, h)
small_solve-IsSound ([] ∷ []) bs γ h t u = omega (arith, h)
small_solve-IsSound ((a ∷ []) ∷ []) bs γ h t u = omega (arith, h)
small_solve-IsSound ((a ∷ b ∷ []) ∷ []) bs γ h t u = omega (arith, h)
small_solve-IsSound ((a ∷ b ∷ x ∷ c) ∷ []) bs γ h t u = omega (arith, h)
small_solve-IsSound ([] ∷ d ∷ []) bs γ h t u = omega (arith, h)
small_solve-IsSound ((a ∷ []) ∷ d ∷ []) bs γ h t u = omega (arith, h)
small_solve-IsSound ((a ∷ b ∷ x ∷ c) ∷ d ∷ []) bs γ h t u = omega (arith, h)
small_solve-IsSound ((a ∷ b ∷ []) ∷ [] ∷ []) bs γ h t u = omega (arith, h)
small_solve-IsSound ((a ∷ b ∷ []) ∷ (c ∷ []) ∷ []) bs γ h t u = omega (arith, h)
small_solve-IsSound ((a ∷ b ∷ []) ∷ (c ∷ d ∷ x ∷ y) ∷ []) bs γ h t u = omega (arith, h)
small_solve-IsSound ((a ∷ b ∷ []) ∷ (c ∷ d ∷ []) ∷ []) [] γ h t u = omega (arith, h)
small_solve-IsSound ((a ∷ b ∷ []) ∷ (c ∷ d ∷ []) ∷ []) (e ∷ f ∷ bs) γ h t u = omega (arith, h)
small_solve-IsSound ((a ∷ b ∷ []) ∷ (c ∷ d ∷ []) ∷ []) (e ∷ []) γ h t u =
    ground (arith, opposite-true γ e a, opposite-true γ e c, opposite-true γ b d)
small_solve-IsSound ([] ∷ d ∷ y ∷ cs) bs γ h t u = omega (arith, h)
small_solve-IsSound ((a ∷ []) ∷ d ∷ y ∷ cs) bs γ h t u = omega (arith, h)
small_solve-IsSound ((a ∷ b ∷ x ∷ c) ∷ d ∷ y ∷ cs) bs γ h t u = omega (arith, h)
small_solve-IsSound ((a ∷ b ∷ []) ∷ [] ∷ y ∷ cs) bs γ h t u = omega (arith, h)
small_solve-IsSound ((a ∷ b ∷ []) ∷ (c ∷ []) ∷ y ∷ cs) bs γ h t u = omega (arith, h)
small_solve-IsSound ((a ∷ b ∷ []) ∷ (c ∷ d ∷ []) ∷ y ∷ cs) bs γ h t u = omega (arith, h)
small_solve-IsSound ((a ∷ b ∷ []) ∷ (c ∷ d ∷ x ∷ z) ∷ y ∷ cs) bs γ h t u = omega (arith, h)

abbrev fwd_side : For
fwd_side = record { ptr = 0; lits = 3 ∷ 4 ∷ [] } ∷ []

abbrev bwd_side : For
bwd_side = record { ptr = 1; lits = 2 ∷ 5 ∷ [] } ∷ []

f_semantic_unique_example : lit_true all_true 2 ≡ lit_true all_true 2
unfolding f_semantic ipasir_init
f_semantic_unique_example =
    f_semantic_unique small_solve small_solve-IsSound 2 fwd_side bwd_side all_true all_true
      (omega arith, omega arith)
      (((omega arith, omega arith), ((omega arith, omega arith), tt)), tt)
      (((omega arith, omega arith), ((omega arith, omega arith), tt)), tt)
      (record { holds = refl; above = (omega arith, (omega arith, tt)) }, tt)
      (record { holds = refl; above = (omega arith, (omega arith, tt)) }, tt) refl (λ v h. refl)
      (refl, refl) (refl, refl)

f_semantic_state_example : (f_semantic small_solve ipasir_init 2 fwd_side bwd_side).0 ≡ record {
  closed = ([] ++ encode 2 fwd_side) ++ encode 2 bwd_side;
  open_clause = to_dimacs (positive 2) ∷ [];
  assumptions = [];
}
unfolding ipasir_init
f_semantic_state_example =
    f_semantic_state small_solve ipasir_init 2 fwd_side bwd_side (omega arith, omega arith)
      (((omega arith, omega arith), ((omega arith, omega arith), tt)), tt)
      (((omega arith, omega arith), ((omega arith, omega arith), tt)), tt) refl

f_semantic_leaks_example :
    (f_semantic small_solve
      (f_semantic small_solve ipasir_init 2 fwd_side bwd_side).0
      2
      fwd_side
      bwd_side).0.closed
    ≡ ((([] ++ encode 2 fwd_side) ++ encode 2 bwd_side)
        ++ ((to_dimacs (positive 2) ∷ map (semantic_lit 2) (3 ∷ 4 ∷ [])) ∷ encode 2 []))
      ++ encode 2 bwd_side
unfolding ipasir_init
f_semantic_leaks_example =
    f_semantic_leaks small_solve ipasir_init 2 2 fwd_side bwd_side
      (record { ptr = 0; lits = 3 ∷ 4 ∷ [] }) [] bwd_side (omega arith, omega arith)
      (omega arith, omega arith)
      (((omega arith, omega arith), ((omega arith, omega arith), tt)), tt)
      (((omega arith, omega arith), ((omega arith, omega arith), tt)), tt)
      (((omega arith, omega arith), ((omega arith, omega arith), tt)), tt)
      (((omega arith, omega arith), ((omega arith, omega arith), tt)), tt) refl

constrain_same_input_variables_lem_example : names 2 2 (literals bwd_side) ≡ true
unfolding constrain_same_input_variables
constrain_same_input_variables_lem_example =
    constrain_same_input_variables_lem 2 fwd_side bwd_side 2 (omega arith) refl

-- The clauses that hold the negation of 4, of `4 = 2 and not 3`.
abbrev last_side : For
last_side = record { ptr = 0; lits = 2 ∷ 9 ∷ [] } ∷ record { ptr = 1; lits = 4 ∷ 7 ∷ 9 ∷ [] } ∷ []

last_side-Closed : All (λ c. Closed 9 c.lits) last_side
last_side-Closed = (
  ((omega arith, (omega arith, tt)), refl, (omega arith, (omega arith, tt))),
  (
    (
      (omega arith, (omega arith, (omega arith, tt))),
      refl,
      (omega arith, (omega arith, (omega arith, tt))),
    ),
    tt,
  ),
)

get_input_literals-elem_example :
    (overruns 9 [] last_side ≡ false)
    × (elem 4 (get_input_literals 9 last_side) ≡ (not (4 == 9) && elem 4 (literals last_side)))
get_input_literals-elem_example = get_input_literals-elem 9 4 last_side last_side-Closed

-- A clause without the output is read past its end.
overruns_without : overruns 5 [] (record { ptr = 0; lits = 3 ∷ 4 ∷ [] } ∷ []) ≡ true
unfolding overruns
overruns_without = refl

get_input_literals_drops_example :
    get_input_literals 3 (record { ptr = 0; lits = 3 ∷ 4 ∷ 6 ∷ [] } ∷ []) ≡ 6 ∷ []
get_input_literals_drops_example =
    get_input_literals_drops 3 4 0 (6 ∷ []) (omega arith, (omega arith, (omega arith, tt)))
