-- ===== src/Gates/Recognition/Inputs.antt =====
-- `constrainSameInputVariables`: when it does not fail, both sides name the same inputs.
use ignore_gates.Prelude.{
  ℕ, ◌+◌, ◌≤◌, ◌≡◌, ◌≢◌, refl, ap, inl, inr, Bool, true, false, not, ◌&&◌, ◌||◌, some, List, [],
  ◌∷◌, arith, ◌==◌, if◌then◌else◌, elem, length, any, Option-cases,
}
use ignore_gates.Types.{Cl, neg, var}
use ignore_gates.Formula.{For}
use ignore_gates.Gates.Recognition.{
  insert_var, literals, collect_vars, check_vars, constrain_same_input_variables,
}

-- `v` is the variable of a literal other than `skip`.
abbrev pub names : ℕ → ℕ → Cl → Bool
names skip v = any (λ l. not (l == skip) && (v == var l))

collect_vars-elem :
    (skip v : ℕ) (ls : Cl) (vs : List ℕ)
    → elem v (collect_vars skip ls vs) ≡ (elem v vs || names skip v ls)
unfolding collect_vars
collect_vars-elem skip v [] vs = ground arith
collect_vars-elem skip v (l ∷ ls) vs = ground (
  arith,
  collect_vars-elem skip v ls (if l == skip then vs else insert_var (var l) vs),
  λ (e : v ≡ var l). ap (λ x. elem x vs) e,
)

abbrev NoRepeat : List ℕ → Type 0
NoRepeat [] = Unit {0}
NoRepeat (v ∷ vs) = (elem v vs ≡ false) × NoRepeat vs

collect_vars-NoRepeat :
    (skip : ℕ) (ls : Cl) (vs : List ℕ) → NoRepeat vs → NoRepeat (collect_vars skip ls vs)
unfolding collect_vars
collect_vars-NoRepeat skip [] vs r = r
collect_vars-NoRepeat skip (l ∷ ls) vs r =
    collect_vars-NoRepeat skip ls (if l == skip then vs else insert_var (var l) vs) (ground arith)

-- The second loop collects the same way, and lets only variables of the first set in.
check_vars_lem :
    (skip : ℕ) (seen : List ℕ) (ls : Cl) (vs : List ℕ) {ws : List ℕ}
    → check_vars skip seen ls vs ≡ some ws
    → (ws ≡ collect_vars skip ls vs)
      × ((v : ℕ) → names skip v ls ≡ true → elem v vs ≡ false → elem v seen ≡ true)
unfolding check_vars collect_vars
check_vars_lem skip seen [] vs e = (cc, λ v n h. cc)
check_vars_lem skip seen (l ∷ ls) vs {ws} e =
    let vs' = if l == skip then vs else insert_var (var l) vs in
    let later : check_vars skip seen ls vs' ≡ some ws = ground arith in
    let ih = check_vars_lem skip seen ls vs' later in
    (
      ih.0,
      λ v n h. ground (
        arith,
        ih.1 v,
        λ (q : v ≡ var l). ap (λ x. elem x seen) q,
        λ (q : v ≡ var l). ap (λ x. elem x vs) q,
      ),
    )

erase : ℕ → List ℕ → List ℕ
erase v [] = []
erase v (w ∷ ws) = if w == v then ws else w ∷ erase v ws

erase_lem : (v : ℕ) (ws : List ℕ) → elem v ws ≡ true → length (erase v ws) + 1 ≡ length ws
unfolding erase
erase_lem v [] h = cc
erase_lem v (w ∷ ws) h = ground (arith, erase_lem v ws)

erase-elem : (v x : ℕ) (ws : List ℕ) → x ≢ v → elem x (erase v ws) ≡ elem x ws
unfolding erase
erase-elem v x [] n = refl
erase-elem v x (w ∷ ws) n = ground (arith, erase-elem v x ws n)

-- A set inside another that is no larger is the whole of it.
whole_set :
    (vs ws : List ℕ)
    → NoRepeat vs
    → ((v : ℕ) → elem v vs ≡ true → elem v ws ≡ true)
    → length ws ≤ length vs
    → (v : ℕ) → elem v ws ≡ true
    → elem v vs ≡ true
whole_set [] [] r sub h v e = cc
whole_set [] (w ∷ ws) r sub h v e = absurd (omega arith)
whole_set (x ∷ vs) ws r sub h v e =
    let ih =
      whole_set vs (erase x ws) r.1
        (λ y m. ground (arith, sub y, erase-elem x y ws, λ (q : y ≡ x). ap (λ z. elem z vs) q, r.0))
        (omega (arith, erase_lem x ws (sub x (ground arith)))) v in
    ground (arith, ih, erase-elem x v ws)

-- When the test does not give 0, every variable of a clause in `fwd`, other than through `~o`, is
-- the variable of a literal in `bwd` other than `o`.
pub constrain_same_input_variables_lem :
    (o : ℕ) (fwd bwd : For) (v : ℕ)
    → constrain_same_input_variables o fwd bwd ≢ 0
    → names (neg o) v (literals fwd) ≡ true
    → names o v (literals bwd) ≡ true
unfolding constrain_same_input_variables
constrain_same_input_variables_lem o fwd bwd v h n =
    elim (Option-cases (check_vars o fwd_vars (literals bwd) [])) [
      | inl e ↦ absurd (h (rw (e, constrain_same_input_variables)))
      | inr (ws, e) ↦
          let (same, inside) = check_vars_lem o fwd_vars (literals bwd) [] e in
          let size : length fwd_vars ≤ length ws =
            ground (arith, rw (e, constrain_same_input_variables) at h) in
          let norepeat : NoRepeat ws = rw same (collect_vars-NoRepeat o (literals bwd) [] tt) in
          let from_ws = λ (x : ℕ) (m : elem x ws ≡ true). inside x (named x (rw same at m)) refl in
          named v (
            rw same at (
              whole_set ws fwd_vars norepeat from_ws size v
                (ground (arith, collect_vars-elem (neg o) v (literals fwd) []))))
    ]
  where
    fwd_vars : List ℕ
    fwd_vars = collect_vars (neg o) (literals fwd) []

    named :
        (x : ℕ) → elem x (collect_vars o (literals bwd) []) ≡ true → names o x (literals bwd) ≡ true
    named x m = ground (arith, collect_vars-elem o x (literals bwd) [])

-- And the other way round.
pub constrain_same_input_variables_back :
    (o : ℕ) (fwd bwd : For) (v : ℕ)
    → constrain_same_input_variables o fwd bwd ≢ 0
    → names o v (literals bwd) ≡ true
    → names (neg o) v (literals fwd) ≡ true
unfolding constrain_same_input_variables
constrain_same_input_variables_back o fwd bwd v h n =
    elim (Option-cases (check_vars o fwd_vars (literals bwd) [])) [
      | inl e ↦ absurd (h (rw (e, constrain_same_input_variables)))
      | inr (ws, e) ↦
          let inside = (check_vars_lem o fwd_vars (literals bwd) [] e).1 v n refl in
          ground (arith, inside, collect_vars-elem (neg o) v (literals fwd) [])
    ]
  where
    fwd_vars : List ℕ
    fwd_vars = collect_vars (neg o) (literals fwd) []
