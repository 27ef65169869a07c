-- ===== src/Cadical/Analyze/Traces.antt =====
-- The clause without gate outputs follows from the learned clause and the reasons.
use ignore_gates.Prelude.{
  ℕ, zero, suc, ◌+◌, ◌<◌, ◌≡◌, ◌≢◌, sym, ap, ◌∙◌, ◌⊎◌, inl, inr, Bool, true, false, not, ◌||◌, some,
  [], ◌∷◌, arith, length, get_or, All, Bool-cases,
}
use ignore_gates.Types.{Cl, neg, var, Assignment, lit_true, clause_true}
use ignore_gates.Types.Literals.{lit_true-neg}
use ignore_gates.Cadical.Analyze.{Implications, Analysis, aux_lit, remove_aux}
use ignore_gates.Cadical.Analyze.Marking.{apart}
use ignore_gates.Cadical.Analyze.Marks.{any-elem}
use ignore_gates.Cadical.Analyze.Steps.{Satisfies}
use ignore_gates.Cadical.Analyze.Expands.{IsLow, Explains, IsComplete, unseen}
use ignore_gates.Cadical.Analyze.Cleans.{remove_aux-Cleaned}

module _ (e : Implications) (is_false : ℕ → Bool) (n u : ℕ)
    (consistent : (x : ℕ) → is_false x ≡ true → is_false (neg x) ≡ false) where
  abbrev Complete : Analysis → Type 0
  Complete = IsComplete e is_false n u consistent

  -- Whatever a seen literal makes true, the clause makes true: down the trail, an expanded literal
  -- is traced back to one of its reason.
  true_of_reason :
      (α : Assignment) (t : Analysis) (z : ℕ) (r : Cl)
      → Explains e is_false n u consistent z r
      → All (λ y. y ≢ neg z → (e.level_of (var y) ≡ 0) ⊎ (t.seen (var y) ≡ true)) r
      → ((y : ℕ) → is_false y ≡ true → e.level_of (var y) ≡ 0 → lit_true α y ≡ false)
      → lit_true α (neg z) ≡ false
      → ((y : ℕ)
          → IsLow e is_false n u consistent y
          → e.trail_of (var y) < e.trail_of (var z)
          → t.seen (var y) ≡ true
          → lit_true α y ≡ true
          → clause_true α t.clause ≡ true)
      → clause_true α r ≡ true
      → clause_true α t.clause ≡ true
  true_of_reason α t z [] why noted root own earlier h = absurd (apart (sym h))
  true_of_reason α t z (y ∷ ys) why noted root own earlier h = elim (Bool-cases (lit_true α y)) [
    | inr f ↦
        true_of_reason α t z ys why.1 noted.1 root own earlier
          (ap (λ b. b || clause_true α ys) (sym f) ∙ h)
    | inl f ↦
        let m : y ≢ neg z = λ d. apart (sym f ∙ (ap (lit_true α) d ∙ own)) in
        let (low, before) = why.0 m in
        elim (noted.0 m) [
          | inl r ↦ absurd (apart (sym f ∙ root y low.falsified r))
          | inr seen ↦ earlier y low before seen f
        ]
  ]

  traced :
      (fuel : ℕ) (α : Assignment) (t : Analysis) (z : ℕ)
      → Complete t
      → Satisfies e is_false α
      → e.trail_of (var z) < fuel
      → IsLow e is_false n u consistent z
      → t.seen (var z) ≡ true
      → lit_true α z ≡ true
      → clause_true α t.clause ≡ true
  traced zero α t z k m h low seen f = absurd (omega arith)
  traced (suc fuel) α t z k m h low seen f = elim (k.listed z low seen) [
    | inl c ↦ any-elem (lit_true α) z t.clause c f
    | inr x ↦
        true_of_reason α t z x.clause x.explains x.noted m.root (lit_true-neg α z ∙ ap not f)
          (λ y l b s g. traced fuel α t y k m (omega (arith, h, b)) l s g)
          (m.reasons (var z) x.clause x.reason)
  ]

  pub members_true :
      (α : Assignment) (s t : Analysis) (xs : Cl)
      → Complete t
      → Satisfies e is_false α
      → ((v : ℕ) → s.seen v ≡ true → t.seen v ≡ true)
      → All (λ x. (s.seen (var x) ≡ true) × (IsLow e is_false n u consistent x ⊎ (x ≡ u))) xs
      → clause_true α xs ≡ true
      → clause_true α t.clause ≡ true
  members_true α s t [] k m kept a h = absurd (apart (sym h))
  members_true α s t (x ∷ xs) k m kept a h = elim (Bool-cases (lit_true α x)) [
    | inr f ↦ members_true α s t xs k m kept a.1 (ap (λ b. b || clause_true α xs) (sym f) ∙ h)
    | inl f ↦ elim a.0.1 [
      | inl low ↦
          traced (suc (e.trail_of (var x))) α t x k m (omega arith) low (kept (var x) a.0.0) f
      | inr d ↦ any-elem (lit_true α) u t.clause k.uip_in (ap (lit_true α) (sym d) ∙ f)
    ]
  ]

All-indexed : (P : ℕ → Type 0) (c : Cl) → ((j : ℕ) → j < length c → P (get_or c j 0)) → All P c
All-indexed P [] h = tt
All-indexed P (x ∷ c) h = (h 0 (omega arith), All-indexed P c (λ j l. h (suc j) (omega (arith, l))))

-- Let the clause hold `u`, the negated UIP, which is no gate output, and otherwise only seen, false
-- literals of lower levels. Let every false gate output of a lower level have a reason, whose other
-- literals are false, of lower levels and earlier on the trail; and let each seen false literal of
-- a lower level be in the clause or be expanded already. All these variables are below `n`, among
-- which those not seen are counted. With a round for each literal of the clause and each variable
-- not seen, and one more, the loop of UIPAUX ends, no gate output is left in the clause, and the
-- clause is true under every assignment that satisfies the reasons, the literals of the root level
-- and the clause of before.
pub remove_aux-cleans :
    (e : Implications) (is_false : ℕ → Bool) (n u : ℕ)
    (consistent : (x : ℕ) → is_false x ≡ true → is_false (neg x) ≡ false)
    → aux_lit e u ≡ false
    → ((z : ℕ)
        → IsLow e is_false n u consistent z
        → aux_lit e z ≡ true
        → (r : Cl) × ((e.reason_of (var z) ≡ some r) × Explains e is_false n u consistent z r))
    → (fuel : ℕ) (s : Analysis) → IsComplete e is_false n u consistent s
    → unseen e is_false n u consistent s + length s.clause < fuel
    → (t : Analysis) × ((remove_aux e fuel s 0 ≡ some t)
        × All (λ x. aux_lit e x ≡ false) t.clause
        × ((α : Assignment)
            → Satisfies e is_false α
            → clause_true α s.clause ≡ true
            → clause_true α t.clause ≡ true))
remove_aux-cleans e is_false n u consistent plain reasons fuel s k h =
    let c =
      remove_aux-Cleaned e is_false n u consistent plain reasons fuel s 0 k (omega arith)
        (λ j l. absurd (omega (arith, l))) (omega (arith, h)) in
    (
      c.state,
      (
        c.ends,
        All-indexed (λ x. aux_lit e x ≡ false) c.state.clause c.no_aux,
        λ α m g.
            members_true e is_false n u consistent α s c.state s.clause c.sound m c.seen_kept
              k.members g,
      ),
    )
