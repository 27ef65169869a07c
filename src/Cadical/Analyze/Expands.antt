-- ===== src/Cadical/Analyze/Expands.antt =====
-- Expanding a gate output of the learned clause: what its reason adds.
use mathlib.Core.List.{append-nil, append_assoc}
use ignore_gates.Prelude.{
  ℕ, ◌+◌, ◌≤◌, ◌<◌, ◌≡◌, ◌≢◌, refl, sym, ap, subst, ◌∙◌, ◌⊎◌, inl, inr, Bool, true, false, ◌||◌,
  some, [], ◌∷◌, ◌++◌, ◌==◌, lt→ltb, if◌then◌else◌, arith, length, length-append, elem, elem-append,
  All, All-append, Bool-cases, if_eq, if_ne, sum, sum-lt,
}
use ignore_gates.Types.{Cl, neg, var}
use ignore_gates.Types.Literals.{neg_lem}
use ignore_gates.Cadical.Heap.Indexed.{eq_cases}
use ignore_gates.Cadical.Analyze.{
  Implications, Analysis, mark_literal, analyze_literal, analyze_reason,
}
use ignore_gates.Cadical.Analyze.Reasons.{only_false}

last_in : (b : Bool) (x : ℕ) → (b || ((x == x) || false)) ≡ true
last_in b x = ground arith

module _ (e : Implications) (is_false : ℕ → Bool) (n u : ℕ)
    (consistent : (x : ℕ) → is_false x ≡ true → is_false (neg x) ≡ false) where
  -- A false literal below the current level.
  pub record IsLow (z : ℕ) : Type 0 where
    pub falsified : is_false z ≡ true
    pub level_lt : e.level_of (var z) < e.level
    pub bounded : var z < n

  -- Besides its own literal a reason holds literals that became false before.
  abbrev pub Explains : ℕ → Cl → Type 0
  Explains z = All (λ y. y ≢ neg z → IsLow y × (e.trail_of (var y) < e.trail_of (var z)))

  -- A literal is seen, unless its level is the root level.
  abbrev pub Noted : Analysis → ℕ → Type 0
  Noted s y = (e.level_of (var y) ≡ 0) ⊎ (s.seen (var y) ≡ true)

  -- A gate output whose reason has been analyzed.
  pub record Expanded (s : Analysis) (z : ℕ) : Type 0 where
    pub clause : Cl
    pub reason : e.reason_of (var z) ≡ some clause
    pub explains : Explains z clause
    pub noted : All (λ y. y ≢ neg z → Noted s y) clause

  -- Each seen literal of a lower level, and `u`, is in the clause or has been expanded.
  pub record IsComplete (s : Analysis) : Type 0 where
    pub listed : (z : ℕ) → IsLow z → s.seen (var z) ≡ true → (elem z s.clause ≡ true) ⊎ Expanded s z
    pub uip_in : elem u s.clause ≡ true
    pub members : All (λ x. (s.seen (var x) ≡ true) × (IsLow x ⊎ (x ≡ u))) s.clause

  abbrev pub unseen : Analysis → ℕ
  unseen s = sum (λ v. if s.seen v then 0 else 1) n

  pub record Extends (s t : Analysis) : Type 0 where
    pub complete : IsComplete t
    pub seen_kept : (v : ℕ) → s.seen v ≡ true → t.seen v ≡ true
    pub new : Cl
    pub clause_is : t.clause ≡ s.clause ++ new
    pub fewer : unseen t + length t.clause ≤ unseen s + length s.clause

  Extends-refl : (s : Analysis) → IsComplete s → Extends s s
  Extends-refl s i = record {
    complete = i;
    seen_kept = λ v h. h;
    new = [];
    clause_is = sym (append-nil s.clause);
    fewer = omega arith;
  }

  Extends-trans : (s t w : Analysis) → Extends s t → Extends t w → Extends s w
  Extends-trans s t w g h = record {
    complete = h.complete;
    seen_kept = λ v k. h.seen_kept v (g.seen_kept v k);
    new = g.new ++ h.new;
    clause_is =
        h.clause_is ∙ (ap (λ c. c ++ h.new) g.clause_is ∙ append_assoc s.clause g.new h.new);
    fewer = omega (arith, g.fewer, h.fewer);
  }

  Noted-kept :
      (s t : Analysis) (y : ℕ)
      → ((v : ℕ) → s.seen v ≡ true → t.seen v ≡ true)
      → Noted s y
      → Noted t y
  Noted-kept s t y k (inl r) = inl r
  Noted-kept s t y k (inr h) = inr (k (var y) h)

  All-Noted :
      (s t : Analysis) (z : ℕ) (ys : Cl)
      → ((v : ℕ) → s.seen v ≡ true → t.seen v ≡ true)
      → All (λ y. y ≢ neg z → Noted s y) ys
      → All (λ y. y ≢ neg z → Noted t y) ys
  All-Noted s t z [] k a = tt
  All-Noted s t z (y ∷ ys) k a = ((λ m. Noted-kept s t y k (a.0 m)), All-Noted s t z ys k a.1)

  pub Expanded-kept :
      (s t : Analysis) (z : ℕ)
      → ((v : ℕ) → s.seen v ≡ true → t.seen v ≡ true)
      → Expanded s z
      → Expanded t z
  Expanded-kept s t z k x = record {
    clause = x.clause;
    reason = x.reason;
    explains = x.explains;
    noted = All-Noted s t z x.clause k x.noted;
  }

  pub All-members :
      (s t : Analysis) (xs : Cl)
      → ((v : ℕ) → s.seen v ≡ true → t.seen v ≡ true)
      → All (λ x. (s.seen (var x) ≡ true) × (IsLow x ⊎ (x ≡ u))) xs
      → All (λ x. (t.seen (var x) ≡ true) × (IsLow x ⊎ (x ≡ u))) xs
  All-members s t [] k a = tt
  All-members s t (x ∷ xs) k a = ((k (var x) a.0.0, a.0.1), All-members s t xs k a.1)

  module _ (x : ℕ) (s : Analysis) where
    next : Analysis
    next = mark_literal e x s

    next_seen : (v : ℕ) → s.seen v ≡ true → next.seen v ≡ true
    unfolding next
    next_seen v h = ground (arith, h)

    next_clause : e.level_of (var x) < e.level → next.clause ≡ s.clause ++ (x ∷ [])
    unfolding next
    next_clause l = rw (lt→ltb _ _ l) refl

    next_fewer : var x < n → s.seen (var x) ≡ false → unseen next < unseen s
    unfolding next
    next_fewer b h =
        sum-lt (λ v. if next.seen v then 0 else 1) (λ v. if s.seen v then 0 else 1) n (var x)
          (λ v. ground arith) b (ground (arith, h))

    -- A new literal joins the clause.
    mark-Extends : IsComplete s → IsLow x → s.seen (var x) ≡ false → Extends s next
    unfolding next
    mark-Extends i f h =
        let clause = next_clause f.level_lt in
        let less = next_fewer f.bounded h in
        record {
          complete = record {
            listed = λ z g k. elim (eq_cases (var z) (var x)) [
              | inl d ↦
                  let here = only_false is_false consistent x z f.falsified g.falsified d in
                  inl (
                    rw (clause, elem-append z s.clause (x ∷ []), here)
                      (last_in (elem x s.clause) x))
              | inr m ↦
                  elim (i.listed z g (sym (if_ne (var z) (var x) true (s.seen (var z)) m) ∙ k)) [
                    | inl c ↦ inl (rw (clause, elem-append z s.clause (x ∷ []), c) refl)
                    | inr c ↦ inr (Expanded-kept s next z next_seen c)
                  ]
            ];
            uip_in = rw (clause, elem-append u s.clause (x ∷ []), i.uip_in) refl;
            members = subst (All _) (sym clause) (
                All-append _ s.clause (x ∷ []) (All-members s next s.clause next_seen i.members)
                  ((if_eq (var x) (var x) true (s.seen (var x)) refl, inl f), tt));
          };
          seen_kept = next_seen;
          new = x ∷ [];
          clause_is = clause;
          fewer = omega (arith, less, ap length clause, length-append s.clause (x ∷ []));
        }

  -- One literal of the reason of `z`: its own literal, `z` itself, or one that became false before.
  analyze_literal-Extends :
      (y : ℕ) (s : Analysis) → IsComplete s → IsLow y → Extends s (analyze_literal e y s)
  unfolding analyze_literal next
  analyze_literal-Extends y s i f = elim (Bool-cases (s.seen (var y))) [
    | inl h ↦ rw h (Extends-refl s i)
    | inr h ↦ elim (Bool-cases (e.level_of (var y) == 0)) [
      | inl r ↦ rw (h, r) (Extends-refl s i)
      | inr r ↦ rw (h, r) (mark-Extends y s i f h)
    ]
  ]

  analyze_literal-Noted : (y : ℕ) (s : Analysis) → Noted (analyze_literal e y s) y
  unfolding analyze_literal
  analyze_literal-Noted y s = elim (Bool-cases (s.seen (var y))) [
    | inl h ↦ inr (rw h h)
    | inr h ↦ elim (Bool-cases (e.level_of (var y) == 0)) [
      | inl r ↦ inl (ground arith)
      | inr r ↦ inr (rw (h, r) (if_eq {A = Bool} (var y) (var y) true (s.seen (var y)) refl))
    ]
  ]

  unchanged : (y : ℕ) (s : Analysis) → s.seen (var y) ≡ true → analyze_literal e y s ≡ s
  unfolding analyze_literal
  unchanged y s h = rw h refl

  step_one : ℕ → ℕ → Analysis → Analysis
  step_one z y s = if y == z then s else analyze_literal e y s

  record Step (z y : ℕ) (s t : Analysis) : Type 0 where
    extends : Extends s t
    noted : y ≢ neg z → Noted t y

  step-Step :
      (z y : ℕ) (s : Analysis)
      → IsComplete s
      → s.seen (var z) ≡ true
      → (y ≢ neg z → IsLow y × (e.trail_of (var y) < e.trail_of (var z)))
      → Step z y s (step_one z y s)
  unfolding step_one
  step-Step z y s i h f = elim (eq_cases y z) [
    | inl d ↦
        subst (Step z y s) (sym (if_eq y z _ _ d))
          (record { extends = Extends-refl s i; noted = λ _. inr (ap (λ k. s.seen (var k)) d ∙ h) })
    | inr m ↦ subst (Step z y s) (sym (if_ne y z _ _ m)) (elim (eq_cases y (neg z)) [
      | inl d ↦
          let seen : s.seen (var y) ≡ true = rw (d, (neg_lem z).1) h in
          subst (Step z y s) (sym (unchanged y s seen))
            (record { extends = Extends-refl s i; noted = λ k. absurd (k d) })
      | inr k ↦ record {
        extends = analyze_literal-Extends y s i (f k).0;
        noted = λ _. analyze_literal-Noted y s;
      }
    ])
  ]

  -- The whole reason of a seen literal: all its other literals are seen then.
  pub analyze_reason-Extends :
      (z : ℕ) (ys : Cl) (s : Analysis)
      → IsComplete s
      → s.seen (var z) ≡ true
      → Explains z ys
      → Extends s (analyze_reason e z ys s)
        × All (λ y. y ≢ neg z → Noted (analyze_reason e z ys s) y) ys
  unfolding analyze_reason step_one
  analyze_reason-Extends z [] s i h f = (Extends-refl s i, tt)
  analyze_reason-Extends z (y ∷ ys) s i h f =
      let one = step-Step z y s i h f.0 in
      let t = step_one z y s in
      let (rest, all) =
        analyze_reason-Extends z ys t one.extends.complete (one.extends.seen_kept (var z) h) f.1 in
      (
        Extends-trans s t (analyze_reason e z ys t) one.extends rest,
        ((λ k. Noted-kept t (analyze_reason e z ys t) y rest.seen_kept (one.noted k)), all),
      )
