-- ===== src/Cadical/Queue/Init.antt =====
-- Filling the queue, and the search of the unchanged solver.
use ignore_gates.Prelude.{
  ℕ, zero, suc, ◌≤◌, ◌<◌, ◌≡◌, ◌≢◌, refl, sym, ◌∙◌, ap, subst, inl, inr, true, false, List, [], ◌∷◌,
  ◌==◌, elem, arith, Bool-cases, All,
}
use ignore_gates.Types.Int.{◌<ℤ◌, ◌≤ℤ◌, suc_ℤ, suc_ℤ-lt}
use ignore_gates.Cadical.Queue.{
  Internal, aux_var, init_enqueue, init_queue, search_queue, search_plain, after_search,
  next_decision_variable_on_queue, next_decision_variable_plain,
}
use ignore_gates.Cadical.Queue.Chain.{IsList}
use ignore_gates.Cadical.Queue.Links.{AddsLast, AddsLast-IsList, head_or-away, elem-ne}
use ignore_gates.Cadical.Queue.Stamps.{IsQueue, Descends, Descends-agree, Descends-below}

init_enqueue-AddsLast : (s : Internal) (x : ℕ) → s.last ≢ x → AddsLast s (init_enqueue false s x) x
unfolding init_enqueue
init_enqueue-AddsLast s x n = record {
  last_is = ground arith;
  first_is = ground arith;
  next_x = ground arith;
  prev_x = ground arith;
  prev_other = λ k h. ground arith;
  next_other = λ k p h. ground arith;
}

-- What `init_enqueue` leaves beside the links.
init_enqueue_rest :
    (s : Internal) (x : ℕ)
    → ((init_enqueue false s x).btab x ≡ suc_ℤ s.stats_bumped)
      × ((init_enqueue false s x).stats_bumped ≡ suc_ℤ s.stats_bumped)
      × ((init_enqueue false s x).unassigned ≡ x)
      × ((init_enqueue false s x).bumped ≡ suc_ℤ s.stats_bumped)
      × ((k : ℕ) → k ≢ x → (init_enqueue false s x).btab k ≡ s.btab k)
unfolding init_enqueue
init_enqueue_rest s x =
    (ground arith, ground arith, ground arith, ground arith, λ k n. ground arith)

-- A list of variables with stamps in order, which a new variable joins.
pub record Filled (s : Internal) (w : List ℕ) : Type 0 where
  pub linked : IsList s w
  pub stamped : Descends s.btab (suc_ℤ s.stats_bumped) w

init_enqueue-IsQueue :
    (s : Internal) (x : ℕ) (w : List ℕ)
    → 0 < x
    → elem x w ≡ false
    → Filled s w
    → IsQueue (init_enqueue false s x) (x ∷ w)
init_enqueue-IsQueue s x w p out v =
    let t = init_enqueue false s x in
    let r = init_enqueue_rest s x in
    let b = suc_ℤ s.stats_bumped in
    let stamps : Descends t.btab (suc_ℤ t.stats_bumped) (x ∷ w) =
      subst (λ z. Descends t.btab (suc_ℤ z) (x ∷ w)) (sym r.1)
        (
          subst (λ z. z <ℤ suc_ℤ b) (sym r.0) (suc_ℤ-lt b),
          subst (λ z. Descends t.btab z w) (sym r.0)
              (Descends-agree s.btab t.btab b w (λ k m. r.4 k (elem-ne k x w m out)) v.stamped),
        ) in
    record {
      linked =
          AddsLast-IsList s t x w p out
            (init_enqueue-AddsLast s x (λ e. head_or-away x w p out (sym v.linked.at_last ∙ e)))
            v.linked;
      stamped = stamps;
      inside = ground (arith, r.2);
      mark =
          subst (λ z. z ≤ℤ t.btab t.unassigned) (sym r.3)
            (subst (λ k. b ≤ℤ t.btab k) (sym r.2) (subst (λ z. b ≤ℤ z) (sym r.0) (omega arith)));
      past = λ y m h. absurd (latest y m (subst (λ z. z <ℤ t.btab y) (r.3 ∙ sym r.0) h) stamps);
    }
  where
    latest :
        (y : ℕ)
        → elem y (x ∷ w) ≡ true
        → (init_enqueue false s x).btab x <ℤ (init_enqueue false s x).btab y
        → Descends
            (init_enqueue false s x).btab
            (suc_ℤ (init_enqueue false s x).stats_bumped)
            (x ∷ w)
        → ⊥
    latest y m h d = elim (Bool-cases (y == x)) [
      | inl e ↦
          let same : y ≡ x = ground arith in
          omega (
            arith,
            subst (λ k. (init_enqueue false s x).btab x <ℤ (init_enqueue false s x).btab k) same h,
          )
      | inr e ↦ omega (
        arith,
        Descends-below (init_enqueue false s x).btab ((init_enqueue false s x).btab x) y w d.1
            (ground arith),
        h,
      )
    ]

-- The variables `n + count`, ..., `n + 1` in front of `w`.
abbrev pub counted : ℕ → ℕ → List ℕ → List ℕ
counted n zero w = w
counted n (suc count) w = counted (suc n) count (suc n ∷ w)

above-out : (x n : ℕ) (w : List ℕ) → All (λ y. y ≤ n) w → n < x → elem x w ≡ false
above-out x n [] v h = refl
above-out x n (y ∷ w) v h = ground (arith, above-out x n w v.1 h)

All-le : (m n : ℕ) (w : List ℕ) → m ≤ n → All (λ y. y ≤ m) w → All (λ y. y ≤ n) w
All-le m n [] h v = tt
All-le m n (y ∷ w) h v = (omega (arith, v.0), All-le m n w h v.1)

-- `init_queue` in the default order turns a list of variables up to `old_max_var` into a queue of
-- these and of the new ones, the newest last.
pub init_queue-IsQueue :
    (s : Internal) (old_max_var count : ℕ) (w : List ℕ)
    → Filled s w
    → All (λ y. y ≤ old_max_var) w
    → IsQueue (init_queue false s old_max_var (suc count)) (counted old_max_var (suc count) w)
unfolding init_queue
init_queue-IsQueue s n zero w v a =
    init_enqueue-IsQueue s (suc n) w (omega arith) (above-out (suc n) n w a (omega arith)) v
init_queue-IsQueue s n (suc count) w v a =
    let q =
      init_enqueue-IsQueue s (suc n) w (omega arith) (above-out (suc n) n w a (omega arith)) v in
    init_queue-IsQueue (init_enqueue false s (suc n)) (suc n) count (suc n ∷ w)
      (record { linked = q.linked; stamped = q.stamped })
      (omega arith, All-le n (suc n) w (omega arith) a)

search_plain-same :
    (fuel : ℕ) (s : Internal) (x k : ℕ)
    → ((y : ℕ) → aux_var s y ≡ false)
    → search_queue fuel s x k ≡ search_plain fuel s x k
unfolding search_queue search_plain
search_plain-same zero s x k g = refl
search_plain-same (suc fuel) s x k g =
    let off = g x in
    let ih = search_plain-same fuel s (s.prev x) (suc k) g in
    elim (Bool-cases (s.assigned x)) [ inl e ↦ rw (off, e) ih | inr e ↦ rw (off, e) ]

-- Where no variable is listed as a gate output, the changed search is the search of the unchanged
-- solver: same variable, same state.
pub next_decision_variable-plain :
    (fuel : ℕ) (s : Internal)
    → ((y : ℕ) → aux_var s y ≡ false)
    → next_decision_variable_on_queue fuel s ≡ next_decision_variable_plain fuel s
unfolding next_decision_variable_on_queue next_decision_variable_plain
next_decision_variable-plain fuel s g = ap after_search (search_plain-same fuel s s.unassigned 0 g)
