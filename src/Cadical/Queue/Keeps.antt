-- ===== src/Cadical/Queue/Keeps.antt =====
-- The other operations on the queue keep it valid.
use ignore_gates.Prelude.{
  ℕ, ◌≡◌, ◌≢◌, refl, sym, ◌∙◌, subst, inl, inr, Bool, true, false, List, [], ◌∷◌, ◌++◌, ◌==◌,
  if◌then◌else◌, elem, elem-append, arith, Bool-cases, if_ne, if_eq, ==_iff,
}
use ignore_gates.Types.Int.{ℤ, ◌<ℤ◌, ◌≤ℤ◌, suc_ℤ, suc_ℤ-lt, ltb_ℤ}
use ignore_gates.Cadical.Queue.{
  Internal, put, dequeue, enqueue, update_queue_unassigned, bump_queue, unassign,
}
use ignore_gates.Cadical.Queue.Chain.{
  head_or, end_or, IsList, Once, Once-append, end_or-ne, Chain-at,
}
use ignore_gates.Cadical.Queue.Links.{
  Once-zero, elem-without, elem-ne, dequeue-IsList, enqueue-IsList,
}
use ignore_gates.Cadical.Queue.FirstFree.{elem-split}
use ignore_gates.Cadical.Queue.Stamps.{
  IsQueue, Descends, Descends-drop, Descends-agree, Descends-below, dequeue_rest,
}

-- Resetting the value of a variable of the queue keeps the queue valid: the pointer moves to it where
-- its stamp is later.
pub unassign-IsQueue :
    (s : Internal) (w : List ℕ) (x : ℕ) → IsQueue s w → elem x w ≡ true → IsQueue (unassign s x) w
unfolding unassign update_queue_unassigned
unassign-IsQueue s w x v m = elim (Bool-cases (ltb_ℤ s.bumped (s.btab x))) [
  | inl e ↦ rw e (record {
    linked = record {
      at_last = v.linked.at_last;
      at_first = v.linked.at_first;
      chain = v.linked.chain;
      once = v.linked.once;
    };
    stamped = v.stamped;
    inside = m;
    mark = omega arith;
    past = λ y i h. still y i (ground (arith, e, h)) (later_ne y h);
  })
  | inr e ↦ rw e (record {
    linked = record {
      at_last = v.linked.at_last;
      at_first = v.linked.at_first;
      chain = v.linked.chain;
      once = v.linked.once;
    };
    stamped = v.stamped;
    inside = v.inside;
    mark = v.mark;
    past = λ y i h. still y i h (λ q. ground (arith, e, subst (λ k. s.bumped <ℤ s.btab k) q h));
  })
]
  where
    still :
        (y : ℕ) → elem y w ≡ true → s.bumped <ℤ s.btab y → y ≢ x → put s.assigned x false y ≡ true
    still y i h n = if_ne y x false (s.assigned y) n ∙ v.past y i h

    later_ne : (y : ℕ) → s.btab x <ℤ s.btab y → y ≢ x
    later_ne y h q = omega (arith, subst (λ k. s.btab x <ℤ s.btab k) q h)

enqueue_rest :
    (s : Internal) (x : ℕ)
    → ((enqueue s x).btab ≡ s.btab)
      × ((enqueue s x).assigned ≡ s.assigned)
      × ((enqueue s x).stats_bumped ≡ s.stats_bumped)
      × ((enqueue s x).bumped ≡ s.bumped)
      × ((enqueue s x).unassigned ≡ s.unassigned)
unfolding enqueue
enqueue_rest s x = (ground arith, ground arith, ground arith, ground arith, ground arith)

dequeue_mark :
    (s : Internal) (x : ℕ)
    → ((dequeue s x).bumped ≡ s.bumped) × ((dequeue s x).unassigned ≡ s.unassigned)
unfolding dequeue
dequeue_mark s x = (ground arith, ground arith)

-- The variable stamped and at the end, before the pointer is set.
restamp : Internal → ℕ → Internal
restamp t x = record t {
  stats_bumped = suc_ℤ t.stats_bumped;
  btab = put t.btab x (suc_ℤ t.stats_bumped);
}

bump_queue_lem :
    (s : Internal) (x : ℕ)
    → s.next x ≢ 0
    → bump_queue s x ≡ (
        let u = restamp (enqueue (dequeue s x) x) x in
        if u.assigned x then u else update_queue_unassigned u x)
unfolding bump_queue restamp
bump_queue_lem s x n = if_ne (s.next x) 0 s _ n

-- The queue with a variable moved to its end, before it is stamped.
record Ready (t : Internal) (x : ℕ) (w : List ℕ) : Type 0 where
  linked : IsList t (x ∷ w)
  stamped : Descends t.btab (suc_ℤ t.stats_bumped) w
  below : t.btab x <ℤ suc_ℤ t.stats_bumped
  inside : elem t.unassigned (x ∷ w) ≡ true
  mark : t.bumped ≤ℤ t.btab t.unassigned
  past : (y : ℕ) → elem y (x ∷ w) ≡ true → t.bumped <ℤ t.btab y → t.assigned y ≡ true

module _ (t : Internal) (x : ℕ) (w : List ℕ) (r : Ready t x w) where
  stamp_x : (restamp t x).btab x ≡ suc_ℤ t.stats_bumped
  unfolding restamp
  stamp_x = if_eq x x (suc_ℤ t.stats_bumped) (t.btab x) refl

  stamp_other : (y : ℕ) → y ≢ x → (restamp t x).btab y ≡ t.btab y
  unfolding restamp
  stamp_other y n = if_ne y x (suc_ℤ t.stats_bumped) (t.btab y) n

  restamp-Descends : Descends (restamp t x).btab (suc_ℤ (restamp t x).stats_bumped) (x ∷ w)
  unfolding restamp
  restamp-Descends = (
    subst (λ z. z <ℤ suc_ℤ (suc_ℤ t.stats_bumped)) (sym stamp_x) (suc_ℤ-lt (suc_ℤ t.stats_bumped)),
    subst (λ z. Descends (restamp t x).btab z w) (sym stamp_x)
        (Descends-agree t.btab (restamp t x).btab (suc_ℤ t.stats_bumped) w
          (λ k m. stamp_other k (elem-ne k x w m r.linked.once.1)) r.stamped),
  )

  -- No stamp has become smaller.
  stamp_grows : (y : ℕ) → t.btab y ≤ℤ (restamp t x).btab y
  stamp_grows y = elim (Bool-cases (y == x)) [
    | inl e ↦
        let same : y ≡ x = ground arith in
        subst (λ k. t.btab k ≤ℤ (restamp t x).btab k) (sym same)
          (subst (λ z. t.btab x ≤ℤ z) (sym stamp_x) (omega (arith, r.below)))
    | inr e ↦ subst (λ z. t.btab y ≤ℤ z) (sym (stamp_other y (ground arith))) (omega arith)
  ]

  restamp-assigned : t.assigned x ≡ true → IsQueue (restamp t x) (x ∷ w)
  unfolding restamp
  restamp-assigned on = record {
    linked = record {
      at_last = r.linked.at_last;
      at_first = r.linked.at_first;
      chain = r.linked.chain;
      once = r.linked.once;
    };
    stamped = restamp-Descends;
    inside = r.inside;
    mark = omega (arith, r.mark, stamp_grows t.unassigned);
    past = λ y m h. elim (Bool-cases (y == x)) [
      | inl e ↦ let same : x ≡ y = ground arith in subst (λ k. t.assigned k ≡ true) same on
      | inr e ↦ r.past y m (subst (λ z. t.bumped <ℤ z) (stamp_other y (ground arith)) h)
    ];
  }

  restamp-free : IsQueue (update_queue_unassigned (restamp t x) x) (x ∷ w)
  unfolding restamp update_queue_unassigned
  restamp-free = record {
    linked = record {
      at_last = r.linked.at_last;
      at_first = r.linked.at_first;
      chain = r.linked.chain;
      once = r.linked.once;
    };
    stamped = restamp-Descends;
    inside = ground arith;
    mark = omega arith;
    past = λ y m h. elim (Bool-cases (y == x)) [
      | inl e ↦
          let same : y ≡ x = ground arith in
          absurd (omega (arith, subst (λ k. (restamp t x).btab x <ℤ (restamp t x).btab k) same h))
      | inr e ↦ absurd (
          omega (
            arith,
            Descends-below (restamp t x).btab ((restamp t x).btab x) y w restamp-Descends.1
                (ground arith),
            h,
          ))
    ];
  }

-- What bumping does to the queue of the variables `w`.
pub record Bumped (x : ℕ) (w : List ℕ) (t : Internal) : Type 0 where
  pub order : List ℕ
  pub queue : IsQueue t order
  pub same : (k : ℕ) → elem k order ≡ elem k w
  pub at_end : t.last ≡ x

abbrev Facts : ℕ → List ℕ → (ℕ → ℤ) → (ℕ → Bool) → ℤ → ℤ → ℕ → Type 0
Facts x w bt asg sb bm un =
    Descends bt (suc_ℤ sb) w
    × (bt x <ℤ suc_ℤ sb)
    × (elem un (x ∷ w) ≡ true)
    × (bm ≤ℤ bt un)
    × ((y : ℕ) → elem y (x ∷ w) ≡ true → bm <ℤ bt y → asg y ≡ true)

module _ (s : Internal) (x : ℕ) (a c : List ℕ) (v : IsQueue s (a ++ (x ∷ c))) where
  requeued : Internal
  requeued = enqueue (dequeue s x) x

  requeued_same :
      (requeued.btab ≡ s.btab)
      × (requeued.assigned ≡ s.assigned)
      × (requeued.stats_bumped ≡ s.stats_bumped)
      × (requeued.bumped ≡ s.bumped)
      × (requeued.unassigned ≡ s.unassigned)
  unfolding requeued
  requeued_same =
      let e = enqueue_rest (dequeue s x) x in
      let d = dequeue_rest s x in
      let k = dequeue_mark s x in (e.0 ∙ d.0, e.1 ∙ d.1, e.2 ∙ d.4, e.3 ∙ k.0, e.4 ∙ k.1)

  front-elem : (k : ℕ) → elem k (x ∷ (a ++ c)) ≡ elem k (a ++ (x ∷ c))
  front-elem k = ground (arith, elem-append k a c, elem-append k a (x ∷ c))

  requeued-Facts :
      Facts x
        (a ++ c)
        requeued.btab
        requeued.assigned
        requeued.stats_bumped
        requeued.bumped
        requeued.unassigned
  requeued-Facts =
      let eq = requeued_same in
      let w = a ++ c in
      let whole = a ++ (x ∷ c) in
      let z = suc_ℤ s.stats_bumped in
      let t = requeued in
      let middle : elem x whole ≡ true = ground (arith, elem-append x a (x ∷ c)) in
      let facts : Facts x w s.btab s.assigned s.stats_bumped s.bumped s.unassigned = (
        Descends-drop s.btab z x a c v.stamped,
        Descends-below s.btab z x whole v.stamped middle,
        front-elem s.unassigned ∙ v.inside,
        v.mark,
        λ y m h. v.past y (sym (front-elem y) ∙ m) h,
      ) in
      subst (λ f. Facts x w f t.assigned t.stats_bumped t.bumped t.unassigned) (sym eq.0)
        (subst (λ f. Facts x w s.btab f t.stats_bumped t.bumped t.unassigned) (sym eq.1)
          (subst (λ f. Facts x w s.btab s.assigned f t.bumped t.unassigned) (sym eq.2)
            (subst (λ f. Facts x w s.btab s.assigned s.stats_bumped f t.unassigned) (sym eq.3)
              (subst (λ f. Facts x w s.btab s.assigned s.stats_bumped s.bumped f) (sym eq.4)
                facts))))

  requeued-Ready : Ready requeued x (a ++ c)
  unfolding requeued
  requeued-Ready =
      let fresh = Once-append x a c v.linked.once in
      let f = requeued-Facts in
      record {
        linked =
            enqueue-IsList (dequeue s x) x (a ++ c) fresh.2 fresh.1
              (dequeue-IsList s x a c v.linked);
        stamped = f.0;
        below = f.1;
        inside = f.2;
        mark = f.3;
        past = f.4;
      }

  bump_middle : s.next x ≢ 0 → Bumped x (a ++ (x ∷ c)) (bump_queue s x)
  unfolding requeued restamp update_queue_unassigned
  bump_middle n =
      let r = requeued-Ready in
      subst (Bumped x (a ++ (x ∷ c))) (sym (bump_queue_lem s x n))
        (elim (Bool-cases (requeued.assigned x)) [
          | inl e ↦ rw e (record {
            order = x ∷ (a ++ c);
            queue = restamp-assigned requeued x (a ++ c) r e;
            same = front-elem;
            at_end = r.linked.at_last;
          })
          | inr e ↦ rw e (record {
            order = x ∷ (a ++ c);
            queue = restamp-free requeued x (a ++ c) r;
            same = front-elem;
            at_end = r.linked.at_last;
          })
        ])

-- Where `x` stands last already, nothing changes.
bump_last :
    (s : Internal) (x : ℕ) (a c : List ℕ)
    → IsQueue s (a ++ (x ∷ c))
    → s.next x ≡ 0
    → Bumped x (a ++ (x ∷ c)) (bump_queue s x)
unfolding bump_queue
bump_last s x a c v e = subst (Bumped x (a ++ (x ∷ c))) (sym (if_eq (s.next x) 0 s _ e)) (record {
  order = a ++ (x ∷ c);
  queue = v;
  same = λ k. refl;
  at_end =
      v.linked.at_last
      ∙ alone a v.linked.once (sym (Chain-at s.prev s.next 0 x a c v.linked.chain).0 ∙ e);
})
  where
    alone : (b : List ℕ) → Once (b ++ (x ∷ c)) → end_or 0 b ≡ 0 → head_or 0 (b ++ (x ∷ c)) ≡ x
    alone [] o h = refl
    alone (y ∷ b) o h =
        let zero_out = elem-without 0 x b c (Once-zero (b ++ (x ∷ c)) o.2) in
        absurd (end_or-ne 0 y b (omega (arith, o.0)) zero_out.0 h)

-- Bumping a variable of the queue keeps the queue valid, with the same variables, and the variable
-- then stands last.
pub bump_queue-Bumped :
    (s : Internal) (w : List ℕ) (x : ℕ)
    → IsQueue s w
    → elem x w ≡ true
    → Bumped x w (bump_queue s x)
bump_queue-Bumped s w x v m =
    let (a, (c, p)) = elem-split x w m in
    let v' = subst (IsQueue s) (sym p) v in
    subst (λ l. Bumped x l (bump_queue s x)) p
      (elim (Bool-cases (s.next x == 0)) [
        | inl e ↦ bump_last s x a c v' ((==_iff (s.next x) 0).0 e)
        | inr e ↦ bump_middle s x a c v' (λ q. cc ((==_iff (s.next x) 0).1 q, e))
      ])
