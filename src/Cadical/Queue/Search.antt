-- ===== src/Cadical/Queue/Search.antt =====
-- The search for the next decision on the queue.
use ignore_gates.Prelude.{
  ℕ, zero, suc, ◌+◌, ◌<◌, ◌≡◌, ◌≢◌, refl, sym, ◌∙◌, ap, subst, inl, inr, Bool, true, false, not,
  ◌&&◌, Option, some, List, [], ◌∷◌, ◌++◌, any, All, All-append, elem, elem-append, arith,
  append_assoc, Bool-cases,
}
use ignore_gates.Types.Int.{ℤ}
use ignore_gates.Cadical.Queue.{Internal, dequeue, push_first, aux_var, search_queue}
use ignore_gates.Cadical.Queue.Chain.{head_or, IsList, Once-append, Chain-at}
use ignore_gates.Cadical.Queue.Links.{dequeue-IsList, push_first-IsList}
use ignore_gates.Cadical.Queue.FirstFree.{
  first_free, place, first_free-snoc, here_lem, later_lem, any-snoc,
}
use ignore_gates.Cadical.Queue.Stamps.{
  Descends, Descends-drop, push_first-Descends, dequeue_rest, push_first_rest,
}

-- What the search keeps: which variables are assigned and which must not be decided.
pub record Agrees (asg aux_of : ℕ → Bool) (b : ℤ) (s : Internal) : Type 0 where
  pub val : (k : ℕ) → s.assigned k ≡ asg k
  pub banned : (k : ℕ) → aux_var s k ≡ aux_of k
  pub count : s.stats_bumped ≡ b

push_on_IsList :
    (s : Internal) (x : ℕ) (z : ℤ) (w : List ℕ)
    → w ≢ []
    → 0 < x
    → elem x w ≡ false
    → IsList s w
    → Descends s.btab z w
    → IsList (push_first s x) (w ++ (x ∷ [])) × Descends (push_first s x).btab z (w ++ (x ∷ []))
push_on_IsList s x z [] n p out v d = absurd (n refl)
push_on_IsList s x z (y ∷ w) n p out v d =
    (push_first-IsList s x y w p out v, push_first-Descends s z x y w out v.at_first d)

append-ne : (a : List ℕ) (q : ℕ) (r : List ℕ) → a ++ (q ∷ r) ≢ []
append-ne [] q r = λ e. cc
append-ne (x ∷ a) q r = λ e. cc

-- The state of the search: the part of the queue that was passed, and the part still to be searched.
pub record Searching (asg aux_of : ℕ → Bool) (b z : ℤ) (s : Internal) (a w : List ℕ) : Type 0 where
  pub linked : IsList s (a ++ w)
  pub stamped : Descends s.btab z (a ++ w)
  pub agrees : Agrees asg aux_of b s

module _ (asg aux_of : ℕ → Bool) (b z : ℤ) where
  abbrev pub free : ℕ → Bool
  free x = not (asg x) && not (aux_of x)

  -- One round on a variable that must not be decided: it goes to the front of the queue.
  move_first :
      (s : Internal) (a r : List ℕ) (t q : ℕ)
      → Searching asg aux_of b z s a (t ∷ q ∷ r)
      → Searching asg aux_of b z (push_first (dequeue s t) t) a ((q ∷ r) ++ (t ∷ []))
  move_first s a r t q v =
      let fresh = Once-append t a (q ∷ r) v.linked.once in
      let d = dequeue s t in
      let kept = dequeue_rest s t in
      let kept2 = push_first_rest d t in
      let down : Descends d.btab z (a ++ (q ∷ r)) =
        subst (λ f. Descends f z (a ++ (q ∷ r))) (sym kept.0)
          (Descends-drop s.btab z t a (q ∷ r) v.stamped) in
      let pushed =
        push_on_IsList d t z (a ++ (q ∷ r)) (append-ne a q r) fresh.2 fresh.1
          (dequeue-IsList s t a (q ∷ r) v.linked) down in
      let order = append_assoc a (q ∷ r) (t ∷ []) in
      record {
        linked = subst (IsList (push_first d t)) order pushed.0;
        stamped = subst (Descends (push_first d t).btab z) order pushed.1;
        agrees = record {
          val = λ k. ap (λ f. f k) (kept2.0 ∙ kept.1) ∙ v.agrees.val k;
          banned = λ k.
              ap (λ (l : List ℕ). elem ((push_first d t).i2e k) l) (kept2.1 ∙ kept.2)
              ∙ ap (λ (f : ℕ → ℕ). elem (f k) s.aux) (kept2.2 ∙ kept.3)
              ∙ v.agrees.banned k;
          count = kept2.3 ∙ kept.4 ∙ v.agrees.count;
        };
      }

  -- One round on an assigned variable that might be decided: it stays where it is.
  pass :
      (s : Internal) (a r : List ℕ) (t : ℕ)
      → Searching asg aux_of b z s a (t ∷ r)
      → Searching asg aux_of b z s (a ++ (t ∷ [])) r
  pass s a r t v =
      let order = sym (append_assoc a (t ∷ []) r) in
      record {
        linked = subst (IsList s) order v.linked;
        stamped = subst (Descends s.btab z) order v.stamped;
        agrees = v.agrees;
      }

  -- How the search ends.
  pub record Found (w : List ℕ) (whole : List ℕ) (searched : ℕ) (r : Option (Internal × ℕ × ℕ))
      : Type 0 where
    pub state : Internal
    pub before : List ℕ
    pub after : List ℕ
    pub ends : r ≡ some (state, first_free free w, searched + place free w)
    pub still : Searching asg aux_of b z state before (first_free free w ∷ after)
    pub passed : All (λ x. asg x ≡ true) before
    pub same : (k : ℕ) → elem k (before ++ (first_free free w ∷ after)) ≡ elem k whole

  Found-step :
      (w w' whole whole' : List ℕ) (k : ℕ) (r r' : Option (Internal × ℕ × ℕ))
      → r ≡ r'
      → first_free free w' ≡ first_free free w
      → suc (place free w') ≡ place free w
      → ((j : ℕ) → elem j whole' ≡ elem j whole)
      → Found w' whole' (suc k) r'
      → Found w whole k r
  Found-step w w' whole whole' k r r' e ff pl all found =
      let count : suc k + place free w' ≡ k + place free w = omega arith in
      record {
        state = found.state;
        before = found.before;
        after = found.after;
        ends =
            e
            ∙ found.ends
            ∙ ap (λ x. some (found.state, x, suc k + place free w')) ff
            ∙ ap (λ x. some (found.state, first_free free w, x)) count;
        still =
            subst (λ x. Searching asg aux_of b z found.state found.before (x ∷ found.after)) ff
              found.still;
        passed = found.passed;
        same = λ j.
            ap (λ x. elem j (found.before ++ (x ∷ found.after))) (sym ff) ∙ found.same j ∙ all j;
      }

  pub step_free :
      (fuel : ℕ) (s : Internal) (t k : ℕ)
      → Agrees asg aux_of b s
      → free t ≡ true
      → search_queue (suc fuel) s t k ≡ some (s, t, k)
  unfolding search_queue
  step_free fuel s t k g f = ground (arith, g.val t, g.banned t)

  step_aux :
      (fuel : ℕ) (s : Internal) (t k : ℕ)
      → Agrees asg aux_of b s
      → aux_of t ≡ true
      → search_queue (suc fuel) s t k
        ≡ search_queue fuel (push_first (dequeue s t) t) (s.prev t) (suc k)
  unfolding search_queue
  step_aux fuel s t k g f =
      let on : aux_var s t ≡ true = g.banned t ∙ f in
      elim (Bool-cases (s.assigned t)) [ inl e ↦ rw (on, e) | inr e ↦ rw (on, e) ]

  step_pass :
      (fuel : ℕ) (s : Internal) (t k : ℕ)
      → Agrees asg aux_of b s
      → aux_of t ≡ false
      → asg t ≡ true
      → search_queue (suc fuel) s t k ≡ search_queue fuel s (s.prev t) (suc k)
  unfolding search_queue
  step_pass fuel s t k g f h =
      let off : aux_var s t ≡ false = g.banned t ∙ f in
      let on : s.assigned t ≡ true = g.val t ∙ h in rw (off, on)

  rotate-elem : (j t : ℕ) (a w : List ℕ) → elem j (a ++ (w ++ (t ∷ []))) ≡ elem j (a ++ (t ∷ w))
  rotate-elem j t a w =
      ground
        (arith, elem-append j a (w ++ (t ∷ [])), elem-append j w (t ∷ []), elem-append j a (t ∷ w))

  Found-here :
      (fuel : ℕ) (s : Internal) (a w : List ℕ) (t k : ℕ)
      → Searching asg aux_of b z s a (t ∷ w)
      → All (λ x. asg x ≡ true) a
      → free t ≡ true
      → Found (t ∷ w) (a ++ (t ∷ w)) k (search_queue (suc fuel) s t k)
  Found-here fuel s a w t k v g h =
      let (ff, pl) = here_lem free t w h in
      record {
        state = s;
        before = a;
        after = w;
        ends =
            step_free fuel s t k v.agrees h
            ∙ ap (λ x. some (s, x, k)) (sym ff)
            ∙ ap (λ x. some (s, first_free free (t ∷ w), x)) (omega arith);
        still = subst (λ x. Searching asg aux_of b z s a (x ∷ w)) (sym ff) v;
        passed = g;
        same = λ j. ap (λ x. elem j (a ++ (x ∷ w))) ff;
      }

  pub search_queue-Found :
      (fuel : ℕ) (s : Internal) (a w : List ℕ) (k : ℕ)
      → Searching asg aux_of b z s a w
      → All (λ x. asg x ≡ true) a
      → any free w ≡ true
      → place free w < fuel
      → Found w (a ++ w) k (search_queue fuel s (head_or 0 w) k)
  search_queue-Found zero s a w k v g f h = absurd (omega arith)
  search_queue-Found (suc fuel) s a [] k v g f h = cc
  search_queue-Found (suc fuel) s a (t ∷ []) k v g f h =
      Found-here fuel s a [] t k v g (ground arith)
  search_queue-Found (suc fuel) s a (t ∷ q ∷ w) k v g f h = elim (Bool-cases (free t)) [
    | inl here ↦ Found-here fuel s a (q ∷ w) t k v g here
    | inr no_free ↦
        let later : any free (q ∷ w) ≡ true = ground arith in
        let (ff, pl) = later_lem free t (q ∷ w) no_free in
        let behind = (Chain-at s.prev s.next 0 t a (q ∷ w) v.linked.chain).1 in
        elim (Bool-cases (aux_of t)) [
          | inl banned ↦
              let moved = push_first (dequeue s t) t in
              let snoc = first_free-snoc free (q ∷ w) t later in
              Found-step (t ∷ q ∷ w) ((q ∷ w) ++ (t ∷ [])) (a ++ (t ∷ q ∷ w))
                (a ++ ((q ∷ w) ++ (t ∷ []))) k (search_queue (suc fuel) s t k)
                (search_queue fuel moved q (suc k))
                (step_aux fuel s t k v.agrees banned
                  ∙ ap (λ x. search_queue fuel moved x (suc k)) behind)
                (snoc.0 ∙ ff) (ap suc snoc.1 ∙ pl) (λ j. rotate-elem j t a (q ∷ w))
                (search_queue-Found fuel moved a ((q ∷ w) ++ (t ∷ [])) (suc k)
                  (move_first s a w t q v) g (any-snoc free (q ∷ w) t later)
                  (omega (arith, snoc.1, pl, h)))
          | inr allowed ↦
              let on : asg t ≡ true = ground arith in
              Found-step (t ∷ q ∷ w) (q ∷ w) (a ++ (t ∷ q ∷ w)) ((a ++ (t ∷ [])) ++ (q ∷ w)) k
                (search_queue (suc fuel) s t k) (search_queue fuel s q (suc k))
                (step_pass fuel s t k v.agrees allowed on
                  ∙ ap (λ x. search_queue fuel s x (suc k)) behind)
                ff pl (λ j. ap (elem j) (append_assoc a (t ∷ []) (q ∷ w)))
                (search_queue-Found fuel s (a ++ (t ∷ [])) (q ∷ w) (suc k) (pass s a (q ∷ w) t v)
                  (All-append _ a (t ∷ []) g (on, tt)) later (omega (arith, pl, h)))
        ]
  ]
