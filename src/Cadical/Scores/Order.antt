-- ===== src/Cadical/Scores/Order.antt =====
-- The order by score, and what a change of one score does to a heap in that order.
use ignore_gates.Prelude.{ℕ, ◌<◌, ◌≡◌, ◌≢◌, refl, sym, ap, ◌∙◌, Bool, arith, if_ne}
use ignore_gates.Cadical.Queue.{put}
use ignore_gates.Cadical.Heap.{Heap, front}
use ignore_gates.Cadical.Heap.Indexed.{IsIndexed}
use ignore_gates.Cadical.Heap.Loops.{par}
use ignore_gates.Cadical.Heap.Sifts.{IsOrder, Broken}
use ignore_gates.Cadical.Heap.Order.{IsOrdered}
use ignore_gates.Cadical.Scores.{score_smaller}

module _ {Score : Type 0} (lower : Score → Score → Bool) (minus_one : Score)
    (order : IsOrder lower) where
  -- `score_smaller` orders the variables, whatever their scores are.
  pub score_smaller-IsOrder : (stab : ℕ → Score) → IsOrder (score_smaller lower minus_one stab)
  score_smaller-IsOrder stab = record {
    asym = λ a b. ground (arith, order.asym (stab a) (stab b), order.asym (stab b) (stab a));
    trans = λ a b c. ground (
      arith,
      order.trans (stab a) (stab b) (stab c),
      order.trans (stab b) (stab c) (stab a),
      order.trans (stab c) (stab a) (stab b),
    );
  }

  -- The heap is in order for these scores.
  abbrev pub InOrder : (ℕ → Score) → Heap → Type 0
  InOrder stab h = IsOrdered (score_smaller lower minus_one stab) (score_smaller-IsOrder stab) h

  -- Only the scores of the two variables matter.
  pub score_smaller_same :
      (f g : ℕ → Score) (a b : ℕ)
      → f a ≡ g a
      → f b ≡ g b
      → score_smaller lower minus_one f a b ≡ score_smaller lower minus_one g a b
  score_smaller_same f g a b e d = rw (e, d) refl

  -- After a change of the front's score, the order fails there at most.
  pub put-Broken :
      (stab : ℕ → Score) (h : Heap) (x : Score)
      → IsIndexed h
      → InOrder stab h
      → 0 < h.count
      → Broken
          (score_smaller lower minus_one (put stab (front h) x))
          h.count
          h.array
          (h.pos (front h))
  put-Broken stab h x i o some_left =
      let first : h.pos (front h) ≡ 0 = i.placed 0 some_left in
      let other : (j : ℕ) → j < h.count → j ≢ 0 → h.array j ≢ front h =
        λ j l n e. n (sym (i.placed j l) ∙ (ap h.pos e ∙ first)) in
      let new = put stab (front h) x in
      let same : (j : ℕ) → j < h.count → j ≢ 0 → new (h.array j) ≡ stab (h.array j) =
        λ j l n. if_ne (h.array j) (front h) x (stab (h.array j)) (other j l n) in
      rw first (record {
        edge = λ j f l m k.
            let low : par j < h.count = ground (arith, f, l) in
            score_smaller_same new stab (h.array (par j)) (h.array j) (same (par j) low k)
              (same j l m)
            ∙ o j f l;
        skip = λ j f l e g. absurd (omega (arith, g));
      })
