-- ===== src/Cadical/Heap/Order.antt =====
-- The heap keeps its order: no element is above its parent.
use ignore_gates.Prelude.{
  ℕ, suc, ◌<◌, ◌≡◌, ◌≢◌, refl, sym, subst, ◌∙◌, inl, inr, Bool, false, ◌&&◌, Option, some, arith,
  Bool-cases,
}
use ignore_gates.Cadical.Heap.{
  invalid, Heap, has_parent, has_left, parent, child, down, update, front,
}
use ignore_gates.Cadical.Heap.Indexed.{IsIndexed, Same}
use ignore_gates.Cadical.Heap.Loops.{
  par, Same-trans, and_cases, child_place, update-after, up-Ran, down-Ran,
}
use ignore_gates.Cadical.Heap.Sifts.{
  IsOrder, Broken, Low, Sorted, Low-Sorted, Sorted-first, best, up-Broken, down-Low,
}

module _ (less : ℕ → ℕ → Bool) (order : IsOrder less) where
  -- The array of the heap is in order.
  abbrev pub IsOrdered : Heap → Type 0
  IsOrdered h = Sorted less h.count order h.array

  -- A heap in order with the elements of `h`.
  pub record Settled (h : Heap) (o : Option Heap) : Type 0 where
    pub heap : Heap
    pub ends : o ≡ some heap
    pub same : Same h heap
    pub ordered : IsOrdered heap

  kids_low :
      (k : Heap) (e : ℕ)
      → IsIndexed k
      → k.pos e ≢ invalid
      → (has_left k e && less e (child less k e)) ≡ false
      → (i : ℕ) → 0 < i
      → i < k.count
      → par i ≡ k.pos e
      → less (k.array (k.pos e)) (k.array i) ≡ false
  kids_low k e x p f i h l d = elim (Bool-cases (has_left k e)) [
    | inr g ↦ absurd (ground (arith, g, d, l, h))
    | inl g ↦
        let (q, (at, inside, chosen)) = child_place less k e g in
        let not_above : less e (child less k e) ≡ false =
          elim (and_cases (has_left k e) (less e (child less k e)) f) [
            | inl r ↦ absurd (ground (arith, g, r))
            | inr r ↦ r
          ] in
        order.trans _ (k.array q) _ (rw (x.listed e p, ← at) not_above)
          (best less k.count order k.array (k.pos e) q i chosen h l d)
  ]

  raised :
      (k : Heap) (e : ℕ)
      → IsIndexed k
      → k.pos e ≢ invalid
      → (has_parent k e && less (parent k e) e) ≡ false
      → 0 < k.pos e
      → less (k.array (par (k.pos e))) (k.array (k.pos e)) ≡ false
  raised k e x p f h =
      rw (x.listed e p) (elim (and_cases (has_parent k e) (less (parent k e) e) f) [
        | inl g ↦ absurd (ground (arith, g, h))
        | inr g ↦ g
      ])

  pub down-Settled :
      (h : Heap) (e : ℕ)
      → IsIndexed h
      → h.pos e ≢ invalid
      → Low less h.count h.array (h.pos e)
      → Settled h (down less (suc h.count) h e)
  down-Settled h e x p low =
      let n = h.count in
      let r =
        down-Ran less n (Low less n) (λ a p q. down-Low less n order a p q) (suc n) h e refl x p
          (omega arith) low in
      let k = r.heap in
      let valid : k.pos e ≢ invalid = λ g. p ((r.same.members e).0 g) in
      record {
        heap = k;
        ends = r.ends;
        same = r.same;
        ordered =
            Low-Sorted less k.count order k.array (k.pos e)
              (subst (λ m. Low less m k.array (k.pos e)) (sym r.same.size) r.kept)
              (kids_low k e r.same.indexed valid r.last);
      }

  -- `update` of an element of a heap whose order fails at that element at most, as after a change of
  -- its score, ends and leaves the same elements in order.
  pub update-Settled :
      (h : Heap) (e : ℕ)
      → IsIndexed h
      → h.pos e ≢ invalid
      → Broken less h.count h.array (h.pos e)
      → Settled h (update less h e)
  update-Settled h e x p b =
      let n = h.count in
      let r =
        up-Ran less n (Broken less n) (λ a p. up-Broken less n order a p) (suc n) h e refl x p
          (omega (arith, x.within e p)) b in
      let k = r.heap in
      let valid : k.pos e ≢ invalid = λ g. p ((r.same.members e).0 g) in
      let above : 0 < k.pos e → less (k.array (par (k.pos e))) (k.array (k.pos e)) ≡ false =
        raised k e r.same.indexed valid r.last in
      let s = down-Settled k e r.same.indexed valid (record {
        broken = subst (λ m. Broken less m k.array (k.pos e)) (sym r.same.size) r.kept;
        above = above;
      }) in
      record {
        heap = s.heap;
        ends = update-after less h k e r.ends ∙ s.ends;
        same = Same-trans h k s.heap r.same s.same;
        ordered = s.ordered;
      }

  -- No element of a heap in order is above its front.
  pub front_greatest :
      (h : Heap) (e : ℕ) → IsIndexed h → IsOrdered h → h.pos e ≢ invalid → less (front h) e ≡ false
  front_greatest h e x o p =
      subst (λ d. less (front h) d ≡ false) (x.listed e p)
        (Sorted-first less h.count order h.array (h.pos e) (suc (h.pos e)) (omega arith) o
          (x.within e p))
