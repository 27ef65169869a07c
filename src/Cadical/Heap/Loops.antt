-- ===== src/Cadical/Heap/Loops.antt =====
-- The operations of the heap end, and keep the positions in step with the array.
use ignore_gates.Prelude.{
  ℕ, zero, suc, ◌+◌, ◌-◌, ◌*◌, ◌/◌, ◌<◌, ◌≡◌, ◌≢◌, refl, sym, ap, subst, ◌∙◌, inl, inr, Bool, true,
  false, ◌&&◌, Option, none, some, arith, ◌⊎◌, Bool-cases,
}
use ignore_gates.Cadical.Heap.{
  invalid, Heap, has_parent, has_left, has_right, parent, left, right, exchange, up, child, down,
  update,
}
use ignore_gates.Cadical.Heap.Indexed.{IsIndexed, Same, exchange-Same, swap, exchange-array}

pub Same-refl : (h : Heap) → IsIndexed h → Same h h
Same-refl h x = record { indexed = x; size = refl; members = λ e. (λ f. f, λ f. f) }

pub Same-trans : (h k l : Heap) → Same h k → Same k l → Same h l
Same-trans h k l s t = record {
  indexed = t.indexed;
  size = t.size ∙ s.size;
  members =
      λ e. (λ f. (s.members e).0 ((t.members e).0 f), λ f. (t.members e).1 ((s.members e).1 f));
}

-- An entry of the array is in the heap, at its place.
pub entry : (h : Heap) (i : ℕ) → IsIndexed h → i < h.count → h.pos (h.array i) ≢ invalid
entry h i x l f = omega (arith, x.placed i l, f, l, x.small)

-- The place of the parent.
abbrev pub par : ℕ → ℕ
par i = (i - 1) / 2

-- The place `q` of the child that `down` compares with the entry at `p`, of `n` entries.
abbrev pub Chosen : (ℕ → ℕ → Bool) → ℕ → (ℕ → ℕ) → ℕ → ℕ → Type 0
Chosen less n a p q =
    ((q ≡ 2 * p + 1) × (2 * p + 2 < n → less (a (2 * p + 1)) (a (2 * p + 2)) ≡ false))
    ⊎ ((q ≡ 2 * p + 2) × (less (a (2 * p + 1)) (a (2 * p + 2)) ≡ true))

Chosen-lower : (less : ℕ → ℕ → Bool) (n : ℕ) (a : ℕ → ℕ) (p q : ℕ) → Chosen less n a p q → p < q
Chosen-lower less n a p q (inl (e, _)) = omega arith
Chosen-lower less n a p q (inr (e, _)) = omega arith

and_left : (r s : Bool) → (r && s) ≡ true → r ≡ true
and_left true s g = refl
and_left false s g = g

and_right : (r s : Bool) → (r && s) ≡ true → s ≡ true
and_right true s g = g
and_right false s g = absurd cc

pub and_cases : (r s : Bool) → (r && s) ≡ false → (r ≡ false) ⊎ (s ≡ false)
and_cases true s g = inr g
and_cases false s g = inl refl

-- The child that `e` is compared with.
pub child_place :
    (less : ℕ → ℕ → Bool) (h : Heap) (e : ℕ)
    → has_left h e ≡ true
    → (q : ℕ) × ((child less h e ≡ h.array q)
        × (q < h.count)
        × Chosen less h.count h.array (h.pos e) q)
child_place less h e f = elim (Bool-cases (has_right h e && less (left h e) (right h e))) [
  | inl g ↦ (
    2 * h.pos e + 2,
    (
      rw g refl,
      ground (arith, and_left (has_right h e) (less (left h e) (right h e)) g),
      inr (refl, and_right _ _ g),
    ),
  )
  | inr g ↦ (
    2 * h.pos e + 1,
    (
      rw g refl,
      ground (arith, f),
      inl (
        refl,
        λ l. elim (and_cases (has_right h e) (less (left h e) (right h e)) g) [
          | inl r ↦ absurd (ground (arith, r, l))
          | inr r ↦ r
        ],
      ),
    ),
  )
]

-- The loops, with what each exchange keeps of the array and of the place of the element that moves.
module _ (less : ℕ → ℕ → Bool) (n : ℕ) (Kept : (ℕ → ℕ) → ℕ → Type 0) where
  -- A loop that ended with the elements it began with.
  pub record Ran (h : Heap) (e : ℕ) (o : Option Heap) (Last : Heap → Type 0) : Type 0 where
    pub heap : Heap
    pub ends : o ≡ some heap
    pub same : Same h heap
    pub kept : Kept heap.array (heap.pos e)
    pub last : Last heap

  Ran-before :
      (h k : Heap) (e : ℕ) (o u : Option Heap) (Last : Heap → Type 0)
      → u ≡ o
      → Same h k
      → Ran k e o Last
      → Ran h e u Last
  Ran-before h k e o u Last d s r = record {
    heap = r.heap;
    ends = d ∙ r.ends;
    same = Same-trans h k r.heap s r.same;
    kept = r.kept;
    last = r.last;
  }

  module _
      (step : (a : ℕ → ℕ) (p : ℕ)
        → 0 < p
        → p < n
        → less (a (par p)) (a p) ≡ true
        → Kept a p
        → Kept (swap a (par p) p) (par p)) where
    pub up-Ran :
        (fuel : ℕ) (h : Heap) (e : ℕ)
        → h.count ≡ n
        → IsIndexed h
        → h.pos e ≢ invalid
        → h.pos e < fuel
        → Kept h.array (h.pos e)
        → Ran h e (up less fuel h e) (λ k. (has_parent k e && less (parent k e) e) ≡ false)
    unfolding up
    up-Ran zero h e c x p l m = absurd (omega (arith, l))
    up-Ran (suc fuel) h e c x p l m = elim (Bool-cases (has_parent h e && less (parent h e) e)) [
      | inr f ↦ record { heap = h; ends = rw f refl; same = Same-refl h x; kept = m; last = f }
      | inl f ↦
          let q = par (h.pos e) in
          let next = exchange h (parent h e) e in
          let first : 0 < h.pos e =
            ground (arith, and_left (has_parent h e) (less (parent h e) e) f) in
          let inside : q < h.count = omega (arith, first, x.within e p) in
          let (same, (_, moved)) = exchange-Same h (parent h e) e x (entry h q x inside) p in
          let place : next.pos e ≡ q = moved ∙ x.placed q inside in
          let smaller : less (h.array q) (h.array (h.pos e)) ≡ true =
            subst (λ d. less (h.array q) d ≡ true) (sym (x.listed e p)) (and_right _ _ f) in
          let array : next.array ≡ swap h.array q (h.pos e) =
            exchange-array h (parent h e) e
            ∙ ap (λ i. swap h.array i (h.pos e)) (x.placed q inside) in
          let kept : Kept next.array (next.pos e) =
            rw (array, place)
              (step h.array (h.pos e) first (subst (λ k. h.pos e < k) c (x.within e p)) smaller
                m) in
          Ran-before h next e (up less fuel next e) _ _ (rw f refl) same (
            up-Ran fuel next e (same.size ∙ c) same.indexed (λ g. p ((same.members e).0 g))
              (omega (arith, place, first, l)) kept)
    ]

  module _
      (step : (a : ℕ → ℕ) (p q : ℕ)
        → q < n
        → Chosen less n a p q
        → less (a p) (a q) ≡ true
        → Kept a p
        → Kept (swap a p q) q) where
    pub down-Ran :
        (fuel : ℕ) (h : Heap) (e : ℕ)
        → h.count ≡ n
        → IsIndexed h
        → h.pos e ≢ invalid
        → n < h.pos e + fuel
        → Kept h.array (h.pos e)
        → Ran h e (down less fuel h e) (λ k. (has_left k e && less e (child less k e)) ≡ false)
    unfolding down
    down-Ran zero h e c x p l m = absurd (omega (arith, l, c, x.within e p))
    down-Ran (suc fuel) h e c x p l m =
        elim (Bool-cases (has_left h e && less e (child less h e))) [
          | inr f ↦ record { heap = h; ends = rw f refl; same = Same-refl h x; kept = m; last = f }
          | inl f ↦
              let next = exchange h e (child less h e) in
              let (q, (at, inside, chosen)) = child_place less h e (and_left _ _ f) in
              let lower : h.pos e < q = Chosen-lower less h.count h.array (h.pos e) q chosen in
              let valid : h.pos (child less h e) ≢ invalid =
                subst (λ d. h.pos d ≢ invalid) (sym at) (entry h q x inside) in
              let (same, (moved, _)) = exchange-Same h e (child less h e) x p valid in
              let there : h.pos (child less h e) ≡ q = ap h.pos at ∙ x.placed q inside in
              let place : next.pos e ≡ q = moved ∙ there in
              let smaller : less (h.array (h.pos e)) (h.array q) ≡ true =
                rw (x.listed e p, ← at) (and_right _ _ f) in
              let array : next.array ≡ swap h.array (h.pos e) q =
                exchange-array h e (child less h e) ∙ ap (swap h.array (h.pos e)) there in
              let kept : Kept next.array (next.pos e) =
                rw (array, place)
                  (step h.array (h.pos e) q (subst (λ k. q < k) c inside)
                    (subst (λ k. Chosen less k h.array (h.pos e) q) c chosen) smaller m) in
              Ran-before h next e (down less fuel next e) _ _ (rw f refl) same (
                down-Ran fuel next e (same.size ∙ c) same.indexed (λ g. p ((same.members e).0 g))
                  (omega (arith, place, lower, l)) kept)
        ]

-- A loop that ends, with the elements it began with.
unfoldable pub Ends : Heap → Option Heap → Type 0
Ends h o = (k : Heap) × ((o ≡ some k) × Same h k)

-- `update` runs `up` and then `down`.
pub update-after :
    (less : ℕ → ℕ → Bool) (h k : Heap) (e : ℕ)
    → up less (suc h.count) h e ≡ some k
    → update less h e ≡ down less (suc k.count) k e
unfolding update
update-after less h k e f =
    ap (λ o. elim o [ none ↦ none | some m ↦ down less (suc m.count) m e ]) f

-- `update` of an element of the heap ends, whatever the comparison says, and leaves the same elements,
-- each at the place that its position names.
pub update-Ends :
    (less : ℕ → ℕ → Bool) (h : Heap) (e : ℕ)
    → IsIndexed h
    → h.pos e ≢ invalid
    → Ends h (update less h e)
unfolding Ends
update-Ends less h e x p =
    let any : (ℕ → ℕ) → ℕ → Type 0 = λ _ _. Unit in
    let first =
      up-Ran less h.count any (λ _ _ _ _ _ _. tt) (suc h.count) h e refl x p
        (omega (arith, x.within e p)) tt in
    let k = first.heap in
    let second =
      down-Ran less h.count any (λ _ _ _ _ _ _ _. tt) (suc k.count) k e first.same.size
        first.same.indexed (λ g. p ((first.same.members e).0 g)) (omega (arith, first.same.size))
        tt in
    (
      second.heap,
      (
        update-after less h k e first.ends ∙ second.ends,
        Same-trans h k second.heap first.same second.same,
      ),
    )
