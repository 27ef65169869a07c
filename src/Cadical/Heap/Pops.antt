-- ===== src/Cadical/Heap/Pops.antt =====
-- Taking the front out of a heap in order.
use ignore_gates.Prelude.{
  ℕ, suc, ◌-◌, ◌<◌, ◌≡◌, ◌≢◌, ◌↔◌, ◌⊎◌, refl, sym, ap, subst, ◌∙◌, inl, inr, Bool, Option, some,
  arith, ltb, lt→ltb, if◌then◌else◌, Bool-cases, if_eq, if_ne,
}
use ignore_gates.Cadical.Queue.{put}
use ignore_gates.Cadical.Heap.{invalid, Heap, exchange, down, pop_front, front}
use ignore_gates.Cadical.Heap.Indexed.{
  eq_cases, IsIndexed, Same, exchange-Same, exchange-array, swap, swap-other,
}
use ignore_gates.Cadical.Heap.Loops.{par, entry}
use ignore_gates.Cadical.Heap.Sifts.{IsOrder, Low}
use ignore_gates.Cadical.Heap.Order.{IsOrdered, down-Settled}

-- The heap without its last place, where `r` stands.
abbrev cut : Heap → ℕ → Heap
cut k r = record k { pos = put k.pos r invalid; count = k.count - 1 }

module _ (k : Heap) (r : ℕ) (x : IsIndexed k) (some_left : 0 < k.count)
    (at : k.pos r ≡ k.count - 1) where
  r_listed : k.array (k.count - 1) ≡ r
  r_listed =
      let valid : k.pos r ≢ invalid = λ f. omega (arith, f, at, x.small, some_left) in
      ap k.array (sym at) ∙ x.listed r valid

  cut-IsIndexed : IsIndexed (cut k r)
  cut-IsIndexed = record {
    small = omega (arith, x.small);
    placed = λ i l.
        let inside : i < k.count = omega (arith, l) in
        if_ne (k.array i) r _ _ (λ f. omega (arith, l, sym (x.placed i inside) ∙ (ap k.pos f ∙ at)))
        ∙ x.placed i inside;
    within = λ e p. elim (eq_cases e r) [
      | inl f ↦ absurd (p (if_eq e r _ _ f))
      | inr n ↦
          let same : put k.pos r invalid e ≡ k.pos e = if_ne e r _ _ n in
          let valid : k.pos e ≢ invalid = λ f. p (same ∙ f) in
          let other : k.pos e ≢ k.count - 1 =
            λ f. n (sym (x.listed e valid) ∙ (ap k.array f ∙ r_listed)) in
          subst (λ d. d < k.count - 1) (sym same) (omega (arith, other, x.within e valid))
    ];
    listed = λ e p. elim (eq_cases e r) [
      | inl f ↦ absurd (p (if_eq e r _ _ f))
      | inr n ↦
          let same : put k.pos r invalid e ≡ k.pos e = if_ne e r _ _ n in
          ap k.array same ∙ x.listed e (λ f. p (same ∙ f))
    ];
  }

  cut_members : (e : ℕ) → (put k.pos r invalid e ≡ invalid) ↔ ((e ≡ r) ⊎ (k.pos e ≡ invalid))
  cut_members e = elim (eq_cases e r) [
    | inl f ↦ (λ _. inl f, λ _. if_eq e r _ _ f)
    | inr n ↦ (
      λ g. inr (sym (if_ne e r _ _ n) ∙ g),
      λ g. elim g [ inl f ↦ absurd (n f) | inr f ↦ if_ne e r _ _ n ∙ f ],
    )
  ]

module _ (less : ℕ → ℕ → Bool) (order : IsOrder less) where
  -- A heap in order with the elements of `h` without its front.
  pub record Popped (h : Heap) (o : Option Heap) : Type 0 where
    pub heap : Heap
    pub ends : o ≡ some heap
    pub indexed : IsIndexed heap
    pub size : heap.count ≡ h.count - 1
    pub members : (e : ℕ) → (heap.pos e ≡ invalid) ↔ ((e ≡ front h) ⊎ (h.pos e ≡ invalid))
    pub ordered : IsOrdered less order heap

  alone : (k : Heap) → k.count < 2 → IsOrdered less order k
  alone k h i f l = absurd (omega (arith, h, f, l))

  pop_one : (h : Heap) → IsIndexed h → h.count ≡ 1 → Popped h (pop_front less h)
  unfolding pop_front
  pop_one h x c =
      let at : h.pos (h.array 0) ≡ h.count - 1 = x.placed 0 (omega arith) ∙ omega arith in
      record {
        heap = cut h (h.array 0);
        ends = rw c refl;
        indexed = cut-IsIndexed h (h.array 0) x (omega arith) at;
        size = refl;
        members = cut_members h (h.array 0) x (omega arith) at;
        ordered = alone (cut h (h.array 0)) (omega arith);
      }

  module _ (h : Heap) (x : IsIndexed h) (o : IsOrdered less order h) (c : 1 < h.count) where
    first : ℕ
    first = h.array 0

    final : ℕ
    final = h.array (h.count - 1)

    swapped : Heap
    swapped = exchange h first final

    trimmed : Heap
    trimmed = cut swapped first

    swapped-Same : Same h swapped × ((swapped.pos first ≡ h.count - 1) × (swapped.pos final ≡ 0))
    unfolding swapped first final
    swapped-Same =
        let (same, (a, b)) =
          exchange-Same h (h.array 0) (h.array (h.count - 1)) x (entry h 0 x (omega (arith, c)))
            (entry h (h.count - 1) x (omega (arith, c))) in
        (same, (a ∙ x.placed (h.count - 1) (omega (arith, c)), b ∙ x.placed 0 (omega (arith, c))))

    trimmed_pos : trimmed.pos final ≡ 0
    unfolding trimmed
    trimmed_pos =
        let (_, (a, b)) = swapped-Same in
        if_ne final first _ _ (λ f. omega (arith, c, a, b, ap swapped.pos f)) ∙ b

    trimmed_count : trimmed.count ≡ h.count - 1
    unfolding trimmed swapped exchange
    trimmed_count = refl

    trimmed-Low : Low less trimmed.count trimmed.array (trimmed.pos final)
    unfolding trimmed swapped first final
    trimmed-Low =
        let array : swapped.array ≡ swap h.array 0 (h.count - 1) =
          exchange-array h (h.array 0) (h.array (h.count - 1))
          ∙ (ap (λ i. swap h.array i (h.pos (h.array (h.count - 1))))
                (x.placed 0 (omega (arith, c)))
              ∙ ap (swap h.array 0) (x.placed (h.count - 1) (omega (arith, c)))) in
        subst (Low less trimmed.count trimmed.array) (sym trimmed_pos) (record {
          broken = record {
            edge = λ i f l m k.
                let inside : i < h.count - 1 = subst (λ d. i < d) trimmed_count l in
                let low : par i < i = ground (arith, f) in
                rw
                  (
                    array,
                    swap-other h.array 0 (h.count - 1) (par i) k
                        (λ g. omega (arith, g, low, inside)),
                    swap-other h.array 0 (h.count - 1) i m (λ g. omega (arith, g, inside)),
                  )
                  (o i f (omega (arith, inside)));
            skip = λ i f l d g. absurd (omega (arith, g));
          };
          above = λ g. absurd (omega (arith, g));
        })

    trimmed-IsIndexed : IsIndexed trimmed
    unfolding trimmed
    trimmed-IsIndexed =
        let (same, (a, _)) = swapped-Same in
        cut-IsIndexed swapped first same.indexed (omega (arith, c, same.size))
          (omega (arith, a, same.size))

    trimmed_members : (e : ℕ) → (trimmed.pos e ≡ invalid) ↔ ((e ≡ first) ⊎ (h.pos e ≡ invalid))
    unfolding trimmed
    trimmed_members e =
        let (same, (a, _)) = swapped-Same in
        let (there, back) =
          cut_members swapped first same.indexed (omega (arith, c, same.size))
            (omega (arith, a, same.size)) e in
        (
          λ f. elim (there f) [ inl g ↦ inl g | inr g ↦ inr ((same.members e).0 g) ],
          λ f. elim f [ inl g ↦ back (inl g) | inr g ↦ back (inr ((same.members e).1 g)) ],
        )

    finish_pop : Heap → Option Heap
    finish_pop l = if ltb 1 l.count then down less (suc l.count) l final else some l

    pop_front_lem : pop_front less h ≡ finish_pop trimmed
    unfolding pop_front trimmed swapped first final finish_pop
    pop_front_lem =
        ap (λ k. finish_pop (cut k first))
          (ap (λ b. if b then exchange h first final else h) (lt→ltb 1 h.count c))

    pop_more : Popped h (pop_front less h)
    unfolding finish_pop first
    pop_more =
        let valid : trimmed.pos final ≢ invalid = λ f. omega (arith, f, trimmed_pos) in
        let s = down-Settled less order trimmed final trimmed-IsIndexed valid trimmed-Low in
        elim (Bool-cases (ltb 1 trimmed.count)) [
          | inl e ↦ record {
            heap = s.heap;
            ends =
                pop_front_lem
                ∙ (ap (λ b. if b then down less (suc trimmed.count) trimmed final else some trimmed)
                      e
                    ∙ s.ends);
            indexed = s.same.indexed;
            size = s.same.size ∙ trimmed_count;
            members = λ d.
                let (there, back) = trimmed_members d in
                let (out, in_) = s.same.members d in (λ f. there (out f), λ f. in_ (back f));
            ordered = s.ordered;
          }
          | inr e ↦ record {
            heap = trimmed;
            ends =
                pop_front_lem
                ∙ ap (λ b. if b then down less (suc trimmed.count) trimmed final else some trimmed)
                    e;
            indexed = trimmed-IsIndexed;
            size = trimmed_count;
            members = trimmed_members;
            ordered = alone trimmed (ground (arith, e));
          }
        ]

  -- `pop_front` of a heap in order that is not empty ends, and leaves a heap in order, whose
  -- elements are those of before but for the front.
  pub pop_front-Popped :
      (h : Heap) → IsIndexed h → IsOrdered less order h → 0 < h.count → Popped h (pop_front less h)
  pop_front-Popped h x o c = elim (eq_cases h.count 1) [
    | inl e ↦ pop_one h x e
    | inr n ↦ pop_more h x o (omega (arith, n, c))
  ]
