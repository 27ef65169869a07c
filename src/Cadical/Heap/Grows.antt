-- ===== src/Cadical/Heap/Grows.antt =====
-- Adding an element to the heap.
use ignore_gates.Prelude.{
  subst, ℕ, suc, ◌<◌, ◌≡◌, ◌≢◌, refl, sym, ap, ◌∙◌, inl, inr, Bool, arith, if_eq, if_ne,
}
use ignore_gates.Cadical.Queue.{put}
use ignore_gates.Cadical.Heap.{invalid, Heap, push_back}
use ignore_gates.Cadical.Heap.Indexed.{eq_cases, IsIndexed}
use ignore_gates.Cadical.Heap.Sifts.{IsOrder, Broken}
use ignore_gates.Cadical.Heap.Order.{IsOrdered, Settled, update-Settled}
use ignore_gates.Cadical.Heap.Loops.{par, Ends, entry, update-Ends}

-- The heap with a new element behind the others.
abbrev pub appended : Heap → ℕ → Heap
appended h e = record {
  array = put h.array h.count e;
  count = suc h.count;
  pos = put h.pos e h.count;
}

module _ (h : Heap) (e : ℕ) (x : IsIndexed h) (new : h.pos e ≡ invalid) where
  new_pos : ℕ → ℕ
  new_pos = put h.pos e h.count

  new_array : ℕ → ℕ
  new_array = put h.array h.count e

  appended_placed : (i : ℕ) → i < suc h.count → new_pos (new_array i) ≡ i
  unfolding new_pos new_array
  appended_placed i l = elim (eq_cases i h.count) [
    | inl d ↦ ap new_pos (if_eq i h.count _ _ d) ∙ (if_eq e e _ _ refl ∙ sym d)
    | inr n ↦
        let inside : i < h.count = omega (arith, l, n) in
        ap new_pos (if_ne i h.count _ _ n)
        ∙ (if_ne (h.array i) e _ _ (λ d. entry h i x inside (ap h.pos d ∙ new)) ∙ x.placed i inside)
  ]

  appended_within : (d : ℕ) → new_pos d ≢ invalid → new_pos d < suc h.count
  unfolding new_pos
  appended_within d p = elim (eq_cases d e) [
    | inl f ↦ omega (arith, if_eq {A = ℕ} d e h.count (h.pos d) f)
    | inr n ↦
        let old : new_pos d ≡ h.pos d = if_ne d e _ _ n in
        omega (arith, old, x.within d (λ f. p (old ∙ f)))
  ]

  appended_listed : (d : ℕ) → new_pos d ≢ invalid → new_array (new_pos d) ≡ d
  unfolding new_pos new_array
  appended_listed d p = elim (eq_cases d e) [
    | inl f ↦ ap new_array (if_eq d e _ _ f) ∙ (if_eq h.count h.count _ _ refl ∙ sym f)
    | inr n ↦
        let old : new_pos d ≡ h.pos d = if_ne d e _ _ n in
        let valid : h.pos d ≢ invalid = λ f. p (old ∙ f) in
        ap new_array old
        ∙ (if_ne (h.pos d) h.count _ _ (λ f. ground (arith, f, x.within d valid))
            ∙ x.listed d valid)
  ]

appended-IsIndexed :
    (h : Heap) (e : ℕ)
    → IsIndexed h
    → h.pos e ≡ invalid
    → h.count < invalid
    → IsIndexed (appended h e)
unfolding new_pos new_array
appended-IsIndexed h e x new room = record {
  small = omega (arith, room);
  placed = appended_placed h e x new;
  within = appended_within h e x new;
  listed = appended_listed h e x new;
}

appended_valid : (h : Heap) (e : ℕ) → h.count < invalid → (appended h e).pos e ≢ invalid
appended_valid h e room f = omega (arith, f, room, if_eq {A = ℕ} e e h.count (h.pos e) refl)

-- `push_back` of a new element ends where a position is left, and leaves the elements of the heap with
-- the new one behind them, each at the place that its position names.
push_back-Ends :
    (less : ℕ → ℕ → Bool) (h : Heap) (e : ℕ)
    → IsIndexed h
    → h.pos e ≡ invalid
    → h.count < invalid
    → Ends (appended h e) (push_back less h e)
unfolding push_back Ends
push_back-Ends less h e x new room =
    update-Ends less (appended h e) e (appended-IsIndexed h e x new room) (appended_valid h e room)

module _ (less : ℕ → ℕ → Bool) (order : IsOrder less) where
  -- The order fails at the new element at most.
  appended-Broken :
      (h : Heap) (e : ℕ)
      → IsOrdered less order h
      → Broken less (suc h.count) (put h.array h.count e) h.count
  appended-Broken h e o = record {
    edge = λ i f l m k.
        let inside : i < h.count = omega (arith, l, m) in
        rw
          (
            if_ne {A = ℕ} (par i) h.count e (h.array (par i)) k,
            if_ne {A = ℕ} i h.count e (h.array i) m,
          )
          (o i f inside);
    skip = λ i f l d g. absurd (ground (arith, f, l, d));
  }

  -- `push_back` of a new element to a heap in order ends where a position is left, and leaves a heap
  -- in order, of the same elements and the new one.
  pub push_back-Settled :
      (h : Heap) (e : ℕ)
      → IsIndexed h
      → IsOrdered less order h
      → h.pos e ≡ invalid
      → h.count < invalid
      → Settled less order (appended h e) (push_back less h e)
  unfolding push_back
  push_back-Settled h e x o new room =
      let at : (appended h e).pos e ≡ h.count = if_eq {A = ℕ} e e h.count (h.pos e) refl in
      update-Settled less order (appended h e) e (appended-IsIndexed h e x new room)
        (appended_valid h e room)
        (subst (Broken less (suc h.count) (put h.array h.count e)) (sym at) (appended-Broken h e o))
