-- ===== src/Cadical/Heap/Indexed.antt =====
-- An exchange keeps the positions of the elements in step with the array.
use ignore_gates.Prelude.{
  ℕ, ◌≤◌, ◌<◌, ◌≡◌, ◌≢◌, ◌↔◌, ◌⊎◌, refl, sym, ap, subst, ◌∙◌, inl, inr, arith, ◌==◌, Bool-cases,
  if_eq, if_ne,
}
use ignore_gates.Cadical.Queue.{put}
use ignore_gates.Cadical.Heap.{invalid, Heap, exchange}

-- The entry at each place knows its place, and each element is where its position says.
pub record IsIndexed (h : Heap) : Type 0 where
  pub small : h.count ≤ invalid
  pub placed : (i : ℕ) → i < h.count → h.pos (h.array i) ≡ i
  pub within : (e : ℕ) → h.pos e ≢ invalid → h.pos e < h.count
  pub listed : (e : ℕ) → h.pos e ≢ invalid → h.array (h.pos e) ≡ e

pub eq_cases : (j k : ℕ) → (j ≡ k) ⊎ (j ≢ k)
eq_cases j k = elim (Bool-cases (j == k)) [
  | inl e ↦ inl (ground (arith, e))
  | inr e ↦ inr (λ d. ground (arith, d, e))
]

-- What two writes make of an entry.
two_puts :
    (f : ℕ → ℕ) (a b x y k : ℕ)
    → ((k ≡ b) × (put (put f a x) b y k ≡ y))
      ⊎ (((k ≡ a) × (put (put f a x) b y k ≡ x))
          ⊎ ((k ≢ b) × ((k ≢ a) × (put (put f a x) b y k ≡ f k))))
two_puts f a b x y k = elim (eq_cases k b) [
  | inl e ↦ inl (e, if_eq k b _ _ e)
  | inr n ↦ inr (elim (eq_cases k a) [
    | inl e ↦ inl (e, if_ne k b _ _ n ∙ if_eq k a _ _ e)
    | inr m ↦ inr (n, (m, if_ne k b _ _ n ∙ if_ne k a _ _ m))
  ])
]

unfoldable pub swap : (ℕ → ℕ) → ℕ → ℕ → ℕ → ℕ
swap f a b = put (put f a (f b)) b (f a)

pub swap-first : (f : ℕ → ℕ) (a b : ℕ) → swap f a b a ≡ f b
unfolding swap
swap-first f a b = elim (two_puts f a b (f b) (f a) a) [
  | inl (e, v) ↦ v ∙ ap f e
  | inr (inl (e, v)) ↦ v
  | inr (inr (n, (m, v))) ↦ absurd (m refl)
]

pub swap-second : (f : ℕ → ℕ) (a b : ℕ) → swap f a b b ≡ f a
unfolding swap
swap-second f a b = if_eq b b _ _ refl

pub swap-other : (f : ℕ → ℕ) (a b k : ℕ) → k ≢ a → k ≢ b → swap f a b k ≡ f k
unfolding swap
swap-other f a b k n m = if_ne k b _ _ m ∙ if_ne k a _ _ n

module _ (h : Heap) (a b : ℕ) (x : IsIndexed h) (pa : h.pos a ≢ invalid)
    (pb : h.pos b ≢ invalid) where
  la : h.array (h.pos a) ≡ a
  la = x.listed a pa

  lb : h.array (h.pos b) ≡ b
  lb = x.listed b pb

  swapped_pos : ℕ → ℕ
  swapped_pos = swap h.pos a b

  swapped_array : ℕ → ℕ
  swapped_array = swap h.array (h.pos a) (h.pos b)

  swapped_placed : (i : ℕ) → i < h.count → swapped_pos (swapped_array i) ≡ i
  unfolding swapped_pos swapped_array swap
  swapped_placed i l =
      elim (two_puts h.array (h.pos a) (h.pos b) (h.array (h.pos b)) (h.array (h.pos a)) i) [
        | inl (e, v) ↦ ap swapped_pos (v ∙ la) ∙ (swap-first h.pos a b ∙ sym e)
        | inr (inl (e, v)) ↦ ap swapped_pos (v ∙ lb) ∙ (swap-second h.pos a b ∙ sym e)
        | inr (inr (n, (m, v))) ↦
            ap swapped_pos v
            ∙ (swap-other h.pos a b (h.array i) (λ e. m (sym (x.placed i l) ∙ ap h.pos e))
                  (λ e. n (sym (x.placed i l) ∙ ap h.pos e))
                ∙ x.placed i l)
      ]

  swapped_within : (e : ℕ) → swapped_pos e ≢ invalid → swapped_pos e < h.count
  unfolding swapped_pos swap
  swapped_within e p = elim (two_puts h.pos a b (h.pos b) (h.pos a) e) [
    | inl (d, v) ↦ subst (λ n. n < h.count) (sym v) (x.within a pa)
    | inr (inl (d, v)) ↦ subst (λ n. n < h.count) (sym v) (x.within b pb)
    | inr (inr (n, (m, v))) ↦ subst (λ n. n < h.count) (sym v) (x.within e (λ f. p (v ∙ f)))
  ]

  swapped_listed : (e : ℕ) → swapped_pos e ≢ invalid → swapped_array (swapped_pos e) ≡ e
  unfolding swapped_pos swapped_array swap
  swapped_listed e p = elim (two_puts h.pos a b (h.pos b) (h.pos a) e) [
    | inl (d, v) ↦ ap swapped_array v ∙ (swap-first h.array (h.pos a) (h.pos b) ∙ (lb ∙ sym d))
    | inr (inl (d, v)) ↦
        ap swapped_array v ∙ (swap-second h.array (h.pos a) (h.pos b) ∙ (la ∙ sym d))
    | inr (inr (n, (m, v))) ↦
        let there = x.listed e (λ f. p (v ∙ f)) in
        ap swapped_array v
        ∙ (swap-other h.array (h.pos a) (h.pos b) (h.pos e)
              (λ f. m (sym there ∙ (ap h.array f ∙ la))) (λ f. n (sym there ∙ (ap h.array f ∙ lb)))
            ∙ there)
  ]

  swapped_member : (e : ℕ) → (swapped_pos e ≡ invalid) ↔ (h.pos e ≡ invalid)
  unfolding swapped_pos swap
  swapped_member e = elim (two_puts h.pos a b (h.pos b) (h.pos a) e) [
    | inl (d, v) ↦ (λ f. absurd (pa (sym v ∙ f)), λ f. absurd (pb (sym (ap h.pos d) ∙ f)))
    | inr (inl (d, v)) ↦ (λ f. absurd (pb (sym v ∙ f)), λ f. absurd (pa (sym (ap h.pos d) ∙ f)))
    | inr (inr (n, (m, v))) ↦ (λ f. sym v ∙ f, λ f. v ∙ f)
  ]

pub exchange-array :
    (h : Heap) (a b : ℕ) → (exchange h a b).array ≡ swap h.array (h.pos a) (h.pos b)
unfolding exchange swap
exchange-array h a b = refl

-- A heap with the same elements as another.
pub record Same (h k : Heap) : Type 0 where
  pub indexed : IsIndexed k
  pub size : k.count ≡ h.count
  pub members : (e : ℕ) → (k.pos e ≡ invalid) ↔ (h.pos e ≡ invalid)

pub exchange-Same :
    (h : Heap) (a b : ℕ)
    → IsIndexed h
    → h.pos a ≢ invalid
    → h.pos b ≢ invalid
    → Same h (exchange h a b)
      × (((exchange h a b).pos a ≡ h.pos b) × ((exchange h a b).pos b ≡ h.pos a))
unfolding exchange swap swapped_pos swapped_array
exchange-Same h a b x pa pb = (
  record {
    indexed = record {
      small = x.small;
      placed = swapped_placed h a b x pa pb;
      within = swapped_within h a b x pa pb;
      listed = swapped_listed h a b x pa pb;
    };
    size = refl;
    members = swapped_member h a b x pa pb;
  },
  (swap-first h.pos a b, swap-second h.pos a b),
)
