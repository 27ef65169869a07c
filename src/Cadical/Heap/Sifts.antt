-- ===== src/Cadical/Heap/Sifts.antt =====
-- One exchange of `up` or `down` on an array whose order fails at one place at most.
use ignore_gates.Prelude.{
  ℕ, zero, suc, ◌+◌, ◌*◌, ◌<◌, ◌≡◌, ◌≢◌, ◌⊎◌, ap, subst, inl, inr, Bool, true, false, arith,
  Bool-cases,
}
use ignore_gates.Cadical.Heap.Indexed.{eq_cases, swap, swap-first, swap-second, swap-other}
use ignore_gates.Cadical.Heap.Loops.{par, Chosen}

-- The comparison orders the elements, up to elements that are neither above nor below each other.
pub record IsOrder {A : Type 0} (less : A → A → Bool) : Type 0 where
  pub asym : (a b : A) → less a b ≡ true → less b a ≡ false
  pub trans : (a b c : A) → less a b ≡ false → less b c ≡ false → less a c ≡ false

module _ (less : ℕ → ℕ → Bool) (n : ℕ) where
  -- No parent is below its child, but for the parents and the children of the entry at `p`, whose
  -- children are not above its parent.
  pub record Broken (a : ℕ → ℕ) (p : ℕ) : Type 0 where
    pub edge : (i : ℕ) → 0 < i → i < n → i ≢ p → par i ≢ p → less (a (par i)) (a i) ≡ false
    pub skip : (i : ℕ) → 0 < i → i < n → par i ≡ p → 0 < p → less (a (par p)) (a i) ≡ false

  -- Moreover the entry at `p` is not above its parent.
  pub record Low (a : ℕ → ℕ) (p : ℕ) : Type 0 where
    pub broken : Broken a p
    pub above : 0 < p → less (a (par p)) (a p) ≡ false

  par_lt : (i : ℕ) → 0 < i → par i < i
  par_lt i h = ground arith

  module _ (order : IsOrder less) where
    refl_false : (x : ℕ) → less x x ≡ false
    refl_false x = elim (Bool-cases (less x x)) [ inl e ↦ order.asym x x e | inr e ↦ e ]

    module _ (a : ℕ → ℕ) (p : ℕ) (first : 0 < p) (inside : p < n)
        (smaller : less (a (par p)) (a p) ≡ true) (b : Broken a p) where
      up_edge :
          (i : ℕ)
          → 0 < i
          → i < n
          → i ≢ par p
          → par i ≢ par p
          → less (swap a (par p) p (par i)) (swap a (par p) p i) ≡ false
      up_edge i h l s t = elim (eq_cases (par i) p) [
        | inl e ↦
            rw
              (
                e,
                swap-second a (par p) p,
                swap-other a (par p) p i s (λ f. ground (arith, f, e, par_lt i h)),
              )
              (b.skip i h l e first)
        | inr m ↦
            rw (swap-other a (par p) p (par i) t m, swap-other a (par p) p i s (λ f. t (ap par f)))
              (b.edge i h l (λ f. t (ap par f)) m)
      ]

      up_skip :
          (i : ℕ)
          → 0 < i
          → i < n
          → par i ≡ par p
          → 0 < par p
          → less (swap a (par p) p (par (par p))) (swap a (par p) p i) ≡ false
      up_skip i h l e f =
          let q = par p in
          let low = par_lt p first in
          let lower = par_lt q f in
          let upper : less (a (par q)) (a q) ≡ false =
            b.edge q f (omega (arith, low, inside)) (λ g. omega (arith, g, low))
              (λ g. omega (arith, g, low, lower)) in
          let at : swap a q p (par q) ≡ a (par q) =
            swap-other a q p (par q) (λ g. omega (arith, g, lower))
              (λ g. omega (arith, g, low, lower)) in
          elim (eq_cases i p) [
            | inl g ↦ rw (at, g, swap-second a q p) upper
            | inr g ↦
                let below = par_lt i h in
                rw (at, swap-other a q p i (λ k. omega (arith, k, e, below)) g)
                  (order.trans (a (par q)) (a q) (a i) upper (
                    subst (λ k. less (a k) (a i) ≡ false) e
                      (b.edge i h l g (λ k. omega (arith, k, e, low)))))
          ]

      -- `up` moves the place at which the order fails.
      pub up-Broken : Broken (swap a (par p) p) (par p)
      up-Broken = record { edge = up_edge; skip = up_skip }

    kids : (i p : ℕ) → 0 < i → par i ≡ p → (i ≡ 2 * p + 1) ⊎ (i ≡ 2 * p + 2)
    kids i p h e = ground arith

    -- The child that `down` chooses is not below the other.
    pub best :
        (a : ℕ → ℕ) (p q i : ℕ)
        → Chosen less n a p q
        → 0 < i
        → i < n
        → par i ≡ p
        → less (a q) (a i) ≡ false
    best a p q i (inl (e, f)) h l d = elim (kids i p h d) [
      | inl k ↦ rw (e, k) (refl_false (a (2 * p + 1)))
      | inr k ↦ rw (e, k) (f (subst (λ x. x < n) k l))
    ]
    best a p q i (inr (e, f)) h l d = elim (kids i p h d) [
      | inl k ↦ rw (e, k) (order.asym _ _ f)
      | inr k ↦ rw (e, k) (refl_false (a (2 * p + 2)))
    ]

    Chosen-kid : (a : ℕ → ℕ) (p q : ℕ) → Chosen less n a p q → (par q ≡ p) × (p < q)
    Chosen-kid a p q (inl (e, _)) = ground arith
    Chosen-kid a p q (inr (e, _)) = ground arith

    module _ (a : ℕ → ℕ) (p q : ℕ) (inside : q < n) (c : Chosen less n a p q)
        (smaller : less (a p) (a q) ≡ true) (b : Low a p) where
      up_of_q : par q ≡ p
      up_of_q = (Chosen-kid a p q c).0

      p_lt : p < q
      p_lt = (Chosen-kid a p q c).1

      down_edge :
          (i : ℕ)
          → 0 < i
          → i < n
          → i ≢ q
          → par i ≢ q
          → less (swap a p q (par i)) (swap a p q i) ≡ false
      down_edge i h l s t = elim (eq_cases i p) [
        | inl e ↦
            let first : 0 < p = omega (arith, e, h) in
            let low = par_lt p first in
            rw
              (
                e,
                swap-first a p q,
                swap-other a p q (par p) (λ f. omega (arith, f, low))
                    (λ f. omega (arith, f, low, p_lt)),
              )
              (b.broken.skip q (omega (arith, p_lt)) inside up_of_q first)
        | inr m ↦ elim (eq_cases (par i) p) [
          | inl e ↦ rw (e, swap-first a p q, swap-other a p q i m s) (best a p q i c h l e)
          | inr k ↦
              rw (swap-other a p q (par i) k t, swap-other a p q i m s) (b.broken.edge i h l m k)
        ]
      ]

      down_skip :
          (i : ℕ)
          → 0 < i
          → i < n
          → par i ≡ q
          → 0 < q
          → less (swap a p q (par q)) (swap a p q i) ≡ false
      down_skip i h l e f =
          let low = par_lt i h in
          let m : i ≢ p = λ g. omega (arith, g, e, low, p_lt) in
          rw (up_of_q, swap-first a p q, swap-other a p q i m (λ g. omega (arith, g, e, low)))
            (subst (λ k. less (a k) (a i) ≡ false) e
              (b.broken.edge i h l m (λ g. omega (arith, g, e, p_lt))))

      -- `down` moves the place too, and the entry stays below its parent.
      pub down-Low : Low (swap a p q) q
      down-Low = record {
        broken = record { edge = down_edge; skip = down_skip };
        above = λ _. rw (up_of_q, swap-first a p q, swap-second a p q) (order.asym _ _ smaller);
      }

    -- No parent is below its child.
    abbrev pub Sorted : (ℕ → ℕ) → Type 0
    Sorted a = (i : ℕ) → 0 < i → i < n → less (a (par i)) (a i) ≡ false

    -- Nothing fails once the entry at `p` is not below its children either.
    pub Low-Sorted :
        (a : ℕ → ℕ) (p : ℕ)
        → Low a p
        → ((i : ℕ) → 0 < i → i < n → par i ≡ p → less (a p) (a i) ≡ false)
        → Sorted a
    Low-Sorted a p b kids i h l = elim (eq_cases i p) [
      | inl e ↦ rw e (b.above (omega (arith, e, h)))
      | inr m ↦ elim (eq_cases (par i) p) [
        | inl e ↦ rw e (kids i h l e)
        | inr k ↦ b.broken.edge i h l m k
      ]
    ]

    -- In a sorted array nothing is above the first entry.
    pub Sorted-first :
        (a : ℕ → ℕ) (i fuel : ℕ) → i < fuel → Sorted a → i < n → less (a 0) (a i) ≡ false
    Sorted-first a i zero f s l = absurd (omega (arith, f))
    Sorted-first a i (suc fuel) f s l = elim (eq_cases i 0) [
      | inl e ↦ rw e (refl_false (a 0))
      | inr m ↦
          let h : 0 < i = omega (arith, m) in
          let low = par_lt i h in
          order.trans (a 0) (a (par i)) (a i)
            (Sorted-first a (par i) fuel (omega (arith, low, f)) s (omega (arith, low, l)))
            (s i h l)
    ]
