-- ===== src/Cadical/Queue/FirstFree.antt =====
-- The first variable of a list that may be decided.
use ignore_gates.Prelude.{
  ℕ, suc, ◌<◌, ◌≡◌, ap, ◌⊎◌, inl, inr, Bool, true, false, List, [], ◌∷◌, ◌++◌, ◌==◌, if◌then◌else◌,
  any, length, elem, arith, Bool-cases,
}
use ignore_gates.Types.Int.{ℤ, ◌<ℤ◌}
use ignore_gates.Cadical.Queue.Stamps.{Descends, Descends-below}

module _ (free : ℕ → Bool) where
  -- The first free variable of a list, and its place.
  abbrev pub first_free : List ℕ → ℕ
  first_free [] = 0
  first_free (x ∷ w) = if free x then x else first_free w

  pub place : List ℕ → ℕ
  place [] = 0
  place (x ∷ w) = if free x then 0 else suc (place w)

  pub first_free-snoc :
      (w : List ℕ) (x : ℕ)
      → any free w ≡ true
      → (first_free (w ++ (x ∷ [])) ≡ first_free w) × (place (w ++ (x ∷ [])) ≡ place w)
  unfolding place
  first_free-snoc [] x h = cc
  first_free-snoc (y ∷ w) x h = ground (arith, first_free-snoc w x)

  pub here_lem :
      (x : ℕ) (w : List ℕ) → free x ≡ true → (first_free (x ∷ w) ≡ x) × (place (x ∷ w) ≡ 0)
  unfolding place
  here_lem x w h = (rw h, rw h)

  pub later_lem :
      (x : ℕ) (w : List ℕ)
      → free x ≡ false
      → (first_free w ≡ first_free (x ∷ w)) × (suc (place w) ≡ place (x ∷ w))
  unfolding place
  later_lem x w h = (rw h, rw h)

  pub any-snoc : (w : List ℕ) (x : ℕ) → any free w ≡ true → any free (w ++ (x ∷ [])) ≡ true
  any-snoc [] x h = cc
  any-snoc (y ∷ w) x h = ground (arith, any-snoc w x)

  pub place-lt : (w : List ℕ) → any free w ≡ true → place w < length w
  unfolding place
  place-lt [] h = cc
  place-lt (x ∷ w) h = ground (arith, place-lt w)

  pub any-elem : (x : ℕ) (w : List ℕ) → elem x w ≡ true → free x ≡ true → any free w ≡ true
  any-elem x [] m f = cc
  any-elem x (y ∷ w) m f = ground (arith, any-elem x w, λ (e : x ≡ y). ap free e)

  pub first_free-free : (w : List ℕ) → any free w ≡ true → free (first_free w) ≡ true
  first_free-free [] h = cc
  first_free-free (x ∷ w) h = elim (Bool-cases (free x)) [
    | inl e ↦ rw e e
    | inr e ↦ rw e (first_free-free w (ground arith))
  ]

  -- Every free variable of a stamped list is the first one or has an earlier stamp.
  pub first_free-Descends :
      (bt : ℕ → ℤ) (z : ℤ) (x : ℕ) (w : List ℕ)
      → Descends bt z w
      → elem x w ≡ true
      → free x ≡ true
      → (x ≡ first_free w) ⊎ (bt x <ℤ bt (first_free w))
  first_free-Descends bt z x [] d m f = cc
  first_free-Descends bt z x (y ∷ w) d m f = elim (Bool-cases (free y)) [
    | inl here ↦ rw here (elim (Bool-cases (x == y)) [
      | inl e ↦ inl (ground arith)
      | inr e ↦ inr (Descends-below bt (bt y) x w d.1 (ground arith))
    ])
    | inr no_free ↦
        rw no_free
          (first_free-Descends bt (bt y) x w d.1 (ground (arith, λ (e : x ≡ y). ap free e)) f)
  ]

-- Where `x` stands in a list.
pub elem-split :
    (x : ℕ) (w : List ℕ) → elem x w ≡ true → (a : List ℕ) × ((c : List ℕ) × (a ++ (x ∷ c) ≡ w))
elem-split x [] m = cc
elem-split x (y ∷ w) m = elim (Bool-cases (x == y)) [
  | inl e ↦ let same : x ≡ y = ground arith in ([], (w, ap (λ k. k ∷ w) same))
  | inr e ↦ let (a, (c, p)) = elem-split x w (ground arith) in (y ∷ a, (c, ap (λ l. y ∷ l) p))
]
