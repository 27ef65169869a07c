-- ===== src/Cadical/Bump/Sorts.antt =====
-- The sort of the analyzed literals by rank, and the last of them that is bumped.
use ignore_gates.Prelude.{
  ℕ, ◌≤◌, ◌≡◌, ◌≢◌, refl, sym, ap, ◌∙◌, subst, ◌⊎◌, inl, inr, Bool, true, false, ◌||◌, [], ◌∷◌,
  ◌==◌, if◌then◌else◌, arith, elem, All, Bool-cases,
}
use ignore_gates.Types.{Cl, var}
use ignore_gates.Cadical.Queue.{Internal}
use ignore_gates.Cadical.Heap.Indexed.{eq_cases}
use ignore_gates.Cadical.Bump.{insert_bumped, sort_bumped, bumped_smaller, analyze_bumped_rank}

-- The ranks go up.
abbrev pub Ascends : (ℕ → ℕ) → Cl → Type 0
Ascends rank [] = Unit {0}
Ascends rank (x ∷ xs) = All (λ y. rank x ≤ rank y) xs × Ascends rank xs

insert_bumped-All :
    (P : ℕ → Type 0) (s : Internal) (x : ℕ) (xs : Cl)
    → P x
    → All P xs
    → All P (insert_bumped s x xs)
unfolding insert_bumped
insert_bumped-All P s x [] h a = (h, tt)
insert_bumped-All P s x (y ∷ ys) h a = elim (Bool-cases (bumped_smaller s y x)) [
  | inl e ↦ rw e (a.0, insert_bumped-All P s x ys h a.1)
  | inr e ↦ rw e (h, a)
]

All-above :
    (rank : ℕ → ℕ) (n m : ℕ) (xs : Cl) → n ≤ m → All (λ y. m ≤ rank y) xs → All (λ y. n ≤ rank y) xs
All-above rank n m [] h a = tt
All-above rank n m (x ∷ xs) h a = (omega (arith, h, a.0), All-above rank n m xs h a.1)

insert_bumped-Ascends :
    (s : Internal) (x : ℕ) (xs : Cl)
    → Ascends (analyze_bumped_rank s) xs
    → Ascends (analyze_bumped_rank s) (insert_bumped s x xs)
unfolding insert_bumped
insert_bumped-Ascends s x [] a = (tt, tt)
insert_bumped-Ascends s x (y ∷ ys) a =
    let rank = analyze_bumped_rank s in
    elim (Bool-cases (bumped_smaller s y x)) [
      | inl e ↦
          let less : rank y ≤ rank x = ground (arith, e) in
          rw e (
            insert_bumped-All (λ z. rank y ≤ rank z) s x ys less a.0,
            insert_bumped-Ascends s x ys a.1,
          )
      | inr e ↦
          let less : rank x ≤ rank y = ground (arith, e) in
          rw e ((less, All-above rank (rank x) (rank y) ys less a.0), a)
    ]

pub sort_bumped-Ascends :
    (s : Internal) (xs : Cl) → Ascends (analyze_bumped_rank s) (sort_bumped s xs)
unfolding sort_bumped
sort_bumped-Ascends s [] = tt
sort_bumped-Ascends s (x ∷ xs) =
    insert_bumped-Ascends s x (sort_bumped s xs) (sort_bumped-Ascends s xs)

insert_bumped-elem :
    (s : Internal) (x k : ℕ) (xs : Cl) → elem k (insert_bumped s x xs) ≡ elem k (x ∷ xs)
unfolding insert_bumped
insert_bumped-elem s x k [] = refl
insert_bumped-elem s x k (y ∷ ys) = elim (Bool-cases (bumped_smaller s y x)) [
  | inl e ↦ rw e (ap (λ b. (k == y) || b) (insert_bumped-elem s x k ys) ∙ ground arith)
  | inr e ↦ rw e refl
]

pub sort_bumped-elem : (s : Internal) (k : ℕ) (xs : Cl) → elem k (sort_bumped s xs) ≡ elem k xs
unfolding sort_bumped
sort_bumped-elem s k [] = refl
sort_bumped-elem s k (x ∷ xs) =
    insert_bumped-elem s x k (sort_bumped s xs) ∙ ap (λ b. (k == x) || b) (sort_bumped-elem s k xs)

module _ (outs : ℕ → Bool) (rank : ℕ → ℕ) where
  -- The variable of the last literal that is no gate output, or `d`.
  abbrev pub last_bumped : Cl → ℕ → ℕ
  last_bumped [] d = d
  last_bumped (x ∷ xs) d = last_bumped xs (if outs (var x) then d else var x)

  -- `v` is the variable of a literal of greatest rank among those that are no gate output.
  pub record IsGreatest (xs : Cl) (v : ℕ) : Type 0 where
    pub literal : ℕ
    pub inside : elem literal xs ≡ true
    pub no_output : outs (var literal) ≡ false
    pub names : v ≡ var literal
    pub greatest : (x : ℕ) → elem x xs ≡ true → outs (var x) ≡ false → rank x ≤ rank literal

  abbrev pub OnlyOutputs : Cl → Type 0
  OnlyOutputs xs = (x : ℕ) → elem x xs ≡ true → outs (var x) ≡ true

  All-at : (n : ℕ) (xs : Cl) (y : ℕ) → All (λ z. n ≤ rank z) xs → elem y xs ≡ true → n ≤ rank y
  All-at n [] y a m = absurd (ground (arith, m))
  All-at n (x ∷ xs) y a m = elim (eq_cases y x) [
    | inl d ↦ subst (λ z. n ≤ rank z) (sym d) a.0
    | inr d ↦ All-at n xs y a.1 (ground (arith, m, d))
  ]

  IsGreatest-cons :
      (z v : ℕ) (zs : Cl) → Ascends rank (z ∷ zs) → IsGreatest zs v → IsGreatest (z ∷ zs) v
  IsGreatest-cons z v zs a g = record {
    literal = g.literal;
    inside = ground (arith, g.inside);
    no_output = g.no_output;
    names = g.names;
    greatest = λ x m n. elim (eq_cases x z) [
      | inl d ↦
          subst (λ y. rank y ≤ rank g.literal) (sym d) (All-at (rank z) zs g.literal a.0 g.inside)
      | inr d ↦ g.greatest x (ground (arith, m, d)) n
    ];
  }

  IsGreatest-first :
      (z v : ℕ) (zs : Cl)
      → OnlyOutputs zs
      → outs (var z) ≡ false
      → v ≡ var z
      → IsGreatest (z ∷ zs) v
  IsGreatest-first z v zs only h e = record {
    literal = z;
    inside = ground arith;
    no_output = h;
    names = e;
    greatest = λ x m n. elim (eq_cases x z) [
      | inl d ↦ ground (arith, ap rank d)
      | inr d ↦
          let there : elem x zs ≡ true = ground (arith, m, d) in
          absurd (apart (sym (only x there) ∙ n))
    ];
  }
    where
      apart : true ≢ false
      apart e = cc

  OnlyOutputs-cons : (z : ℕ) (zs : Cl) → OnlyOutputs zs → outs (var z) ≡ true → OnlyOutputs (z ∷ zs)
  OnlyOutputs-cons z zs only h x m = elim (eq_cases x z) [
    | inl d ↦ ap (λ y. outs (var y)) d ∙ h
    | inr d ↦ only x (ground (arith, m, d))
  ]

  pub last_bumped-cases :
      (xs : Cl) (d : ℕ)
      → Ascends rank xs
      → ((last_bumped xs d ≡ d) × OnlyOutputs xs) ⊎ IsGreatest xs (last_bumped xs d)
  last_bumped-cases [] d a = inl (refl, λ x m. absurd (ground (arith, m)))
  last_bumped-cases (z ∷ zs) d a =
      let v = last_bumped (z ∷ zs) d in
      elim (last_bumped-cases zs (if outs (var z) then d else var z) a.1) [
        | inl (e, only) ↦ elim (Bool-cases (outs (var z))) [
          | inl h ↦ inl (e ∙ ap (λ b. if b then d else var z) h, OnlyOutputs-cons z zs only h)
          | inr h ↦ inr (IsGreatest-first z v zs only h (e ∙ ap (λ b. if b then d else var z) h))
        ]
        | inr g ↦ inr (IsGreatest-cons z v zs a g)
      ]

  -- The same for a list with the same literals as a sorted one.
  pub sorted-IsGreatest :
      (xs ys : Cl) (d v : ℕ)
      → ((k : ℕ) → elem k xs ≡ elem k ys)
      → Ascends rank xs
      → v ≡ last_bumped xs d
      → (x : ℕ) → elem x ys ≡ true
      → outs (var x) ≡ false
      → IsGreatest ys v
  sorted-IsGreatest xs ys d v same a e x m n = elim (last_bumped-cases xs d a) [
    | inl (_, only) ↦ absurd (apart (sym (only x (same x ∙ m)) ∙ n))
    | inr g ↦ record {
      literal = g.literal;
      inside = sym (same g.literal) ∙ g.inside;
      no_output = g.no_output;
      names = e ∙ g.names;
      greatest = λ y h k. g.greatest y (same y ∙ h) k;
    }
  ]
    where
      apart : true ≢ false
      apart e = cc
