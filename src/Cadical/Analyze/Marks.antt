-- ===== src/Cadical/Analyze/Marks.antt =====
-- How many literals of the trail are marked, and what marking a variable changes.
use ignore_gates.Prelude.{
  ℕ, suc, ◌+◌, ◌<◌, ◌≡◌, ◌≢◌, refl, sym, ap, subst, ◌∙◌, inl, inr, Bool, true, false, ◌&&◌, [], ◌∷◌,
  if◌then◌else◌, arith, any, elem, All,
}
use ignore_gates.Types.{Cl, var}
use ignore_gates.Cadical.Heap.Indexed.{eq_cases}

-- How many literals pass the test.
abbrev pub tally : (ℕ → Bool) → Cl → ℕ
tally p [] = 0
tally p (x ∷ xs) = tally p xs + (if p x then 1 else 0)

pub tally-any : (p q : ℕ → Bool) (xs : Cl) → tally p xs ≡ 0 → any (λ x. p x && q x) xs ≡ false
tally-any p q [] h = refl
tally-any p q (x ∷ xs) h = ground (arith, tally-any p q xs)

pub tally-zero :
    (p : ℕ → Bool) (xs : Cl) → ((x : ℕ) → elem x xs ≡ true → p x ≡ false) → tally p xs ≡ 0
tally-zero p [] h = refl
tally-zero p (x ∷ xs) h =
    rw (h x (ground arith), tally-zero p xs (λ y k. h y (ground (arith, k)))) refl

pub tally-elem : (p : ℕ → Bool) (x : ℕ) (xs : Cl) → elem x xs ≡ true → p x ≡ true → 0 < tally p xs
tally-elem p x [] h e = absurd cc
tally-elem p x (y ∷ ys) h e = elim (eq_cases x y) [
  | inl d ↦ rw (sym (ap p d) ∙ e) (omega arith)
  | inr m ↦ omega (arith, tally-elem p x ys (ground arith) e)
]

pub any-elem : (p : ℕ → Bool) (x : ℕ) (xs : Cl) → elem x xs ≡ true → p x ≡ true → any p xs ≡ true
any-elem p x [] h e = absurd cc
any-elem p x (y ∷ ys) h e = elim (eq_cases x y) [
  | inl d ↦ rw (sym (ap p d) ∙ e) refl
  | inr m ↦ ground (arith, any-elem p x ys (ground arith) e)
]

pub any_mono :
    (p q : ℕ → Bool) (xs : Cl)
    → ((x : ℕ) → p x ≡ true → q x ≡ true)
    → any p xs ≡ true
    → any q xs ≡ true
any_mono p q [] h e = e
any_mono p q (x ∷ xs) h e = ground (arith, h x, any_mono p q xs h)

-- No literal of the variable.
abbrev pub NoVar : ℕ → Cl → Type 0
NoVar v xs = All (λ x. var x ≢ v) xs

-- No variable twice.
abbrev pub OneEach : Cl → Type 0
OneEach [] = Unit {0}
OneEach (x ∷ xs) = NoVar (var x) xs × OneEach xs

pub NoVar-elem : (v x : ℕ) (xs : Cl) → NoVar v xs → elem x xs ≡ true → var x ≢ v
NoVar-elem v x [] n h = absurd cc
NoVar-elem v x (y ∷ ys) n h = elim (eq_cases x y) [
  | inl d ↦ subst (λ z. var z ≢ v) (sym d) n.0
  | inr m ↦ NoVar-elem v x ys n.1 (ground arith)
]

-- Two tests that differ at the variable `v` alone.
module _ (p q : ℕ → Bool) (v : ℕ) (same : (x : ℕ) → var x ≢ v → p x ≡ q x) where
  tally_absent : (xs : Cl) → NoVar v xs → tally p xs ≡ tally q xs
  tally_absent [] n = refl
  tally_absent (x ∷ xs) n = rw (same x n.0, tally_absent xs n.1) refl

  pub tally_one :
      (y : ℕ) (xs : Cl)
      → OneEach xs
      → elem y xs ≡ true
      → var y ≡ v
      → p y ≡ false
      → q y ≡ true
      → tally q xs ≡ suc (tally p xs)
  tally_one y [] o h e f g = absurd cc
  tally_one y (x ∷ xs) o h e f g = elim (eq_cases y x) [
    | inl d ↦
        let none = tally_absent xs (subst (λ z. NoVar z xs) (ap var (sym d) ∙ e) o.0) in
        rw (sym (ap p d) ∙ f, sym (ap q d) ∙ g, none) (omega arith)
    | inr m ↦
        let inside : elem y xs ≡ true = ground arith in
        let other : var x ≢ v = λ k. NoVar-elem (var x) y xs o.0 inside (e ∙ sym k) in
        rw (same x other, tally_one y xs o.1 inside e f g) (omega arith)
  ]
