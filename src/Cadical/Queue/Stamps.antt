-- ===== src/Cadical/Queue/Stamps.antt =====
-- The time stamps of the queue, `btab`, descend from the last variable to the first.
use ignore_gates.Prelude.{
  ℕ, ◌≡◌, ◌≢◌, refl, sym, ◌∙◌, ap, subst, inl, inr, true, false, List, [], ◌∷◌, ◌++◌, ◌==◌, elem,
  elem-append, arith, Bool-cases,
}
use ignore_gates.Types.Int.{ℤ, ◌<ℤ◌, ◌≤ℤ◌, suc_ℤ, pred_ℤ, pred_ℤ-lt}
use ignore_gates.Cadical.Queue.{Internal, dequeue, push_first}
use ignore_gates.Cadical.Queue.Chain.{end_or-elem, end_or, IsList}
use ignore_gates.Cadical.Queue.Links.{elem-ne}

abbrev pub Descends : (ℕ → ℤ) → ℤ → List ℕ → Type 0
Descends bt z [] = Unit {0}
Descends bt z (x ∷ w) = (bt x <ℤ z) × Descends bt (bt x) w

-- The queue of the solver, with its variables from the last to the first: linked both ways, stamped
-- in order and not past the counter; the pointer `unassigned` is in the list, `bumped` is not past
-- its stamp, and every variable with a stamp past `bumped` is assigned.
pub record IsQueue (s : Internal) (w : List ℕ) : Type 0 where
  pub linked : IsList s w
  pub stamped : Descends s.btab (suc_ℤ s.stats_bumped) w
  pub inside : elem s.unassigned w ≡ true
  pub mark : s.bumped ≤ℤ s.btab s.unassigned
  pub past : (x : ℕ) → elem x w ≡ true → s.bumped <ℤ s.btab x → s.assigned x ≡ true

pub Descends-weaken :
    (bt : ℕ → ℤ) (y z : ℤ) (w : List ℕ) → y <ℤ z → Descends bt y w → Descends bt z w
Descends-weaken bt y z [] h d = tt
Descends-weaken bt y z (x ∷ w) h d = (omega (arith, d.0), d.1)

pub Descends-drop :
    (bt : ℕ → ℤ) (z : ℤ) (x : ℕ) (a b : List ℕ)
    → Descends bt z (a ++ (x ∷ b))
    → Descends bt z (a ++ b)
Descends-drop bt z x [] b d = Descends-weaken bt (bt x) z b d.0 d.1
Descends-drop bt z x (y ∷ a) b d = (d.0, Descends-drop bt (bt y) x a b d.1)

pub Descends-agree :
    (bt bt' : ℕ → ℤ) (z : ℤ) (w : List ℕ)
    → ((k : ℕ) → elem k w ≡ true → bt' k ≡ bt k)
    → Descends bt z w
    → Descends bt' z w
Descends-agree bt bt' z [] g d = tt
Descends-agree bt bt' z (x ∷ w) g d =
    let same = g x (ground arith) in
    (
      subst (λ v. v <ℤ z) (sym same) d.0,
      subst (λ v. Descends bt' v w) (sym same)
          (Descends-agree bt bt' (bt x) w (λ k m. g k (ground arith)) d.1),
    )

pub Descends-snoc :
    (bt : ℕ → ℤ) (z : ℤ) (x y : ℕ) (w : List ℕ)
    → bt x <ℤ bt (end_or y w)
    → Descends bt z (y ∷ w)
    → Descends bt z ((y ∷ w) ++ (x ∷ []))
Descends-snoc bt z x y [] h d = (d.0, (h, tt))
Descends-snoc bt z x y (c ∷ w) h d = (d.0, Descends-snoc bt (bt y) x c w h d.1)

-- Every stamp of the list is below the bound.
pub Descends-below :
    (bt : ℕ → ℤ) (z : ℤ) (x : ℕ) (w : List ℕ) → Descends bt z w → elem x w ≡ true → bt x <ℤ z
Descends-below bt z x [] d m = cc
Descends-below bt z x (y ∷ w) d m = elim (Bool-cases (x == y)) [
  | inl e ↦ let same : x ≡ y = ground arith in subst (λ v. bt v <ℤ z) (sym same) d.0
  | inr e ↦ omega (arith, Descends-below bt (bt y) x w d.1 (ground arith), d.0)
]

-- A variable with a later stamp than `x` stands before it in the list.
pub Descends-before :
    (bt : ℕ → ℤ) (z : ℤ) (x y : ℕ) (a b : List ℕ)
    → Descends bt z (a ++ (x ∷ b))
    → elem y (a ++ (x ∷ b)) ≡ true
    → bt x <ℤ bt y
    → elem y a ≡ true
Descends-before bt z x y [] b d m h = elim (Bool-cases (y == x)) [
  | inl e ↦
      let same : y ≡ x = ground arith in absurd (omega (arith, subst (λ v. bt x <ℤ bt v) same h))
  | inr e ↦ absurd (omega (arith, Descends-below bt (bt x) y b d.1 (ground arith), h))
]
Descends-before bt z x y (c ∷ a) b d m h = elim (Bool-cases (y == c)) [
  | inl e ↦ ground arith
  | inr e ↦ ground (arith, Descends-before bt (bt c) x y a b d.1 (ground arith) h)
]

-- And the other way round.
pub Descends-after :
    (bt : ℕ → ℤ) (z : ℤ) (x y : ℕ) (a b : List ℕ)
    → Descends bt z (a ++ (x ∷ b))
    → elem y a ≡ true
    → bt x <ℤ bt y
Descends-after bt z x y [] b d m = cc
Descends-after bt z x y (c ∷ a) b d m = elim (Bool-cases (y == c)) [
  | inl e ↦
      let same : c ≡ y = ground arith in
      let here : elem x (a ++ (x ∷ b)) ≡ true = ground (arith, elem-append x a (x ∷ b)) in
      subst (λ v. bt x <ℤ bt v) same (Descends-below bt (bt c) x (a ++ (x ∷ b)) d.1 here)
  | inr e ↦ Descends-after bt (bt c) x y a b d.1 (ground arith)
]

pub Descends-right : (bt : ℕ → ℤ) (z : ℤ) (a w : List ℕ) → Descends bt z (a ++ w) → Descends bt z w
Descends-right bt z [] w d = d
Descends-right bt z (x ∷ a) w d =
    Descends-weaken bt (bt x) z w d.0 (Descends-right bt (bt x) a w d.1)

-- What `dequeue` and `push_first` leave alone.
pub dequeue_rest :
    (s : Internal) (x : ℕ)
    → ((dequeue s x).btab ≡ s.btab)
      × ((dequeue s x).assigned ≡ s.assigned)
      × ((dequeue s x).aux ≡ s.aux)
      × ((dequeue s x).i2e ≡ s.i2e)
      × ((dequeue s x).stats_bumped ≡ s.stats_bumped)
unfolding dequeue
dequeue_rest s x = (ground arith, ground arith, ground arith, ground arith, ground arith)

push_first_stamp :
    (s : Internal) (x : ℕ)
    → s.first ≢ x
    → ((push_first s x).btab x ≡ pred_ℤ (s.btab s.first))
      × ((k : ℕ) → k ≢ x → (push_first s x).btab k ≡ s.btab k)
unfolding push_first
push_first_stamp s x n = (ground arith, λ k h. ground arith)

-- Pushing to the front of a list that is not empty keeps the stamps in order.
pub push_first-Descends :
    (s : Internal) (z : ℤ) (x y : ℕ) (w : List ℕ)
    → elem x (y ∷ w) ≡ false
    → s.first ≡ end_or y w
    → Descends s.btab z (y ∷ w)
    → Descends (push_first s x).btab z ((y ∷ w) ++ (x ∷ []))
push_first-Descends s z x y w out f d =
    let g =
      push_first_stamp s x
        (λ e. elem-ne (end_or y w) x (y ∷ w) (end_or-elem y w) out (sym f ∙ e)) in
    let end_stamp : (push_first s x).btab (end_or y w) ≡ s.btab s.first =
      g.1 (end_or y w) (elem-ne (end_or y w) x (y ∷ w) (end_or-elem y w) out) ∙ ap s.btab (sym f) in
    Descends-snoc (push_first s x).btab z x y w
      (subst (λ v. v <ℤ (push_first s x).btab (end_or y w)) (sym g.0)
        (subst (λ v. pred_ℤ (s.btab s.first) <ℤ v) (sym end_stamp) (pred_ℤ-lt (s.btab s.first))))
      (Descends-agree s.btab (push_first s x).btab z (y ∷ w)
        (λ k m. g.1 k (elem-ne k x (y ∷ w) m out)) d)

pub push_first_rest :
    (s : Internal) (x : ℕ)
    → ((push_first s x).assigned ≡ s.assigned)
      × ((push_first s x).aux ≡ s.aux)
      × ((push_first s x).i2e ≡ s.i2e)
      × ((push_first s x).stats_bumped ≡ s.stats_bumped)
unfolding push_first
push_first_rest s x = (refl, refl, refl, refl)
