-- ===== src/Cadical/Queue/Chain.antt =====
-- The links of the queue as a list of variables, from the last to the first.
use ignore_gates.Prelude.{
  ℕ, ◌<◌, ◌≡◌, ◌≢◌, refl, sym, ◌∙◌, true, false, List, [], ◌∷◌, ◌++◌, elem, elem-append, arith,
}
use ignore_gates.Cadical.Queue.{Internal}

abbrev pub head_or : ℕ → List ℕ → ℕ
head_or n [] = n
head_or n (x ∷ xs) = x

abbrev pub end_or : ℕ → List ℕ → ℕ
end_or n [] = n
end_or n (x ∷ xs) = end_or x xs

-- `n` is the variable after the list, 0 for none.
abbrev pub Chain : (ℕ → ℕ) → (ℕ → ℕ) → ℕ → List ℕ → Type 0
Chain pr nx n [] = Unit {0}
Chain pr nx n (x ∷ xs) = (nx x ≡ n) × (pr x ≡ head_or 0 xs) × Chain pr nx x xs

-- Variables, each once.
abbrev pub Once : List ℕ → Type 0
Once [] = Unit {0}
Once (x ∷ xs) = (0 < x) × (elem x xs ≡ false) × Once xs

pub record IsList (s : Internal) (w : List ℕ) : Type 0 where
  pub at_last : s.last ≡ head_or 0 w
  pub at_first : s.first ≡ end_or 0 w
  pub chain : Chain s.prev s.next 0 w
  pub once : Once w

pub end_or-append : (n : ℕ) (a b : List ℕ) → end_or n (a ++ b) ≡ end_or (end_or n a) b
end_or-append n [] b = refl
end_or-append n (x ∷ a) b = end_or-append x a b

pub end_or-ne : (y z : ℕ) (a : List ℕ) → y ≢ z → elem y a ≡ false → end_or z a ≢ y
end_or-ne y z [] n h = λ e. n (sym e)
end_or-ne y z (c ∷ a) n h = end_or-ne y c a (ground arith) (ground arith)

pub end_or-elem : (y : ℕ) (a : List ℕ) → elem (end_or y a) (y ∷ a) ≡ true
end_or-elem y [] = ground arith
end_or-elem y (c ∷ a) = ground (arith, end_or-elem c a)

pub Once-positive : (x : ℕ) (a : List ℕ) → Once a → elem x a ≡ true → 0 < x
Once-positive x [] o h = cc
Once-positive x (y ∷ a) o h = ground (arith, Once-positive x a o.2)

-- Functions that agree on the list have the same chains.
pub Chain-agree :
    (pr nx pr' nx' : ℕ → ℕ) (n : ℕ) (w : List ℕ)
    → ((k : ℕ) → elem k w ≡ true → (pr' k ≡ pr k) × (nx' k ≡ nx k))
    → Chain pr nx n w
    → Chain pr' nx' n w
Chain-agree pr nx pr' nx' n [] g c = tt
Chain-agree pr nx pr' nx' n (x ∷ w) g c = (
  (g x (ground arith)).1 ∙ c.0,
  (g x (ground arith)).0 ∙ c.1,
  Chain-agree pr nx pr' nx' x w (λ k m. g k (ground arith)) c.2,
)

-- What the links of a variable inside a chain are.
pub Chain-at :
    (pr nx : ℕ → ℕ) (n x : ℕ) (a b : List ℕ)
    → Chain pr nx n (a ++ (x ∷ b))
    → (nx x ≡ end_or n a) × (pr x ≡ head_or 0 b)
Chain-at pr nx n x [] b c = (c.0, c.1)
Chain-at pr nx n x (y ∷ a) b c = Chain-at pr nx y x a b c.2

pub Once-append :
    (x : ℕ) (a b : List ℕ)
    → Once (a ++ (x ∷ b))
    → Once (a ++ b) × (elem x (a ++ b) ≡ false) × (0 < x)
Once-append x [] b o = (o.2, o.1, o.0)
Once-append x (y ∷ a) b o =
    let ih = Once-append x a b o.2 in
    (
      (o.0, ground (arith, o.1, elem-append y a b, elem-append y a (x ∷ b)), ih.0),
      ground (arith, ih.1, o.1, elem-append y a (x ∷ b)),
      ih.2,
    )
