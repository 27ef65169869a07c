-- ===== src/Cadical/Queue/Links.antt =====
-- What taking out and adding a variable does to the links of the queue.
use ignore_gates.Prelude.{
  ℕ, ◌<◌, ◌≡◌, ◌≢◌, refl, sym, ◌∙◌, ap, true, false, List, [], ◌∷◌, ◌++◌, ◌==◌, if◌then◌else◌, elem,
  elem-append, arith, if_eq, if_ne, append-nil,
}
use ignore_gates.Cadical.Queue.{Internal, dequeue, enqueue, push_first}
use ignore_gates.Cadical.Queue.Chain.{
  head_or, end_or, Chain, Once, IsList, end_or-append, end_or-ne, Once-positive, Chain-agree,
  Chain-at, Once-append,
}

-- Functions that differ from the links as `dequeue` leaves them.
record Unlinks (pr nx pr' nx' : ℕ → ℕ) (x : ℕ) : Type 0 where
  prev_is : (k : ℕ) → 0 < k → pr' k ≡ (if k == nx x then pr x else pr k)
  next_is : (k : ℕ) → 0 < k → nx' k ≡ (if k == pr x then nx x else nx k)

pub elem-ne : (k y : ℕ) (b : List ℕ) → elem k b ≡ true → elem y b ≡ false → k ≢ y
elem-ne k y b h g e = cc (ap (λ z. elem z b) e)

head_or-ne : (y : ℕ) (b : List ℕ) → 0 < y → elem y b ≡ false → y ≢ head_or 0 b
head_or-ne y [] p h = omega arith
head_or-ne y (z ∷ b) p h = ground arith

pub elem-tail : (n x : ℕ) (b : List ℕ) → elem n (x ∷ b) ≡ false → (n ≢ x) × (elem n b ≡ false)
elem-tail n x b h = (ground arith, ground arith)

pub elem-without :
    (y x : ℕ) (a b : List ℕ)
    → elem y (a ++ (x ∷ b)) ≡ false
    → (elem y a ≡ false) × (elem y b ≡ false)
elem-without y x a b h = ground (arith, elem-append y a (x ∷ b))

module _ (pr nx pr' nx' : ℕ → ℕ) (x : ℕ) (u : Unlinks pr nx pr' nx' x) where
  keep_next : (k : ℕ) → 0 < k → k ≢ pr x → nx' k ≡ nx k
  keep_next k p h = u.next_is k p ∙ if_ne k (pr x) (nx x) (nx k) h

  keep_prev : (k : ℕ) → 0 < k → k ≢ nx x → pr' k ≡ pr k
  keep_prev k p h = u.prev_is k p ∙ if_ne k (nx x) (pr x) (pr k) h

  -- The part before `x`, which is what stands behind it in the queue.
  Chain-relink_here :
      (n : ℕ) (b : List ℕ)
      → Once (x ∷ b)
      → elem n (x ∷ b) ≡ false
      → Chain pr nx n (x ∷ b)
      → Chain pr' nx' n b
  Chain-relink_here n [] o out c = tt
  Chain-relink_here n (p ∷ b) o out c =
      let apart : n ≢ p = (elem-tail n p b (elem-tail n x (p ∷ b) out).1).0 in
      let absent : elem n b ≡ false = (elem-tail n p b (elem-tail n x (p ∷ b) out).1).1 in
      (
        u.next_is p o.2.0 ∙ if_eq p (pr x) (nx x) (nx p) (sym c.1) ∙ c.0,
        keep_prev p o.2.0 (λ e. apart (sym (e ∙ c.0))) ∙ c.2.1,
        Chain-agree pr nx pr' nx' p b
            (λ k m.
              let pos : 0 < k = Once-positive k b o.2.2 m in
              (
                keep_prev k pos (λ e. elem-ne k n b m absent (e ∙ c.0)),
                keep_next k pos (λ e. elem-ne k p b m o.2.1 (e ∙ c.1)),
              ))
            c.2.2,
      )

  Chain-relink :
      (n : ℕ) (a b : List ℕ)
      → Once (a ++ (x ∷ b))
      → elem n (a ++ (x ∷ b)) ≡ false
      → Chain pr nx n (a ++ (x ∷ b))
      → Chain pr' nx' n (a ++ b)
  Chain-relink n [] b o out c = Chain-relink_here n b o out c
  Chain-relink n (y ∷ []) b o out c =
      let apart = elem-without y x [] b o.1 in
      (
        keep_next y o.0 (λ e. head_or-ne y b o.0 apart.1 (e ∙ c.2.1)) ∙ c.0,
        u.prev_is y o.0 ∙ if_eq y (nx x) (pr x) (pr y) (sym c.2.0) ∙ c.2.1,
        Chain-relink y [] b o.2 o.1 c.2,
      )
  Chain-relink n (y ∷ z ∷ a) b o out c =
      let at = Chain-at pr nx y x (z ∷ a) b c.2 in
      let apart = elem-without y x (z ∷ a) b o.1 in
      let ne = elem-tail y z a apart.0 in
      (
        keep_next y o.0 (λ e. head_or-ne y b o.0 apart.1 (e ∙ at.1)) ∙ c.0,
        keep_prev y o.0 (λ e. end_or-ne y z a ne.0 ne.1 (sym (e ∙ at.0))) ∙ c.1,
        Chain-relink y (z ∷ a) b o.2 o.1 c.2,
      )

dequeue-Unlinks :
    (s : Internal) (x : ℕ)
    → s.prev x ≢ x
    → Unlinks s.prev s.next (dequeue s x).prev (dequeue s x).next x
unfolding dequeue
dequeue-Unlinks s x n = record { prev_is = λ k pos. ground arith; next_is = λ k pos. ground arith }

-- The ends after `dequeue`.
dequeue_ends :
    (s : Internal) (x : ℕ)
    → s.prev x ≢ x
    → ((dequeue s x).first ≡ (if s.prev x == 0 then s.next x else s.first))
      × ((dequeue s x).last ≡ (if s.next x == 0 then s.prev x else s.last))
unfolding dequeue
dequeue_ends s x n = (ground arith, ground arith)

pub Once-zero : (w : List ℕ) → Once w → elem 0 w ≡ false
Once-zero [] o = refl
Once-zero (x ∷ w) o = ground (arith, Once-zero w o.2)

last_left :
    (a b : List ℕ) (x n p l : ℕ)
    → Once (a ++ (x ∷ b))
    → n ≡ end_or 0 a
    → p ≡ head_or 0 b
    → l ≡ head_or 0 (a ++ (x ∷ b))
    → (if n == 0 then p else l) ≡ head_or 0 (a ++ b)
last_left [] b x n p l o hn hp hl = if_eq n 0 p l hn ∙ hp
last_left (y ∷ a) b x n p l o hn hp hl =
    let zero_out = elem-without 0 x a b (Once-zero (a ++ (x ∷ b)) o.2) in
    let behind : n ≢ 0 = λ e. end_or-ne 0 y a (omega (arith, o.0)) zero_out.0 (sym hn ∙ e) in
    if_ne n 0 p l behind ∙ hl

first_left :
    (a b : List ℕ) (x n p f : ℕ)
    → Once b
    → n ≡ end_or 0 a
    → p ≡ head_or 0 b
    → f ≡ end_or 0 (a ++ (x ∷ b))
    → (if p == 0 then n else f) ≡ end_or 0 (a ++ b)
first_left a [] x n p f o hn hp hf = if_eq p 0 n f hp ∙ hn ∙ ap (end_or 0) (sym (append-nil a))
first_left a (q ∷ b) x n p f o hn hp hf =
    if_ne p 0 n f (omega (arith, o.0))
    ∙ hf
    ∙ end_or-append 0 a (x ∷ q ∷ b)
    ∙ sym (end_or-append 0 a (q ∷ b))

pub Once-right : (a b : List ℕ) → Once (a ++ b) → Once b
Once-right [] b o = o
Once-right (x ∷ a) b o = Once-right a b o.2

-- `dequeue` takes a variable out of the list, wherever it stands.
pub dequeue-IsList :
    (s : Internal) (x : ℕ) (a b : List ℕ) → IsList s (a ++ (x ∷ b)) → IsList (dequeue s x) (a ++ b)
dequeue-IsList s x a b v =
    let at = Chain-at s.prev s.next 0 x a b v.chain in
    let fresh = Once-append x a b v.once in
    let right = Once-right a (x ∷ b) v.once in
    let prev_ne : s.prev x ≢ x = λ e. head_or-ne x b right.0 right.1 (sym e ∙ at.1) in
    let ends = dequeue_ends s x prev_ne in
    record {
      at_last = ends.1 ∙ last_left a b x (s.next x) (s.prev x) s.last v.once at.0 at.1 v.at_last;
      at_first =
          ends.0 ∙ first_left a b x (s.next x) (s.prev x) s.first right.2 at.0 at.1 v.at_first;
      chain =
          Chain-relink s.prev s.next (dequeue s x).prev (dequeue s x).next x
            (dequeue-Unlinks s x prev_ne) 0 a b v.once (Once-zero (a ++ (x ∷ b)) v.once) v.chain;
      once = fresh.0;
    }

-- A state in which a variable was added at the end of the links.
pub record AddsLast (s t : Internal) (x : ℕ) : Type 0 where
  pub last_is : t.last ≡ x
  pub first_is : t.first ≡ (if s.last == 0 then x else s.first)
  pub next_x : t.next x ≡ 0
  pub prev_x : t.prev x ≡ s.last
  pub prev_other : (k : ℕ) → k ≢ x → t.prev k ≡ s.prev k
  pub next_other : (k : ℕ) → 0 < k → k ≢ x → t.next k ≡ (if k == s.last then x else s.next k)

enqueue-AddsLast : (s : Internal) (x : ℕ) → s.last ≢ x → AddsLast s (enqueue s x) x
unfolding enqueue
enqueue-AddsLast s x n = record {
  last_is = ground arith;
  first_is = ground arith;
  next_x = ground arith;
  prev_x = ground arith;
  prev_other = λ k h. ground arith;
  next_other = λ k p h. ground arith;
}

pub head_or-away : (x : ℕ) (w : List ℕ) → 0 < x → elem x w ≡ false → head_or 0 w ≢ x
head_or-away x w p out = λ e. head_or-ne x w p out (sym e)

pub AddsLast-IsList :
    (s t : Internal) (x : ℕ) (w : List ℕ)
    → 0 < x
    → elem x w ≡ false
    → AddsLast s t x
    → IsList s w
    → IsList t (x ∷ w)
AddsLast-IsList s t x [] pos out l v = record {
  at_last = l.last_is;
  at_first = l.first_is ∙ if_eq s.last 0 x s.first v.at_last;
  chain = (l.next_x, l.prev_x ∙ v.at_last, tt);
  once = (pos, refl, tt);
}
AddsLast-IsList s t x (y ∷ w) pos out l v =
    let ne = elem-tail x y w out in
    let yx : y ≢ x = λ e. ne.0 (sym e) in
    record {
      at_last = l.last_is;
      at_first =
          l.first_is
          ∙ if_ne s.last 0 x s.first (λ e. ground (arith, v.at_last, v.once.0))
          ∙ v.at_first;
      chain = (
        l.next_x,
        l.prev_x ∙ v.at_last,
        (
          l.next_other y v.once.0 yx ∙ if_eq y s.last x (s.next y) (sym v.at_last),
          l.prev_other y yx ∙ v.chain.1,
          Chain-agree s.prev s.next t.prev t.next y w
              (λ k m.
                let kp : 0 < k = Once-positive k w v.once.2 m in
                let kx : k ≢ x = elem-ne k x w m ne.1 in
                (
                  l.prev_other k kx,
                  l.next_other k kp kx
                      ∙ if_ne k s.last x (s.next k) (λ e. elem-ne k y w m v.once.1 (e ∙ v.at_last)),
                ))
              v.chain.2,
        ),
      );
      once = (pos, out, v.once);
    }

-- `enqueue` puts a variable at the end.
pub enqueue-IsList :
    (s : Internal) (x : ℕ) (w : List ℕ)
    → 0 < x
    → elem x w ≡ false
    → IsList s w
    → IsList (enqueue s x) (x ∷ w)
enqueue-IsList s x w pos out v =
    AddsLast-IsList s (enqueue s x) x w pos out
      (enqueue-AddsLast s x (λ e. head_or-away x w pos out (sym v.at_last ∙ e))) v

Chain-snoc :
    (pr nx pr' nx' : ℕ → ℕ) (n x y : ℕ) (w : List ℕ)
    → Once (y ∷ w)
    → nx' x ≡ end_or y w
    → pr' x ≡ 0
    → pr' (end_or y w) ≡ x
    → ((k : ℕ) → elem k (y ∷ w) ≡ true → nx' k ≡ nx k)
    → ((k : ℕ) → elem k (y ∷ w) ≡ true → k ≢ end_or y w → pr' k ≡ pr k)
    → Chain pr nx n (y ∷ w)
    → Chain pr' nx' n ((y ∷ w) ++ (x ∷ []))
Chain-snoc pr nx pr' nx' n x y [] o nx_x pr_x pr_e same_next same_prev c =
    (same_next y (ground arith) ∙ c.0, pr_e, (nx_x, pr_x, tt))
Chain-snoc pr nx pr' nx' n x y (z ∷ w) o nx_x pr_x pr_e same_next same_prev c =
    let ne = elem-tail y z w o.1 in
    (
      same_next y (ground arith) ∙ c.0,
      same_prev y (ground arith) (λ e. end_or-ne y z w ne.0 ne.1 (sym e)) ∙ c.1,
      Chain-snoc pr nx pr' nx' y x z w o.2 nx_x pr_x pr_e (λ k m. same_next k (ground arith))
          (λ k m. same_prev k (ground arith)) c.2,
    )

push_first_links :
    (s : Internal) (x : ℕ)
    → s.first ≢ x
    → ((push_first s x).first ≡ x)
      × ((push_first s x).last ≡ s.last)
      × ((push_first s x).next x ≡ s.first)
      × ((push_first s x).prev x ≡ 0)
      × ((push_first s x).prev s.first ≡ x)
      × ((k : ℕ) → k ≢ x → (push_first s x).next k ≡ s.next k)
      × ((k : ℕ) → k ≢ x → k ≢ s.first → (push_first s x).prev k ≡ s.prev k)
unfolding push_first
push_first_links s x n = (
  ground arith,
  ground arith,
  ground arith,
  ground arith,
  ground arith,
  λ k h. ground arith,
  λ k h g. ground arith,
)

pub Once-snoc : (x : ℕ) (w : List ℕ) → 0 < x → elem x w ≡ false → Once w → Once (w ++ (x ∷ []))
Once-snoc x [] p h o = (p, refl, tt)
Once-snoc x (y ∷ w) p h o =
    (o.0, ground (arith, elem-append y w (x ∷ []), o.1), Once-snoc x w p (ground arith) o.2)

-- `push_first` puts a variable at the front of a list that is not empty.
pub push_first-IsList :
    (s : Internal) (x y : ℕ) (w : List ℕ)
    → 0 < x
    → elem x (y ∷ w) ≡ false
    → IsList s (y ∷ w)
    → IsList (push_first s x) ((y ∷ w) ++ (x ∷ []))
push_first-IsList s x y w pos out v =
    let ne = elem-tail x y w out in
    let away : s.first ≢ x = λ e. end_or-ne x y w ne.0 ne.1 (sym v.at_first ∙ e) in
    let l = push_first_links s x away in
    record {
      at_last = l.1 ∙ v.at_last;
      at_first = l.0 ∙ sym (end_or-append 0 (y ∷ w) (x ∷ []));
      chain =
          Chain-snoc s.prev s.next (push_first s x).prev (push_first s x).next 0 x y w v.once
            (l.2 ∙ v.at_first) l.3 (ap (push_first s x).prev (sym v.at_first) ∙ l.4)
            (λ k m. l.5 k (elem-ne k x (y ∷ w) m out))
            (λ k m h. l.6 k (elem-ne k x (y ∷ w) m out) (λ e. h (e ∙ v.at_first))) v.chain;
      once = Once-snoc x (y ∷ w) pos out v.once;
    }
