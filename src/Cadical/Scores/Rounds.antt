-- ===== src/Cadical/Scores/Rounds.antt =====
-- One round of the changed search by score that decides nothing.
use ignore_gates.Prelude.{
  ℕ, ◌+◌, ◌≤◌, ◌<◌, ◌≡◌, ◌≢◌, refl, sym, ap, ◌∙◌, inl, inr, Bool, true, false, ◌&&◌, if◌then◌else◌,
  none, some, ◌==◌, arith, Bool-cases, if_eq, if_ne, sum, sum-lt,
}
use ignore_gates.Cadical.Queue.{put}
use ignore_gates.Cadical.Heap.{invalid, front}
use ignore_gates.Cadical.Heap.Indexed.{eq_cases, IsIndexed}
use ignore_gates.Cadical.Heap.Loops.{entry}
use ignore_gates.Cadical.Heap.Sifts.{IsOrder}
use ignore_gates.Cadical.Heap.Order.{update-Settled}
use ignore_gates.Cadical.Heap.Pops.{pop_front-Popped}
use ignore_gates.Cadical.Scores.{Scores, score_smaller, aux_scored, push_down, pop}
use ignore_gates.Cadical.Scores.Order.{score_smaller-IsOrder, InOrder, put-Broken}

-- A variable that may be decided: in the heap, without a value, and no gate output.
abbrev pub Free : {Score : Type 0} → Scores Score → ℕ → Type 0
Free s u = (s.scores.pos u ≢ invalid) × (s.assigned u ≡ false) × (aux_scored s u ≡ false)

pub apart : true ≢ false
apart e = cc

abbrev pub turn : ℕ → Bool → Bool → ℕ
turn p a high = (if p == invalid then 0 else 1) + (if a && high then 1 else 0)

turn-le :
    (p q : ℕ) (a b c : Bool)
    → (p ≢ invalid → q ≢ invalid)
    → (b ≡ true → c ≡ true)
    → turn p a b ≤ turn q a c
turn-le p q a b c h d = elim (eq_cases p invalid) [
  | inl e ↦ ground (arith, e, d)
  | inr m ↦ ground (arith, h m, m, d)
]

turn_lowered :
    (p q : ℕ) (a b c : Bool)
    → (p ≢ invalid → q ≢ invalid)
    → a ≡ true
    → b ≡ false
    → c ≡ true
    → turn p a b < turn q a c
turn_lowered p q a b c h e f g = elim (eq_cases p invalid) [
  | inl d ↦ ground (arith, d, e, f, g)
  | inr m ↦ ground (arith, h m, m, e, f, g)
]

turn_gone : (p q : ℕ) (a b : Bool) → p ≡ invalid → q ≢ invalid → turn p a b < turn q a b
turn_gone p q a b e m = ground (arith, e, m)

module _ {Score : Type 0} (lower : Score → Score → Bool) (minus_one : Score) (order : IsOrder lower)
    (n : ℕ) where
  abbrev pub smaller : (ℕ → Score) → ℕ → ℕ → Bool
  smaller = score_smaller lower minus_one

  -- The heap is sound, in order, and of variables below `n`.
  pub record IsSound (s : Scores Score) : Type 0 where
    pub indexed : IsIndexed s.scores
    pub ordered : InOrder lower minus_one order s.stab s.scores
    pub bounded : (e : ℕ) → s.scores.pos e ≢ invalid → e < n

  -- How often a variable can still come to the front.
  abbrev pub turns : Scores Score → ℕ → ℕ
  turns s e = turn (s.scores.pos e) (aux_scored s e) (lower minus_one (s.stab e))

  abbrev pub rounds : Scores Score → ℕ
  rounds s = sum (turns s) n

  -- What one round without a decision does.
  pub record Round (s t : Scores Score) : Type 0 where
    pub sound : IsSound t
    pub same_assigned : t.assigned ≡ s.assigned
    pub same_aux : (e : ℕ) → aux_scored t e ≡ aux_scored s e
    pub scores_kept : (e : ℕ) → aux_scored s e ≡ false → t.stab e ≡ s.stab e
    pub free_kept : (u : ℕ) → Free s u → t.scores.pos u ≢ invalid
    pub back : (e : ℕ) → t.scores.pos e ≢ invalid → s.scores.pos e ≢ invalid
    pub fewer : rounds t < rounds s

  fewer_turns :
      (s t : Scores Score) (x : ℕ)
      → ((e : ℕ) → turns t e ≤ turns s e)
      → x < n
      → turns t x < turns s x
      → rounds t < rounds s
  fewer_turns s t x h l d = sum-lt (turns t) (turns s) n x h l d

  irreflexive : (x : Score) → lower x x ≡ false
  irreflexive x = elim (Bool-cases (lower x x)) [ inl e ↦ order.asym x x e | inr e ↦ e ]

  sunk :
      (s : Scores Score)
      → lower minus_one (put s.stab (front s.scores) minus_one (front s.scores)) ≡ false
  sunk s =
      ap (lower minus_one) (if_eq (front s.scores) (front s.scores) _ _ refl)
      ∙ irreflexive minus_one

  only_lower :
      (s : Scores Score) (e : ℕ)
      → lower minus_one (put s.stab (front s.scores) minus_one e) ≡ true
      → lower minus_one (s.stab e) ≡ true
  only_lower s e h = elim (eq_cases e (front s.scores)) [
    | inl d ↦ absurd (
        apart
          (sym h ∙ (ap (lower minus_one) (if_eq e (front s.scores) _ _ d) ∙ irreflexive minus_one)))
    | inr m ↦ sym (ap (lower minus_one) (if_ne e (front s.scores) _ _ m)) ∙ h
  ]

  -- A gate output at the front goes down, if it was not sent down before.
  pub push_down-Round :
      (s : Scores Score)
      → IsSound s
      → 0 < s.scores.count
      → aux_scored s (front s.scores) ≡ true
      → lower minus_one (s.stab (front s.scores)) ≡ true
      → (t : Scores Score) × ((push_down lower minus_one s (front s.scores) ≡ some t) × Round s t)
  unfolding push_down
  push_down-Round s i some_left is_aux high =
      let r = front s.scores in
      let stab = put s.stab r minus_one in
      let inside = entry s.scores 0 i.indexed some_left in
      let settled =
        update-Settled (smaller stab) (score_smaller-IsOrder lower minus_one order stab) s.scores r
          i.indexed inside
          (put-Broken lower minus_one order s.stab s.scores minus_one i.indexed i.ordered
            some_left) in
      let h = settled.heap in
      let t = record s { stab = stab; scores = h } in
      (
        t,
        (
          ap (λ o. elim o [ none ↦ none | some k ↦ some (record s { stab = stab; scores = k }) ])
              settled.ends,
          record {
            sound = record {
              indexed = settled.same.indexed;
              ordered = settled.ordered;
              bounded = λ e p. i.bounded e (λ f. p ((settled.same.members e).1 f));
            };
            same_assigned = refl;
            same_aux = λ e. refl;
            scores_kept =
                λ e f. if_ne e r _ _ (λ g. apart (sym is_aux ∙ (ap (aux_scored s) (sym g) ∙ f)));
            back = λ e p f. p ((settled.same.members e).1 f);
            free_kept = λ u f g. f.0 ((settled.same.members u).0 g);
            fewer =
                fewer_turns s t r
                  (λ e.
                    turn-le _ _ _ _ _ (λ p f. p ((settled.same.members e).1 f)) (only_lower s e))
                  (i.bounded r inside)
                  (turn_lowered _ _ _ _ _ (λ p f. p ((settled.same.members r).1 f)) is_aux (sunk s)
                    high);
          },
        ),
      )

  -- A variable that has a value leaves the heap.
  pub pop-Round :
      (s : Scores Score)
      → IsSound s
      → 0 < s.scores.count
      → s.assigned (front s.scores) ≡ true
      → (t : Scores Score) × ((pop lower minus_one s ≡ some t) × Round s t)
  unfolding pop
  pop-Round s i some_left valued =
      let r = front s.scores in
      let inside = entry s.scores 0 i.indexed some_left in
      let popped =
        pop_front-Popped (smaller s.stab) (score_smaller-IsOrder lower minus_one order s.stab)
          s.scores i.indexed i.ordered some_left in
      let h = popped.heap in
      let t = record s { scores = h } in
      let old : (e : ℕ) → h.pos e ≢ invalid → s.scores.pos e ≢ invalid =
        λ e p f. p ((popped.members e).1 (inr f)) in
      (
        t,
        (
          ap (λ o. elim o [ none ↦ none | some k ↦ some (record s { scores = k }) ]) popped.ends,
          record {
            sound = record {
              indexed = popped.indexed;
              ordered = popped.ordered;
              bounded = λ e p. i.bounded e (old e p);
            };
            same_assigned = refl;
            same_aux = λ e. refl;
            scores_kept = λ e f. refl;
            back = old;
            free_kept = λ u f g. elim ((popped.members u).0 g) [
              | inl d ↦ apart (sym valued ∙ (ap s.assigned (sym d) ∙ f.1))
              | inr d ↦ f.0 d
            ];
            fewer =
                fewer_turns s t r
                  (λ e.
                    turn-le (h.pos e) (s.scores.pos e) (aux_scored s e) (lower minus_one (s.stab e))
                      (lower minus_one (s.stab e)) (old e) (λ f. f))
                  (i.bounded r inside)
                  (turn_gone (h.pos r) (s.scores.pos r) (aux_scored s r)
                    (lower minus_one (s.stab r)) ((popped.members r).1 (inl refl)) inside);
          },
        ),
      )
