-- ===== src/Cadical/Scores/Decides.antt =====
-- With a free variable in the heap, the changed search by score ends with the best of them.
use ignore_gates.Prelude.{
  ℕ, zero, suc, ◌<◌, ◌≡◌, refl, sym, ap, subst, ◌∙◌, inl, inr, Bool, true, false, not, ◌&&◌,
  if◌then◌else◌, none, some, ◌==◌, arith, Bool-cases,
}
use ignore_gates.Cadical.Heap.{front}
use ignore_gates.Cadical.Heap.Loops.{entry}
use ignore_gates.Cadical.Heap.Sifts.{IsOrder}
use ignore_gates.Cadical.Heap.Order.{front_greatest}
use ignore_gates.Cadical.Scores.{
  Scores, Decision, decided, out_of_fuel, score_smaller, aux_scored,
  next_decision_variable_with_best_score,
}
use ignore_gates.Cadical.Scores.Order.{score_smaller-IsOrder, score_smaller_same}
use ignore_gates.Cadical.Scores.Starves.{third_branch}
use ignore_gates.Cadical.Scores.Rounds.{
  Free, IsSound, Round, apart, rounds, push_down-Round, pop-Round,
}

-- The three ways on from a heap that is not empty.
decide_branch :
    {A : Type 0} (b u a : Bool) (x y z w : A)
    → b ≡ false
    → u ≡ false
    → a ≡ false
    → (if b then x else if not u && not a then y else if a then z else w) ≡ y
decide_branch b u a x y z w e f g = rw (e, f, g) refl

pop_branch :
    {A : Type 0} (b u a : Bool) (x y z w : A)
    → b ≡ false
    → u ≡ true
    → a ≡ false
    → (if b then x else if not u && not a then y else if a then z else w) ≡ w
pop_branch b u a x y z w e f g = rw (e, f, g) refl

module _ {Score : Type 0} (lower : Score → Score → Bool) (minus_one : Score) (order : IsOrder lower)
    (n : ℕ) where
  -- The decision: a free variable, none of the other free ones is above it.
  pub record Chooses (s : Scores Score) (d : Decision Score) : Type 0 where
    pub state : Scores Score
    pub res : ℕ
    pub ends : d ≡ decided state res
    pub free : Free s res
    pub greatest : (u : ℕ) → Free s u → score_smaller lower minus_one s.stab res u ≡ false

  still_free :
      (s t : Scores Score) (u : ℕ) → Round lower minus_one order n s t → Free s u → Free t u
  still_free s t u r v = (
    r.free_kept u v,
    subst (λ (a : ℕ → Bool). a u ≡ false) (sym r.same_assigned) v.1,
    r.same_aux u ∙ v.2,
  )

  -- What is best after a round is best before it.
  Chooses-before :
      (s t : Scores Score) (d e : Decision Score)
      → Round lower minus_one order n s t
      → e ≡ d
      → Chooses t d
      → Chooses s e
  Chooses-before s t d e r f b =
      let plain : aux_scored s b.res ≡ false = sym (r.same_aux b.res) ∙ b.free.2 in
      record {
        state = b.state;
        res = b.res;
        ends = f ∙ b.ends;
        free = (
          r.back b.res b.free.0,
          subst (λ (a : ℕ → Bool). a b.res ≡ false) r.same_assigned b.free.1,
          plain,
        );
        greatest = λ u v.
            score_smaller_same lower minus_one order s.stab t.stab b.res u
              (sym (r.scores_kept b.res plain)) (sym (r.scores_kept u v.2))
            ∙ b.greatest u (still_free s t u r v);
      }

  not_lower :
      (stab : ℕ → Score) (a b : ℕ)
      → score_smaller lower minus_one stab a b ≡ false
      → lower (stab a) (stab b) ≡ false
  not_lower stab a b h = elim (Bool-cases (lower (stab a) (stab b))) [
    | inl e ↦ absurd (apart (sym (rw e refl) ∙ h))
    | inr e ↦ e
  ]

  -- Before a free variable of a score above -1, a gate output comes to the front only once.
  front_high :
      (s : Scores Score) (u : ℕ)
      → IsSound lower minus_one order n s
      → Free s u
      → lower minus_one (s.stab u) ≡ true
      → lower minus_one (s.stab (front s.scores)) ≡ true
  front_high s u i v h =
      let r = front s.scores in
      let top = not_lower s.stab r u (
        front_greatest (score_smaller lower minus_one s.stab)
          (score_smaller-IsOrder lower minus_one order s.stab) s.scores u i.indexed i.ordered
          v.0) in
      elim (Bool-cases (lower minus_one (s.stab r))) [
        | inl e ↦ e
        | inr e ↦ absurd (apart (sym h ∙ order.trans minus_one (s.stab r) (s.stab u) e top))
      ]

  filled :
      (s : Scores Score) (u : ℕ) → IsSound lower minus_one order n s → Free s u → 0 < s.scores.count
  filled s u i v = omega (arith, i.indexed.within u v.0)

  -- Where the heap is in order and holds a free variable with a score above -1, the changed search
  -- by score ends: with fuel for each variable in the heap and once more for each gate output that
  -- was not sent down before, and one more, it decides a variable that has no value and is no gate
  -- output, and above which there is no free variable.
  pub best_score-Chooses :
      (fuel : ℕ) (s : Scores Score) (u : ℕ)
      → IsSound lower minus_one order n s
      → Free s u
      → lower minus_one (s.stab u) ≡ true
      → rounds lower minus_one order n s < fuel
      → Chooses s (next_decision_variable_with_best_score lower minus_one fuel s)
  unfolding next_decision_variable_with_best_score
  best_score-Chooses zero s u i v h l = absurd (omega arith)
  best_score-Chooses (suc fuel) s u i v h l =
      let r = front s.scores in
      let count = filled s u i v in
      let more : (s.scores.count == 0) ≡ false = ground (arith, count) in
      elim (Bool-cases (aux_scored s r)) [
        | inl is_aux ↦
            let (t, (e, round)) =
              push_down-Round lower minus_one order n s i count is_aux (front_high s u i v h) in
            let next =
              best_score-Chooses fuel t u round.sound (still_free s t u round v)
                (subst (λ x. lower minus_one x ≡ true) (sym (round.scores_kept u v.2)) h)
                (omega (arith, l, round.fewer)) in
            Chooses-before s t _ _ round
              (third_branch (s.scores.count == 0) (s.assigned r) (aux_scored s r) _ _ _ _ more
                  is_aux
                ∙ ap
                    (λ o. elim o [
                      | none ↦ out_of_fuel
                      | some w ↦ next_decision_variable_with_best_score lower minus_one fuel w
                    ])
                    e)
              next
        | inr plain ↦ elim (Bool-cases (s.assigned r)) [
          | inl valued ↦
              let (t, (e, round)) = pop-Round lower minus_one order n s i count valued in
              let next =
                best_score-Chooses fuel t u round.sound (still_free s t u round v)
                  (subst (λ x. lower minus_one x ≡ true) (sym (round.scores_kept u v.2)) h)
                  (omega (arith, l, round.fewer)) in
              Chooses-before s t _ _ round
                (pop_branch (s.scores.count == 0) (s.assigned r) (aux_scored s r) _ _ _ _ more
                    valued plain
                  ∙ ap
                      (λ o. elim o [
                        | none ↦ out_of_fuel
                        | some w ↦ next_decision_variable_with_best_score lower minus_one fuel w
                      ])
                      e)
                next
          | inr free ↦ record {
            state = s;
            res = r;
            ends =
                decide_branch (s.scores.count == 0) (s.assigned r) (aux_scored s r) _ _ _ _ more
                  free plain;
            free = (entry s.scores 0 i.indexed count, free, plain);
            greatest = λ w x.
                front_greatest (score_smaller lower minus_one s.stab)
                  (score_smaller-IsOrder lower minus_one order s.stab) s.scores w i.indexed
                  i.ordered x.0;
          }
        ]
      ]
