-- ===== src/Cadical/Scores/Starves.antt =====
-- With only gate outputs in the heap, the changed search by score goes on for ever.
use ignore_gates.Prelude.{
  ℕ, zero, suc, ◌<◌, ◌≡◌, ◌≢◌, refl, ap, ◌∙◌, Bool, true, false, not, ◌&&◌, none, some, arith, ◌==◌,
  if◌then◌else◌,
}
use ignore_gates.Cadical.Queue.{put}
use ignore_gates.Cadical.Heap.{invalid, is_empty, front}
use ignore_gates.Cadical.Heap.Indexed.{IsIndexed}
use ignore_gates.Cadical.Heap.Loops.{Ends, entry, update-Ends}
use ignore_gates.Cadical.Scores.{
  Scores, out_of_fuel, score_smaller, aux_scored, push_down, next_decision_variable_with_best_score,
}

not_empty : (n : ℕ) → 0 < n → (n == 0) ≡ false
not_empty n h = ground (arith, h)

pub third_branch :
    {A : Type 0} (b u a : Bool) (x y z w : A)
    → b ≡ false
    → a ≡ true
    → (if b then x else if not u && not a then y else if a then z else w) ≡ z
third_branch b true a x y z w e f = rw (e, f) refl
third_branch b false a x y z w e f = rw (e, f) refl

module _ {Score : Type 0} (lower : Score → Score → Bool) (minus_one : Score) where
  -- The heap is sound and not empty, and all its elements are gate outputs.
  pub record IsStarved (s : Scores Score) : Type 0 where
    pub indexed : IsIndexed s.scores
    pub some_left : 0 < s.scores.count
    pub only_aux : (e : ℕ) → s.scores.pos e ≢ invalid → aux_scored s e ≡ true

  push_down-IsStarved :
      (s : Scores Score)
      → IsStarved s
      → (t : Scores Score) × ((push_down lower minus_one s (front s.scores) ≡ some t) × IsStarved t)
  unfolding push_down Ends
  push_down-IsStarved s i =
      let stab = put s.stab (front s.scores) minus_one in
      let (h, (e, same)) =
        update-Ends (score_smaller lower minus_one stab) s.scores (front s.scores) i.indexed
          (entry s.scores 0 i.indexed i.some_left) in
      (
        record s { stab = stab; scores = h },
        (
          ap (λ o. elim o [ none ↦ none | some k ↦ some (record s { stab = stab; scores = k }) ]) e,
          record {
            indexed = same.indexed;
            some_left = omega (arith, same.size, i.some_left);
            only_aux = λ d p. i.only_aux d (λ f. p ((same.members d).1 f));
          },
        ),
      )

  -- Where the heap holds only gate outputs, and at least one, the search by score never decides a
  -- variable and never stops: no number of rounds is enough, whatever the scores are.
  pub best_score-starves :
      (fuel : ℕ) (s : Scores Score)
      → IsStarved s
      → next_decision_variable_with_best_score lower minus_one fuel s ≡ out_of_fuel
  unfolding next_decision_variable_with_best_score
  best_score-starves zero s i = refl
  best_score-starves (suc fuel) s i =
      let (t, (e, j)) = push_down-IsStarved s i in
      third_branch (is_empty s.scores) (s.assigned (front s.scores)) (aux_scored s (front s.scores))
        _ _ _ _ (not_empty s.scores.count i.some_left)
        (i.only_aux (front s.scores) (entry s.scores 0 i.indexed i.some_left))
      ∙ (ap
            (λ o. elim o [
              | none ↦ out_of_fuel
              | some u ↦ next_decision_variable_with_best_score lower minus_one fuel u
            ])
            e
          ∙ best_score-starves fuel t j)
