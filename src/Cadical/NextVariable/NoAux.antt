-- ===== src/Cadical/NextVariable/NoAux.antt =====
-- The abort on a selected gate output is never reached.
use ignore_gates.Prelude.{
  ℕ, zero, suc, ◌≡◌, ◌≢◌, refl, sym, ◌∙◌, inl, inr, Bool, true, false, not, ◌&&◌, ◌||◌, Option,
  none, some, arith, ◌==◌, if◌then◌else◌, Bool-cases,
}
use ignore_gates.Cadical.Queue.{
  Internal, aux_var, push_first, dequeue, search_queue, after_search, update_queue_unassigned,
  next_decision_variable_on_queue,
}
use ignore_gates.Cadical.Heap.{is_empty, front}
use ignore_gates.Cadical.Scores.{
  Scores, Decision, decided, ran_out, out_of_fuel, aux_scored, push_down, pop,
  next_decision_variable_with_best_score,
}
use ignore_gates.Cadical.NextVariable.{
  aux_selected, select, from_queue, from_scores, next_decision_variable,
}

-- The search stopped at a variable that is no gate output, if at any.
NoAux : {Score : Type 0} → Decision Score → Type 0
NoAux (decided s v) = aux_scored s v ≡ false
NoAux ran_out = Unit {0}
NoAux out_of_fuel = Unit {0}

if-NoAux :
    {Score : Type 0} (t : Bool) (x y : Decision Score)
    → (t ≡ true → NoAux x)
    → NoAux y
    → NoAux (if t then x else y)
if-NoAux true x y h k = h refl
if-NoAux false x y h k = k

after-NoAux :
    {Score : Type 0} (o : Option (Scores Score)) (f : Scores Score → Decision Score)
    → ((t : Scores Score) → NoAux (f t))
    → NoAux (elim o [ none ↦ out_of_fuel | some t ↦ f t ])
unfolding NoAux
after-NoAux none f h = tt
after-NoAux (some t) f h = h t

is_output_not : (a b : Bool) → (not a && not b) ≡ true → b ≡ false
is_output_not true b h = ground (arith, h)
is_output_not false true h = ground (arith, h)
is_output_not false false h = refl

best_score-NoAux :
    {Score : Type 0} (lower : Score → Score → Bool) (minus_one : Score) (fuel : ℕ)
    (s : Scores Score)
    → NoAux (next_decision_variable_with_best_score lower minus_one fuel s)
unfolding next_decision_variable_with_best_score NoAux
best_score-NoAux lower minus_one zero s = tt
best_score-NoAux lower minus_one (suc fuel) s =
    let again = best_score-NoAux lower minus_one fuel in
    let step = next_decision_variable_with_best_score lower minus_one fuel in
    if-NoAux (is_empty s.scores) _ _ (λ _. tt)
      (if-NoAux _ _ _ (is_output_not (s.assigned (front s.scores)) (aux_scored s (front s.scores)))
        (if-NoAux (aux_scored s (front s.scores)) _ _
          (λ _. after-NoAux (push_down lower minus_one s (front s.scores)) step again)
          (after-NoAux (pop lower minus_one s) step again)))

NoAuxFound : Option (Internal × ℕ × ℕ) → Type 0
NoAuxFound none = Unit {0}
NoAuxFound (some (t, v, n)) = aux_var t v ≡ false

search-NoAux :
    (fuel : ℕ) (s : Internal) (res searched : ℕ) → NoAuxFound (search_queue fuel s res searched)
unfolding search_queue NoAuxFound
search-NoAux zero s res searched = tt
search-NoAux (suc fuel) s res searched =
    let moved = if aux_var s res then push_first (dequeue s res) res else s in
    elim (Bool-cases (s.assigned res || aux_var s res)) [
      | inl e ↦ rw e (search-NoAux fuel moved (s.prev res) (suc searched))
      | inr e ↦ rw e (or_right (s.assigned res) (aux_var s res) e)
    ]
  where
    or_right : (a b : Bool) → (a || b) ≡ false → b ≡ false
    or_right true b h = ground (arith, h)
    or_right false b h = h

select-safe : (b : Bool) (v : ℕ) → b ≡ false → select b v ≢ aux_selected
select-safe true v h e = ground (arith, h)
select-safe false v h e = ground (arith, e)

scores-safe : {Score : Type 0} (d : Decision Score) → NoAux d → from_scores d ≢ aux_selected
unfolding NoAux
scores-safe (decided s v) h e = select-safe (aux_scored s v) v h e
scores-safe ran_out h e = ground (arith, e)
scores-safe out_of_fuel h e = ground (arith, e)

queue-safe :
    (r : Option (Internal × ℕ × ℕ)) → NoAuxFound r → from_queue (after_search r) ≢ aux_selected
unfolding NoAuxFound update_queue_unassigned
queue-safe none h e = ground (arith, e)
queue-safe (some (t, v, n)) h e = elim (Bool-cases (n == 0)) [
  | inl f ↦ select-safe (aux_var t v) v h (sym (same true f) ∙ e)
  | inr f ↦ select-safe (aux_var t v) v h (sym (same false f) ∙ e)
]
  where
    same :
        (b : Bool)
        → (n == 0) ≡ b
        → from_queue (after_search (some (t, v, n))) ≡ select (aux_var t v) v
    same true f = rw f refl
    same false f = rw f refl

-- Whichever heuristic is used, `next_decision_variable` never reaches the abort for a selected gate
-- output.
pub next_decision_variable-NoAux :
    {Score : Type 0} (lower : Score → Score → Bool) (minus_one : Score) (use_scores : Bool)
    (fuel : ℕ) (s : Scores Score) (q : Internal)
    → next_decision_variable lower minus_one use_scores fuel s q ≢ aux_selected
unfolding next_decision_variable next_decision_variable_on_queue
next_decision_variable-NoAux lower minus_one true fuel s q =
    scores-safe (next_decision_variable_with_best_score lower minus_one fuel s)
      (best_score-NoAux lower minus_one fuel s)
next_decision_variable-NoAux lower minus_one false fuel s q =
    queue-safe (search_queue fuel q q.unassigned 0) (search-NoAux fuel q q.unassigned 0)
