-- ===== src/Cadical/Queue/Decide.antt =====
-- The decision taken from the queue.
use ignore_gates.Prelude.{
  ℕ, zero, suc, ◌+◌, ◌<◌, ◌≡◌, refl, sym, ◌∙◌, ap, subst, ◌⊎◌, inl, inr, Bool, true, false, Option,
  some, List, [], ◌∷◌, ◌++◌, ◌==◌, if◌then◌else◌, length, All, elem, elem-append, arith, Bool-cases,
  length-append,
}
use ignore_gates.Types.Int.{◌<ℤ◌, suc_ℤ}
use ignore_gates.Cadical.Queue.{
  Internal, aux_var, is_free, after_search, next_decision_variable_on_queue,
  update_queue_unassigned,
}
use ignore_gates.Cadical.Queue.Chain.{IsList}
use ignore_gates.Cadical.Queue.FirstFree.{
  first_free, place, place-lt, any-elem, here_lem, later_lem, first_free-free, first_free-Descends,
  elem-split,
}
use ignore_gates.Cadical.Queue.Stamps.{
  IsQueue, Descends, Descends-before, Descends-after, Descends-right,
}
use ignore_gates.Cadical.Queue.Search.{Agrees, step_free, search_queue-Found}

-- A decision from the queue with the variables `w`: the variable may be decided, no other such one
-- has a later stamp, and the queue is still one, of the same variables, of which none is assigned or
-- released by the search.
pub record Decides (s : Internal) (w : List ℕ) (r : Option (Internal × ℕ)) : Type 0 where
  pub state : Internal
  pub variable : ℕ
  pub order : List ℕ
  pub ends : r ≡ some (state, variable)
  pub inside : elem variable w ≡ true
  pub allowed : is_free s variable ≡ true
  pub latest :
      (x : ℕ)
      → elem x w ≡ true
      → is_free s x ≡ true
      → (x ≡ variable) ⊎ (s.btab x <ℤ s.btab variable)
  pub queue : IsQueue state order
  pub same : (x : ℕ) → elem x order ≡ elem x w
  pub values : (x : ℕ) → state.assigned x ≡ s.assigned x

All-elem :
    (asg : ℕ → Bool) (x : ℕ) (a : List ℕ)
    → All (λ y. asg y ≡ true) a
    → elem x a ≡ true
    → asg x ≡ true
All-elem asg x [] v m = cc
All-elem asg x (y ∷ a) v m = ground (arith, All-elem asg x a v.1, λ (e : x ≡ y). ap asg e)

All-of :
    (asg : ℕ → Bool) (a : List ℕ)
    → ((y : ℕ) → elem y a ≡ true → asg y ≡ true)
    → All (λ y. asg y ≡ true) a
All-of asg [] g = tt
All-of asg (y ∷ a) g = (g y (ground arith), All-of asg a (λ k m. g k (ground arith)))

elem-middle : (x : ℕ) (a c : List ℕ) → elem x (a ++ (x ∷ c)) ≡ true
elem-middle x a c = ground (arith, elem-append x a (x ∷ c))

not_zero : (p k : ℕ) → suc p ≡ k → (0 + k == 0) ≡ false
not_zero p k e = ground arith

moved_on : Internal → ℕ → ℕ → Internal
unfolding update_queue_unassigned
moved_on s res k = update_queue_unassigned (record s { searched = s.searched + k }) res

-- The pointer set to a variable behind which all are assigned makes a queue.
moved_on-IsQueue :
    (s : Internal) (a c : List ℕ) (res k : ℕ)
    → IsList s (a ++ (res ∷ c))
    → Descends s.btab (suc_ℤ s.stats_bumped) (a ++ (res ∷ c))
    → All (λ y. s.assigned y ≡ true) a
    → IsQueue (moved_on s res k) (a ++ (res ∷ c))
unfolding moved_on
moved_on-IsQueue s a c res k l d g = record {
  linked = record { at_last = l.at_last; at_first = l.at_first; chain = l.chain; once = l.once };
  stamped = d;
  inside = elem-middle res a c;
  mark = omega arith;
  past = λ y m h.
      All-elem s.assigned y a g (Descends-before s.btab (suc_ℤ s.stats_bumped) res y a c d m h);
}

module _ (s : Internal) (a c : List ℕ) (v : IsQueue s (a ++ (s.unassigned ∷ c))) where
  passed_assigned : (y : ℕ) → elem y a ≡ true → s.assigned y ≡ true
  passed_assigned y m =
      let later = Descends-after s.btab (suc_ℤ s.stats_bumped) s.unassigned y a c v.stamped m in
      v.past y (ground (arith, elem-append y a (s.unassigned ∷ c))) (omega (arith, v.mark, later))

  ahead :
      (x : ℕ)
      → elem x (a ++ (s.unassigned ∷ c)) ≡ true
      → is_free s x ≡ true
      → elem x (s.unassigned ∷ c) ≡ true
  ahead x m f = ground (arith, elem-append x a (s.unassigned ∷ c), passed_assigned x)

  first_latest :
      (x : ℕ)
      → elem x (a ++ (s.unassigned ∷ c)) ≡ true
      → is_free s x ≡ true
      → (x ≡ first_free (is_free s) (s.unassigned ∷ c))
        ⊎ (s.btab x <ℤ s.btab (first_free (is_free s) (s.unassigned ∷ c)))
  first_latest x m f =
      first_free-Descends (is_free s) s.btab (suc_ℤ s.stats_bumped) x (s.unassigned ∷ c)
        (Descends-right s.btab (suc_ℤ s.stats_bumped) a (s.unassigned ∷ c) v.stamped) (ahead x m f)
        f

  start : Agrees s.assigned (aux_var s) s.stats_bumped s
  start = record { val = λ k. refl; banned = λ k. refl; count = refl }

  at_once :
      (fuel : ℕ)
      → is_free s s.unassigned ≡ true
      → Decides s (a ++ (s.unassigned ∷ c)) (next_decision_variable_on_queue (suc fuel) s)
  unfolding next_decision_variable_on_queue
  at_once fuel f = record {
    state = s;
    variable = s.unassigned;
    order = a ++ (s.unassigned ∷ c);
    ends = ap after_search (
        step_free s.assigned (aux_var s) s.stats_bumped (suc_ℤ s.stats_bumped) fuel s s.unassigned 0
          start f);
    inside = elem-middle s.unassigned a c;
    allowed = f;
    latest = λ x m g.
        subst (λ y. (x ≡ y) ⊎ (s.btab x <ℤ s.btab y)) (here_lem (is_free s) s.unassigned c f).0
          (first_latest x m g);
    queue = v;
    same = λ x. refl;
    values = λ x. refl;
  }

  further :
      (fuel x : ℕ)
      → elem x (a ++ (s.unassigned ∷ c)) ≡ true
      → is_free s x ≡ true
      → length (a ++ (s.unassigned ∷ c)) < fuel
      → is_free s s.unassigned ≡ false
      → Decides s (a ++ (s.unassigned ∷ c)) (next_decision_variable_on_queue fuel s)
  unfolding next_decision_variable_on_queue moved_on
  further fuel x m f h n =
      let w = s.unassigned ∷ c in
      let some_free = any-elem (is_free s) x w (ahead x m f) f in
      let step = later_lem (is_free s) s.unassigned c n in
      let short : place (is_free s) w < fuel =
        omega (arith, place-lt (is_free s) w some_free, length-append {0} a w) in
      let found =
        search_queue-Found s.assigned (aux_var s) s.stats_bumped (suc_ℤ s.stats_bumped) fuel s a w 0
          (record { linked = v.linked; stamped = v.stamped; agrees = start })
          (All-of s.assigned a passed_assigned) some_free short in
      let res = first_free (is_free s) w in
      let k = 0 + place (is_free s) w in
      let nonzero : (k == 0) ≡ false =
        not_zero (place (is_free s) c) (place (is_free s) w) step.1 in
      let t = found.state in
      let agree = found.still.agrees in
      let stamps =
        subst (λ z. Descends t.btab (suc_ℤ z) (found.before ++ (res ∷ found.after)))
          (sym agree.count) found.still.stamped in
      let known =
        All-of t.assigned found.before
          (λ y i. agree.val y ∙ All-elem s.assigned y found.before found.passed i) in
      record {
        state = moved_on t res k;
        variable = res;
        order = found.before ++ (res ∷ found.after);
        ends =
            ap after_search found.ends
            ∙ ap (λ b. some (if b then t else moved_on t res k, res)) nonzero;
        inside = sym (found.same res) ∙ elem-middle res found.before found.after;
        allowed = first_free-free (is_free s) w some_free;
        latest = first_latest;
        queue = moved_on-IsQueue t found.before found.after res k found.still.linked stamps known;
        same = found.same;
        values = agree.val;
      }

  Decides-split :
      (fuel x : ℕ)
      → elem x (a ++ (s.unassigned ∷ c)) ≡ true
      → is_free s x ≡ true
      → length (a ++ (s.unassigned ∷ c)) < fuel
      → Decides s (a ++ (s.unassigned ∷ c)) (next_decision_variable_on_queue fuel s)
  Decides-split zero x m f h = absurd (omega arith)
  Decides-split (suc fuel) x m f h = elim (Bool-cases (is_free s s.unassigned)) [
    | inl here ↦ at_once fuel here
    | inr no_free ↦ further (suc fuel) x m f h no_free
  ]

-- Where some variable of the queue may be decided, `next_decision_variable_on_queue` with fuel past
-- the length of the queue returns one: unassigned, no gate output, and of the latest stamp among
-- such variables. The queue stays valid, with the same variables, and no value changes.
pub next_decision_variable_on_queue-Decides :
    (fuel : ℕ) (s : Internal) (w : List ℕ) (x : ℕ)
    → IsQueue s w
    → elem x w ≡ true
    → is_free s x ≡ true
    → length w < fuel
    → Decides s w (next_decision_variable_on_queue fuel s)
next_decision_variable_on_queue-Decides fuel s w x v m f h =
    let (a, (c, p)) = elem-split s.unassigned w v.inside in
    subst (λ l. Decides s l (next_decision_variable_on_queue fuel s)) p
      (Decides-split s a c (subst (IsQueue s) (sym p) v) fuel x (ap (elem x) p ∙ m) f
        (subst (λ l. length l < fuel) (sym p) h))
