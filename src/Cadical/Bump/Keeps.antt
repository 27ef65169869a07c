-- ===== src/Cadical/Bump/Keeps.antt =====
-- Bumping the analyzed variables keeps the queue, and with BRANCHAUX the stamps of the gate outputs.
use ignore_gates.Prelude.{
  ℕ, ◌≡◌, ◌≢◌, refl, sym, ap, ◌∙◌, inl, inr, Bool, true, false, if◌then◌else◌, List, [], ◌∷◌, elem,
  All, Bool-cases,
}
use ignore_gates.Types.{Cl, var}
use ignore_gates.Cadical.Queue.{Internal, aux_var, bump_queue}
use ignore_gates.Cadical.Queue.Stamps.{IsQueue}
use ignore_gates.Cadical.Queue.Keeps.{bump_queue-Bumped}
use ignore_gates.Cadical.Queue.Untouched.{bump_queue-Untouched}
use ignore_gates.Cadical.Bump.{
  insert_bumped, sort_bumped, bump_each, bump_variables, bumped_smaller, analyze_bumped_rank,
}
use ignore_gates.Cadical.Bump.Sorts.{
  sort_bumped-Ascends, sort_bumped-elem, last_bumped, IsGreatest, sorted-IsGreatest,
}

-- A valid queue of the same variables, in which the gate outputs have their stamps.
pub record Kept (w : List ℕ) (s t : Internal) : Type 0 where
  pub order : List ℕ
  pub queue : IsQueue t order
  pub same : (k : ℕ) → elem k order ≡ elem k w
  pub aux_stamps : (k : ℕ) → aux_var s k ≡ true → t.btab k ≡ s.btab k

-- All literals are of variables of the queue.
abbrev pub Queued : List ℕ → Cl → Type 0
Queued w = All (λ x. elem (var x) w ≡ true)

insert_bumped-Queued :
    (s : Internal) (w : List ℕ) (x : ℕ) (xs : Cl)
    → elem (var x) w ≡ true
    → Queued w xs
    → Queued w (insert_bumped s x xs)
unfolding insert_bumped
insert_bumped-Queued s w x [] h a = (h, tt)
insert_bumped-Queued s w x (y ∷ ys) h a = elim (Bool-cases (bumped_smaller s y x)) [
  | inl e ↦ rw e (a.0, insert_bumped-Queued s w x ys h a.1)
  | inr e ↦ rw e (h, a)
]

sort_bumped-Queued :
    (s : Internal) (w : List ℕ) (xs : Cl) → Queued w xs → Queued w (sort_bumped s xs)
unfolding sort_bumped
sort_bumped-Queued s w [] a = tt
sort_bumped-Queued s w (x ∷ xs) a =
    insert_bumped-Queued s w x (sort_bumped s xs) a.0 (sort_bumped-Queued s w xs a.1)

Queued-same : (w u : List ℕ) (xs : Cl) → ((k : ℕ) → elem k u ≡ elem k w) → Queued w xs → Queued u xs
Queued-same w u [] h a = tt
Queued-same w u (x ∷ xs) h a = (h (var x) ∙ a.0, Queued-same w u xs h a.1)

bump_each-Kept :
    (s : Internal) (w : List ℕ) (xs : Cl)
    → IsQueue s w
    → Queued w xs
    → Kept w s (bump_each true s xs)
unfolding bump_each
bump_each-Kept s w [] v a = record {
  order = w;
  queue = v;
  same = λ k. refl;
  aux_stamps = λ k h. refl;
}
bump_each-Kept s w (x ∷ xs) v a = elim (Bool-cases (aux_var s (var x))) [
  | inl h ↦ rw h (bump_each-Kept s w xs v a.1)
  | inr h ↦
      let bumped = bump_queue-Bumped s w (var x) v a.0 in
      let t = bump_queue s (var x) in
      let rest =
        bump_each-Kept t bumped.order xs bumped.queue
          (Queued-same w bumped.order xs bumped.same a.1) in
      let alone = bump_queue-Untouched s (var x) in
      rw h (record {
        order = rest.order;
        queue = rest.queue;
        same = λ k. rest.same k ∙ bumped.same k;
        aux_stamps = λ k g.
            let still : aux_var t k ≡ true = rw (alone.aux_kept, alone.i2e_kept) g in
            rest.aux_stamps k still
            ∙ alone.stamps_kept k (λ d. clash (sym g ∙ (ap (aux_var s) d ∙ h)));
      })
]
  where
    clash : true ≢ false
    clash e = cc

-- The queue then ends with the last variable bumped.
bump_each-last :
    (s : Internal) (w : List ℕ) (xs : Cl)
    → IsQueue s w
    → Queued w xs
    → (bump_each true s xs).last ≡ last_bumped (aux_var s) (analyze_bumped_rank s) xs s.last
unfolding bump_each
bump_each-last s w [] v a = refl
bump_each-last s w (x ∷ xs) v a =
    let run : Bool → ℕ = λ b. (bump_each true (if b then s else bump_queue s (var x)) xs).last in
    let names : Bool → ℕ =
      λ b. last_bumped (aux_var s) (analyze_bumped_rank s) xs (if b then s.last else var x) in
    elim (Bool-cases (aux_var s (var x))) [
      | inl h ↦ ap run h ∙ bump_each-last s w xs v a.1 ∙ ap names (sym h)
      | inr h ↦
          let bumped = bump_queue-Bumped s w (var x) v a.0 in
          let t = bump_queue s (var x) in
          let rest =
            bump_each-last t bumped.order xs bumped.queue
              (Queued-same w bumped.order xs bumped.same a.1) in
          let alone = bump_queue-Untouched s (var x) in
          let outs : aux_var t ≡ aux_var s = rw (alone.aux_kept, alone.i2e_kept) refl in
          ap run h
          ∙ rest
          ∙ ap (λ f. last_bumped f (analyze_bumped_rank t) xs t.last) outs
          ∙ ap (last_bumped (aux_var s) (analyze_bumped_rank s) xs) bumped.at_end
          ∙ ap names (sym h)
    ]

-- With BRANCHAUX, bumping variables of the queue after a conflict keeps the queue valid, with the
-- same variables, and every gate output keeps its stamp. Where one of the analyzed literals is no gate
-- output, the queue then ends with the variable of such a literal, of the greatest rank among them.
pub bump_variables-Kept :
    (s : Internal) (w : List ℕ) (analyzed : Cl)
    → IsQueue s w
    → Queued w analyzed
    → Kept w s (bump_variables true s analyzed)
      × ((x : ℕ)
          → elem x analyzed ≡ true
          → aux_var s (var x) ≡ false
          → IsGreatest
              (aux_var s)
              (analyze_bumped_rank s)
              analyzed
              (bump_variables true s analyzed).last)
unfolding bump_variables
bump_variables-Kept s w analyzed v a =
    let sorted = sort_bumped s analyzed in
    let queued = sort_bumped-Queued s w analyzed a in
    (
      bump_each-Kept s w sorted v queued,
      λ x m n.
          sorted-IsGreatest (aux_var s) (analyze_bumped_rank s) sorted analyzed s.last
            (bump_each true s sorted).last (λ k. sort_bumped-elem s k analyzed)
            (sort_bumped-Ascends s analyzed) (bump_each-last s w sorted v queued) x m n,
    )
