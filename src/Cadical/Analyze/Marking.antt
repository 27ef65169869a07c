-- ===== src/Cadical/Analyze/Marking.antt =====
-- What marking a new literal changes.
use ignore_gates.Prelude.{
  ℕ, suc, ◌<◌, ◌≡◌, ◌≢◌, refl, sym, subst, ◌∙◌, inl, inr, Bool, true, false, ◌&&◌, ◌||◌, [], ◌∷◌,
  ◌++◌, ◌==◌, arith, if_ne, fun_ext, lt→ltb,
}
use ignore_gates.Types.{var}
use ignore_gates.Cadical.Queue.{put}
use ignore_gates.Cadical.Heap.Indexed.{eq_cases}
use ignore_gates.Cadical.Analyze.{Implications, Analysis, mark_literal}

-- A seen literal of the current level.
abbrev pub marked : Implications → Analysis → ℕ → Bool
marked e s x = s.seen (var x) && (e.level_of (var x) == e.level)

pub apart : true ≢ false
apart h = cc

pub or_true : (b : Bool) → (b || true) ≡ true
or_true true = refl
or_true false = refl

pub and_false : (b : Bool) → (b && false) ≡ false
and_false true = refl
and_false false = refl

pub or_left : (a b c : Bool) → (a ≡ true → c ≡ true) → (a || b) ≡ true → (c || b) ≡ true
or_left true b c h e = rw (h refl) refl
or_left false b c h e = ground (arith, e)

pub or_right : (a b c : Bool) → (b ≡ true → c ≡ true) → (a || b) ≡ true → (a || c) ≡ true
or_right true b c h e = refl
or_right false b c h e = h e

pub and_mono : (a b c : Bool) → (a ≡ true → c ≡ true) → (a && b) ≡ true → (c && b) ≡ true
and_mono true b c h e = rw (h refl) e
and_mono false b c h e = absurd (apart (sym e))

-- A new literal.
module _ (e : Implications) (x : ℕ) (s : Analysis) where
  unfoldable pub next : Analysis
  next = mark_literal e x s

  pub seen_more : (v : ℕ) → s.seen v ≡ true → next.seen v ≡ true
  unfolding next
  seen_more v h = ground (arith, h)

  pub marked_other : (y : ℕ) → var y ≢ var x → marked e s y ≡ marked e next y
  unfolding next
  marked_other y n = rw (if_ne {A = Bool} (var y) (var x) true (s.seen (var y)) n) refl

  pub marked_more : (y : ℕ) → marked e s y ≡ true → marked e next y ≡ true
  unfolding next
  marked_more y h = and_mono (s.seen (var y)) _ _ (seen_more (var y)) h

  pub marked_new : (y : ℕ) → var y ≡ var x → e.level_of (var x) ≡ e.level → marked e next y ≡ true
  unfolding next
  marked_new y d l =
      subst (λ v. (put s.seen (var x) true v && (e.level_of v == e.level)) ≡ true) (sym d)
        (ground (arith, l))

  pub marked_low : e.level_of (var x) < e.level → marked e next ≡ marked e s
  marked_low l = fun_ext (λ y. elim (eq_cases (var y) (var x)) [
    | inl d ↦
        let off : (e.level_of (var y) == e.level) ≡ false = rw d (ground (arith, l)) in
        rw off (and_false (next.seen (var y)) ∙ sym (and_false (s.seen (var y))))
    | inr n ↦ sym (marked_other y n)
  ])

  pub clause_low : e.level_of (var x) < e.level → next.clause ≡ s.clause ++ (x ∷ [])
  unfolding next
  clause_low l = rw (lt→ltb _ _ l) refl

  pub same_high :
      e.level_of (var x) ≡ e.level → (next.clause ≡ s.clause) × (next.n_open ≡ suc s.n_open)
  unfolding next
  same_high l = rw l (ground arith, ground arith)

  pub open_low : e.level_of (var x) < e.level → next.n_open ≡ s.n_open
  unfolding next
  open_low l = ground (arith, l)
