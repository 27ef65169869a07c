-- ===== src/Cadical/Analyze/Learns.antt =====
-- The search for the UIP ends, and the clause that it derives follows from the conflict and the
-- reasons.
use ignore_gates.Prelude.{
  ℕ, ◌-◌, ◌<◌, ◌≡◌, ◌≢◌, refl, sym, subst, ◌∙◌, inl, inr, Bool, true, false, not, ◌||◌, none, [],
  ◌∷◌, ◌==◌, arith, elem, All, Bool-cases, Option-cases,
}
use ignore_gates.Types.{Cl, neg, var, Assignment, clause_true}
use ignore_gates.Types.Literals.{neg_lem}
use ignore_gates.Cadical.Heap.Indexed.{eq_cases}
use ignore_gates.Cadical.Analyze.{
  Implications, Analysis, aux_lit, stops, analyze_reason, search_uip, derive,
}
use ignore_gates.Cadical.Analyze.Marks.{tally-zero, tally-elem, OneEach}
use ignore_gates.Cadical.Analyze.Marking.{marked, apart, or_true, and_false}
use ignore_gates.Cadical.Analyze.Reasons.{FalseBelow, IsAnalysis}
use ignore_gates.Cadical.Analyze.Resolves.{
  analyze_reason-Grows, analyze_reason_seen, analyze_reason_covers,
}
use ignore_gates.Cadical.Analyze.Steps.{
  Explained, decision, IsTrail, Learns, IsReady, skip-IsReady, and_second, left, left-IsAnalysis,
  stop-Learns, resolve-IsReady,
}

-- Nothing is seen yet.
pub record IsFresh (s : Analysis) : Type 0 where
  pub unseen : (v : ℕ) → s.seen v ≡ false
  pub no_clause : s.clause ≡ []
  pub no_open : s.n_open ≡ 0

module _ (e : Implications) (is_false : ℕ → Bool) (given : Assignment → Type 0)
    (positive : 0 < e.level)
    (consistent : (x : ℕ) → is_false x ≡ true → is_false (neg x) ≡ false) where
  marked_level : (s : Analysis) (l : ℕ) → marked e s l ≡ true → e.level_of (var l) ≡ e.level
  marked_level s l h =
      let h' =
        and_second e is_false given positive consistent (s.seen (var l))
          (e.level_of (var l) == e.level) h in
      ground arith

  decided :
      (s : Analysis) (l : ℕ) (below : Cl) (r : IsReady e is_false given s (l ∷ below))
      → (m : marked e s l ≡ true) → Explained e is_false l below none
      → (left e is_false given positive consistent s l below r m).n_open ≡ 0
  unfolding left
  decided s l below r m (decision first) =
      (left-IsAnalysis e is_false given positive consistent s l below r m).counts
      ∙ tally-zero (marked e s) below (λ x h.
        let off : (e.level_of (var x) == e.level) ≡ false = ground (arith, first x h) in
        rw off (and_false (s.seen (var x))))

  stops_open : (b : Bool) (k l : ℕ) → stops b e k l ≡ true → k ≡ 0
  stops_open b k l h = elim (eq_cases k 0) [
    | inl d ↦ d
    | inr n ↦ let off : (k == 0) ≡ false = ground (arith, n) in absurd (apart (sym h ∙ rw off refl))
  ]

  stops_decision : (b : Bool) (k l : ℕ) → k ≡ 0 → e.reason_of (var l) ≡ none → stops b e k l ≡ true
  stops_decision b k l d at = rw (d, at) (or_true (not b || not (aux_lit e l)))

  search_uip-Learns :
      (b : Bool) (s : Analysis) (trail : Cl)
      → OneEach trail
      → IsTrail e is_false trail
      → IsReady e is_false given s trail
      → Learns e is_false given (search_uip b e s trail)
  unfolding search_uip left
  search_uip-Learns b s [] o t r = absurd (omega (arith, r.some_open))
  search_uip-Learns b s (l ∷ below) o t r = elim (Bool-cases (marked e s l)) [
    | inr m ↦ rw m (
        search_uip-Learns b s below o.1 t.1
          (skip-IsReady e is_false given positive consistent s l below r m))
    | inl m ↦
        let level = marked_level s l m in
        let why = t.0 level in
        elim (Option-cases (e.reason_of (var l))) [
          | inl none_at ↦
              let zero_left =
                decided s l below r m (subst (Explained e is_false l below) none_at why) in
              rw (m, stops_decision b (s.n_open - 1) l zero_left none_at)
                (stop-Learns e is_false given positive consistent s l below r m level zero_left)
          | inr (c, at) ↦ elim (Bool-cases (stops b e (s.n_open - 1) l)) [
            | inl h ↦
                rw (m, h)
                  (stop-Learns e is_false given positive consistent s l below r m level
                    (stops_open b (s.n_open - 1) l h))
            | inr h ↦
                rw (m, h, at)
                  (search_uip-Learns b
                    (analyze_reason e l c (left e is_false given positive consistent s l below r m))
                    below o.1 t.1
                    (resolve-IsReady e is_false given positive consistent s l below r m c o.1 at
                      (subst (Explained e is_false l below) at why)))
          ]
        ]
  ]

  fresh-IsAnalysis : (s : Analysis) (trail : Cl) → IsFresh s → IsAnalysis e is_false trail s
  fresh-IsAnalysis s trail f = record {
    counts = f.no_open ∙ sym (tally-zero (marked e s) trail (λ x _. rw (f.unseen (var x)) refl));
    lower = subst (All _) (sym f.no_clause) tt;
    holds = λ x _ h. absurd (apart (sym h ∙ f.unseen (var x)));
  }

module _ (e : Implications) (is_false : ℕ → Bool) (trail : Cl) where
  All-weaken :
      (xs : Cl)
      → All (λ x. (x ≢ 0) × FalseBelow e is_false trail x) xs
      → All (λ x. x ≢ 0 → FalseBelow e is_false trail x) xs
  All-weaken [] a = tt
  All-weaken (x ∷ xs) a = (λ _. a.0.1, All-weaken xs a.1)

  All-elem :
      (xs : Cl)
      → All (λ x. (x ≢ 0) × FalseBelow e is_false trail x) xs
      → (y : ℕ) → elem y xs ≡ true
      → (y ≢ 0) × FalseBelow e is_false trail y
  All-elem [] a y h = absurd (apart (sym h))
  All-elem (x ∷ xs) a y h = elim (eq_cases y x) [
    | inl d ↦ subst (λ z. (z ≢ 0) × FalseBelow e is_false trail z) (sym d) a.0
    | inr d ↦ All-elem xs a.1 y (ground (arith, h, d))
  ]

-- Take a conflict of false literals, one of them of the current level, which is not the root level,
-- and a trail with no variable twice, on which each literal of the current level is its decision or
-- has a reason whose other literals became false before, one of these of the current level. With
-- UIPAUX or without, the analysis finds a UIP: all other literals of the clause are false and of
-- lower levels, and the clause with the negated UIP is true under every assignment that satisfies
-- the conflict, the reasons and the literals of the root level.
pub derive-Learns :
    (b : Bool) (e : Implications) (is_false : ℕ → Bool) (s : Analysis) (conflict trail : Cl)
    → 0 < e.level
    → ((x : ℕ) → is_false x ≡ true → is_false (neg x) ≡ false)
    → OneEach trail
    → IsTrail e is_false trail
    → IsFresh s
    → All (λ x. (x ≢ 0) × FalseBelow e is_false trail x) conflict
    → (x : ℕ) → elem x conflict ≡ true
    → e.level_of (var x) ≡ e.level
    → Learns e is_false (λ α. clause_true α conflict ≡ true) (derive b e s conflict trail)
unfolding derive
derive-Learns b e is_false s conflict trail positive consistent o t f all x inside level =
    let given : Assignment → Type 0 = λ α. clause_true α conflict ≡ true in
    let some_false = All-weaken e is_false trail conflict all in
    let start = fresh-IsAnalysis e is_false given positive consistent s trail f in
    let grows = analyze_reason-Grows e is_false trail o consistent 0 conflict s start some_false in
    let here = All-elem e is_false trail conflict all x inside in
    let seen =
      analyze_reason_seen e is_false trail o consistent 0 x conflict s start some_false inside
        here.0 (λ z. omega (arith, z, level, positive)) in
    search_uip-Learns e is_false given positive consistent b (analyze_reason e 0 conflict s) trail o
      t
      (record {
        sound = grows.sound;
        some_open =
            tally-elem (marked e (analyze_reason e 0 conflict s)) (neg x) trail
              (here.1.on_trail level) (rw ((neg_lem x).1, seen, level) (ground arith));
        covers = λ α m g.
            analyze_reason_covers e is_false trail o consistent α 0 conflict s start some_false
              m.root (λ h. absurd ((All-elem e is_false trail conflict all 0 h).0 refl)) g;
      })
