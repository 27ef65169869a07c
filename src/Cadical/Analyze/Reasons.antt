-- ===== src/Cadical/Analyze/Reasons.antt =====
-- Analyzing a reason: what the analysis covers, and its count of open literals.
use ignore_gates.Prelude.{
  ℕ, suc, ◌≤◌, ◌<◌, ◌≡◌, ◌≢◌, refl, sym, ap, subst, ◌∙◌, inl, inr, Bool, true, false, ◌&&◌, ◌||◌,
  [], ◌∷◌, ◌==◌, arith, any, elem, elem-append, All, All-append, Bool-cases, if_eq, if_ne,
}
use ignore_gates.Types.{Cl, neg, var, Assignment, lit_true, clause_true}
use ignore_gates.Types.Literals.{same_var, neg_lem, clause_true-append}
use ignore_gates.Cadical.Heap.Indexed.{eq_cases}
use ignore_gates.Cadical.Analyze.{Implications, Analysis, mark_literal, analyze_literal}
use ignore_gates.Cadical.Analyze.Marks.{tally, any-elem, any_mono, OneEach, tally_one}
use ignore_gates.Cadical.Analyze.Marking.{
  apart, or_true, or_left, or_right, and_mono, marked, next, seen_more, marked_other, marked_more,
  marked_new, marked_low, clause_low, same_high, open_low,
}

-- `α` makes a literal of the clause true, or one of the marked trail literals false.
abbrev pub covered : Implications → Assignment → Analysis → Cl → Bool
covered e α s below = clause_true α s.clause || any (λ x. marked e s x && lit_true α (neg x)) below

-- At most one literal of a variable is false.
pub only_false :
    (is_false : ℕ → Bool)
    → ((x : ℕ) → is_false x ≡ true → is_false (neg x) ≡ false)
    → (x y : ℕ) → is_false x ≡ true
    → is_false y ≡ true
    → var y ≡ var x
    → y ≡ x
only_false is_false consistent x y f g d = elim (eq_cases y x) [
  | inl k ↦ k
  | inr n ↦ absurd (apart (sym g ∙ (ap is_false (same_var y x d n) ∙ consistent x f)))
]

module _ (e : Implications) (is_false : ℕ → Bool) (below : Cl) where
  -- A false literal that became false before: on a level up to the current one, and if on that
  -- one, by a literal of the trail below.
  pub record FalseBelow (x : ℕ) : Type 0 where
    pub falsified : is_false x ≡ true
    pub level_le : e.level_of (var x) ≤ e.level
    pub on_trail : e.level_of (var x) ≡ e.level → elem (neg x) below ≡ true

  -- `open` counts the marked literals, the clause is of false literals of lower levels, and holds
  -- all seen ones.
  pub record IsAnalysis (s : Analysis) : Type 0 where
    pub counts : s.n_open ≡ tally (marked e s) below
    pub lower : All (λ x. (e.level_of (var x) < e.level) × (is_false x ≡ true)) s.clause
    pub holds :
        (x : ℕ)
        → is_false x ≡ true
        → s.seen (var x) ≡ true
        → e.level_of (var x) < e.level
        → elem x s.clause ≡ true

  -- Everything stays covered, and what was seen stays seen.
  pub record Grows (s t : Analysis) : Type 0 where
    pub sound : IsAnalysis t
    pub seen_kept : (v : ℕ) → s.seen v ≡ true → t.seen v ≡ true
    pub keeps : (α : Assignment) → covered e α s below ≡ true → covered e α t below ≡ true

  pub Grows-refl : (s : Analysis) → IsAnalysis s → Grows s s
  Grows-refl s i = record { sound = i; seen_kept = λ v h. h; keeps = λ α h. h }

  pub Grows-trans : (s t u : Analysis) → Grows s t → Grows t u → Grows s u
  Grows-trans s t u g h = record {
    sound = h.sound;
    seen_kept = λ v k. h.seen_kept v (g.seen_kept v k);
    keeps = λ α k. h.keeps α (g.keeps α k);
  }

  module _ (one_each : OneEach below)
      (consistent : (x : ℕ) → is_false x ≡ true → is_false (neg x) ≡ false) where
    -- A new literal of a lower level joins the clause.
    mark_low :
        (x : ℕ) (s : Analysis)
        → IsAnalysis s
        → FalseBelow x
        → e.level_of (var x) < e.level
        → Grows s (mark_literal e x s)
    unfolding next
    mark_low x s i f l = record {
      sound = record {
        counts = open_low e x s l ∙ (i.counts ∙ ap (λ m. tally m below) (sym (marked_low e x s l)));
        lower =
            subst (All _) (sym (clause_low e x s l))
              (All-append _ s.clause (x ∷ []) i.lower ((l, f.falsified), tt));
        holds = λ y g h k.
            rw (clause_low e x s l, elem-append y s.clause (x ∷ []))
              (elim (eq_cases (var y) (var x)) [
                | inl d ↦ ground (arith, only_false is_false consistent x y f.falsified g d)
                | inr n ↦
                    rw (i.holds y g (sym (if_ne (var y) (var x) true (s.seen (var y)) n) ∙ h) k)
                      refl
              ]);
      };
      seen_kept = seen_more e x s;
      keeps = λ α h.
          subst
            (λ m.
              (clause_true α (next e x s).clause || any (λ y. m y && lit_true α (neg y)) below)
              ≡ true)
            (sym (marked_low e x s l))
            (rw (clause_low e x s l, clause_true-append α s.clause (x ∷ []))
              (or_left (clause_true α s.clause) _ _ (λ g. rw g refl) h));
    }

    -- A new literal of the current level is counted.
    mark_high :
        (x : ℕ) (s : Analysis)
        → IsAnalysis s
        → FalseBelow x
        → s.seen (var x) ≡ false
        → e.level_of (var x) ≡ e.level
        → Grows s (mark_literal e x s)
    unfolding next
    mark_high x s i f n l =
        let (clause, opened) = same_high e x s l in
        let same : var (neg x) ≡ var x = (neg_lem x).1 in
        record {
          sound = record {
            counts =
                opened
                ∙ (ap suc i.counts
                    ∙ sym (
                        tally_one (marked e s) (marked e (next e x s)) (var x) (marked_other e x s)
                          (neg x) below one_each (f.on_trail l) same (rw (same, n) refl)
                          (marked_new e x s (neg x) same l)));
            lower = subst (All _) (sym clause) i.lower;
            holds = λ y g h k. elim (eq_cases (var y) (var x)) [
              | inl d ↦ absurd (omega (arith, k, ap e.level_of d, l))
              | inr m ↦
                  subst (λ c. elem y c ≡ true) (sym clause)
                    (i.holds y g (sym (if_ne (var y) (var x) true (s.seen (var y)) m) ∙ h) k)
            ];
          };
          seen_kept = seen_more e x s;
          keeps = λ α h. rw clause (
              or_right (clause_true α s.clause) _ _
                (any_mono _ _ below (λ y. and_mono (marked e s y) _ _ (marked_more e x s y))) h);
        }

    -- One false literal.
    pub analyze_literal-Grows :
        (x : ℕ) (s : Analysis) → IsAnalysis s → FalseBelow x → Grows s (analyze_literal e x s)
    unfolding analyze_literal
    analyze_literal-Grows x s i f = elim (Bool-cases (s.seen (var x))) [
      | inl h ↦ rw h (Grows-refl s i)
      | inr h ↦ elim (Bool-cases (e.level_of (var x) == 0)) [
        | inl r ↦ rw (h, r) (Grows-refl s i)
        | inr r ↦ elim (eq_cases (e.level_of (var x)) e.level) [
          | inl l ↦ rw (h, r) (mark_high x s i f h l)
          | inr l ↦ rw (h, r) (mark_low x s i f (omega (arith, l, f.level_le)))
        ]
      ]
    ]

    -- After it, the literal is seen.
    pub analyze_literal_seen :
        (x : ℕ) (s : Analysis)
        → e.level_of (var x) ≢ 0
        → (analyze_literal e x s).seen (var x) ≡ true
    unfolding analyze_literal
    analyze_literal_seen x s n = elim (Bool-cases (s.seen (var x))) [
      | inl h ↦ rw h h
      | inr h ↦
          let r : (e.level_of (var x) == 0) ≡ false = ground (arith, n) in
          rw (h, r) (if_eq {A = Bool} (var x) (var x) true (s.seen (var x)) refl)
    ]

    -- Where an assignment makes a seen literal true, that is covered.
    pub seen_covered :
        (x : ℕ) (s : Analysis) (α : Assignment)
        → IsAnalysis s
        → FalseBelow x
        → s.seen (var x) ≡ true
        → lit_true α x ≡ true
        → covered e α s below ≡ true
    seen_covered x s α i f h t = elim (eq_cases (e.level_of (var x)) e.level) [
      | inl l ↦
          let open_literal =
            any-elem (λ y. marked e s y && lit_true α (neg y)) (neg x) below (f.on_trail l)
              (rw ((neg_lem x).1, h, l, (neg_lem x).0, t) (ground arith)) in
          rw open_literal (or_true (clause_true α s.clause))
      | inr l ↦
          let there = i.holds x f.falsified h (omega (arith, l, f.level_le)) in
          rw (any-elem (lit_true α) x s.clause there t) refl
    ]
