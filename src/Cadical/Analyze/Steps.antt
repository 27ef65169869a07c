-- ===== src/Cadical/Analyze/Steps.antt =====
-- One entry of the trail in the search for the UIP: it is passed over, it is the UIP, or its reason
-- is analyzed.
use ignore_gates.Prelude.{
  ℕ, ◌+◌, ◌-◌, ◌<◌, ◌≡◌, ◌≢◌, refl, sym, ap, subst, ◌∙◌, ◌⊎◌, inl, inr, Bool, true, false, not,
  ◌&&◌, ◌||◌, Option, none, some, [], ◌∷◌, arith, any, elem, All, if◌then◌else◌,
}
use ignore_gates.Types.{Cl, neg, var, Assignment, lit_true, clause_true}
use ignore_gates.Types.Literals.{neg_lem, lit_true-neg, clause_true-append}
use ignore_gates.Cadical.Heap.Indexed.{eq_cases}
use ignore_gates.Cadical.Analyze.{Implications, Analysis, Derived, found, analyze_reason, push_uip}
use ignore_gates.Cadical.Analyze.Marks.{tally, tally-any, tally-elem, OneEach}
use ignore_gates.Cadical.Analyze.Marking.{marked, apart}
use ignore_gates.Cadical.Analyze.Reasons.{covered, FalseBelow, IsAnalysis}
use ignore_gates.Cadical.Analyze.Resolves.{
  analyze_reason-Grows, analyze_reason_seen, analyze_reason_covers,
}

not-true : (b : Bool) → not b ≡ true → b ≡ false
not-true true h = absurd (apart (sym h))
not-true false h = refl

module _ (e : Implications) (is_false : ℕ → Bool) where
  -- What stands behind a literal of the current level: it is the decision and the first of its
  -- level, or its reason holds, besides it, literals that became false before, one of them on the
  -- current level.
  pub data Explained (l : ℕ) (below : Cl) : Option Cl → Type 0 where
    decision :
        ((x : ℕ) → elem x below ≡ true → e.level_of (var x) ≢ e.level) → Explained l below none
    implied :
        (r : Cl)
        → All (λ x. x ≢ l → FalseBelow e is_false below x) r
        → (x : ℕ) → elem x r ≡ true
        → x ≢ l
        → e.level_of (var x) ≡ e.level
        → Explained l below (some r)

  -- A trail, from its end, whose literals of the current level are explained.
  abbrev pub IsTrail : Cl → Type 0
  IsTrail [] = Unit {0}
  IsTrail (l ∷ below) =
      (e.level_of (var l) ≡ e.level → Explained l below (e.reason_of (var l))) × IsTrail below

  -- `α` makes the reasons true, and the literals false that are false on the root level.
  pub record Satisfies (α : Assignment) : Type 0 where
    pub reasons : (v : ℕ) (r : Cl) → e.reason_of v ≡ some r → clause_true α r ≡ true
    pub root : (x : ℕ) → is_false x ≡ true → e.level_of (var x) ≡ 0 → lit_true α x ≡ false

  -- The UIP is found on the current level, all other literals of the clause are of lower levels,
  -- and the clause follows.
  pub record Learns (given : Assignment → Type 0) (d : Derived) : Type 0 where
    pub state : Analysis
    pub uip : ℕ
    pub ends : d ≡ found state uip
    pub on_level : e.level_of (var uip) ≡ e.level
    pub lower : All (λ x. (e.level_of (var x) < e.level) × (is_false x ≡ true)) state.clause
    pub follows :
        (α : Assignment) → Satisfies α → given α → clause_true α (push_uip state uip).clause ≡ true

  -- The state before the entry at the top of the trail is read.
  pub record IsReady (given : Assignment → Type 0) (s : Analysis) (trail : Cl) : Type 0 where
    pub sound : IsAnalysis e is_false trail s
    pub some_open : 0 < tally (marked e s) trail
    pub covers : (α : Assignment) → Satisfies α → given α → covered e α s trail ≡ true

  module _ (given : Assignment → Type 0) (positive : 0 < e.level)
      (consistent : (x : ℕ) → is_false x ≡ true → is_false (neg x) ≡ false) where
    neg-true : (α : Assignment) (l : ℕ) → lit_true α (neg l) ≡ true → lit_true α l ≡ false
    neg-true α l h = not-true (lit_true α l) (sym (lit_true-neg α l) ∙ h)

    -- An entry that is not marked is passed over.
    pub skip-IsReady :
        (s : Analysis) (l : ℕ) (below : Cl)
        → IsReady given s (l ∷ below)
        → marked e s l ≡ false
        → IsReady given s below
    skip-IsReady s l below r h =
        let one : tally (marked e s) (l ∷ below) ≡ tally (marked e s) below =
          ap (λ b. tally (marked e s) below + (if b then 1 else 0)) h ∙ omega arith in
        record {
          sound = record {
            counts = r.sound.counts ∙ one;
            lower = r.sound.lower;
            holds = r.sound.holds;
          };
          some_open = subst (λ k. 0 < k) one r.some_open;
          covers = λ α m g.
              ap
                (λ b.
                  clause_true α s.clause
                  || ((b && lit_true α (neg l))
                      || any (λ x. marked e s x && lit_true α (neg x)) below))
                (sym h)
              ∙ r.covers α m g;
        }

    or_cases : (a b : Bool) → (a || b) ≡ true → (a ≡ true) ⊎ (b ≡ true)
    or_cases true b h = inl refl
    or_cases false b h = inr h

    pub and_second : (a b : Bool) → (a && b) ≡ true → b ≡ true
    and_second true b h = h
    and_second false b h = absurd (apart (sym h))

    pub or_more : (a b : Bool) → b ≡ true → (a || b) ≡ true
    or_more true b h = refl
    or_more false b h = h

    -- The UIP itself, once it is taken off the trail.
    uip-covered :
        (s : Analysis) (l : ℕ) (below : Cl) (α : Assignment)
        → covered e α s (l ∷ below) ≡ true
        → (covered e α s below ≡ true) ⊎ (lit_true α (neg l) ≡ true)
    uip-covered s l below α h = elim (or_cases (clause_true α s.clause) _ h) [
      | inl c ↦ inl (rw c refl)
      | inr c ↦ elim (or_cases (marked e s l && lit_true α (neg l)) _ c) [
        | inl d ↦ inr (and_second (marked e s l) _ d)
        | inr d ↦ inl (or_more (clause_true α s.clause) _ d)
      ]
    ]

    module _ (s : Analysis) (l : ℕ) (below : Cl) (ready : IsReady given s (l ∷ below))
        (mark : marked e s l ≡ true) where
      unfoldable pub left : Analysis
      left = record s { n_open = s.n_open - 1 }

      pub left-IsAnalysis : IsAnalysis e is_false below left
      unfolding left
      left-IsAnalysis =
          let one : tally (marked e s) (l ∷ below) ≡ tally (marked e s) below + 1 =
            ap (λ b. tally (marked e s) below + (if b then 1 else 0)) mark in
          record {
            counts = omega (arith, ready.sound.counts, one);
            lower = ready.sound.lower;
            holds = ready.sound.holds;
          }

      -- With no open literal left the UIP is found.
      pub stop-Learns : e.level_of (var l) ≡ e.level → left.n_open ≡ 0 → Learns given (found left l)
      unfolding left
      stop-Learns level none_open = record {
        state = left;
        uip = l;
        ends = refl;
        on_level = level;
        lower = ready.sound.lower;
        follows = λ α m g.
            let rest =
              tally-any (marked e s) (λ x. lit_true α (neg x)) below
                (sym left-IsAnalysis.counts ∙ none_open) in
            clause_true-append α s.clause (neg l ∷ [])
            ∙ elim (uip-covered s l below α (ready.covers α m g)) [
              | inl c ↦ elim (or_cases (clause_true α s.clause) _ c) [
                | inl d ↦ rw d refl
                | inr d ↦ absurd (apart (sym d ∙ rest))
              ]
              | inr c ↦ or_more (clause_true α s.clause) _ (rw c refl)
            ];
      }

      -- Otherwise its reason is analyzed.
      pub resolve-IsReady :
          (r : Cl)
          → OneEach below
          → e.reason_of (var l) ≡ some r
          → Explained l below (some r)
          → IsReady given (analyze_reason e l r left) below
      unfolding left
      resolve-IsReady r one_each at (implied _ all x inside n level) =
          let grows =
            analyze_reason-Grows e is_false below one_each consistent l r left left-IsAnalysis
              all in
          let seen =
            analyze_reason_seen e is_false below one_each consistent l x r left left-IsAnalysis all
              inside n (λ z. omega (arith, z, level, positive)) in
          record {
            sound = grows.sound;
            some_open =
                tally-elem (marked e (analyze_reason e l r left)) (neg x) below
                  ((false_one x r all inside n).on_trail level)
                  (rw ((neg_lem x).1, seen, level) (ground arith));
            covers = λ α m g. elim (uip-covered s l below α (ready.covers α m g)) [
              | inl c ↦ grows.keeps α c
              | inr c ↦
                  analyze_reason_covers e is_false below one_each consistent α l r left
                    left-IsAnalysis all m.root (λ _. neg-true α l c) (m.reasons (var l) r at)
            ];
          }
        where
          false_one :
              (y : ℕ) (ys : Cl)
              → All (λ z. z ≢ l → FalseBelow e is_false below z) ys
              → elem y ys ≡ true
              → y ≢ l
              → FalseBelow e is_false below y
          false_one y [] a h k = absurd (apart (sym h))
          false_one y (z ∷ zs) a h k = elim (eq_cases y z) [
            | inl d ↦ subst (FalseBelow e is_false below) (sym d) (a.0 (λ q. k (d ∙ q)))
            | inr d ↦ false_one y zs a.1 (ground (arith, h, d)) k
          ]
