-- ===== src/Cadical/Analyze/Resolves.antt =====
-- Analyzing a whole reason: what an assignment makes true of it is covered afterwards.
use ignore_gates.Prelude.{
  ℕ, ◌≡◌, ◌≢◌, sym, ap, subst, ◌∙◌, inl, inr, Bool, true, false, ◌||◌, [], ◌∷◌, ◌==◌, arith, elem,
  All, Bool-cases, if_eq, if_ne, if◌then◌else◌,
}
use ignore_gates.Types.{Cl, neg, var, Assignment, lit_true, clause_true}
use ignore_gates.Cadical.Heap.Indexed.{eq_cases}
use ignore_gates.Cadical.Analyze.{Implications, Analysis, analyze_literal, analyze_reason}
use ignore_gates.Cadical.Analyze.Marks.{OneEach}
use ignore_gates.Cadical.Analyze.Marking.{apart}
use ignore_gates.Cadical.Analyze.Reasons.{
  covered, FalseBelow, IsAnalysis, Grows, Grows-refl, Grows-trans, analyze_literal-Grows,
  analyze_literal_seen, seen_covered,
}

module _ (e : Implications) (is_false : ℕ → Bool) (below : Cl) (one_each : OneEach below)
    (consistent : (x : ℕ) → is_false x ≡ true → is_false (neg x) ≡ false) where
  step_one : ℕ → ℕ → Analysis → Analysis
  step_one l x s = if x == l then s else analyze_literal e x s

  step-Grows :
      (l x : ℕ) (s : Analysis)
      → IsAnalysis e is_false below s
      → (x ≢ l → FalseBelow e is_false below x)
      → Grows e is_false below s (step_one l x s)
  unfolding step_one
  step-Grows l x s i f = elim (eq_cases x l) [
    | inl d ↦
        subst (Grows e is_false below s) (sym (if_eq x l _ _ d)) (Grows-refl e is_false below s i)
    | inr n ↦
        subst (Grows e is_false below s) (sym (if_ne x l _ _ n))
          (analyze_literal-Grows e is_false below one_each consistent x s i (f n))
  ]

  pub analyze_reason-Grows :
      (l : ℕ) (xs : Cl) (s : Analysis)
      → IsAnalysis e is_false below s
      → All (λ x. x ≢ l → FalseBelow e is_false below x) xs
      → Grows e is_false below s (analyze_reason e l xs s)
  unfolding analyze_reason step_one
  analyze_reason-Grows l [] s i f = Grows-refl e is_false below s i
  analyze_reason-Grows l (x ∷ xs) s i f =
      let one = step-Grows l x s i f.0 in
      Grows-trans e is_false below s (step_one l x s) _ one
        (analyze_reason-Grows l xs (step_one l x s) one.sound f.1)

  step_seen :
      (l x : ℕ) (s : Analysis)
      → x ≢ l
      → e.level_of (var x) ≢ 0
      → (step_one l x s).seen (var x) ≡ true
  unfolding step_one
  step_seen l x s n r =
      subst (λ (t : Analysis). t.seen (var x) ≡ true) (sym (if_ne x l _ _ n))
        (analyze_literal_seen e is_false below one_each consistent x s r)

  pub analyze_reason_seen :
      (l y : ℕ) (xs : Cl) (s : Analysis)
      → IsAnalysis e is_false below s
      → All (λ x. x ≢ l → FalseBelow e is_false below x) xs
      → elem y xs ≡ true
      → y ≢ l
      → e.level_of (var y) ≢ 0
      → (analyze_reason e l xs s).seen (var y) ≡ true
  unfolding analyze_reason step_one
  analyze_reason_seen l y [] s i f m n r = absurd (apart (sym m))
  analyze_reason_seen l y (x ∷ xs) s i f m n r =
      let one = step-Grows l x s i f.0 in
      let rest = analyze_reason-Grows l xs (step_one l x s) one.sound f.1 in
      elim (eq_cases y x) [
        | inl d ↦
            rest.seen_kept (var y)
              (subst (λ z. (step_one l z s).seen (var y) ≡ true) d (step_seen l y s n r))
        | inr k ↦
            analyze_reason_seen l y xs (step_one l x s) one.sound f.1 (ground (arith, m, k)) n r
      ]

  -- A true literal of a reason other than the one that it implies is covered.
  pub analyze_reason_covers :
      (α : Assignment) (l : ℕ) (xs : Cl) (s : Analysis)
      → IsAnalysis e is_false below s
      → All (λ x. x ≢ l → FalseBelow e is_false below x) xs
      → ((x : ℕ) → is_false x ≡ true → e.level_of (var x) ≡ 0 → lit_true α x ≡ false)
      → (elem l xs ≡ true → lit_true α l ≡ false)
      → clause_true α xs ≡ true
      → covered e α (analyze_reason e l xs s) below ≡ true
  unfolding analyze_reason step_one
  analyze_reason_covers α l [] s i f root wrong t = absurd (apart (sym t))
  analyze_reason_covers α l (x ∷ xs) s i f root wrong t =
      let one = step-Grows l x s i f.0 in
      let rest = analyze_reason-Grows l xs (step_one l x s) one.sound f.1 in
      elim (Bool-cases (lit_true α x)) [
        | inl h ↦
            let n : x ≢ l = λ d. apart (sym h ∙ (ap (lit_true α) d ∙ wrong (ground (arith, d)))) in
            let new : e.level_of (var x) ≢ 0 = λ d. apart (sym h ∙ root x (f.0 n).falsified d) in
            rest.keeps α (
              seen_covered e is_false below one_each consistent x (step_one l x s) α one.sound
                (f.0 n) (step_seen l x s n new) h)
        | inr h ↦
            analyze_reason_covers α l xs (step_one l x s) one.sound f.1 root
              (λ k. wrong (ground (arith, k))) (ap (λ b. b || clause_true α xs) (sym h) ∙ t)
      ]
