-- ===== src/Cadical/Analyze/Tests.antt =====
-- The analysis of a conflict on the decision 1, which implies the gate output 2, which implies 3.
use ignore_gates.Prelude.{
  ℕ, ◌≡◌, refl, ◌-◌, Bool, true, false, ◌||◌, none, some, [], ◌∷◌, ◌==◌, if◌then◌else◌, arith, All,
  subst, sym, inl, inr,
}
use ignore_gates.Types.{Cl, Assignment, neg, var, clause_true}
use ignore_gates.Cadical.Analyze.{
  Implications, Analysis, Derived, found, aux_lit, derive, remove_aux,
}
use ignore_gates.Cadical.Analyze.Reasons.{FalseBelow}
use ignore_gates.Cadical.Analyze.Steps.{Satisfies, Learns, implied, decision}
use ignore_gates.Cadical.Analyze.Expands.{IsLow, Explains, IsComplete}
use ignore_gates.Cadical.Analyze.Traces.{remove_aux-cleans}
use ignore_gates.Cadical.Analyze.Learns.{IsFresh, derive-Learns}

abbrev chain : Implications
chain = record {
  level_of = λ _. 1;
  trail_of = λ v. v - 1;
  reason_of = λ v. if v == 2 then some (4 ∷ 3 ∷ []) else if v == 3 then some (6 ∷ 5 ∷ []) else none;
  level = 1;
  aux = 2 ∷ [];
  i2e = λ v. v;
}

abbrev unstarted : Analysis
unstarted = record {
  seen = λ _. false;
  clause = [];
  analyzed = [];
  levels = [];
  seen_count = λ _. 0;
  seen_trail = λ _. 0;
  n_open = 0;
}

abbrev falsified : ℕ → Bool
falsified x = x == 3 || x == 5 || x == 7

unstarted-IsFresh : IsFresh unstarted
unstarted-IsFresh = record { unseen = λ v. refl; no_clause = refl; no_open = refl }

five_below : FalseBelow chain falsified (4 ∷ 2 ∷ []) 5
five_below = record { falsified = refl; level_le = omega arith; on_trail = λ _. refl }

three_below : FalseBelow chain falsified (2 ∷ []) 3
three_below = record { falsified = refl; level_le = omega arith; on_trail = λ _. refl }

in_conflict : (x : ℕ) → falsified x ≡ true → FalseBelow chain falsified (6 ∷ 4 ∷ 2 ∷ []) x
in_conflict x h = record {
  falsified = h;
  level_le = omega arith;
  on_trail = λ _. ground (arith, h);
}

-- With UIPAUX the search passes the output 2 and ends at the decision; without it ends at 2.
derive-Learns_example :
    Learns chain falsified
      (λ α. clause_true α (5 ∷ 7 ∷ []) ≡ true)
      (derive true chain unstarted (5 ∷ 7 ∷ []) (6 ∷ 4 ∷ 2 ∷ []))
derive-Learns_example =
    derive-Learns true chain falsified unstarted (5 ∷ 7 ∷ []) (6 ∷ 4 ∷ 2 ∷ []) (omega arith)
      (λ x h. ground (arith, h))
      ((ground arith, (ground arith, tt)), ((ground arith, tt), (tt, tt)))
      (
        (λ _.
            implied (6 ∷ 5 ∷ []) ((λ n. absurd (n refl)), ((λ _. five_below), tt)) 5 refl
              (λ e. ground (arith, e)) refl),
        (
          (λ _.
              implied (4 ∷ 3 ∷ []) ((λ n. absurd (n refl)), ((λ _. three_below), tt)) 3 refl
                (λ e. ground (arith, e)) refl),
          ((λ _. decision (λ x h. absurd cc)), tt),
        ),
      )
      unstarted-IsFresh
      (
        ((λ e. ground (arith, e)), in_conflict 5 refl),
        (((λ e. ground (arith, e)), in_conflict 7 refl), tt),
      )
      5 refl refl

derived_uip : Derived → ℕ
derived_uip (found s uip) = uip
derived_uip d = 0

uip_with : derived_uip (derive true chain unstarted (5 ∷ 7 ∷ []) (6 ∷ 4 ∷ 2 ∷ [])) ≡ 2
unfolding derive derived_uip
uip_with = refl

uip_without : derived_uip (derive false chain unstarted (5 ∷ 7 ∷ []) (6 ∷ 4 ∷ 2 ∷ [])) ≡ 4
unfolding derive derived_uip
uip_without = refl

-- A clause of level 2 with the gate output 2 of level 1, which the decision 1 implies.
abbrev two_levels : Implications
two_levels = record {
  level_of = λ v. if v == 3 then 2 else 1;
  trail_of = λ v. v;
  reason_of = λ v. if v == 2 then some (4 ∷ 3 ∷ []) else none;
  level = 2;
  aux = 2 ∷ [];
  i2e = λ v. v;
}

abbrev learned : Analysis
learned = record {
  seen = λ v. v == 2 || v == 3;
  clause = 5 ∷ 7 ∷ [];
  analyzed = 5 ∷ 7 ∷ [];
  levels = 1 ∷ 2 ∷ [];
  seen_count = λ _. 1;
  seen_trail = λ v. v;
  n_open = 0;
}

falsified_once : (x : ℕ) → falsified x ≡ true → falsified (neg x) ≡ false
falsified_once x h = ground (arith, h)

abbrev Low : ℕ → Type 0
Low = IsLow two_levels falsified 4 7 falsified_once

five-Low : Low 5
five-Low = record { falsified = refl; level_lt = omega arith; bounded = omega arith }

three-Low : Low 3
three-Low = record { falsified = refl; level_lt = omega arith; bounded = omega arith }

learned-IsComplete : IsComplete two_levels falsified 4 7 falsified_once learned
learned-IsComplete = record {
  listed = λ z l h. inl (ground (arith, l.falsified, l.level_lt, h));
  uip_in = refl;
  members = ((refl, inl five-Low), ((refl, inr refl), tt));
}

output_five : (z : ℕ) → Low z → aux_lit two_levels z ≡ true → z ≡ 5
output_five z l h = ground (arith, l.falsified, h)

remove_aux-cleans_example :
    (t : Analysis) × ((remove_aux two_levels 9 learned 0 ≡ some t)
      × All (λ x. aux_lit two_levels x ≡ false) t.clause
      × ((α : Assignment)
          → Satisfies two_levels falsified α
          → clause_true α (5 ∷ 7 ∷ []) ≡ true
          → clause_true α t.clause ≡ true))
remove_aux-cleans_example =
    remove_aux-cleans two_levels falsified 4 7 falsified_once refl
      (λ z l h.
        subst
          (λ y.
            (r : Cl) × ((two_levels.reason_of (var y) ≡ some r)
              × Explains two_levels falsified 4 7 falsified_once y r))
          (sym (output_five z l h))
          (4 ∷ 3 ∷ [], (refl, ((λ m. absurd (m refl)), ((λ _. (three-Low, omega arith)), tt)))))
      9 learned learned-IsComplete (omega arith)
