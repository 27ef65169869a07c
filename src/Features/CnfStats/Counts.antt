-- ===== src/Features/CnfStats/Counts.antt =====
-- What `analyze_occurrences` counts, against the clauses of the formula.
use ignore_gates.Prelude.{ℕ, ◌+◌, ◌%◌, ◌<◌, ◌≤◌, ◌≡◌, refl, ◌∙◌, ◌==◌, arith, length, map, All}
use ignore_gates.Formula.{Clause, CnfFormula, n_clauses}
use ignore_gates.Features.CnfStats.{Counters, no_counters, analyze_occurrences}
use ignore_gates.Features.CnfStats.Horn.{
  count_of, Has, count_clauses-Has, is_horn, is_positive, is_inv_horn, is_negative,
}
use ignore_gates.Features.CnfStats.Sizes.{count_clauses_occurrences, count_clauses_sizes}

-- The counters of a formula: its Horn clauses, with at most one negative literal, its positive
-- clauses, with none, both with the signs exchanged, the sizes of its clauses in order, and how many
-- clauses have a size below 10, added to what the array held before.
pub record IsCounted (garbage : ℕ → ℕ) (f : CnfFormula) (s : Counters) : Type 0 where
  pub horn : s.horn ≡ count_of is_horn f.formula
  pub positive : s.positive ≡ count_of is_positive f.formula
  pub inv_horn : s.inv_horn ≡ count_of is_inv_horn f.formula
  pub negative : s.negative ≡ count_of is_negative f.formula
  pub occurrences : s.clause_occurrences ≡ map (λ (c : Clause). length c.lits) f.formula
  pub sizes :
      (k : ℕ)
      → k < 10
      → s.clause_sizes k % 4294967296
        ≡ (garbage k + count_of (λ c. length c == k) f.formula) % 4294967296

-- With fewer than 2^32 clauses, each of at most 2^24 literals, the counters are exact: of the clauses
-- with at most one negative literal, with none, with at most one positive literal, and with none. The
-- sizes of the clauses are listed in order, and each entry below 10 of the array of sizes goes up, in
-- 32 bits, by the number of clauses of that size from what it held before.
pub analyze_occurrences-IsCounted :
    (garbage : ℕ → ℕ) (f : CnfFormula)
    → n_clauses f < 4294967296
    → All (λ (c : Clause). length c.lits ≤ 16777216) f.formula
    → IsCounted garbage f (analyze_occurrences garbage f)
unfolding analyze_occurrences
analyze_occurrences-IsCounted garbage f m a =
    let zeros : Has 0 0 0 0 (no_counters garbage) = record {
      horn = refl;
      positive = refl;
      inv_horn = refl;
      negative = refl;
    } in
    let has =
      count_clauses-Has 0 0 0 0 0 (no_counters garbage) f.formula a
        (omega arith, omega arith, omega arith, omega arith, omega (arith, m)) zeros in
    record {
      horn = has.horn ∙ omega arith;
      positive = has.positive ∙ omega arith;
      inv_horn = has.inv_horn ∙ omega arith;
      negative = has.negative ∙ omega arith;
      occurrences = count_clauses_occurrences (no_counters garbage) f.formula;
      sizes = λ k h. count_clauses_sizes (no_counters garbage) f.formula k h;
    }
