-- ===== src/Features/CnfStats.antt =====
-- cnftools/src/features/CNFStats.h: the counters of `analyze_occurrences`, and the literal and clause
-- degrees of `analyze_degrees`, with their 32-bit words. The array `clause_sizes` is not set before
-- it is counted in: its first entries are a parameter. The number of negative literals is a float in
-- the source, and stops at 2 ^ 24 here as it does there; the size of a clause, which is converted to
-- a float where this number is taken from it, is exact up to 2 ^ 24 and is kept exact beyond. The
-- distributions, on floats, are left out.
pub mod Degrees
mod Horn
mod Sizes
pub mod Counts
mod Tests
use ignore_gates.Prelude.{
  ℕ, ◌+◌, ◌-◌, ◌%◌, Bool, true, false, List, [], ◌∷◌, ◌++◌, ◌==◌, ltb, leb, if◌then◌else◌, length,
}
use ignore_gates.Types.{Cl, neg, var, sign}
use ignore_gates.Formula.{Clause, For, CnfFormula}
use ignore_gates.Cadical.Queue.{put}

-- `++f[k]` on unsigned words.
abbrev pub count_at : (ℕ → ℕ) → ℕ → ℕ → ℕ
count_at f k = put f k ((f k + 1) % 4294967296)

abbrev pub bump : ℕ → ℕ
bump n = (n + 1) % 4294967296

pub record Counters : Type 0 where
  pub clause_sizes : ℕ → ℕ
  pub horn : ℕ
  pub inv_horn : ℕ
  pub positive : ℕ
  pub negative : ℕ
  pub variable_horn : ℕ → ℕ
  pub variable_inv_horn : ℕ → ℕ
  pub clause_occurrences : List ℕ
  pub variable_occurrences : ℕ → ℕ

abbrev pub no_counters : (ℕ → ℕ) → Counters
no_counters garbage = record {
  clause_sizes = garbage;
  horn = 0;
  inv_horn = 0;
  positive = 0;
  negative = 0;
  variable_horn = λ _. 0;
  variable_inv_horn = λ _. 0;
  clause_occurrences = [];
  variable_occurrences = λ _. 0;
}

pub count_vars : (ℕ → ℕ) → Cl → ℕ → ℕ
count_vars f [] = f
count_vars f (l ∷ ls) = count_vars (count_at f (var l)) ls

-- `++neg` on a float: from 2 ^ 24 on, the next whole number rounds back.
abbrev pub float_suc : ℕ → ℕ
float_suc n = if ltb n 16777216 then n + 1 else n

pub count_negative : Cl → ℕ
count_negative [] = 0
count_negative (l ∷ ls) = let neg = count_negative ls in if sign l then float_suc neg else neg

-- The parts of the body of the loop: the size, Horn clauses, and inverted Horn clauses.
abbrev pub count_size : Counters → Cl → Counters
count_size s c = record s {
  clause_sizes = if ltb (length c) 10 then count_at s.clause_sizes (length c) else s.clause_sizes;
  clause_occurrences = s.clause_occurrences ++ (length c ∷ []);
  variable_occurrences = count_vars s.variable_occurrences c;
}

abbrev pub count_horn : Counters → Cl → ℕ → Counters
count_horn s c n =
    if leb n 1
    then record s {
      positive = if n == 0 then bump s.positive else s.positive;
      horn = bump s.horn;
      variable_horn = count_vars s.variable_horn c;
    }
    else s

abbrev pub count_inv_horn : Counters → Cl → ℕ → Counters
count_inv_horn s c n =
    if leb (length c - n) 1
    then record s {
      negative = if length c - n == 0 then bump s.negative else s.negative;
      inv_horn = bump s.inv_horn;
      variable_inv_horn = count_vars s.variable_inv_horn c;
    }
    else s

pub count_clause : Counters → Cl → Counters
unfolding count_vars count_negative
count_clause s c = let n = count_negative c in count_inv_horn (count_horn (count_size s c) c n) c n

pub count_clauses : Counters → For → Counters
unfolding count_clause
count_clauses s [] = s
count_clauses s (c ∷ cs) = count_clauses (count_clause s c.lits) cs

-- `analyze_occurrences`, up to what it pushes.
unfoldable pub analyze_occurrences : (ℕ → ℕ) → CnfFormula → Counters
unfolding count_clauses
analyze_occurrences garbage f = count_clauses (no_counters garbage) f.formula

pub count_lits : (ℕ → ℕ) → Cl → ℕ → ℕ
count_lits f [] = f
count_lits f (l ∷ ls) = count_lits (count_at f l) ls

-- `literal_occurrences` of `analyze_degrees`.
pub literal_occurrences : (ℕ → ℕ) → For → ℕ → ℕ
unfolding count_lits
literal_occurrences f [] = f
literal_occurrences f (c ∷ cs) = literal_occurrences (count_lits f c.lits) cs

-- `clause_degree[cid]` after the inner loop, from `d`.
pub add_degrees : (ℕ → ℕ) → ℕ → Cl → ℕ
add_degrees occ d [] = d
add_degrees occ d (l ∷ ls) = add_degrees occ ((d + occ (neg l)) % 4294967296) ls

pub clause_degrees : (ℕ → ℕ) → For → List ℕ
unfolding add_degrees
clause_degrees occ [] = []
clause_degrees occ (c ∷ cs) = add_degrees occ 0 c.lits ∷ clause_degrees occ cs

-- `clause_degree` of `analyze_degrees`.
unfoldable pub analyze_degrees : CnfFormula → List ℕ
unfolding literal_occurrences clause_degrees
analyze_degrees f = clause_degrees (literal_occurrences (λ _. 0) f.formula) f.formula
