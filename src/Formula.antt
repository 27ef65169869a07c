-- ===== src/Formula.antt =====
-- cnftools/src/util/CNFFormula.h: the clauses of a problem, and the filter that each clause passes.
-- `std::sort` is an insertion sort here. A `Cl*` is the clause with a number that no other clause of
-- the formula has, its place in the formula.
pub mod Meaning
pub mod Shape
mod Tests
use ignore_gates.Prelude.{
  ℕ, zero, suc, ◌+◌, ◌*◌, ◌≡◌, Bool, true, false, Option, none, some, List, [], ◌∷◌, ◌++◌, ◌==◌,
  ltb, if◌then◌else◌, length, max, any, all, set, get_or, replicate,
}
use ignore_gates.Types.{Cl, lit, sign, var, Assignment, clause_true}

pub record Clause : Type 0 where
  pub ptr : ℕ
  pub lits : Cl

-- `typedef std::vector<Cl*> For`
abbrev pub For : Type 0
For = List Clause

pub record CnfFormula : Type 0 where
  pub formula : For
  pub variables : ℕ

unfoldable pub empty : CnfFormula
empty = record { formula = []; variables = 0 }

insert : ℕ → Cl → Cl
insert x [] = x ∷ []
insert x (y ∷ ys) = if ltb y x then y ∷ insert x ys else x ∷ y ∷ ys

pub sort : Cl → Cl
unfolding insert
sort [] = []
sort (x ∷ xs) = insert x (sort xs)

-- The loop over the sorted clause: `it` stands at `x`, and `jt` runs through the rest. `none` is
-- the return for a tautology.
pub compact : ℕ → Cl → Option Cl
compact x [] = some (x ∷ [])
compact x (y ∷ ys) =
    let dup = compact x ys in
    let next : Option Cl = elim (compact y ys) [ none ↦ none | some c ↦ some (x ∷ c) ] in
    if x == y then dup else if var x == var y then none else next

pub normal : Cl → Option Cl
normal [] = some []
normal (x ∷ xs) = compact x xs

-- `clause->back().var()`, for a clause that is not empty.
abbrev pub back_var : Cl → ℕ
back_var [] = 0
back_var (x ∷ []) = var x
back_var (x ∷ y ∷ ys) = back_var (y ∷ ys)

abbrev pub push_clause : CnfFormula → Option Cl → CnfFormula
push_clause f none = f
push_clause f (some c) = record {
  formula = f.formula ++ (record { ptr = length f.formula; lits = c } ∷ []);
  variables = max f.variables (back_var c);
}

-- `readClause(begin, end)`
unfoldable pub read_clause : CnfFormula → Cl → CnfFormula
unfolding sort normal compact
read_clause f c = push_clause f (normal (sort c))

-- `readClauses`, and the constructor from a `For`.
unfoldable pub read_clauses : CnfFormula → List Cl → CnfFormula
unfolding read_clause
read_clauses f [] = f
read_clauses f (c ∷ cs) = read_clauses (read_clause f c) cs

abbrev pub n_vars : CnfFormula → ℕ
n_vars f = f.variables

abbrev pub n_clauses : CnfFormula → ℕ
n_clauses f = length f.formula

unfoldable pub new_var : CnfFormula → CnfFormula × ℕ
new_var f = (record f { variables = suc f.variables }, suc f.variables)

unfoldable pub clear : CnfFormula → CnfFormula
clear f = record f { formula = [] }

-- The state of `normalizeVariableNames`: the table `name`, and `max`.
pub record Renaming : Type 0 where
  pub name : List ℕ
  pub next : ℕ

rename_lit : Renaming → ℕ → Renaming × ℕ
rename_lit r x =
    let fresh = get_or r.name (var x) 0 == 0 in
    let r' = if fresh then record { name = set r.name (var x) r.next; next = suc r.next } else r in
    (r', lit (get_or r'.name (var x) 0) (sign x))

rename_lits : Renaming → Cl → Renaming × Cl
rename_lits r [] = (r, [])
rename_lits r (x ∷ xs) =
    let (r1, y) = rename_lit r x in let (r2, ys) = rename_lits r1 xs in (r2, y ∷ ys)

rename_clauses : Renaming → For → Renaming × For
rename_clauses r [] = (r, [])
rename_clauses r (c ∷ cs) =
    let (r1, ls) = rename_lits r c.lits in
    let (r2, ds) = rename_clauses r1 cs in (r2, record c { lits = ls } ∷ ds)

-- `normalizeVariableNames`
unfoldable pub normalize_variable_names : CnfFormula → CnfFormula
unfolding rename_clauses rename_lits rename_lit lit
normalize_variable_names f =
    let (r, cs) =
      rename_clauses (record { name = replicate (suc f.variables) 0; next = 0 }) f.formula in
    record { formula = cs; variables = r.next }

-- A formula is true when all its clauses are.
abbrev pub formula_true : Assignment → For → Bool
formula_true α = all (λ c. clause_true α c.lits)
