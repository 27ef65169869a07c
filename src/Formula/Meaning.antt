-- ===== src/Formula/Meaning.antt =====
-- Reading a clause keeps its meaning: the filter drops only what is true anyway.
use ignore_gates.Prelude.{
  ℕ, ◌≡◌, refl, Bool, true, ◌&&◌, ◌||◌, Option, none, some, List, [], ◌∷◌, ◌++◌, arith, all, length,
  ◌∙◌, ap, sym,
}
use ignore_gates.Types.{Cl, Assignment, lit_true, clause_true}
use ignore_gates.Types.Literals.{lit_true-neg, same_var}
use ignore_gates.Formula.{
  CnfFormula, insert, sort, compact, normal, read_clause, read_clauses, formula_true, push_clause,
}

insert-true :
    (α : Assignment) (x : ℕ) (c : Cl)
    → clause_true α (insert x c) ≡ (lit_true α x || clause_true α c)
unfolding insert
insert-true α x [] = refl
insert-true α x (y ∷ c) = ground (arith, insert-true α x c)

pub sort-true : (α : Assignment) (c : Cl) → clause_true α (sort c) ≡ clause_true α c
unfolding sort
sort-true α [] = refl
sort-true α (x ∷ c) = insert-true α x (sort c) ∙ ap (λ b. lit_true α x || b) (sort-true α c)

-- A clause that was dropped counts as true.
abbrev result_true : Assignment → Option Cl → Bool
result_true α none = true
result_true α (some c) = clause_true α c

compact-split :
    (α : Assignment) (x : ℕ) (r : Option Cl)
    → result_true α (elim r [ none ↦ none | some c ↦ some (x ∷ c) ])
      ≡ (result_true α r || lit_true α x)
compact-split α x none = refl
compact-split α x (some c) = ground arith

compact-true :
    (α : Assignment) (x : ℕ) (c : Cl)
    → result_true α (compact x c) ≡ (lit_true α x || clause_true α c)
unfolding compact
compact-true α x [] = ground arith
compact-true α x (y ∷ c) = ground (
  arith,
  compact-true α x c,
  compact-true α y c,
  same_var x y,
  lit_true-neg α y,
  compact-split α x (compact y c),
)

normal-true : (α : Assignment) (c : Cl) → result_true α (normal c) ≡ clause_true α c
unfolding normal
normal-true α [] = refl
normal-true α (x ∷ c) = compact-true α x c

pub all-append {ℓ} :
    {A : Type ℓ} (p : A → Bool) (xs ys : List A) → all p (xs ++ ys) ≡ (all p xs && all p ys)
all-append p [] ys = refl
all-append p (x ∷ xs) ys = ground (arith, all-append p xs ys)

push_clause-true :
    (α : Assignment) (f : CnfFormula) (r : Option Cl)
    → formula_true α (push_clause f r).formula ≡ (formula_true α f.formula && result_true α r)
push_clause-true α f none = ground arith
push_clause-true α f (some c) =
    all-append _ f.formula (record { ptr = length f.formula; lits = c } ∷ []) ∙ ground arith

pub read_clause-true :
    (α : Assignment) (f : CnfFormula) (c : Cl)
    → formula_true α (read_clause f c).formula ≡ (formula_true α f.formula && clause_true α c)
unfolding read_clause
read_clause-true α f c =
    push_clause-true α f (normal (sort c))
    ∙ ap (λ b. formula_true α f.formula && b) (normal-true α (sort c) ∙ sort-true α c)

-- A dropped clause is true under every assignment.
pub normal-none : (α : Assignment) (c : Cl) → normal (sort c) ≡ none → clause_true α c ≡ true
normal-none α c e = sym (sort-true α c) ∙ sym (normal-true α (sort c)) ∙ ap (result_true α) e

pub normal-some :
    (α : Assignment) (c : Cl) {d : Cl}
    → normal (sort c) ≡ some d
    → clause_true α d ≡ clause_true α c
normal-some α c e = sym (ap (result_true α) e) ∙ normal-true α (sort c) ∙ sort-true α c

-- Reading a list of clauses into a formula gives a formula that is true under exactly the
-- assignments under which the formula and all the clauses were.
pub read_clauses-true :
    (α : Assignment) (f : CnfFormula) (cs : List Cl)
    → formula_true α (read_clauses f cs).formula
      ≡ (formula_true α f.formula && all (clause_true α) cs)
unfolding read_clauses
read_clauses-true α f [] = ground arith
read_clauses-true α f (c ∷ cs) =
    ground (arith, read_clauses-true α (read_clause f c) cs, read_clause-true α f c)
