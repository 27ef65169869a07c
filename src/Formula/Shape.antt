-- ===== src/Formula/Shape.antt =====
-- What reading a clause keeps of the formula's shape.
use ignore_gates.Prelude.{
  ℕ, suc, ◌+◌, ◌≤◌, ◌≡◌, refl, ◌↔◌, inl, inr, true, false, Option, none, some, List, [], ◌∷◌, ◌++◌,
  arith, max, length, subst, ◌<◌, length-append, All, All-append, ap, Option-cases,
}
use ignore_gates.Types.{Cl, var, Above, Assignment, clause_true, assign}
use ignore_gates.Types.Literals.{lit_true-assign_self, lit_true-assign_ne}
use ignore_gates.Formula.{
  Clause, For, CnfFormula, insert, sort, compact, normal, read_clause, read_clauses, push_clause,
  back_var,
}
use ignore_gates.Formula.Meaning.{normal-none, normal-some}

abbrev Ordered : ℕ → Cl → Type 0
Ordered b [] = Unit {0}
Ordered b (x ∷ xs) = (b ≤ x) × Ordered x xs

insert-Ordered : (b x : ℕ) (c : Cl) → b ≤ x → Ordered b c → Ordered b (insert x c)
unfolding insert
insert-Ordered b x [] h o = (h, tt)
insert-Ordered b x (y ∷ c) h o = ground (arith, insert-Ordered y x c)

sort-Ordered : (c : Cl) → Ordered 0 (sort c)
unfolding sort
sort-Ordered [] = tt
sort-Ordered (x ∷ c) = insert-Ordered 0 x (sort c) (omega arith) (sort-Ordered c)

abbrev IsAbove : ℕ → Option Cl → Type 0
IsAbove b none = Unit {0}
IsAbove b (some c) = Above b c

IsAbove-cons :
    (b x : ℕ) (r : Option Cl)
    → b ≤ var x
    → IsAbove (suc (var x)) r
    → IsAbove b (elim r [ none ↦ none | some c ↦ some (x ∷ c) ])
IsAbove-cons b x none h v = tt
IsAbove-cons b x (some c) h v = (h, v)

compact-IsAbove : (b x : ℕ) (c : Cl) → b ≤ var x → Ordered x c → IsAbove b (compact x c)
unfolding compact
compact-IsAbove b x [] h o = (h, tt)
compact-IsAbove b x (y ∷ c) h o = ground (
  arith,
  compact-IsAbove b x c h,
  compact-IsAbove (suc (var x)) y c,
  IsAbove-cons b x (compact y c) h,
)

normal_of-IsAbove : (c : Cl) → Ordered 0 c → IsAbove 0 (normal c)
unfolding normal
normal_of-IsAbove [] o = tt
normal_of-IsAbove (x ∷ c) o = compact-IsAbove 0 x c (omega arith) o.1

normal-IsAbove : (c : Cl) → IsAbove 0 (normal (sort c))
normal-IsAbove c = normal_of-IsAbove (sort c) (sort-Ordered c)

-- The literals of `c` have variables up to `n`.
abbrev pub Within : ℕ → Cl → Type 0
Within n = All (λ x. var x ≤ n)

back_var-Within : (b n : ℕ) (c : Cl) → Above b c → back_var c ≤ n → Within n c
back_var-Within b n [] v h = tt
back_var-Within b n (x ∷ []) v h = (h, tt)
back_var-Within b n (x ∷ y ∷ c) v h =
    let rest = back_var-Within (suc (var x)) n (y ∷ c) v.1 h in (omega arith, rest)

Within-mono : (m n : ℕ) (c : Cl) → m ≤ n → Within m c → Within n c
Within-mono m n [] h w = tt
Within-mono m n (x ∷ c) h w = (omega arith, Within-mono m n c h w.1)

-- A clause of a formula with `n` variables: sorted, no variable twice, no variable past `n`.
pub record IsNormal (n : ℕ) (c : Cl) : Type 0 where
  pub above : Above 0 c
  pub within : Within n c

abbrev AllNormal : ℕ → For → Type 0
AllNormal n = All (λ c. IsNormal n c.lits)

AllNormal-mono : (m n : ℕ) (cs : For) → m ≤ n → AllNormal m cs → AllNormal n cs
AllNormal-mono m n [] h v = tt
AllNormal-mono m n (c ∷ cs) h v = (
  record { above = v.0.above; within = Within-mono m n c.lits h v.0.within },
  AllNormal-mono m n cs h v.1,
)

-- The pointers are the places, counted from `k`.
abbrev pub Numbered : ℕ → For → Type 0
Numbered k [] = Unit {0}
Numbered k (c ∷ cs) = (c.ptr ≡ k) × Numbered (suc k) cs

Numbered-append :
    (k : ℕ) (cs : For) (c : Clause)
    → Numbered k cs
    → c.ptr ≡ k + length cs
    → Numbered k (cs ++ (c ∷ []))
Numbered-append k [] c v e = (omega arith, tt)
Numbered-append k (d ∷ cs) c v e = (v.0, Numbered-append (suc k) cs c v.1 (omega arith))

pub record IsValid (f : CnfFormula) : Type 0 where
  pub clauses : All (λ c. IsNormal f.variables c.lits) f.formula
  pub numbered : Numbered 0 f.formula

push_clause-IsValid :
    (f : CnfFormula) (r : Option Cl) → IsValid f → IsAbove 0 r → IsValid (push_clause f r)
push_clause-IsValid f none v a = v
push_clause-IsValid f (some c) v a =
    let n = max f.variables (back_var c) in
    let new : IsNormal n c = record { above = a; within = back_var-Within 0 n c a (omega arith) } in
    record {
      clauses =
          All-append _ f.formula (record { ptr = length f.formula; lits = c } ∷ [])
            (AllNormal-mono f.variables n f.formula (omega arith) v.clauses) (new, tt);
      numbered = Numbered-append 0 f.formula _ v.numbered (omega arith);
    }

pub read_clause-IsValid : (f : CnfFormula) (c : Cl) → IsValid f → IsValid (read_clause f c)
unfolding read_clause
read_clause-IsValid f c v = push_clause-IsValid f (normal (sort c)) v (normal-IsAbove c)

-- Reading clauses into a formula keeps this: each clause is sorted, has no literal twice and no
-- variable twice, its variables are within the formula's count, and no two clauses share a pointer.
pub read_clauses-IsValid : (f : CnfFormula) (cs : List Cl) → IsValid f → IsValid (read_clauses f cs)
unfolding read_clauses
read_clauses-IsValid f [] v = v
read_clauses-IsValid f (c ∷ cs) v =
    read_clauses-IsValid (read_clause f c) cs (read_clause-IsValid f c v)

-- An assignment that makes every literal of a sorted clause false.
falsify : Cl → Assignment
falsify [] = λ v. false
falsify (x ∷ c) = assign (falsify c) x false

assign_below :
    (α : Assignment) (x : ℕ) (c : Cl)
    → Above (suc (var x)) c
    → clause_true (assign α x false) c ≡ clause_true α c
assign_below α x c v = go (suc (var x)) c (omega arith) v
  where
    go :
        (b : ℕ) (d : Cl)
        → var x < b
        → Above b d
        → clause_true (assign α x false) d ≡ clause_true α d
    go b [] h v = refl
    go b (y ∷ d) h v =
        ground (arith, lit_true-assign_ne α x y false, go (suc (var y)) d (omega arith) v.1)

falsify_lem : (b : ℕ) (c : Cl) → Above b c → clause_true (falsify c) c ≡ false
unfolding falsify
falsify_lem b [] v = refl
falsify_lem b (x ∷ c) v = ground (
  arith,
  lit_true-assign_self (falsify c) x false,
  assign_below (falsify c) x c v.1,
  falsify_lem (suc (var x)) c v.1,
)

push_clause-none : (f : CnfFormula) (r : Option Cl) → push_clause f r ≡ f → r ≡ none
push_clause-none f none e = refl
push_clause-none f (some c) e = absurd (
    omega (
      arith,
      ap (λ (g : CnfFormula). length g.formula) e,
      length-append {0} f.formula (record { ptr = length f.formula; lits = c } ∷ []),
    ))

-- A clause is left out exactly when every assignment makes it true.
pub read_clause_skips :
    (f : CnfFormula) (c : Cl) → (read_clause f c ≡ f) ↔ ((α : Assignment) → clause_true α c ≡ true)
unfolding read_clause
read_clause_skips f c = (
  λ e α. normal-none α c (push_clause-none f (normal (sort c)) e),
  λ always. elim (Option-cases (normal (sort c))) [
    | inl e ↦ rw e
    | inr (d, e) ↦
        let a : Above 0 d = subst (IsAbove 0) e (normal-IsAbove c) in
        cc (falsify_lem 0 d a, normal-some (falsify d) c e, always (falsify d))
  ],
)
