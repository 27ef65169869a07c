-- ===== src/Gates/Recognition/InputList.antt =====
-- `getInputLiterals`: complete when the output is the last literal of its clauses, and not when it
-- is the first.
use ignore_gates.Prelude.{
  ℕ, suc, ◌≤◌, ◌<◌, ◌≡◌, refl, true, false, not, ◌&&◌, ◌||◌, [], ◌∷◌, arith, ◌==◌, elem,
  elem-append, All,
}
use ignore_gates.Types.{Cl, var, Above}
use ignore_gates.Formula.{For}
use ignore_gates.Gates.Recognition.{
  literals, drop_to, append_rest, merge_clause, merge_clauses, overruns_rest, overruns_clause,
  overruns, get_input_literals,
}

-- No literal of the clause is past `o`.
abbrev UpTo : ℕ → Cl → Type 0
UpTo o = All (λ x. x ≤ o)

append_rest-cons : (o y : ℕ) (c : Cl) → y < o → append_rest o (y ∷ c) ≡ y ∷ append_rest o c
unfolding append_rest drop_to
append_rest-cons o y c h = ground arith

append_rest-elem :
    (o x b : ℕ) (c : Cl)
    → Above b c
    → UpTo o c
    → elem x (append_rest o c) ≡ (not (x == o) && elem x c)
unfolding append_rest drop_to
append_rest-elem o x b [] v u = ground arith
append_rest-elem o x b (y ∷ []) v u = ground arith
append_rest-elem o x b (y ∷ z ∷ c) v u =
    ground (arith, append_rest-cons o y (z ∷ c), append_rest-elem o x (suc (var y)) (z ∷ c) v.1 u.1)

merge_clause-elem :
    (o x b : ℕ) (inp c : Cl)
    → Above b c
    → UpTo o c
    → elem x (merge_clause o inp c) ≡ (elem x inp || (not (x == o) && elem x c))
unfolding merge_clause
merge_clause-elem o x b inp [] v u = ground arith
merge_clause-elem o x b [] (y ∷ c) v u =
    ground
      (arith, append_rest-elem o x b (y ∷ c) v u, merge_clause-elem o x (suc (var y)) [] c v.1 u.1)
merge_clause-elem o x b (i ∷ inp) (y ∷ c) v u = ground (
  arith,
  merge_clause-elem o x (suc (var y)) (i ∷ inp) c v.1 u.1,
  merge_clause-elem o x b inp (y ∷ c) v u,
  merge_clause-elem o x (suc (var y)) inp c v.1 u.1,
)

merge_clauses-elem :
    (o x : ℕ) (inp : Cl) (cs : For)
    → All (λ c. Above 0 c.lits × UpTo o c.lits) cs
    → elem x (merge_clauses o inp cs) ≡ (elem x inp || (not (x == o) && elem x (literals cs)))
unfolding merge_clauses
merge_clauses-elem o x inp [] v = ground arith
merge_clauses-elem o x inp (c ∷ cs) v = ground (
  arith,
  merge_clauses-elem o x (merge_clause o inp c.lits) cs v.1,
  merge_clause-elem o x 0 inp c.lits v.0.0 v.0.1,
  elem-append x c.lits (literals cs),
)

-- A sorted clause with the output in it and no literal past it.
abbrev pub Closed : ℕ → Cl → Type 0
Closed o c = Above 0 c × (elem o c ≡ true) × All (λ y. y ≤ o) c

Closed-UpTo :
    (o : ℕ) (cs : For)
    → All (λ c. Closed o c.lits) cs
    → All (λ c. Above 0 c.lits × UpTo o c.lits) cs
Closed-UpTo o [] v = tt
Closed-UpTo o (c ∷ cs) v = ((v.0.0, v.0.2), Closed-UpTo o cs v.1)

overruns_rest-elem : (o : ℕ) (c : Cl) → elem o c ≡ true → overruns_rest o c ≡ false
unfolding overruns_rest
overruns_rest-elem o [] h = ground (arith, h)
overruns_rest-elem o (x ∷ c) h = ground (arith, h, overruns_rest-elem o c)

-- What is left of a clause ends with the output, or is nothing.
abbrev Left : ℕ → Cl → Type 0
Left o [] = Unit {0}
Left o (x ∷ c) = elem o (x ∷ c) ≡ true

Left-tail :
    (o b x : ℕ) (c : Cl) → Above b (x ∷ c) → UpTo o (x ∷ c) → elem o (x ∷ c) ≡ true → Left o c
Left-tail o b x [] v u h = tt
Left-tail o b x (y ∷ c) v u h = ground (arith, h, v.1.0, u.1.0)

overruns_clause-Left :
    (o b : ℕ) (inp c : Cl) → Above b c → UpTo o c → Left o c → overruns_clause o inp c ≡ false
unfolding overruns_clause
overruns_clause-Left o b inp [] v u h = refl
overruns_clause-Left o b [] (x ∷ c) v u h =
    let rest = Left-tail o b x c v u h in
    ground (
      arith,
      overruns_clause-Left o (suc (var x)) [] c v.1 u.1 rest,
      overruns_rest-elem o (x ∷ c) h,
    )
overruns_clause-Left o b (i ∷ inp) (x ∷ c) v u h =
    let rest = Left-tail o b x c v u h in
    ground (
      arith,
      overruns_clause-Left o (suc (var x)) (i ∷ inp) c v.1 u.1 rest,
      overruns_clause-Left o b inp (x ∷ c) v u h,
      overruns_clause-Left o (suc (var x)) inp c v.1 u.1 rest,
    )

Left-elem : (o : ℕ) (c : Cl) → elem o c ≡ true → Left o c
Left-elem o [] h = tt
Left-elem o (x ∷ c) h = h

overruns-Closed :
    (o : ℕ) (inp : Cl) (cs : For) → All (λ c. Closed o c.lits) cs → overruns o inp cs ≡ false
unfolding overruns
overruns-Closed o inp [] v = refl
overruns-Closed o inp (c ∷ cs) v = ground (
  arith,
  overruns_clause-Left o 0 inp c.lits v.0.0 v.0.2 (Left-elem o c.lits v.0.1),
  overruns-Closed o (merge_clause o inp c.lits) cs v.1,
)

-- Where the clauses are sorted and the output is in each of them and no literal is past it, the loops
-- stay within the clauses, and the input literals are exactly the literals of the clauses but the
-- output.
pub get_input_literals-elem :
    (o x : ℕ) (cs : For)
    → All (λ c. Closed o c.lits) cs
    → (overruns o [] cs ≡ false)
      × (elem x (get_input_literals o cs) ≡ (not (x == o) && elem x (literals cs)))
unfolding get_input_literals
get_input_literals-elem o x cs v =
    (overruns-Closed o [] cs v, merge_clauses-elem o x [] cs (Closed-UpTo o cs v))

-- Where the output is the first literal of a single sorted clause, the literal after it is lost.
pub get_input_literals_drops :
    (o a p : ℕ) (c : Cl)
    → Above 0 (o ∷ a ∷ c)
    → get_input_literals o (record { ptr = p; lits = o ∷ a ∷ c } ∷ []) ≡ c
unfolding get_input_literals append_rest drop_to
get_input_literals_drops o a p c v = ground arith
