-- ===== src/Features/CnfStats/Degrees.antt =====
-- The degrees of the clauses, against the clauses of the formula that hold a literal.
use ignore_gates.Prelude.{
  ℕ, suc, ◌+◌, ◌%◌, ◌<◌, ◌≡◌, refl, ap, ◌∙◌, inl, inr, [], ◌∷◌, if◌then◌else◌, arith, length, elem,
  map, All, Bool-cases,
}
use ignore_gates.Types.{Cl, neg, var, Above}
use ignore_gates.Formula.{For, CnfFormula}
use ignore_gates.Formula.Shape.{IsValid, IsNormal}
use ignore_gates.Gates.Occurrences.Live.{occurrences}
use ignore_gates.Gates.Occurrences.Blocking.{elem-past}
use ignore_gates.Features.CnfStats.{
  count_at, count_lits, literal_occurrences, add_degrees, clause_degrees, analyze_degrees,
}

zero_plus : (n : ℕ) → (0 + n) % 4294967296 ≡ n % 4294967296
zero_plus n = omega arith

wrap_one : (a b n : ℕ) → b ≡ (a + 1) % 4294967296 → (b + n) % 4294967296 ≡ (a + suc n) % 4294967296
wrap_one a b n h = omega (arith, h)

wrap_more :
    (d o n m : ℕ)
    → o ≡ n % 4294967296
    → ((d + o) % 4294967296 + m) % 4294967296 ≡ (d + (n + m)) % 4294967296
wrap_more d o n m h = omega (arith, h)

-- In a clause with no variable twice a literal is counted once if it is there.
count_lits_lem :
    (f : ℕ → ℕ) (k b : ℕ) (ls : Cl)
    → Above b ls
    → count_lits f ls k ≡ (if elem k ls then (f k + 1) % 4294967296 else f k)
unfolding count_lits
count_lits_lem f k b [] a = refl
count_lits_lem f k b (l ∷ ls) a =
    ground (
      arith,
      count_lits_lem (count_at f l) k (suc (var l)) ls a.1,
      elem-past l (suc (var l)) ls a.1,
    )

-- Wrapped, a literal occurs as often as clauses of the formula hold it.
literal_occurrences_lem :
    (f : ℕ → ℕ) (k : ℕ) (cs : For)
    → f k < 4294967296
    → All (λ c. Above 0 c.lits) cs
    → literal_occurrences f cs k ≡ (f k + length (occurrences k cs)) % 4294967296
unfolding literal_occurrences
literal_occurrences_lem f k [] h a = ground (arith, h)
literal_occurrences_lem f k (c ∷ cs) h a =
    let g = count_lits f c.lits in
    let at = count_lits_lem f k 0 c.lits a.0 in
    elim (Bool-cases (elem k c.lits)) [
      | inl e ↦
          let here : g k ≡ (f k + 1) % 4294967296 =
            at ∙ ap (λ b. if b then (f k + 1) % 4294967296 else f k) e in
          let rest = literal_occurrences_lem g k cs (omega (arith, here)) a.1 in
          rw e (rest ∙ wrap_one (f k) (g k) (length (occurrences k cs)) here)
      | inr e ↦
          let here : g k ≡ f k = at ∙ ap (λ b. if b then (f k + 1) % 4294967296 else f k) e in
          let rest = literal_occurrences_lem g k cs (omega (arith, here, h)) a.1 in
          rw e (rest ∙ ap (λ n. (n + length (occurrences k cs)) % 4294967296) here)
    ]

-- How many clauses hold the negation of a literal of `c`, counted for each of these literals.
abbrev pub neighbours : For → Cl → ℕ
neighbours cs [] = 0
neighbours cs (l ∷ ls) = length (occurrences (neg l) cs) + neighbours cs ls

add_degrees_lem :
    (occ : ℕ → ℕ) (cs : For) (d : ℕ) (c : Cl)
    → ((k : ℕ) → occ k ≡ length (occurrences k cs) % 4294967296)
    → d < 4294967296
    → add_degrees occ d c ≡ (d + neighbours cs c) % 4294967296
unfolding add_degrees
add_degrees_lem occ cs d [] h b = ground (arith, b)
add_degrees_lem occ cs d (l ∷ ls) h b =
    add_degrees_lem occ cs ((d + occ (neg l)) % 4294967296) ls h (omega arith)
    ∙ wrap_more d (occ (neg l)) (length (occurrences (neg l) cs)) (neighbours cs ls) (h (neg l))

clause_degrees_lem :
    (occ : ℕ → ℕ) (cs ds : For)
    → ((k : ℕ) → occ k ≡ length (occurrences k cs) % 4294967296)
    → clause_degrees occ ds ≡ map (λ d. neighbours cs d.lits % 4294967296) ds
unfolding clause_degrees
clause_degrees_lem occ cs [] h = refl
clause_degrees_lem occ cs (d ∷ ds) h =
    rw (add_degrees_lem occ cs 0 d.lits h (omega arith), clause_degrees_lem occ cs ds h)
      (ap (λ x. x ∷ map (λ y. neighbours cs y.lits % 4294967296) ds)
        (zero_plus (neighbours cs d.lits)))

IsNormal-Above : (n : ℕ) (cs : For) → All (λ c. IsNormal n c.lits) cs → All (λ c. Above 0 c.lits) cs
IsNormal-Above n [] a = tt
IsNormal-Above n (c ∷ cs) a = (a.0.above, IsNormal-Above n cs a.1)

-- For a valid formula, the degree of each clause is the number of pairs of one of its literals and a
-- clause of the formula, unit clauses included, that holds the negation of this literal, in 32 bits.
pub analyze_degrees-occurrences :
    (f : CnfFormula)
    → IsValid f
    → analyze_degrees f ≡ map (λ c. neighbours f.formula c.lits % 4294967296) f.formula
unfolding analyze_degrees
analyze_degrees-occurrences f v =
    clause_degrees_lem (literal_occurrences (λ _. 0) f.formula) f.formula f.formula (λ k.
      literal_occurrences_lem (λ _. 0) k f.formula (omega arith)
        (IsNormal-Above f.variables f.formula v.clauses)
      ∙ zero_plus (length (occurrences k f.formula)))
