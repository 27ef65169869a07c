-- ===== src/Features/CnfStats/Sizes.antt =====
-- The sizes of clauses that `analyze_occurrences` keeps.
use ignore_gates.Prelude.{
  ℕ, ◌+◌, ◌-◌, ◌%◌, ◌<◌, ◌≡◌, refl, sym, ap, ◌∙◌, inl, inr, [], ◌∷◌, ◌++◌, ◌==◌, leb, arith, length,
  map, append_assoc, append-nil, Bool-cases,
}
use ignore_gates.Types.{Cl}
use ignore_gates.Formula.{Clause, For}
use ignore_gates.Features.CnfStats.{
  Counters, count_negative, count_size, count_horn, count_inv_horn, count_clause, count_clauses,
}
use ignore_gates.Features.CnfStats.Horn.{one, count_of, count_of-cons}

-- Counting Horn clauses leaves the sizes alone.
count_horn_sizes :
    (s : Counters) (c : Cl) (k : ℕ)
    → ((count_horn s c k).clause_sizes ≡ s.clause_sizes)
      × ((count_horn s c k).clause_occurrences ≡ s.clause_occurrences)
count_horn_sizes s c k = elim (Bool-cases (leb k 1)) [
  | inl e ↦ rw e (refl, refl)
  | inr e ↦ rw e (refl, refl)
]

count_inv_horn_sizes :
    (s : Counters) (c : Cl) (k : ℕ)
    → ((count_inv_horn s c k).clause_sizes ≡ s.clause_sizes)
      × ((count_inv_horn s c k).clause_occurrences ≡ s.clause_occurrences)
count_inv_horn_sizes s c k = elim (Bool-cases (leb (length c - k) 1)) [
  | inl e ↦ rw e (refl, refl)
  | inr e ↦ rw e (refl, refl)
]

count_clause_sizes :
    (s : Counters) (c : Cl)
    → ((count_clause s c).clause_sizes ≡ (count_size s c).clause_sizes)
      × ((count_clause s c).clause_occurrences ≡ s.clause_occurrences ++ (length c ∷ []))
unfolding count_clause
count_clause_sizes s c =
    let k = count_negative c in
    let one = count_horn_sizes (count_size s c) c k in
    let two = count_inv_horn_sizes (count_horn (count_size s c) c k) c k in
    (two.0 ∙ one.0, two.1 ∙ one.1)

pub count_clauses_occurrences :
    (s : Counters) (cs : For)
    → (count_clauses s cs).clause_occurrences
      ≡ s.clause_occurrences ++ map (λ (c : Clause). length c.lits) cs
unfolding count_clauses
count_clauses_occurrences s [] = sym (append-nil s.clause_occurrences)
count_clauses_occurrences s (c ∷ cs) =
    count_clauses_occurrences (count_clause s c.lits) cs
    ∙ ap (λ xs. xs ++ map (λ (d : Clause). length d.lits) cs) (count_clause_sizes s c.lits).1
    ∙ append_assoc s.clause_occurrences (length c.lits ∷ [])
        (map (λ (d : Clause). length d.lits) cs)

count_size_at :
    (s : Counters) (c : Cl) (k : ℕ)
    → k < 10
    → (count_size s c).clause_sizes k % 4294967296
      ≡ (s.clause_sizes k + one (length c == k)) % 4294967296
count_size_at s c k h = ground (arith, h)

pub count_clauses_sizes :
    (s : Counters) (cs : For) (k : ℕ)
    → k < 10
    → (count_clauses s cs).clause_sizes k % 4294967296
      ≡ (s.clause_sizes k + count_of (λ c. length c == k) cs) % 4294967296
unfolding count_clauses
count_clauses_sizes s [] k h = omega arith
count_clauses_sizes s (c ∷ cs) k h = omega (
  arith,
  count_clauses_sizes (count_clause s c.lits) cs k h,
  ap (λ f. f k) (count_clause_sizes s c.lits).0,
  count_size_at s c.lits k h,
  count_of-cons (λ d. length d == k) (s.clause_sizes k) c cs,
)
