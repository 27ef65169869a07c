-- ===== src/Gates/Analyzer/Remainder.antt =====
-- The set of the clauses that the index still lists: it holds each of them once.
use ignore_gates.Prelude.{
  ℕ, zero, suc, ◌<◌, ◌≡◌, ◌≢◌, sym, ap, ◌∙◌, subst, ◌⊎◌, inl, inr, true, false, [], ◌∷◌, ◌++◌,
  arith, ◌==◌, All, All-append, Bool-cases, if◌then◌else◌,
}
use ignore_gates.Formula.{Clause, For}
use ignore_gates.Gates.Occurrences.{Index}
use ignore_gates.Gates.Occurrences.Live.{has_ptr, Has, Has-ptr, Distinct, Represents, filter-Has}
use ignore_gates.Gates.Analyzer.{insert_clauses, collect_remainder}

pub Has-append :
    (c : Clause) (ds es : For) → (Has c ds → Has c (ds ++ es)) × (Has c es → Has c (ds ++ es))
Has-append c [] es = (λ h. absurd h, λ h. h)
Has-append c (d ∷ ds) es =
    let ih = Has-append c ds es in
    (λ h. elim h [ inl e ↦ inl e | inr k ↦ inr (ih.0 k) ], λ h. inr (ih.1 h))

clash : (c d x : Clause) (xs : For) → has_ptr x.ptr xs ≡ false → c ≡ x → Has d xs → c.ptr ≢ d.ptr
clash c d x xs v e h s =
    let there = Has-ptr d xs h in
    let same : d.ptr ≡ x.ptr = sym s ∙ ap (λ (y : Clause). y.ptr) e in cc

-- A pointer names one clause.
Has-ptr_eq :
    (c d : Clause) (live : For) → Distinct live → Has c live → Has d live → c.ptr ≡ d.ptr → c ≡ d
Has-ptr_eq c d [] v h k e = absurd h
Has-ptr_eq c d (x ∷ xs) v (inl h) (inl k) e = h ∙ sym k
Has-ptr_eq c d (x ∷ xs) v (inl h) (inr k) e = absurd (clash c d x xs v.0 h k e)
Has-ptr_eq c d (x ∷ xs) v (inr h) (inl k) e = absurd (clash d c x xs v.0 k h (sym e))
Has-ptr_eq c d (x ∷ xs) v (inr h) (inr k) e = Has-ptr_eq c d xs v.2 h k e

module _ (live : For) (v : Distinct live) where
  Has-same :
      (c : Clause) (set : For)
      → Has c live
      → All (λ d. Has d live) set
      → has_ptr c.ptr set ≡ true
      → Has c set
  Has-same c [] m a h = absurd cc
  Has-same c (d ∷ ds) m a h = elim (Bool-cases (d.ptr == c.ptr)) [
    | inl e ↦ inl (Has-ptr_eq c d live v m a.0 (ground arith))
    | inr e ↦ inr (Has-same c ds m a.1 (ground arith))
  ]

  insert_one-Has :
      (c d : Clause) (set : For)
      → Has d live
      → All (λ x. Has x live) set
      → All (λ x. Has x live) (if has_ptr d.ptr set then set else set ++ (d ∷ []))
        × (Has c set ⊎ (c ≡ d) → Has c (if has_ptr d.ptr set then set else set ++ (d ∷ [])))
  insert_one-Has c d set m a = elim (Bool-cases (has_ptr d.ptr set)) [
    | inl e ↦ rw e (
      a,
      λ h. elim h [ inl k ↦ k | inr s ↦ subst (λ x. Has x set) (sym s) (Has-same d set m a e) ],
    )
    | inr e ↦ rw e (
      All-append _ set (d ∷ []) a (m, tt),
      λ h. elim h [
        | inl k ↦ (Has-append c set (d ∷ [])).0 k
        | inr s ↦ (Has-append c set (d ∷ [])).1 (inl s)
      ],
    )
  ]

  -- What `insert_clauses` builds holds what it held, and what is inserted.
  insert_clauses-Has :
      (c : Clause) (set cs : For)
      → All (λ d. Has d live) set
      → All (λ d. Has d live) cs
      → All (λ d. Has d live) (insert_clauses set cs)
        × (Has c set ⊎ Has c cs → Has c (insert_clauses set cs))
  unfolding insert_clauses
  insert_clauses-Has c set [] a b = (a, λ h. elim h [ inl k ↦ k | inr k ↦ absurd k ])
  insert_clauses-Has c set (d ∷ ds) a b =
      let one = insert_one-Has c d set b.0 a in
      let rest =
        insert_clauses-Has c (if has_ptr d.ptr set then set else set ++ (d ∷ [])) ds one.0 b.1 in
      (
        rest.0,
        λ h. rest.1 (elim h [
          | inl k ↦ inl (one.1 (inl k))
          | inr k ↦ elim k [ inl s ↦ inl (one.1 (inr s)) | inr t ↦ inr t ]
        ]),
      )

  -- Every clause in play that holds a literal below `n` is collected, and only clauses in play are.
  pub collect_remainder-Has :
      (c : Clause) (ix : Index) (n : ℕ)
      → Represents ix live
      → All (λ d. Has d live) (collect_remainder ix n)
        × ((l : ℕ) → l < n → Has c (ix l) → Has c (collect_remainder ix n))
  unfolding collect_remainder
  collect_remainder-Has c ix zero r = (tt, λ l h. absurd (omega arith))
  collect_remainder-Has c ix (suc n) r =
      let ih = collect_remainder-Has c ix n r in
      let own : All (λ d. Has d live) (ix n) =
        subst (All (λ d. Has d live)) (sym (r n)) (filter-Has _ live) in
      let both = insert_clauses-Has c (collect_remainder ix n) (ix n) ih.0 own in
      (
        both.0,
        λ l h k. elim (Bool-cases (l == n)) [
          | inl e ↦
              let same : l ≡ n = ground arith in both.1 (inr (subst (λ x. Has c (ix x)) same k))
          | inr e ↦ both.1 (inl (ih.1 l (ground arith) k))
        ],
      )
