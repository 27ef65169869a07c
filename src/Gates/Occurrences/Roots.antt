-- ===== src/Gates/Occurrences/Roots.antt =====
-- Building the index, taking a gate's clauses out of it, and choosing roots.
use ignore_gates.Prelude.{
  ℕ, zero, suc, ◌+◌, ◌*◌, ◌≤◌, ◌<◌, ◌≡◌, ◌≢◌, refl, ap, sym, ◌∙◌, ◌⊎◌, inl, inr, Bool, true, false,
  not, [], ◌∷◌, ◌++◌, arith, ◌==◌, if◌then◌else◌, elem, filter_if, All, length, subst, Bool-cases,
}
use mathlib.Core.List.{append-nil, append_assoc}
use ignore_gates.Types.{Cl, neg, var, Above}
use ignore_gates.Formula.{Clause, For, CnfFormula}
use ignore_gates.Formula.Shape.{IsNormal, IsValid, Numbered}
use ignore_gates.Gates.Occurrences.{
  Index, OccurrenceList, update, push_lits, add_clause, add_clauses, init, remove, lower,
  take_roots, estimate_roots, is_empty,
}
use ignore_gates.Gates.Occurrences.Blocking.{elem-past, elem-neg}
use ignore_gates.Gates.Occurrences.Live.{
  occurrences, has_ptr, Distinct, Distinct-filter, RepresentsBut, Represents, free_of,
  remove_literal,
}

push_lits_lem :
    (ix : Index) (c : Clause) (k b : ℕ) (ls : Cl)
    → Above b ls
    → push_lits ix c ls k ≡ (if elem k ls then ix k ++ (c ∷ []) else ix k)
unfolding push_lits
push_lits_lem ix c k b [] v = refl
push_lits_lem ix c k b (l ∷ ls) v = ground (
  arith,
  push_lits_lem (update ix l (ix l ++ (c ∷ []))) c k (suc (var l)) ls v.1,
  elem-past l (suc (var l)) ls v.1,
)

abbrev pub is_unit : Clause → Bool
is_unit c = length c.lits == 1

abbrev pub units : For → For
units = filter_if is_unit

abbrev pub non_units : For → For
non_units = filter_if (λ c. not (is_unit c))

add_clause_lem :
    (l : OccurrenceList) (c : Clause) (cs : For) (k : ℕ)
    → Above 0 c.lits
    → ((add_clause l c).index k ++ occurrences k (non_units cs)
        ≡ l.index k ++ occurrences k (non_units (c ∷ cs)))
      × ((add_clause l c).unitc ++ units cs ≡ l.unitc ++ units (c ∷ cs))
unfolding add_clause
add_clause_lem l c cs k v = (
  ground (
    arith,
    push_lits_lem l.index c k 0 c.lits v,
    append_assoc (l.index k) (c ∷ []) (occurrences k (non_units cs)),
  ),
  ground (arith, append_assoc l.unitc (c ∷ []) (units cs)),
)

add_clauses_lem :
    (l : OccurrenceList) (cs : For) (k : ℕ)
    → All (λ c. Above 0 c.lits) cs
    → ((add_clauses l cs).index k ≡ l.index k ++ occurrences k (non_units cs))
      × ((add_clauses l cs).unitc ≡ l.unitc ++ units cs)
unfolding add_clauses
add_clauses_lem l [] k v = (sym (append-nil (l.index k)), sym (append-nil l.unitc))
add_clauses_lem l (c ∷ cs) k v =
    let ih = add_clauses_lem (add_clause l c) cs k v.1 in
    let (at_k, at_units) = add_clause_lem l c cs k v.0 in (ih.0 ∙ at_k, ih.1 ∙ at_units)

IsValid-Above : (n : ℕ) (cs : For) → All (λ c. IsNormal n c.lits) cs → All (λ c. Above 0 c.lits) cs
IsValid-Above n [] v = tt
IsValid-Above n (c ∷ cs) v = (v.0.above, IsValid-Above n cs v.1)

Numbered-ptr : (p k : ℕ) (cs : For) → p < k → Numbered k cs → has_ptr p cs ≡ false
Numbered-ptr p k [] h v = refl
Numbered-ptr p k (c ∷ cs) h v = ground (arith, Numbered-ptr p (suc k) cs (omega arith) v.1)

Numbered-Distinct :
    (n k : ℕ) (cs : For) → Numbered k cs → All (λ c. IsNormal n c.lits) cs → Distinct cs
Numbered-Distinct n k [] v w = tt
Numbered-Distinct n k (c ∷ cs) v w = (
  Numbered-ptr c.ptr (suc k) cs (omega arith) v.1,
  w.0.above,
  Numbered-Distinct n (suc k) cs v.1 w.1,
)

add_clauses_size : (l : OccurrenceList) (cs : For) → (add_clauses l cs).size ≡ l.size
unfolding add_clauses add_clause
add_clauses_size l [] = refl
add_clauses_size l (c ∷ cs) = add_clauses_size (add_clause l c) cs ∙ ground arith

pub init_size : (f : CnfFormula) → (init f).size ≡ 2 + 2 * f.variables
unfolding init
init_size f = add_clauses_size _ f.formula

-- From a valid formula the constructor builds an index that lists, for every literal, exactly the
-- clauses that hold it, of those that are not units, in their order, and the units apart. These
-- clauses are distinct.
pub init-Represents :
    (f : CnfFormula)
    → IsValid f
    → Represents (init f).index (non_units f.formula)
      × ((init f).unitc ≡ units f.formula)
      × Distinct (non_units f.formula)
unfolding init
init-Represents f v =
    let above = IsValid-Above f.variables f.formula v.clauses in
    (
      λ k. (add_clauses_lem _ f.formula k above).0,
      (add_clauses_lem _ f.formula 0 above).1,
      Distinct-filter _ f.formula (Numbered-Distinct f.variables 0 f.formula v.numbered v.clauses),
    )

pub occurrences-free_of :
    (o : ℕ) (cs : For) → Distinct cs → occurrences o (free_of (neg o) cs) ≡ occurrences o cs
occurrences-free_of o [] v = refl
occurrences-free_of o (c ∷ cs) v =
    ground (arith, occurrences-free_of o cs v.2, elem-neg o 0 c.lits v.1)

-- Taking out the clauses of a gate with output `o`, first those of its negation and then those of
-- `o`, leaves the index of exactly the clauses in play that hold neither literal.
pub remove-Represents :
    (l : OccurrenceList) (o : ℕ) (live : For)
    → Distinct live
    → Represents l.index live
    → Represents
        (remove (remove l (l.index (neg o))) (l.index o)).index
        (free_of o (free_of (neg o) live))
unfolding remove
remove-Represents l o live v r =
    rw (r (neg o), r o, ← occurrences-free_of o live v)
      (remove_literal (λ _. false) _ o (free_of (neg o) live) (Distinct-filter _ live v)
        (remove_literal (λ _. false) l.index (neg o) live v r))

is_empty_lem : (cs : For) → (is_empty cs ≡ true → cs ≡ []) × (is_empty cs ≡ false → cs ≢ [])
unfolding is_empty
is_empty_lem [] = (λ _. refl, λ e. cc)
is_empty_lem (c ∷ cs) = (λ e. cc, λ _ e. cc)

lower_lem : (ix : Index) (m : ℕ) → (lower ix m ≤ m) × ((lower ix m ≡ 0) ⊎ (ix (lower ix m) ≢ []))
unfolding lower is_empty
lower_lem ix zero = (omega arith, inl refl)
lower_lem ix (suc m) = ground (arith, lower_lem ix m)

lower_above : (ix : Index) (m k : ℕ) → lower ix m < k → k ≤ m → ix k ≡ []
unfolding lower is_empty
lower_above ix zero k h g = absurd (omega arith)
lower_above ix (suc m) k h g =
    ground (arith, lower_above ix m k, is_empty_lem (ix (suc m)), λ (e : k ≡ suc m). ap ix e)

-- The roots where no unit clause is left: `m` is the literal that they share.
pub record Picks (l l' : OccurrenceList) (live roots : For) : Type 0 where
  pub lowered : l'.max_literal ≤ l.max_literal
  pub past : (k : ℕ) → l'.max_literal < k → k ≤ l.max_literal → occurrences k live ≡ []
  pub roots_are : 0 < l'.max_literal → (roots ≡ occurrences l'.max_literal live) × (roots ≢ [])
  pub none_left : l'.max_literal ≡ 0 → roots ≡ []
  pub remains : 0 < l'.max_literal → Represents l'.index (free_of l'.max_literal live)
  pub unchanged : l'.max_literal ≡ 0 → Represents l'.index live

hide :
    (ix : Index) (m : ℕ) (live : For)
    → Represents ix live
    → RepresentsBut (λ k. k == m) (update ix m []) live
hide ix m live r k = ground (arith, r k)

pub occurrences_gone : (m : ℕ) (live : For) → occurrences m (free_of m live) ≡ []
occurrences_gone m [] = refl
occurrences_gone m (c ∷ cs) = ground (arith, occurrences_gone m cs)

unhide :
    (ix : Index) (m : ℕ) (live : For)
    → RepresentsBut (λ k. k == m) ix (free_of m live)
    → Represents ix (free_of m live)
unhide ix m live r k = elim (Bool-cases (k == m)) [
  | inl e ↦
      let same : m ≡ k = ground arith in
      let gone = subst (λ x. occurrences x (free_of m live) ≡ []) same (occurrences_gone m live) in
      r k ∙ rw e (sym gone)
  | inr e ↦ r k ∙ rw e
]

take_roots-Picks :
    (l : OccurrenceList) (m : ℕ) (live : For)
    → Distinct live
    → Represents l.index live
    → m ≤ l.max_literal
    → ((m ≡ 0) ⊎ (l.index m ≢ []))
    → ((k : ℕ) → m < k → k ≤ l.max_literal → l.index k ≡ [])
    → Picks l (take_roots l m).0 live (take_roots l m).1
unfolding take_roots remove
take_roots-Picks l zero live v r h c past = record {
  lowered = omega arith;
  past = λ k p q. sym (r k) ∙ past k p q;
  roots_are = λ p. absurd (omega arith);
  none_left = λ _. refl;
  remains = λ p. absurd (omega arith);
  unchanged = λ _. r;
}
take_roots-Picks l (suc m) live v r h c past = record {
  lowered = h;
  past = λ k p q. sym (r k) ∙ past k p q;
  roots_are = λ p. (r (suc m), elim c [ inl e ↦ absurd (omega arith) | inr n ↦ n ]);
  none_left = λ e. absurd (omega arith);
  remains = λ _. rw (r (suc m)) (
      unhide _ (suc m) live
        (remove_literal (λ k. k == suc m) _ (suc m) live v (hide l.index (suc m) live r)));
  unchanged = λ e. absurd (omega arith);
}

no_units :
    (l : OccurrenceList)
    → l.unitc ≡ []
    → estimate_roots l ≡ take_roots l (lower l.index l.max_literal)
unfolding estimate_roots
no_units l e = ground (arith, is_empty_lem l.unitc, ap is_empty e)

take_roots_fields :
    (l : OccurrenceList) (m : ℕ)
    → ((take_roots l m).0.unitc ≡ l.unitc) × ((take_roots l m).0.size ≡ l.size)
unfolding take_roots remove
take_roots_fields l zero = (refl, refl)
take_roots_fields l (suc m) = (refl, refl)

-- `estimateRoots` keeps the size, and leaves no unit clauses.
pub estimate_roots_fields :
    (l : OccurrenceList)
    → l.unitc ≡ []
    → ((estimate_roots l).0.unitc ≡ []) × ((estimate_roots l).0.size ≡ l.size)
estimate_roots_fields l e =
    let fields = take_roots_fields l (lower l.index l.max_literal) in
    subst (λ p. (p.0.unitc ≡ []) × (p.0.size ≡ l.size)) (sym (no_units l e))
      (fields.0 ∙ e, fields.1)

-- The unit clauses, where there are any, are handed out first and nothing else changes.
pub estimate_roots_units :
    (l : OccurrenceList) → l.unitc ≢ [] → estimate_roots l ≡ (record l { unitc = [] }, l.unitc)
unfolding estimate_roots is_empty
estimate_roots_units l n = ground (arith, is_empty_lem l.unitc, n)

-- Without unit clauses, `estimateRoots` takes all clauses of the greatest literal up to
-- `max_literal` that still has one, and what is left is the index of the others; it gives no roots
-- only when no literal from 1 to `max_literal` has a clause. `max_literal` never grows.
pub estimate_roots-Picks :
    (l : OccurrenceList) (live : For)
    → Distinct live
    → Represents l.index live
    → l.unitc ≡ []
    → Picks l (estimate_roots l).0 live (estimate_roots l).1
estimate_roots-Picks l live v r e =
    let low = lower_lem l.index l.max_literal in
    subst (λ p. Picks l p.0 live p.1) (sym (no_units l e))
      (take_roots-Picks l (lower l.index l.max_literal) live v r low.0 low.1
        (lower_above l.index l.max_literal))
