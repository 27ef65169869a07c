-- ===== src/Gates/Occurrences/Live.antt =====
-- The index lists, for each literal, the clauses still in play that hold it, in their order.
use ignore_gates.Prelude.{
  ℕ, suc, ◌≡◌, ◌≢◌, refl, ap, sym, ◌∙◌, ◌⊎◌, inl, inr, Bool, true, false, not, ◌||◌, [], ◌∷◌, arith,
  ◌==◌, if◌then◌else◌, elem, filter_if, All, subst, Bool-cases,
}
use ignore_gates.Types.{Cl, var, Above}
use ignore_gates.Formula.{Clause, For}
use ignore_gates.Gates.Occurrences.{Index, update, erase_first, remove_lits, remove_all}
use ignore_gates.Gates.Occurrences.Blocking.{elem-past}

-- The clauses of `live` that hold `l`.
abbrev pub occurrences : ℕ → For → For
occurrences l = filter_if (λ c. elem l c.lits)

-- `live` without the clauses with pointer `p`.
abbrev pub without : ℕ → For → For
without p = filter_if (λ c. not (c.ptr == p))

abbrev pub has_ptr : ℕ → For → Bool
has_ptr p [] = false
has_ptr p (c ∷ cs) = c.ptr == p || has_ptr p cs

-- No two clauses share a pointer, and each is sorted with no variable twice.
abbrev pub Distinct : For → Type 0
Distinct [] = Unit {0}
Distinct (c ∷ cs) = (has_ptr c.ptr cs ≡ false) × Above 0 c.lits × Distinct cs

-- `c` is one of the clauses.
abbrev pub Has : Clause → For → Type 0
Has c [] = ⊥
Has c (d ∷ ds) = (c ≡ d) ⊎ Has c ds

pub Has-ptr : (c : Clause) (cs : For) → Has c cs → has_ptr c.ptr cs ≡ true
Has-ptr c [] h = elim h [ ]
Has-ptr c (d ∷ ds) (inl e) = ground arith
Has-ptr c (d ∷ ds) (inr h) = ground (arith, Has-ptr c ds h)

pub Has-Above : (c : Clause) (cs : For) → Distinct cs → Has c cs → Above 0 c.lits
Has-Above c [] v h = elim h [ ]
Has-Above c (d ∷ ds) v (inl e) = rw e v.1
Has-Above c (d ∷ ds) v (inr h) = Has-Above c ds v.2 h

without_absent : (p : ℕ) (cs : For) → has_ptr p cs ≡ false → without p cs ≡ cs
without_absent p [] h = refl
without_absent p (c ∷ cs) h = ground (arith, without_absent p cs)

erase_first_hit : (c : Clause) (cs : For) → erase_first c.ptr (c ∷ cs) ≡ cs
unfolding erase_first
erase_first_hit c [] = refl
erase_first_hit c (d ∷ cs) = ground arith

erase_first_miss :
    (p : ℕ) (c : Clause) (cs : For)
    → c.ptr ≢ p
    → has_ptr p cs ≡ true
    → erase_first p (c ∷ cs) ≡ c ∷ erase_first p cs
unfolding erase_first
erase_first_miss p c [] n h = cc
erase_first_miss p c (d ∷ cs) n h = ground arith

occurrences-Has :
    (l : ℕ) (c : Clause) (cs : For)
    → Has c cs
    → elem l c.lits ≡ true
    → has_ptr c.ptr (occurrences l cs) ≡ true
occurrences-Has l c [] h t = elim h [ ]
occurrences-Has l c (d ∷ ds) (inl e) t = rw (← e) (ground arith)
occurrences-Has l c (d ∷ ds) (inr h) t = ground (arith, occurrences-Has l c ds h t)

occurrences-without_head :
    (l : ℕ) (c : Clause) (cs : For)
    → has_ptr c.ptr cs ≡ false
    → occurrences l (without c.ptr (c ∷ cs)) ≡ (
        if elem l c.lits
        then erase_first c.ptr (occurrences l (c ∷ cs))
        else occurrences l (c ∷ cs))
occurrences-without_head l c cs h =
    ground (arith, without_absent c.ptr cs h, erase_first_hit c (occurrences l cs))

-- The clauses of a literal after a clause has left.
occurrences-without :
    (l : ℕ) (c : Clause) (cs : For)
    → Distinct cs
    → Has c cs
    → occurrences l (without c.ptr cs)
      ≡ (if elem l c.lits then erase_first c.ptr (occurrences l cs) else occurrences l cs)
occurrences-without l c [] v h = elim h [ ]
occurrences-without l c (d ∷ ds) v (inl e) =
    subst
      (λ x. occurrences l (without c.ptr (x ∷ ds)) ≡ (
        if elem l c.lits
        then erase_first c.ptr (occurrences l (x ∷ ds))
        else occurrences l (x ∷ ds)))
      e (occurrences-without_head l c ds (subst (λ x. has_ptr x.ptr ds ≡ false) (sym e) v.0))
occurrences-without l c (d ∷ ds) v (inr h) = ground (
  arith,
  occurrences-without l c ds v.2 h,
  occurrences-Has l c ds h,
  Has-ptr c ds h,
  erase_first_miss c.ptr d (occurrences l ds),
)

remove_lits_lem :
    (ix : Index) (p k b : ℕ) (ls : Cl)
    → Above b ls
    → remove_lits ix p ls k ≡ (if elem k ls then erase_first p (ix k) else ix k)
unfolding remove_lits
remove_lits_lem ix p k b [] v = refl
remove_lits_lem ix p k b (l ∷ ls) v = ground (
  arith,
  remove_lits_lem (update ix l (erase_first p (ix l))) p k (suc (var l)) ls v.1,
  elem-past l (suc (var l)) ls v.1,
)

-- The index agrees with the clauses in play, but for the hidden literals, whose lists are empty.
abbrev pub RepresentsBut : (ℕ → Bool) → Index → For → Type 0
RepresentsBut hidden ix live = (k : ℕ) → ix k ≡ (if hidden k then [] else occurrences k live)

abbrev pub Represents : Index → For → Type 0
Represents ix live = (k : ℕ) → ix k ≡ occurrences k live

remove_lits-RepresentsBut :
    (hidden : ℕ → Bool) (ix : Index) (c : Clause) (live : For)
    → Distinct live
    → Has c live
    → RepresentsBut hidden ix live
    → RepresentsBut hidden (remove_lits ix c.ptr c.lits) (without c.ptr live)
unfolding erase_first
remove_lits-RepresentsBut hidden ix c live v h r k = ground (
  arith,
  r k,
  remove_lits_lem ix c.ptr k 0 c.lits (Has-Above c live v h),
  occurrences-without k c live v h,
)

has_ptr-filter :
    (p : ℕ) (q : Clause → Bool) (cs : For)
    → has_ptr p cs ≡ false
    → has_ptr p (filter_if q cs) ≡ false
has_ptr-filter p q [] h = refl
has_ptr-filter p q (c ∷ cs) h = ground (arith, has_ptr-filter p q cs)

pub Distinct-filter : (q : Clause → Bool) (cs : For) → Distinct cs → Distinct (filter_if q cs)
Distinct-filter q [] v = tt
Distinct-filter q (c ∷ cs) v =
    ground (arith, has_ptr-filter c.ptr q cs v.0, Distinct-filter q cs v.2)

Has-without : (p : ℕ) (c : Clause) (cs : For) → c.ptr ≢ p → Has c cs → Has c (without p cs)
Has-without p c [] n h = elim h [ ]
Has-without p c (d ∷ ds) n (inl e) =
    let other : (d.ptr == p) ≡ false = ground (arith, ap (λ (x : Clause). x.ptr) e) in
    rw other (inl e)
Has-without p c (d ∷ ds) n (inr h) = elim (Bool-cases (d.ptr == p)) [
  | inl e ↦ rw e (Has-without p c ds n h)
  | inr e ↦ rw e (inr (Has-without p c ds n h))
]

-- All of `cs` leave.
abbrev pub drop_all : For → For → For
drop_all [] live = live
drop_all (c ∷ cs) live = drop_all cs (without c.ptr live)

Has-ne : (p : ℕ) (d : Clause) (cs : For) → has_ptr p cs ≡ false → Has d cs → d.ptr ≢ p
Has-ne p d [] h m = elim m [ ]
Has-ne p d (c ∷ cs) h (inl e) = ground (arith, ap (λ (x : Clause). x.ptr) e)
Has-ne p d (c ∷ cs) h (inr m) = Has-ne p d cs (ground arith) m

All-Has-without :
    (p : ℕ) (cs live : For)
    → has_ptr p cs ≡ false
    → All (λ c. Has c live) cs
    → All (λ c. Has c (without p live)) cs
All-Has-without p [] live h v = tt
All-Has-without p (c ∷ cs) live h v = (
  Has-without p c live (Has-ne p c (c ∷ cs) h (inl refl)) v.0,
  All-Has-without p cs live (ground arith) v.1,
)

pub remove_all-RepresentsBut :
    (hidden : ℕ → Bool) (ix : Index) (cs live : For)
    → Distinct live
    → Distinct cs
    → All (λ c. Has c live) cs
    → RepresentsBut hidden ix live
    → RepresentsBut hidden (remove_all ix cs) (drop_all cs live)
unfolding remove_all
remove_all-RepresentsBut hidden ix [] live v w h r = r
remove_all-RepresentsBut hidden ix (c ∷ cs) live v w h r =
    remove_all-RepresentsBut hidden (remove_lits ix c.ptr c.lits) cs (without c.ptr live)
      (Distinct-filter _ live v) w.2 (All-Has-without c.ptr cs live w.0 h.1)
      (remove_lits-RepresentsBut hidden ix c live v h.0 r)

-- The clauses of `live` that do not hold `l`.
abbrev pub free_of : ℕ → For → For
free_of l = filter_if (λ c. not (elem l c.lits))

drop_all-cons :
    (c : Clause) (xs cs : For)
    → has_ptr c.ptr xs ≡ false
    → drop_all xs (c ∷ cs) ≡ c ∷ drop_all xs cs
drop_all-cons c [] cs h = refl
drop_all-cons c (x ∷ xs) cs h =
    let other : (c.ptr == x.ptr) ≡ false = ground arith in
    rw other (drop_all-cons c xs (without x.ptr cs) (ground arith))

pub drop_all-occurrences :
    (l : ℕ) (live : For) → Distinct live → drop_all (occurrences l live) live ≡ free_of l live
drop_all-occurrences l [] v = refl
drop_all-occurrences l (c ∷ cs) v = elim (Bool-cases (elem l c.lits)) [
  | inl e ↦ rw e (
      ap (drop_all (occurrences l cs)) (ground (arith, without_absent c.ptr cs v.0))
      ∙ drop_all-occurrences l cs v.2)
  | inr e ↦ rw e (
      drop_all-cons c (occurrences l cs) cs (has_ptr-filter c.ptr _ cs v.0)
      ∙ ap (◌∷◌ c) (drop_all-occurrences l cs v.2))
]

Has-cons : (c : Clause) (xs cs : For) → All (λ d. Has d cs) xs → All (λ d. Has d (c ∷ cs)) xs
Has-cons c [] cs v = tt
Has-cons c (x ∷ xs) cs v = (inr v.0, Has-cons c xs cs v.1)

pub filter-Has : (q : Clause → Bool) (cs : For) → All (λ c. Has c cs) (filter_if q cs)
filter-Has q [] = tt
filter-Has q (c ∷ cs) = elim (Bool-cases (q c)) [
  | inl e ↦ rw e (inl refl, Has-cons c (filter_if q cs) cs (filter-Has q cs))
  | inr e ↦ rw e (Has-cons c (filter_if q cs) cs (filter-Has q cs))
]

-- Removing all clauses of a literal leaves the index of the clauses without it.
pub remove_literal :
    (hidden : ℕ → Bool) (ix : Index) (l : ℕ) (live : For)
    → Distinct live
    → RepresentsBut hidden ix live
    → RepresentsBut hidden (remove_all ix (occurrences l live)) (free_of l live)
remove_literal hidden ix l live v r =
    subst (RepresentsBut hidden _) (drop_all-occurrences l live v) (
      remove_all-RepresentsBut hidden ix (occurrences l live) live v (Distinct-filter _ live v)
        (filter-Has _ live) r)
