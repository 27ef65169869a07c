-- ===== src/Features/CnfStats/Horn.antt =====
-- The counters of clauses by the signs of their literals.
use ignore_gates.Prelude.{
  ℕ, suc, ◌+◌, ◌-◌, ◌<◌, ◌≤◌, ◌≡◌, refl, ◌∙◌, subst, inl, inr, Bool, true, false, not, [], ◌∷◌,
  ◌==◌, leb, if◌then◌else◌, arith, length, filter_if, All, Bool-cases,
}
use ignore_gates.Types.{Cl, sign}
use ignore_gates.Formula.{Clause, For}
use ignore_gates.Features.CnfStats.{
  Counters, bump, count_negative, count_size, count_horn, count_inv_horn, count_clause,
  count_clauses,
}

abbrev pub negatives : Cl → ℕ
negatives c = length (filter_if sign c)

abbrev pub positives : Cl → ℕ
positives c = length (filter_if (λ l. not (sign l)) c)

signs-length : (c : Cl) → negatives c + positives c ≡ length c
signs-length [] = omega arith
signs-length (l ∷ c) = elim (Bool-cases (sign l)) [
  | inl e ↦ rw e (omega (arith, signs-length c))
  | inr e ↦ rw e (omega (arith, signs-length c))
]

-- On a float the count is right up to 2 ^ 24 literals.
count_negative_lem : (c : Cl) → length c ≤ 16777216 → count_negative c ≡ negatives c
unfolding count_negative
count_negative_lem [] h = refl
count_negative_lem (l ∷ c) h =
    let rest = count_negative_lem c (omega (arith, h)) in ground (arith, h, rest, signs-length c)

-- The number of clauses of which a test of their literals holds.
abbrev pub count_of : (Cl → Bool) → For → ℕ
count_of p cs = length (filter_if (λ (c : Clause). p c.lits) cs)

abbrev pub one : Bool → ℕ
one true = 1
one false = 0

-- The counters of clauses have these values.
pub record Has (h p i q : ℕ) (s : Counters) : Type 0 where
  pub horn : s.horn ≡ h
  pub positive : s.positive ≡ p
  pub inv_horn : s.inv_horn ≡ i
  pub negative : s.negative ≡ q

one_more : (b : Bool) (n v : ℕ) → n ≡ v → v + 1 < 4294967296 → (if b then bump n else n) ≡ v + one b
one_more true n v e h = omega (arith, e, h)
one_more false n v e h = omega (arith, e)

count_horn-Has :
    (h p i q : ℕ) (s : Counters) (c : Cl) (k : ℕ)
    → h + 1 < 4294967296
    → p + 1 < 4294967296
    → Has h p i q s
    → Has (h + one (leb k 1)) (p + one (k == 0)) i q (count_horn s c k)
count_horn-Has h p i q s c k hb pb v = elim (Bool-cases (leb k 1)) [
  | inl e ↦ rw e (record {
    horn = omega (arith, v.horn, hb);
    positive = one_more (k == 0) s.positive p v.positive pb;
    inv_horn = v.inv_horn;
    negative = v.negative;
  })
  | inr e ↦
      let z : (k == 0) ≡ false = ground (arith, e) in
      rw (e, z)
        (record {
          horn = omega (arith, v.horn);
          positive = omega (arith, v.positive);
          inv_horn = v.inv_horn;
          negative = v.negative;
        })
]

count_inv_horn-Has :
    (h p i q : ℕ) (s : Counters) (c : Cl) (k : ℕ)
    → i + 1 < 4294967296
    → q + 1 < 4294967296
    → Has h p i q s
    → Has h p (i + one (leb (length c - k) 1)) (q + one (length c - k == 0)) (count_inv_horn s c k)
count_inv_horn-Has h p i q s c k ib qb v = elim (Bool-cases (leb (length c - k) 1)) [
  | inl e ↦ rw e (record {
    horn = v.horn;
    positive = v.positive;
    inv_horn = omega (arith, v.inv_horn, ib);
    negative = one_more (length c - k == 0) s.negative q v.negative qb;
  })
  | inr e ↦
      let z : (length c - k == 0) ≡ false = ground (arith, e) in
      rw (e, z)
        (record {
          horn = v.horn;
          positive = v.positive;
          inv_horn = omega (arith, v.inv_horn);
          negative = omega (arith, v.negative);
        })
]

abbrev pub is_horn : Cl → Bool
is_horn c = leb (negatives c) 1

abbrev pub is_positive : Cl → Bool
is_positive c = negatives c == 0

abbrev pub is_inv_horn : Cl → Bool
is_inv_horn c = leb (positives c) 1

abbrev pub is_negative : Cl → Bool
is_negative c = positives c == 0

count_clause-Has :
    (h p i q m : ℕ) (s : Counters) (c : Cl)
    → length c ≤ 16777216
    → (h ≤ m) × (p ≤ m) × (i ≤ m) × (q ≤ m) × (m + 1 < 4294967296)
    → Has h p i q s
    → Has
        (h + one (is_horn c))
        (p + one (is_positive c))
        (i + one (is_inv_horn c))
        (q + one (is_negative c))
        (count_clause s c)
unfolding count_clause
count_clause-Has h p i q m s c l (hm, pm, im, qm, b) v =
    let k = count_negative c in
    let sized : Has h p i q (count_size s c) = record {
      horn = v.horn;
      positive = v.positive;
      inv_horn = v.inv_horn;
      negative = v.negative;
    } in
    let same : k ≡ negatives c = count_negative_lem c l in
    let others : length c - k ≡ positives c = omega (arith, same, signs-length c) in
    let half =
      count_horn-Has h p i q (count_size s c) c k (omega (arith, hm, b)) (omega (arith, pm, b))
        sized in
    let whole =
      count_inv_horn-Has (h + one (leb k 1)) (p + one (k == 0)) i q
        (count_horn (count_size s c) c k) c k (omega (arith, im, b)) (omega (arith, qm, b)) half in
    subst
      (λ n.
        Has (h + one (is_horn c)) (p + one (is_positive c)) (i + one (leb n 1)) (q + one (n == 0))
          (count_clause s c))
      others
      (subst
        (λ n.
          Has (h + one (leb n 1)) (p + one (n == 0)) (i + one (leb (length c - k) 1))
            (q + one (length c - k == 0)) (count_clause s c))
        same whole)

pub count_of-cons :
    (p : Cl → Bool) (n : ℕ) (c : Clause) (cs : For)
    → n + one (p c.lits) + count_of p cs ≡ n + count_of p (c ∷ cs)
count_of-cons p n c cs = elim (Bool-cases (p c.lits)) [
  | inl e ↦ rw e (omega arith)
  | inr e ↦ rw e (omega arith)
]

one_le : (b : Bool) (n m : ℕ) → n ≤ m → n + one b ≤ suc m
one_le true n m h = omega (arith, h)
one_le false n m h = omega (arith, h)

pub count_clauses-Has :
    (h p i q m : ℕ) (s : Counters) (cs : For)
    → All (λ (c : Clause). length c.lits ≤ 16777216) cs
    → (h ≤ m) × (p ≤ m) × (i ≤ m) × (q ≤ m) × (m + length cs < 4294967296)
    → Has h p i q s
    → Has
        (h + count_of is_horn cs)
        (p + count_of is_positive cs)
        (i + count_of is_inv_horn cs)
        (q + count_of is_negative cs)
        (count_clauses s cs)
unfolding count_clauses
count_clauses-Has h p i q m s [] a b v = record {
  horn = omega (arith, v.horn);
  positive = omega (arith, v.positive);
  inv_horn = omega (arith, v.inv_horn);
  negative = omega (arith, v.negative);
}
count_clauses-Has h p i q m s (c ∷ cs) a (hm, pm, im, qm, b) v =
    let step = count_clause-Has h p i q m s c.lits a.0 (hm, pm, im, qm, omega (arith, b)) v in
    let rest =
      count_clauses-Has (h + one (is_horn c.lits)) (p + one (is_positive c.lits))
        (i + one (is_inv_horn c.lits)) (q + one (is_negative c.lits)) (suc m)
        (count_clause s c.lits) cs a.1
        (
          one_le (is_horn c.lits) h m hm,
          one_le (is_positive c.lits) p m pm,
          one_le (is_inv_horn c.lits) i m im,
          one_le (is_negative c.lits) q m qm,
          omega (arith, b),
        )
        step in
    record {
      horn = rest.horn ∙ count_of-cons is_horn h c cs;
      positive = rest.positive ∙ count_of-cons is_positive p c cs;
      inv_horn = rest.inv_horn ∙ count_of-cons is_inv_horn i c cs;
      negative = rest.negative ∙ count_of-cons is_negative q c cs;
    }
