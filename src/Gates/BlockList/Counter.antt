-- ===== src/Gates/BlockList/Counter.antt =====
-- `initBlockingCounter` sorts the blocked clauses to the front and counts them.
use ignore_gates.Prelude.{
  ℕ, zero, suc, ◌+◌, ◌%◌, ◌^◌, ◌≤◌, ◌<◌, ◌≡◌, ◌≢◌, refl, sym, ap, subst, ◌∙◌, inl, inr, Bool, true,
  false, [], ◌∷◌, ◌++◌, arith, ◌==◌, length, all, Bool-cases, if_eq, if_ne,
}
use ignore_gates.Types.{neg}
use ignore_gates.Types.Literals.{neg_lem}
use ignore_gates.Formula.{Clause, For}
use ignore_gates.Gates.Occurrences
use ignore_gates.Gates.Occurrences.{Index, OccurrenceList, update}
use ignore_gates.Gates.BlockList.{
  BlockList, set_blocked, is_blocked_by, last_first, partition, all_blocked, init_blocking_counter,
  is_blocked_set,
}

abbrev pub bit : Bool → ℕ
bit true = 1
bit false = 0

pub count : (Clause → Bool) → For → ℕ
count q [] = 0
count q (c ∷ cs) = bit (q c) + count q cs

-- The first `n` clauses pass the test, and no other does.
pub Splits : (Clause → Bool) → ℕ → For → Type 0
Splits test zero cs = count test cs ≡ 0
Splits test (suc n) [] = ⊥
Splits test (suc n) (c ∷ cs) = (test c ≡ true) × Splits test n cs

count-append : (q : Clause → Bool) (cs ds : For) → count q (cs ++ ds) ≡ count q cs + count q ds
unfolding count
count-append q [] ds = omega arith
count-append q (c ∷ cs) ds = omega (arith, count-append q cs ds)

count-last_first : (q : Clause → Bool) (cs : For) → count q (last_first cs) ≡ count q cs
unfolding last_first count
count-last_first q [] = refl
count-last_first q (c ∷ cs) = go (last_first cs) (count-last_first q cs)
  where
    go :
        (ds : For)
        → count q ds ≡ count q cs
        → count q (elim ds [ [] ↦ c ∷ [] | d ∷ es ↦ d ∷ c ∷ es ]) ≡ bit (q c) + count q cs
    go [] h = omega (arith, h)
    go (d ∷ ds) h = omega (arith, h)

length-last_first : (cs : For) → length (last_first cs) ≡ length cs
unfolding last_first
length-last_first [] = refl
length-last_first (c ∷ cs) = go (last_first cs) (length-last_first cs)
  where
    go :
        (ds : For)
        → length ds ≡ length cs
        → length (elim ds [ [] ↦ c ∷ [] | d ∷ es ↦ d ∷ c ∷ es ]) ≡ suc (length cs)
    go [] h = omega (arith, h)
    go (d ∷ ds) h = omega (arith, h)

-- What the loop makes of the entries `mid`, with `tail` behind them.
record Parted (test : Clause → Bool) (mid tail : For) (r : For × ℕ) : Type 0 where
  same : (q : Clause → Bool) → count q r.0 ≡ count q mid + count q tail
  counted : r.1 ≡ count test mid
  splits : Splits test r.1 r.0

partition-Parted :
    (fuel : ℕ) (test : Clause → Bool) (mid tail : For)
    → length mid ≤ fuel
    → count test tail ≡ 0
    → Parted test mid tail (partition fuel test mid tail)
unfolding partition Splits count
partition-Parted fuel test [] tail h t = record {
  same = λ q. omega arith;
  counted = refl;
  splits = t;
}
partition-Parted zero test (c ∷ mid) tail h t = absurd (omega (arith, h))
partition-Parted (suc fuel) test (c ∷ mid) tail h t = elim (Bool-cases (test c)) [
  | inl e ↦
      let ih = partition-Parted fuel test mid tail (omega (arith, h)) t in
      rw e (record {
        same = λ q. omega (arith, ih.same q);
        counted = omega (arith, ih.counted, ap bit e);
        splits = (e, ih.splits);
      })
  | inr e ↦
      let ih =
        partition-Parted fuel test (last_first mid) (c ∷ tail)
          (omega (arith, h, length-last_first mid)) (omega (arith, t, ap bit e)) in
      rw e (record {
        same = λ q. omega (arith, ih.same q, count-last_first q mid);
        counted = omega (arith, ih.counted, count-last_first test mid, ap bit e);
        splits = ih.splits;
      })
]

count-le : (q : Clause → Bool) (cs : For) → count q cs ≤ length cs
unfolding count
count-le q [] = omega arith
count-le q (c ∷ cs) = ground (arith, count-le q cs)

count-every : (cs : For) → count (λ _. true) cs ≡ length cs
unfolding count
count-every [] = refl
count-every (c ∷ cs) = omega (arith, count-every cs)

count-all : (q : Clause → Bool) (cs : For) → (length cs == count q cs) ≡ all q cs
unfolding count
count-all q [] = refl
count-all q (c ∷ cs) = ground (arith, count-all q cs, count-le q cs)

all_blocked-index : (b : BlockList) (o : ℕ) → (all_blocked b o).index ≡ b.index
all_blocked-index b o = elim (Bool-cases (b.num_blocked o == length (b.index o))) [
  | inl e ↦ rw e refl
  | inr e ↦ rw e refl
]

neg_other : (o : ℕ) → o ≢ neg o
neg_other o e = (neg_lem o).2 (sym e)

all_blocked-at : (b : BlockList) (o : ℕ) → (all_blocked b o).num_blocked o ≡ b.num_blocked o
all_blocked-at b o = elim (Bool-cases (b.num_blocked o == length (b.index o))) [
  | inl e ↦ rw (e, if_ne o (neg o) _ _ (neg_other o)) refl
  | inr e ↦ rw e refl
]

-- What counting makes of the list of `o`: the same clauses, of which the counted ones are blocked and
-- stand first.
pub record Counted (o : ℕ) (b b' : BlockList) : Type 0 where
  pub same : (q : Clause → Bool) → count q (b'.index o) ≡ count q (b.index o)
  pub number : b'.num_blocked o ≡ count (is_blocked_by b.index o) (b.index o)
  pub splits : Splits (is_blocked_by b.index o) (b'.num_blocked o) (b'.index o)
  pub others : (l : ℕ) → l ≢ o → b'.index l ≡ b.index l

fits : (q : Clause → Bool) (cs : For) (n : ℕ) → n ≡ count q cs → length cs < 2 ^ 16 → n % 2 ^ 16 ≡ n
fits q cs n e h = omega (arith, e, h, count-le q cs)

set_counter-Counted :
    (b : BlockList) (o : ℕ) (r : For × ℕ)
    → length (b.index o) < 2 ^ 16
    → Parted (is_blocked_by b.index o) (b.index o) [] r
    → Counted o b (all_blocked (set_blocked (record b { index = update b.index o r.0 }) o r.1) o)
unfolding count
set_counter-Counted b o (cs, n) h p =
    let t = set_blocked (record b { index = update b.index o cs }) o n in
    let here : t.index o ≡ cs = if_eq o o _ _ refl in
    let num : (all_blocked t o).num_blocked o ≡ n =
      all_blocked-at t o ∙ (if_eq o o _ _ refl ∙ fits _ (b.index o) n p.counted h) in
    record {
      same = λ q. rw (all_blocked-index t o, here) (omega (arith, p.same q));
      number = num ∙ p.counted;
      splits =
          subst (λ ds. Splits (is_blocked_by b.index o) ((all_blocked t o).num_blocked o) ds)
            (sym (ap (λ f. f o) (all_blocked-index t o) ∙ here))
            (subst (λ k. Splits (is_blocked_by b.index o) k cs) (sym num) p.splits);
      others = λ l g. rw (all_blocked-index t o) (if_ne l o _ _ g);
    }

-- Where the list of `o` has fewer than 65536 clauses, `initBlockingCounter(o)` keeps its clauses,
-- sorts those blocked by `o` to the front, counts exactly these, and leaves all other lists alone.
pub init_blocking_counter-Counted :
    (b : BlockList) (o : ℕ) → length (b.index o) < 2 ^ 16 → Counted o b (init_blocking_counter b o)
unfolding init_blocking_counter count
init_blocking_counter-Counted b o h = set_counter-Counted b o _ h (
    partition-Parted (length (b.index o)) (is_blocked_by b.index o) (b.index o) [] (omega arith)
      refl)

-- Where the list of `o` has fewer than 65536 clauses, the counter answers the test for a blocked set
-- as the occurrence list does with the same lists.
pub is_blocked_set-init_blocking_counter :
    (b : BlockList) (o : ℕ) (l : OccurrenceList)
    → l.index ≡ b.index
    → length (b.index o) < 2 ^ 16
    → is_blocked_set (init_blocking_counter b o) o ≡ Occurrences.is_blocked_set l o
unfolding Occurrences.is_blocked_set is_blocked_by
is_blocked_set-init_blocking_counter b o l e h =
    let c = init_blocking_counter-Counted b o h in
    let size : length ((init_blocking_counter b o).index o) ≡ length (b.index o) =
      sym (count-every _) ∙ (c.same (λ _. true) ∙ count-every _) in
    rw (size, c.number, e) (count-all (is_blocked_by b.index o) (b.index o))
