-- ===== src/Stamp/Sets.antt =====
-- A stamp is a set of indices, whatever is done with it and however often its counter wraps.
use ignore_gates.Prelude.{
  ℕ, zero, suc, ◌+◌, ◌-◌, ◌≤◌, ◌<◌, ◌≡◌, refl, sym, ◌∙◌, ap, subst, Bool, true, false, List, [],
  ◌∷◌, ◌++◌, ◌==◌, ltb, if◌then◌else◌, length, get_or, set, replicate, All, All-append, arith,
  length-append, length-set, length-replicate, get_or-set, get_or-replicate, Bool-cases, inl, inr,
  ltb→lt, lt→ltb, fun_ext,
}
use ignore_gates.Stamp.{Stamp, clear, init, grow, grow_to, size, unset, set_stamp, is_stamped}

-- The operations.
pub data Op : Type 0 where
  clear_all : Op
  add drop : ℕ → Op
  extend : Op
  extend_to : ℕ → Op

-- No entry is past the stamp, and the stamp is from 1 to the greatest value.
pub record IsValid (top : ℕ) (s : Stamp) : Type 0 where
  pub entries : All (λ v. v ≤ s.stamp) s.stamped
  pub low : 0 < s.stamp
  pub high : s.stamp ≤ top

pub apply : ℕ → Op → Stamp → Stamp
apply top clear_all s = clear top s
apply top (add i) s = set_stamp i s
apply top (drop i) s = unset i s
apply top extend s = grow s
apply top (extend_to n) s = grow_to n s

pub run : ℕ → List Op → Stamp → Stamp
unfolding apply
run top [] s = s
run top (o ∷ os) s = run top os (apply top o s)

-- The same operations on a set of indices.
abbrev pub on_set : Op → (ℕ → Bool) → ℕ → Bool
on_set clear_all f = λ _. false
on_set (add i) f = λ j. if i == j then true else f j
on_set (drop i) f = λ j. if i == j then false else f j
on_set extend f = f
on_set (extend_to n) f = f

abbrev pub run_set : List Op → (ℕ → Bool) → ℕ → Bool
run_set [] f = f
run_set (o ∷ os) f = run_set os (on_set o f)

-- The indices are below the size, as the assertions ask.
abbrev pub grown : Op → ℕ → ℕ
grown extend n = suc n
grown (extend_to m) n = if ltb n m then m else n
grown _ n = n

abbrev pub InRange : List Op → ℕ → Type 0
InRange [] n = Unit {0}
InRange (clear_all ∷ os) n = InRange os n
InRange (add i ∷ os) n = (i < n) × InRange os n
InRange (drop i ∷ os) n = (i < n) × InRange os n
InRange (extend ∷ os) n = InRange os (suc n)
InRange (extend_to m ∷ os) n = InRange os (grown (extend_to m) n)

All-replicate : (n v : ℕ) → All (λ x. x ≤ v) (replicate n 0)
All-replicate zero v = tt
All-replicate (suc n) v = (omega arith, All-replicate n v)

All-mono : (a b : ℕ) (xs : List ℕ) → a ≤ b → All (λ x. x ≤ a) xs → All (λ x. x ≤ b) xs
All-mono a b [] h v = tt
All-mono a b (x ∷ xs) h v = (omega (arith, v.0), All-mono a b xs h v.1)

All-set : (a i v : ℕ) (xs : List ℕ) → v ≤ a → All (λ x. x ≤ a) xs → All (λ x. x ≤ a) (set xs i v)
All-set a i v [] h w = tt
All-set a zero v (x ∷ xs) h w = (h, w.1)
All-set a (suc i) v (x ∷ xs) h w = (w.0, All-set a i v xs h w.1)

get_or-le : (a j : ℕ) (xs : List ℕ) → All (λ x. x ≤ a) xs → get_or xs j 0 ≤ a
get_or-le a j [] w = omega arith
get_or-le a zero (x ∷ xs) w = w.0
get_or-le a (suc j) (x ∷ xs) w = get_or-le a j xs w.1

get_or-append_zeros : (xs : List ℕ) (n j : ℕ) → get_or (xs ++ replicate n 0) j 0 ≡ get_or xs j 0
get_or-append_zeros [] n j = get_or-replicate n j 0
get_or-append_zeros (x ∷ xs) n zero = refl
get_or-append_zeros (x ∷ xs) n (suc j) = get_or-append_zeros xs n j

-- One operation: the stamp stays valid, the sizes agree, and the set changes as it should.
record Steps (top : ℕ) (o : Op) (s : Stamp) : Type 0 where
  valid : IsValid top (apply top o s)
  sized : size (apply top o s) ≡ grown o (size s)
  same : (j : ℕ) → is_stamped (apply top o s) j ≡ on_set o (is_stamped s) j

none_past : (a j : ℕ) (xs : List ℕ) → All (λ x. x ≤ a) xs → (get_or xs j 0 == suc a) ≡ false
none_past a j xs v = ground (arith, get_or-le a j xs v)

zeros_only : (n j : ℕ) → (get_or (replicate n 0) j 0 == 1) ≡ false
zeros_only n j = ap (λ v. v == 1) (get_or-replicate n j 0)

clear-Steps : (top : ℕ) (s : Stamp) → 0 < top → IsValid top s → Steps top clear_all s
unfolding apply clear
clear-Steps top s t v = elim (Bool-cases (ltb s.stamp top)) [
  | inl e ↦ record {
    valid = rw e (record {
      entries = All-mono s.stamp (suc s.stamp) s.stamped (omega arith) v.entries;
      low = omega arith;
      high = ltb→lt s.stamp top e;
    });
    sized = rw e;
    same = λ j. rw e (none_past s.stamp j s.stamped v.entries);
  }
  | inr e ↦ record {
    valid =
        rw e (record { entries = All-replicate (length s.stamped) 1; low = omega arith; high = t });
    sized = rw e (length-replicate (length s.stamped) 0);
    same = λ j. rw e (zeros_only (length s.stamped) j);
  }
]

add-Steps : (top i : ℕ) (s : Stamp) → i < size s → IsValid top s → Steps top (add i) s
unfolding apply set_stamp
add-Steps top i s h v = record {
  valid = record {
    entries = All-set s.stamp i s.stamp s.stamped (omega arith) v.entries;
    low = v.low;
    high = v.high;
  };
  sized = length-set s.stamped i s.stamp;
  same = λ j. ground (arith, get_or-set s.stamped i j s.stamp 0 h);
}

drop-Steps : (top i : ℕ) (s : Stamp) → i < size s → IsValid top s → Steps top (drop i) s
unfolding apply unset
drop-Steps top i s h v = record {
  valid = record {
    entries = All-set s.stamp i 0 s.stamped (omega arith) v.entries;
    low = v.low;
    high = v.high;
  };
  sized = length-set s.stamped i 0;
  same = λ j. ground (arith, get_or-set s.stamped i j 0 0 h, v.low);
}

zeros-Steps :
    (top n : ℕ) (s : Stamp)
    → IsValid top s
    → IsValid top (record s { stamped = s.stamped ++ replicate n 0 })
      × (length (s.stamped ++ replicate n 0) ≡ length s.stamped + n)
      × ((j : ℕ) → (get_or (s.stamped ++ replicate n 0) j 0 == s.stamp) ≡ is_stamped s j)
zeros-Steps top n s v = (
  record {
    entries = All-append _ s.stamped (replicate n 0) v.entries (All-replicate n s.stamp);
    low = v.low;
    high = v.high;
  },
  length-append s.stamped (replicate n 0) ∙ ap (λ m. length s.stamped + m) (length-replicate n 0),
  λ j. ap (λ x. x == s.stamp) (get_or-append_zeros s.stamped n j),
)

extend-Steps : (top : ℕ) (s : Stamp) → IsValid top s → Steps top extend s
unfolding apply grow
extend-Steps top s v =
    let z = zeros-Steps top 1 s v in record { valid = z.0; sized = omega (arith, z.1); same = z.2 }

extend_to-Steps : (top n : ℕ) (s : Stamp) → IsValid top s → Steps top (extend_to n) s
unfolding apply grow_to
extend_to-Steps top n s v = elim (Bool-cases (ltb (length s.stamped) n)) [
  | inl e ↦
      let z = zeros-Steps top (n - length s.stamped) s v in
      let h = ltb→lt (length s.stamped) n e in
      record { valid = rw e z.0; sized = rw e (omega (arith, z.1, h)); same = λ j. rw e (z.2 j) }
  | inr e ↦ record { valid = rw e v; sized = rw e; same = λ j. rw e }
]

run_set-agree :
    (os : List Op) (f g : ℕ → Bool)
    → ((j : ℕ) → f j ≡ g j)
    → (j : ℕ) → run_set os f j ≡ run_set os g j
run_set-agree os f g h j = ap (λ k. run_set os k j) (fun_ext h)

Steps-run :
    (top : ℕ) (o : Op) (os : List Op) (s : Stamp)
    → Steps top o s
    → IsValid top (run top os (apply top o s))
      × ((j : ℕ)
          → is_stamped (run top os (apply top o s)) j ≡ run_set os (is_stamped (apply top o s)) j)
    → IsValid top (run top (o ∷ os) s)
      × ((j : ℕ) → is_stamped (run top (o ∷ os) s) j ≡ run_set (o ∷ os) (is_stamped s) j)
unfolding run
Steps-run top o os s st r =
    (r.0, λ j. r.1 j ∙ run_set-agree os _ (on_set o (is_stamped s)) st.same j)

-- Any operations, with their indices below the size, keep a stamp valid and change the set of its
-- stamped indices as they change a set, through every wrap of the counter.
pub run-sets :
    (top : ℕ) (os : List Op) (s : Stamp)
    → 0 < top
    → InRange os (size s)
    → IsValid top s
    → IsValid top (run top os s)
      × ((j : ℕ) → is_stamped (run top os s) j ≡ run_set os (is_stamped s) j)
run-sets top [] s t h v = unfold run in (v, λ j. refl)
run-sets top (clear_all ∷ os) s t h v =
    let st = clear-Steps top s t v in
    Steps-run top clear_all os s st
      (run-sets top os (apply top clear_all s) t (subst (InRange os) (sym st.sized) h) st.valid)
run-sets top (add i ∷ os) s t h v =
    let st = add-Steps top i s h.0 v in
    Steps-run top (add i) os s st
      (run-sets top os (apply top (add i) s) t (subst (InRange os) (sym st.sized) h.1) st.valid)
run-sets top (drop i ∷ os) s t h v =
    let st = drop-Steps top i s h.0 v in
    Steps-run top (drop i) os s st
      (run-sets top os (apply top (drop i) s) t (subst (InRange os) (sym st.sized) h.1) st.valid)
run-sets top (extend ∷ os) s t h v =
    let st = extend-Steps top s v in
    Steps-run top extend os s st
      (run-sets top os (apply top extend s) t (subst (InRange os) (sym st.sized) h) st.valid)
run-sets top (extend_to n ∷ os) s t h v =
    let st = extend_to-Steps top n s v in
    Steps-run top (extend_to n) os s st
      (run-sets top os (apply top (extend_to n) s) t (subst (InRange os) (sym st.sized) h) st.valid)

-- A new stamp is valid, has the size asked for, and is the empty set.
pub init-empty :
    (top n : ℕ)
    → 0 < top
    → IsValid top (init top n)
      × (size (init top n) ≡ n)
      × ((j : ℕ) → is_stamped (init top n) j ≡ false)
unfolding init clear
init-empty top n t =
    let e = lt→ltb 0 top t in
    rw e (
      record { entries = All-replicate n 1; low = omega arith; high = t },
      length-replicate n 0,
      λ j. zeros_only n j,
    )
