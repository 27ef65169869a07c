-- ===== src/Cadical/Dimacs/Ends.antt =====
-- The loop over the clauses ends, and what it loads.
use ignore_gates.Prelude.{
  ℕ, zero, suc, ◌+◌, ◌≤◌, ◌<◌, ◌≡◌, refl, inl, inr, Bool, true, false, not, ◌&&◌, List, [], ◌∷◌,
  ◌++◌, arith, ◌==◌, ltb, length, Bool-cases, Option-cases, All, All-append, if◌then◌else◌,
}
use ignore_gates.Types.Int.{ℤ, abs, pos, negsuc, is_zero}
use ignore_gates.Features.GateReport.{Bytes}
use ignore_gates.Cadical.Dimacs.Errors.{Reading, value, refused}
use ignore_gates.Cadical.Dimacs.Body.{
  Strict, is_forced, is_blank, parse_lit, skip_comment, after_literal, Loaded, add_literal, Step,
  body_step, Outcome, after_body, body, next, stop, fail, loaded, failed, out_of_fuel, read_literal,
  to_step,
}
use ignore_gates.Cadical.Dimacs.Literals.{
  Holds, bind-Holds, if-Holds, Literal, parse_lit-Holds, skip_comment-lt, after_literal-Holds,
}

pub zeros : List ℤ → ℕ
zeros [] = 0
zeros (v ∷ vs) = (if is_zero v then 1 else 0) + zeros vs

pub last_or : ℤ → List ℤ → ℤ
last_or d [] = d
last_or d (v ∷ vs) = last_or v vs

-- The literals are within the variables, the last of them is at hand, and the zeros are counted,
-- which are no more than announced unless the reader is forced.
pub record IsLoaded (s : Strict) (clauses : ℕ) (b : Loaded) : Type 0 where
  pub bounded : All (λ v. abs v ≤ b.vars) b.added
  pub counted : zeros b.added ≡ b.parsed
  pub last : last_or (pos 0) b.added ≡ b.lit
  pub few : is_forced s ≡ false → b.parsed ≤ clauses

zeros-append : (vs : List ℤ) (v : ℤ) → zeros (vs ++ (v ∷ [])) ≡ zeros vs + zeros (v ∷ [])
unfolding zeros
zeros-append [] v = omega arith
zeros-append (w ∷ vs) v = omega (arith, zeros-append vs v)

last_or-append : (d : ℤ) (vs : List ℤ) (v : ℤ) → last_or d (vs ++ (v ∷ [])) ≡ v
unfolding last_or
last_or-append d [] v = refl
last_or-append d (w ∷ vs) v = last_or-append w vs v

All-le : (vs : List ℤ) {m n : ℕ} → m ≤ n → All (λ v. abs v ≤ m) vs → All (λ v. abs v ≤ n) vs
All-le [] h a = tt
All-le (v ∷ vs) h a = (omega (arith, h, a.0), All-le vs h a.1)

zeros-one : (v : ℤ) (t : Bool) → is_zero v ≡ t → zeros (v ∷ []) ≡ (if t then 1 else 0)
unfolding zeros
zeros-one v t e = rw e (elim (Bool-cases t) [ inl f ↦ rw f refl | inr f ↦ rw f refl ])

few_more :
    (clauses parsed : ℕ) (f : Bool)
    → f ≡ false
    → (not (ltb parsed clauses) && not f) ≡ false
    → suc parsed ≤ clauses
few_more clauses parsed f e g = ground (arith, e, g)

all_there :
    (clauses parsed : ℕ) (f : Bool)
    → f ≡ false
    → (ltb parsed clauses && not f) ≡ false
    → parsed ≤ clauses
    → parsed ≡ clauses
all_there clauses parsed f e g h = ground (arith, e, g, h)

is_zero_lem : (v : ℤ) → is_zero v ≡ true → v ≡ pos 0
is_zero_lem (pos zero) h = refl
is_zero_lem (pos (suc n)) h = ground arith
is_zero_lem (negsuc n) h = ground arith

module _ (s : Strict) (clauses : ℕ) where
  add_literal-IsLoaded :
      (b : Loaded) (v : ℤ) (vars : ℕ)
      → IsLoaded s clauses b
      → abs v ≤ vars
      → b.vars ≤ vars
      → Holds (IsLoaded s clauses) (add_literal s clauses b v vars)
  unfolding add_literal Holds
  add_literal-IsLoaded b v vars i h k = elim (Bool-cases (is_zero v)) [
    | inl e ↦ rw e (
        if-Holds _ (not (ltb b.parsed clauses) && not (is_forced s)) _ _ (λ _. tt)
          (λ g. record {
            bounded =
                All-append (λ w. abs w ≤ vars) b.added (v ∷ []) (All-le b.added k i.bounded)
                  (h, tt);
            counted = omega (arith, zeros-append b.added v, zeros-one v true e, i.counted);
            last = last_or-append (pos 0) b.added v;
            few = λ f. few_more clauses b.parsed (is_forced s) f g;
          }))
    | inr e ↦ rw e (record {
      bounded =
          All-append (λ w. abs w ≤ vars) b.added (v ∷ []) (All-le b.added k i.bounded) (h, tt);
      counted = omega (arith, zeros-append b.added v, zeros-one v false e, i.counted);
      last = last_or-append (pos 0) b.added v;
      few = i.few;
    })
  ]

  Progress : ℕ → Loaded × Bytes → Type 0
  Progress n (b, rest) = IsLoaded s clauses b × (length rest < n)

  read_literal-Holds :
      (b : Loaded) (input : Bytes)
      → IsLoaded s clauses b
      → Holds (Progress (length input)) (read_literal s clauses b input)
  unfolding read_literal Progress Literal Holds
  read_literal-Holds b input i =
      bind-Holds (Literal _ _) (Progress _) (parse_lit s b.vars input) _
        (parse_lit-Holds s b.vars input)
        (λ (v, vars, rest) h.
          bind-Holds _ (Progress _) (after_literal rest) _ (after_literal-Holds rest) (λ later k.
            bind-Holds (IsLoaded s clauses) (Progress _) (add_literal s clauses b v vars) _
              (add_literal-IsLoaded b v vars i h.0 h.1.0) (λ b' j. (j, omega (arith, h.1.1, k)))))

  StepHolds : ℕ → Step → Type 0
  StepHolds n (next b rest) = IsLoaded s clauses b × (length rest < n)
  StepHolds n stop = Unit {0}
  StepHolds n (fail e) = Unit {0}

  to_step-StepHolds :
      (n : ℕ) (r : Reading (Loaded × Bytes)) → Holds (Progress n) r → StepHolds n (to_step r)
  unfolding Holds Progress StepHolds
  to_step-StepHolds n (value (b, rest)) h = h
  to_step-StepHolds n (refused e) h = tt

  if-StepHolds :
      (n : ℕ) (t : Bool) (x y : Step)
      → StepHolds n x
      → StepHolds n y
      → StepHolds n (if t then x else y)
  if-StepHolds n true x y h k = h
  if-StepHolds n false x y h k = k

  body_step-StepHolds :
      (b : Loaded) (input : Bytes)
      → IsLoaded s clauses b
      → StepHolds (length input) (body_step s clauses b input)
  unfolding body_step StepHolds
  body_step-StepHolds b [] i = tt
  body_step-StepHolds b (c ∷ input) i =
      let literal = to_step-StepHolds _ _ (read_literal-Holds b (c ∷ input) i) in
      if-StepHolds _ (is_blank c) _ _ (i, omega arith)
        (elim (Option-cases (skip_comment input)) [
          | inl e ↦ rw e (if-StepHolds _ (c == b'c') _ _ tt literal)
          | inr (rest, e) ↦
              rw e
                (if-StepHolds _ (c == b'c') _ _ (i, omega (arith, skip_comment-lt input e)) literal)
        ])

  -- How the loop may end: with an error, or with closed clauses of known variables, as many as
  -- announced unless the reader is forced.
  unfoldable pub EndsWell : Outcome → Type 0
  EndsWell (loaded options b) =
      IsLoaded s clauses b × ((b.lit ≡ pos 0) × (is_forced s ≡ false → b.parsed ≡ clauses))
  EndsWell (failed e) = Unit {0}
  EndsWell out_of_fuel = ⊥

  after_body-EndsWell :
      (options : List Bytes) (b : Loaded)
      → IsLoaded s clauses b
      → EndsWell (after_body s clauses options b)
  unfolding after_body EndsWell
  after_body-EndsWell options b i = elim (Bool-cases (is_zero b.lit)) [
    | inr e ↦ rw e tt
    | inl e ↦ rw e (elim (Bool-cases (ltb b.parsed clauses && not (is_forced s))) [
      | inl f ↦ rw f tt
      | inr f ↦
          rw f
            (i, (is_zero_lem b.lit e, λ g. all_there clauses b.parsed (is_forced s) g f (i.few g)))
    ])
  ]

  after_step-EndsWell :
      (fuel : ℕ) (options : List Bytes) (b : Loaded) (n : ℕ) (r : Step)
      → n ≤ fuel
      → IsLoaded s clauses b
      → StepHolds n r
      → ((b' : Loaded) (rest : Bytes)
          → IsLoaded s clauses b'
          → length rest < fuel
          → EndsWell (body fuel s clauses options b' rest))
      → EndsWell (elim r [
        | next b' rest ↦ body fuel s clauses options b' rest
        | stop ↦ after_body s clauses options b
        | fail e ↦ failed e
      ])
  unfolding StepHolds EndsWell
  after_step-EndsWell fuel options b n (next b' rest) l i h k =
      k b' rest h.0 (omega (arith, h.1, l))
  after_step-EndsWell fuel options b n stop l i h k = after_body-EndsWell options b i
  after_step-EndsWell fuel options b n (fail e) l i h k = tt

  body_fuel-EndsWell :
      (fuel : ℕ) (options : List Bytes) (b : Loaded) (input : Bytes)
      → IsLoaded s clauses b
      → length input < fuel
      → EndsWell (body fuel s clauses options b input)
  unfolding body
  body_fuel-EndsWell zero options b input i h = absurd (omega (arith, h))
  body_fuel-EndsWell (suc fuel) options b input i h =
      after_step-EndsWell fuel options b (length input) (body_step s clauses b input)
        (omega (arith, h)) i (body_step-StepHolds b input i)
        (λ b' rest j l. body_fuel-EndsWell fuel options b' rest j l)

  -- The loop over the clauses ends, in every mode: with an error, or with literals that are all within
  -- the variables, of which the last one is 0, and whose zeros are counted; there are as many zeros as
  -- clauses announced unless the reader is forced.
  pub body-EndsWell :
      (options : List Bytes) (vars : ℕ) (input : Bytes)
      → EndsWell (
          body
            (suc (length input))
            s
            clauses
            options
            (record { vars = vars; lit = pos 0; parsed = 0; added = [] })
            input)
  unfolding zeros last_or
  body-EndsWell options vars input =
      body_fuel-EndsWell (suc (length input)) options _ input
        (record { bounded = tt; counted = refl; last = refl; few = λ _. omega arith }) (omega arith)
