-- ===== src/Cadical/Analyze/Cleans.antt =====
-- The loop of UIPAUX that takes the gate outputs out of the learned clause.
use ignore_gates.Prelude.{
  ℕ, zero, suc, ◌+◌, ◌≤◌, ◌<◌, ◌≡◌, ◌≢◌, refl, sym, ap, subst, ◌∙◌, inl, inr, Bool, true, false,
  Option, some, [], ◌∷◌, ◌++◌, ltb, arith, length, length-append, get_or, elem, All, Bool-cases,
}
use ignore_gates.Types.{Cl, neg, var}
use ignore_gates.Cadical.Heap.Indexed.{eq_cases}
use ignore_gates.Cadical.Analyze.{
  Implications, Analysis, aux_lit, analyze_reason, erase_at, remove_aux,
}
use ignore_gates.Cadical.Analyze.Marking.{apart}
use ignore_gates.Cadical.Analyze.Expands.{
  IsLow, Explains, Expanded, Expanded-kept, IsComplete, unseen, analyze_reason-Extends,
}

erase_at-elem :
    (c : Cl) (i z : ℕ) → elem z c ≡ true → z ≢ get_or c i 0 → elem z (erase_at c i) ≡ true
unfolding erase_at
erase_at-elem [] i z h n = h
erase_at-elem (x ∷ c) zero z h n = ground (arith, h, n)
erase_at-elem (x ∷ c) (suc i) z h n = ground (arith, h, erase_at-elem c i z, n)

erase_at-All {κ} : (P : ℕ → Type κ) (c : Cl) (i : ℕ) → All P c → All P (erase_at c i)
unfolding erase_at
erase_at-All P [] i a = a
erase_at-All P (x ∷ c) zero a = a.1
erase_at-All P (x ∷ c) (suc i) a = (a.0, erase_at-All P c i a.1)

get_or-erase_at : (c : Cl) (i j : ℕ) → j < i → get_or (erase_at c i) j 0 ≡ get_or c j 0
unfolding erase_at
get_or-erase_at [] i j h = refl
get_or-erase_at (x ∷ c) zero j h = absurd (omega arith)
get_or-erase_at (x ∷ c) (suc i) zero h = refl
get_or-erase_at (x ∷ c) (suc i) (suc j) h = get_or-erase_at c i j (omega arith)

length-erase_at : (c : Cl) (i : ℕ) → i < length c → suc (length (erase_at c i)) ≡ length c
unfolding erase_at
length-erase_at [] i h = absurd (omega arith)
length-erase_at (x ∷ c) zero h = refl
length-erase_at (x ∷ c) (suc i) h = ap suc (length-erase_at c i (omega arith))

get_or-append : (c d : Cl) (i : ℕ) → i < length c → get_or (c ++ d) i 0 ≡ get_or c i 0
get_or-append [] d i h = absurd (omega arith)
get_or-append (x ∷ c) d zero h = refl
get_or-append (x ∷ c) d (suc i) h = get_or-append c d i (omega arith)

All-get_or {κ} : (P : ℕ → Type κ) (c : Cl) (i : ℕ) → i < length c → All P c → P (get_or c i 0)
All-get_or P [] i h a = absurd (omega arith)
All-get_or P (x ∷ c) zero h a = a.0
All-get_or P (x ∷ c) (suc i) h a = All-get_or P c i (omega arith) a.1

module _ (e : Implications) (is_false : ℕ → Bool) (n u : ℕ)
    (consistent : (x : ℕ) → is_false x ≡ true → is_false (neg x) ≡ false)
    (plain : aux_lit e u ≡ false)
    (reasons : (z : ℕ)
      → IsLow e is_false n u consistent z
      → aux_lit e z ≡ true
      → (r : Cl) × ((e.reason_of (var z) ≡ some r) × Explains e is_false n u consistent z r)) where
  abbrev Complete : Analysis → Type 0
  Complete = IsComplete e is_false n u consistent

  -- What the loop ends with.
  pub record Cleaned (s : Analysis) (o : Option Analysis) : Type 0 where
    pub state : Analysis
    pub ends : o ≡ some state
    pub sound : IsComplete e is_false n u consistent state
    pub seen_kept : (v : ℕ) → s.seen v ≡ true → state.seen v ≡ true
    pub no_aux : (j : ℕ) → j < length state.clause → aux_lit e (get_or state.clause j 0) ≡ false

  module _ (s : Analysis) (i : ℕ) (k : Complete s) (l : i < length s.clause)
      (out : aux_lit e (get_or s.clause i 0) ≡ true) where
    lit : ℕ
    lit = get_or s.clause i 0

    lit-IsLow : (s.seen (var lit) ≡ true) × IsLow e is_false n u consistent lit
    unfolding lit
    lit-IsLow =
        let at = All-get_or _ s.clause i l k.members in
        (
          at.0,
          elim at.1 [
            | inl low ↦ low
            | inr d ↦ absurd (apart (sym out ∙ (ap (aux_lit e) d ∙ plain)))
          ],
        )

    -- The state after one gate output has been taken out.
    erased : Cl → Analysis
    erased r =
        let t = analyze_reason e (get_or s.clause i 0) r s in
        record t { clause = erase_at t.clause i }

    erase-Complete :
        (r : Cl)
        → e.reason_of (var lit) ≡ some r
        → Explains e is_false n u consistent lit r
        → Complete (erased r)
          × ((v : ℕ) → s.seen v ≡ true → (erased r).seen v ≡ true)
          × ((j : ℕ) → j < i → get_or (erased r).clause j 0 ≡ get_or s.clause j 0)
          × (i ≤ length (erased r).clause)
          × (unseen e is_false n u consistent (erased r) + length (erased r).clause
              < unseen e is_false n u consistent s + length s.clause)
    unfolding erased lit
    erase-Complete r at why =
        let x = get_or s.clause i 0 in
        let t = analyze_reason e x r s in
        let (ext, noted) =
          analyze_reason-Extends e is_false n u consistent x r s k lit-IsLow.0 why in
        let longer : length t.clause ≡ length s.clause + length ext.new =
          ap length ext.clause_is ∙ length-append s.clause ext.new in
        let there : get_or t.clause i 0 ≡ x =
          ap (λ c. get_or c i 0) ext.clause_is ∙ get_or-append s.clause ext.new i l in
        let shorter = length-erase_at t.clause i (omega (arith, l, longer)) in
        (
          record {
            listed = λ z g h. elim (ext.complete.listed z g h) [
              | inr c ↦ inr (Expanded-kept e is_false n u consistent t (erased r) z (λ v q. q) c)
              | inl c ↦ elim (eq_cases z x) [
                | inr m ↦ inl (erase_at-elem t.clause i z c (λ d. m (d ∙ there)))
                | inl d ↦ inr (
                    subst (Expanded e is_false n u consistent (erased r)) (sym d)
                      (record { clause = r; reason = at; explains = why; noted = noted }))
              ]
            ];
            uip_in =
                erase_at-elem t.clause i u ext.complete.uip_in
                  (λ d. apart (sym out ∙ (ap (aux_lit e) (sym (d ∙ there)) ∙ plain)));
            members = erase_at-All _ t.clause i ext.complete.members;
          },
          ext.seen_kept,
          λ j h.
              get_or-erase_at t.clause i j h
              ∙ (ap (λ c. get_or c j 0) ext.clause_is
                  ∙ get_or-append s.clause ext.new j (omega (arith, h, l))),
          omega (arith, shorter, longer, l),
          omega (arith, shorter, ext.fewer),
        )

  pub remove_aux-Cleaned :
      (fuel : ℕ) (s : Analysis) (i : ℕ)
      → Complete s
      → i ≤ length s.clause
      → ((j : ℕ) → j < i → aux_lit e (get_or s.clause j 0) ≡ false)
      → unseen e is_false n u consistent s + length s.clause < fuel + i
      → Cleaned s (remove_aux e fuel s i)
  unfolding remove_aux erased lit
  remove_aux-Cleaned zero s i k le before h = absurd (omega arith)
  remove_aux-Cleaned (suc fuel) s i k le before h = elim (Bool-cases (ltb i (length s.clause))) [
    | inr f ↦ rw f (record {
      state = s;
      ends = refl;
      sound = k;
      seen_kept = λ v q. q;
      no_aux = λ j l. before j (ground (arith, f, l));
    })
    | inl f ↦
        let l : i < length s.clause = ground (arith, f) in
        elim (Bool-cases (aux_lit e (get_or s.clause i 0))) [
          | inr g ↦
              rw (f, g)
                (remove_aux-Cleaned fuel s (suc i) k (omega (arith, l))
                  (λ j q. elim (eq_cases j i) [
                    | inl d ↦ ap (λ m. aux_lit e (get_or s.clause m 0)) d ∙ g
                    | inr m ↦ before j (omega (arith, q, m))
                  ])
                  (omega (arith, h)))
          | inl g ↦
              let low = (lit-IsLow s i k l g).1 in
              let (r, (at, why)) = reasons (get_or s.clause i 0) low g in
              let (sound, kept, same, le', less) = erase-Complete s i k l g r at why in
              let rest =
                remove_aux-Cleaned fuel (erased s i k l g r) i sound le'
                  (λ j q. ap (aux_lit e) (same j q) ∙ before j q) (omega (arith, less, h)) in
              rw (f, g, at)
                (record {
                  state = rest.state;
                  ends = rest.ends;
                  sound = rest.sound;
                  seen_kept = λ v q. rest.seen_kept v (kept v q);
                  no_aux = rest.no_aux;
                })
        ]
  ]
