-- ===== src/Cadical/Reluctant/Ticks.antt =====
-- When a countdown triggers.
use ignore_gates.Prelude.{
  ℕ, zero, suc, ◌^◌, ◌<◌, ◌≡◌, ◌≢◌, refl, ap, ◌∙◌, Bool, true, false, arith, ◌==◌, if◌then◌else◌,
}
use ignore_gates.Cadical.Reluctant.{Reluctant, ticks_left, fire, tick}

pub ticks : ℕ → Reluctant → Reluctant
ticks zero r = r
ticks (suc n) r = ticks n (tick r)

not_equal : (j k : ℕ) → j ≢ k → (j == k) ≡ false
not_equal j k h = ground arith

equal : (j k : ℕ) → j ≡ k → (j == k) ≡ true
equal j k h = ground arith

ticking :
    {A : Type 0} (a b c d : Bool) (x y z w : A)
    → a ≡ false
    → b ≡ false
    → c ≡ d
    → (if a then x else if b then y else if c then z else w) ≡ (if d then z else w)
ticking a b c d x y z w e f g = rw (e, f, g) refl

-- A tick that is not the last of its countdown.
tick-waits :
    (r : Reluctant) (n : ℕ)
    → r.period ≢ 0
    → r.trigger ≡ false
    → r.countdown ≡ suc (suc n)
    → suc n < 2 ^ 64
    → tick r ≡ record r { countdown = suc n }
unfolding tick
tick-waits r n p t c b =
    let left : ticks_left r ≡ suc n = omega (arith, c, b) in
    ticking (r.period == 0) r.trigger (ticks_left r == 0) false r r (fire r)
      (record r { countdown = ticks_left r }) (not_equal r.period 0 p) t
      (not_equal (ticks_left r) 0 (λ z. omega (arith, left, z)))
    ∙ ap (λ k. record r { countdown = k }) left

tick-triggers :
    (r : Reluctant) → r.period ≢ 0 → r.trigger ≡ false → r.countdown ≡ 1 → (tick r).trigger ≡ true
unfolding tick fire
tick-triggers r p t c =
    ap (λ (s : Reluctant). s.trigger)
      (ticking (r.period == 0) r.trigger (ticks_left r == 0) true r r (fire r)
        (record r { countdown = ticks_left r }) (not_equal r.period 0 p) t
        (equal (ticks_left r) 0 (omega (arith, c))))

-- Enabled and not triggered, with a countdown of n + 1 below 2^64: n ticks only count down to 1, and
-- the next one triggers.
pub ticks-trigger :
    (n : ℕ) (r : Reluctant)
    → r.period ≢ 0
    → r.trigger ≡ false
    → r.countdown ≡ suc n
    → suc n < 2 ^ 64
    → (ticks n r ≡ record r { countdown = 1 }) × ((tick (ticks n r)).trigger ≡ true)
unfolding ticks
ticks-trigger zero r p t c b = (ap (λ k. record r { countdown = k }) c, tick-triggers r p t c)
ticks-trigger (suc n) r p t c b =
    let first = tick-waits r n p t c (omega (arith, b)) in
    let (waits, triggers) =
      ticks-trigger n (record r { countdown = suc n }) p t refl (omega (arith, b)) in
    (ap (ticks n) first ∙ waits, ap (λ s. (tick (ticks n s)).trigger) first ∙ triggers)
