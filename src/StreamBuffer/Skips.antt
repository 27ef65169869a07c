-- ===== src/StreamBuffer/Skips.antt =====
-- Skipping over the buffer skips over the bytes of the file, wherever the buffer is refilled.
use ignore_gates.Prelude.{
  ℕ, zero, suc, ◌<◌, ◌≡◌, refl, ap, subst, ◌∙◌, inl, inr, Bool, true, false, not, ◌||◌, [], ◌∷◌,
  ◌++◌, arith, length, Bool-cases, if◌then◌else◌,
}
use ignore_gates.Features.GateReport.{Bytes}
use ignore_gates.StreamBuffer.{
  StreamBuffer, Read, done, parser_exception, overrun, out_of_fuel, is_space, is_blank, drop,
  inc_pos, content, skip_while, skip_all, skip_whitespace, skip_line, ◌>>=◌,
}
use ignore_gates.StreamBuffer.Refill.{IsReady, Refilled, check_refill_buffer-Refilled}

pub drop_while : (ℕ → Bool) → Bytes → Bytes
drop_while test [] = []
drop_while test (c ∷ cs) = let rest = drop_while test cs in if test c then rest else c ∷ cs

bind-Refilled :
    (size : ℕ) (mid bytes : Bytes) (m : Read StreamBuffer) (k : StreamBuffer → Read StreamBuffer)
    → Refilled size mid m
    → ((t : StreamBuffer) → IsReady t → content t ≡ mid → Refilled size bytes (k t))
    → Refilled size bytes (m >>= k)
unfolding Refilled
bind-Refilled size mid bytes (done t) k h f = f t h.0 h.1
bind-Refilled size mid bytes parser_exception k h f = h
bind-Refilled size mid bytes (overrun full) k h f = h
bind-Refilled size mid bytes out_of_fuel k h f = h

inc_pos-Refilled :
    (size c : ℕ) (cs kept file : Bytes) (b : Bool)
    → (b ≡ true → (kept ≡ []) × (file ≡ []))
    → Refilled size
        (cs ++ (kept ++ file))
        (inc_pos size 1 (record { file = file; ahead = c ∷ cs; kept = kept; end_of_file = b }))
unfolding inc_pos drop
inc_pos-Refilled size c cs kept file b e =
    check_refill_buffer-Refilled size
      (record { file = file; ahead = cs; kept = kept; end_of_file = b }) e

skip_fields :
    (fuel size : ℕ) (test : ℕ → Bool) (ahead kept file : Bytes) (b : Bool)
    → IsReady (record { file = file; ahead = ahead; kept = kept; end_of_file = b })
    → length (ahead ++ (kept ++ file)) < fuel
    → Refilled size (drop_while test (ahead ++ (kept ++ file))) (
        skip_while size test fuel
          (record { file = file; ahead = ahead; kept = kept; end_of_file = b }))
unfolding skip_while Refilled drop_while
skip_fields zero size test ahead kept file b r h = absurd (omega (arith, h))
skip_fields (suc fuel) size test [] kept file true r h =
    let none : kept ++ file ≡ [] = ap (λ k. k ++ file) (r.ended refl).0 ∙ (r.ended refl).1 in
    (r, rw none refl)
skip_fields (suc fuel) size test [] kept file false r h = ground (arith, r.ready refl)
skip_fields (suc fuel) size test (c ∷ cs) kept file b r h = elim (Bool-cases (test c)) [
  | inr e ↦ rw e (r, refl)
  | inl e ↦ rw e (
      bind-Refilled size (cs ++ (kept ++ file)) _ _ (skip_while size test fuel)
        (inc_pos-Refilled size c cs kept file b r.ended)
        (λ t ready same.
          subst (λ bytes. Refilled size (drop_while test bytes) (skip_while size test fuel t)) same
            (skip_fields fuel size test t.ahead t.kept t.file t.end_of_file ready
              (omega (arith, h, ap length same)))))
]

skip_all-Refilled :
    (size : ℕ) (test : ℕ → Bool) (s : StreamBuffer)
    → IsReady s
    → Refilled size (drop_while test (content s)) (skip_all size test s)
skip_all-Refilled size test s r =
    skip_fields (suc (length (content s))) size test s.ahead s.kept s.file s.end_of_file r
      (omega arith)

-- On a stream that is ready, `skipLine` ends and leaves what is left of the bytes to read after the
-- line and the white space that follows it, and the stream ready, however often the buffer is
-- refilled; or it meets a full buffer without white space.
pub skip_line-Refilled :
    (size : ℕ) (s : StreamBuffer)
    → IsReady s
    → Refilled size
        (drop_while is_space (drop_while (λ c. not (is_space c) || is_blank c) (content s)))
        (skip_line size s)
unfolding skip_line skip_whitespace
skip_line-Refilled size s r =
    bind-Refilled size _ _ _ (skip_whitespace size)
      (skip_all-Refilled size (λ c. not (is_space c) || is_blank c) s r)
      (λ t ready same.
        subst (λ bytes. Refilled size (drop_while is_space bytes) (skip_whitespace size t)) same
          (skip_all-Refilled size is_space t ready))
