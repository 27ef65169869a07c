-- ===== src/StreamBuffer/Refill.antt =====
-- Refilling the buffer loses no byte, and leaves a byte to read or the end of the file.
use ignore_gates.Prelude.{
  ℕ, zero, suc, ◌-◌, ◌≤◌, ◌<◌, ◌≡◌, refl, sym, ap, ◌∙◌, inl, inr, Bool, true, false, not, Option,
  none, some, [], ◌∷◌, ◌++◌, arith, ltb, length, all, append_assoc, length-append, Bool-cases,
  if◌then◌else◌,
}
use ignore_gates.Features.GateReport.{Bytes}
use ignore_gates.StreamBuffer.{
  StreamBuffer, Read, done, parser_exception, overrun, out_of_fuel, is_space, take, drop, align,
  aligned, check_refill_buffer, content, open_stream,
}

-- Past the end of the file nothing is left, and before it there is a byte to read.
pub record IsReady (s : StreamBuffer) : Type 0 where
  pub ended : s.end_of_file ≡ true → (s.kept ≡ []) × (s.file ≡ [])
  pub ready : s.ahead ≡ [] → s.end_of_file ≡ true

-- A stream that has `bytes` to read, or a full buffer without white space.
unfoldable pub Refilled : ℕ → Bytes → Read StreamBuffer → Type 0
Refilled size bytes (done t) = IsReady t × (content t ≡ bytes)
Refilled size bytes parser_exception = ⊥
Refilled size bytes (overrun full) =
    (size ≤ length full) × (all (λ c. not (is_space c)) full ≡ true)
Refilled size bytes out_of_fuel = ⊥

take-drop : (n : ℕ) (cs : Bytes) → take n cs ++ drop n cs ≡ cs
unfolding take drop
take-drop zero cs = refl
take-drop (suc n) [] = refl
take-drop (suc n) (c ∷ cs) = ap (λ ds. c ∷ ds) (take-drop n cs)

drop-short : (n : ℕ) (cs : Bytes) → length (take n cs) < n → drop n cs ≡ []
unfolding take drop
drop-short zero cs h = absurd (omega (arith, h))
drop-short (suc n) [] h = refl
drop-short (suc n) (c ∷ cs) h = drop-short n cs (omega (arith, h))

-- Where a search for white space leads.
Aligned : Bytes → Option (Bytes × Bytes) → Type 0
Aligned bytes none = all (λ c. not (is_space c)) bytes ≡ true
Aligned bytes (some (word, rest)) = (word ++ rest ≡ bytes) × (word ≡ [] → ⊥)

cons_not_nil : (c : ℕ) (cs : Bytes) → c ∷ cs ≡ [] → ⊥
cons_not_nil c cs h = absurd (omega (arith, ap length h))

no_space :
    (c : ℕ) (cs : Bytes)
    → is_space c ≡ false
    → all (λ x. not (is_space x)) cs ≡ true
    → all (λ x. not (is_space x)) (c ∷ cs) ≡ true
no_space c cs e h = rw (e, h) refl

align-Aligned : (cs : Bytes) → Aligned cs (align cs)
unfolding align Aligned
align-Aligned [] = refl
align-Aligned (c ∷ cs) = go (align cs) (align-Aligned cs)
  where
    go :
        (r : Option (Bytes × Bytes))
        → Aligned cs r
        → Aligned (c ∷ cs) (elim r [
          | some (word, rest) ↦ some (c ∷ word, rest)
          | none ↦ if is_space c then some (c ∷ [], cs) else none
        ])
    go (some (word, rest)) h = (ap (λ ds. c ∷ ds) h.0, cons_not_nil c word)
    go none h = elim (Bool-cases (is_space c)) [
      | inl e ↦ rw e (refl, cons_not_nil c [])
      | inr e ↦ rw e (no_space c cs e h)
    ]

aligned-Refilled :
    (size : ℕ) (file bytes whole : Bytes) (r : Option (Bytes × Bytes))
    → Aligned bytes r
    → size ≤ length bytes
    → bytes ++ file ≡ whole
    → Refilled size whole (aligned file bytes r)
unfolding Aligned Refilled aligned
aligned-Refilled size file bytes whole none h l e = (l, h)
aligned-Refilled size file bytes whole (some (word, rest)) h l e = (
  record { ended = λ f. ground (arith, f); ready = λ f. absurd (h.1 f) },
  sym (append_assoc word rest file) ∙ (ap (λ ds. ds ++ file) h.0 ∙ e),
)

-- The bytes read from the archive stand behind those kept.
more_bytes : (n : ℕ) (kept file : Bytes) → (kept ++ take n file) ++ drop n file ≡ kept ++ file
more_bytes n kept file =
    append_assoc kept (take n file) (drop n file) ∙ ap (λ ds. kept ++ ds) (take-drop n file)

last-Refilled :
    (size : ℕ) (kept file : Bytes)
    → length (kept ++ take (size - length kept) file) < size
    → Refilled size (kept ++ file) (
        done (record {
          file = drop (size - length kept) file;
          ahead = kept ++ take (size - length kept) file;
          kept = [];
          end_of_file = true;
        }))
unfolding Refilled
last-Refilled size kept file h =
    let n = size - length kept in
    let all_read : drop n file ≡ [] =
      drop-short n file (omega (arith, h, length-append kept (take n file))) in
    (record { ended = λ _. (refl, all_read); ready = λ _. refl }, more_bytes n kept file)

refill_fields :
    (size : ℕ) (file ahead kept : Bytes) (b : Bool)
    → (b ≡ true → (kept ≡ []) × (file ≡ []))
    → Refilled size (ahead ++ (kept ++ file)) (
        check_refill_buffer size
          (record { file = file; ahead = ahead; kept = kept; end_of_file = b }))
unfolding check_refill_buffer Refilled
refill_fields size file (c ∷ cs) kept b e =
    (record { ended = e; ready = λ f. absurd (cons_not_nil c cs f) }, refl)
refill_fields size file [] kept true e = (record { ended = e; ready = λ _. refl }, refl)
refill_fields size file [] kept false e =
    let bytes = kept ++ take (size - length kept) file in
    elim (Bool-cases (ltb (length bytes) size)) [
      | inl g ↦ rw g (last-Refilled size kept file (ground (arith, g)))
      | inr g ↦ rw g (
          aligned-Refilled size (drop (size - length kept) file) bytes (kept ++ file) (align bytes)
            (align-Aligned bytes) (ground (arith, g)) (more_bytes (size - length kept) kept file))
    ]

-- Refilling the buffer of a stream with nothing behind the end of its file loses no byte, and leaves a
-- byte to read or the end of the file, or finds a full buffer without white space.
pub check_refill_buffer-Refilled :
    (size : ℕ) (s : StreamBuffer)
    → (s.end_of_file ≡ true → (s.kept ≡ []) × (s.file ≡ []))
    → Refilled size (content s) (check_refill_buffer size s)
check_refill_buffer-Refilled size s e = refill_fields size s.file s.ahead s.kept s.end_of_file e

-- Opening a stream gives all bytes of the file to read.
pub open_stream-Refilled : (size : ℕ) (file : Bytes) → Refilled size file (open_stream size file)
unfolding open_stream
open_stream-Refilled size file =
    check_refill_buffer-Refilled size
      (record { file = file; ahead = []; kept = []; end_of_file = false }) (λ e. ground (arith, e))
