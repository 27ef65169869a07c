-- ===== src/Cadical/Queue/Untouched.antt =====
-- What bumping a variable leaves alone.
use ignore_gates.Prelude.{ℕ, ◌≡◌, ◌≢◌, refl, ap, ◌∙◌, inl, inr, ◌==◌, Bool-cases, arith, if_ne}
use ignore_gates.Cadical.Queue.{
  Internal, dequeue_prev, dequeue_next, dequeue, link_last, enqueue, update_queue_unassigned,
  bump_queue,
}

-- The gate outputs, and the stamps of all variables but one.
pub record Untouched (x : ℕ) (s t : Internal) : Type 0 where
  pub aux_kept : t.aux ≡ s.aux
  pub i2e_kept : t.i2e ≡ s.i2e
  pub stamps_kept : (k : ℕ) → k ≢ x → t.btab k ≡ s.btab k

dequeue_fields :
    (s : Internal) (x : ℕ)
    → ((dequeue s x).aux ≡ s.aux) × ((dequeue s x).i2e ≡ s.i2e) × ((dequeue s x).btab ≡ s.btab)
unfolding dequeue dequeue_prev dequeue_next
dequeue_fields s x = (ground arith, ground arith, ground arith)

enqueue_fields :
    (s : Internal) (x : ℕ)
    → ((enqueue s x).aux ≡ s.aux) × ((enqueue s x).i2e ≡ s.i2e) × ((enqueue s x).btab ≡ s.btab)
unfolding enqueue link_last
enqueue_fields s x = (ground arith, ground arith, ground arith)

pub bump_queue-Untouched : (s : Internal) (x : ℕ) → Untouched x s (bump_queue s x)
unfolding bump_queue update_queue_unassigned
bump_queue-Untouched s x =
    let t = enqueue (dequeue s x) x in
    let d = dequeue_fields s x in
    let e = enqueue_fields (dequeue s x) x in
    elim (Bool-cases (s.next x == 0)) [
      | inl n ↦ rw n (record { aux_kept = refl; i2e_kept = refl; stamps_kept = λ k h. refl })
      | inr n ↦ elim (Bool-cases (t.assigned x)) [
        | inl a ↦
            rw (n, a)
              (record {
                aux_kept = e.0 ∙ d.0;
                i2e_kept = e.1 ∙ d.1;
                stamps_kept = λ k h. if_ne k x _ _ h ∙ ap (λ f. f k) (e.2 ∙ d.2);
              })
        | inr a ↦
            rw (n, a)
              (record {
                aux_kept = e.0 ∙ d.0;
                i2e_kept = e.1 ∙ d.1;
                stamps_kept = λ k h. if_ne k x _ _ h ∙ ap (λ f. f k) (e.2 ∙ d.2);
              })
      ]
    ]
