-- ===== src/Inventory/Expire/Worker.antt =====
-- `runJob` of internal/workers/reservation_exp_worker.go: rounds of `BatchExpireReservations`.
use ticket_event_pf.Prelude.{
  ℕ, suc, ◌+◌, ◌≤◌, ◌<◌, ◌≡◌, ap, Bool, true, false, arith, ltb, if◌then◌else◌,
}
use ticket_event_pf.Inventory.Model.{db_failure}
use ticket_event_pf.Inventory.Tx.{Session, Result, ok, err, Ends, Ends-mono}
use ticket_event_pf.Inventory.Invariant.{Inv}
use ticket_event_pf.Inventory.Expire.{batch_expire, run_rounds, batch_size_or_default}
use ticket_event_pf.Inventory.Expire.Picked.{batch_expire-Sweeps}

module _ (locked : ℕ → ℕ → Bool) (now : ℕ → ℕ) (size : ℕ) where
  -- What is left of a run after one round.
  abbrev after_round : ℕ → ℕ → Result ℕ → Session → (ℕ × Bool) × Session
  after_round rounds total r t = elim r [
    | err e ↦ ((total, false), t)
    | ok n ↦
        let next = run_rounds rounds locked now size (total + n) t in
        if ltb n size then ((total + n, true), t) else next
  ]

  -- With a batch size above 1000, a run that succeeds in its first round ends there: it expires no
  -- more than 500 rows, and counts its backlog as drained, however many rounds are left.
  pub oversized_batch-stops :
      (rounds : ℕ) (s : Session)
      → 1000 < size
      → Inv s.db
      → Ends
          (λ n d. (run_rounds (suc rounds) locked now size 0 s).0 ≡ (n, true) × (n ≤ 500))
          (λ e. e ≡ db_failure)
          (batch_expire (locked rounds) (locked rounds) (now rounds) size s)
  unfolding run_rounds
  oversized_batch-stops rounds s h v =
      by_result (batch_expire (locked rounds) (locked rounds) (now rounds) size s) (
        Ends-mono _ (λ n d. n ≤ batch_size_or_default size) (λ e. e ≡ db_failure) _ (λ n d w. w.4)
          (batch_expire-Sweeps (locked rounds) (locked rounds) (now rounds) size s v))
    where
      by_result :
          (b : Result ℕ × Session)
          → Ends (λ n d. n ≤ batch_size_or_default size) (λ e. e ≡ db_failure) b
          → Ends
              (λ n d. ((after_round rounds 0 b.0 b.1).0 ≡ (n, true)) × (n ≤ 500))
              (λ e. e ≡ db_failure)
              b
      by_result (ok n, t) e =
          let size_used : batch_size_or_default size ≡ 500 = ground arith in
          let few : n ≤ 500 = omega (arith, e, size_used) in
          let short : ltb n size ≡ true = ground arith in
          (rw short (ap (λ k. (k, true)) (omega arith)), few)
      by_result (err x, t) e = e
