-- ===== src/Inventory/Expire/Drained.antt =====
-- `runJob` of internal/workers/reservation_exp_worker.go: what a run of rounds counts, and when it
-- calls the backlog drained.
use ticket_event_pf.Prelude.{
  ℕ, zero, suc, ◌+◌, ◌≤◌, ◌<◌, ◌≡◌, refl, Bool, true, false, ◌⊎◌, inl, inr, List, [], ◌∷◌, arith,
  ltb, if◌then◌else◌, Bool-cases, length, sum_of, sum_of-zero, sum_of-if_mem, All, All-mono, Unique,
  mem, keys_of,
}
use ticket_event_pf.Inventory.Model.{Reservation, ReservationStatus, Db, db_failure}
use ticket_event_pf.Inventory.Tx.{
  Session, Result, ok, err, Ends, IsErr, db_after, transaction_atomic, ◌>>=◌, count_where,
  sum_of-update_where,
}
use ticket_event_pf.Inventory.Tables.{same_status}
use ticket_event_pf.Inventory.Settle.{set_status}
use ticket_event_pf.Inventory.Invariant.{Inv, row_id}
use ticket_event_pf.Inventory.Invariant.Marked.{Selects, marked}
use ticket_event_pf.Inventory.Expire.{
  batch_expire, run_rounds, batch_size_or_default, select_and_expire_batch, retry,
}
use ticket_event_pf.Inventory.Expire.Batch.{batch_expire-Inv}
use ticket_event_pf.Inventory.Expire.Picked.{is_due, Sweeps, batch_expire-Sweeps}

abbrev weight : (Reservation → Bool) → Reservation → ℕ
weight p r = if p r then 1 else 0

count-sum :
    (p : Reservation → Bool) (rs : List Reservation) → count_where p rs ≡ sum_of (weight p) rs
count-sum p [] = refl
count-sum p (r ∷ rs) = ground (arith, count-sum p rs)

sum-length :
    (p : Reservation → Bool) (rs : List Reservation)
    → All (λ r. p r ≡ true) rs
    → sum_of (weight p) rs ≡ length rs
sum-length p [] h = refl
sum-length p (r ∷ rs) h = ground (arith, h.0, sum-length p rs h.1)

-- Marking a selection of the rows: those of it that pass a test are replaced by those that do after it.
count-marked :
    (p : Reservation → Bool) (st : ReservationStatus) (rs sel : List Reservation)
    → Unique row_id rs
    → Selects rs sel
    → sum_of (weight p) (marked (keys_of row_id sel) st rs) + sum_of (weight p) sel
      ≡ sum_of (weight p) rs + sum_of (λ r. weight p (set_status st r)) sel
count-marked p st rs sel u (us, h) = omega (
  arith,
  sum_of-update_where (weight p) (λ r. mem r.id (keys_of row_id sel)) (set_status st) rs,
  sum_of-if_mem row_id (weight p) sel rs us u h,
  sum_of-if_mem row_id (λ r. weight p (set_status st r)) sel rs us u h,
)

abbrev pub is_expired : Reservation → Bool
is_expired r = same_status r.status ReservationStatus.expired

sum-none :
    (p : Reservation → Bool) (rs : List Reservation)
    → All (λ r. p r ≡ false) rs
    → sum_of (weight p) rs ≡ 0
sum-none p [] h = refl
sum-none p (r ∷ rs) h = ground (arith, h.0, sum-none p rs h.1)

module _ (locked : ℕ → Bool) (now batch : ℕ) (before : List Reservation) (n : ℕ) (d : Db)
    (u : Unique row_id before) (w : Sweeps locked now batch before n d) where
  abbrev due : Reservation → Bool
  due = is_due locked now

  -- A sweep makes so many rows EXPIRED.
  expired-more : count_where is_expired d.reservations ≡ count_where is_expired before + n
  expired-more = rw (w.7) (
      omega (
        arith,
        w.3,
        count-sum is_expired before,
        count-sum is_expired (marked (keys_of row_id w.0) ReservationStatus.expired before),
        count-marked is_expired ReservationStatus.expired before w.0 u w.1,
        sum-none is_expired w.0 (
            All-mono (λ r. due r ≡ true) (λ r. is_expired r ≡ false) (λ r h. ground arith) w.0 w.2),
        sum-length (λ r. is_expired (set_status ReservationStatus.expired r)) w.0
            (All-mono (λ r. due r ≡ true)
              (λ r. is_expired (set_status ReservationStatus.expired r) ≡ true) (λ r h. refl) w.0
              w.2),
      ))

  -- And so many fewer due.
  due-fewer : count_where due d.reservations + n ≡ count_where due before
  due-fewer = rw (w.7) (
      omega (
        arith,
        w.3,
        count-sum due before,
        count-sum due (marked (keys_of row_id w.0) ReservationStatus.expired before),
        count-marked due ReservationStatus.expired before w.0 u w.1,
        sum-length due w.0 w.2,
        sum_of-zero (λ r. weight due (set_status ReservationStatus.expired r)) w.0
            (λ r. ground arith),
      ))

-- A sweep that fails changes nothing.
batch_expire_atomic :
    (locked retry_locked : ℕ → Bool) (now size : ℕ) (s : Session)
    → IsErr (batch_expire locked retry_locked now size s)
    → db_after (batch_expire locked retry_locked now size s) ≡ s.db
unfolding batch_expire
batch_expire_atomic locked retry_locked now size s h =
    transaction_atomic
      (select_and_expire_batch locked now (batch_size_or_default size) []
        >>= retry retry_locked now (batch_size_or_default size))
      s h

module _ (locked : ℕ → ℕ → Bool) (now : ℕ → ℕ) (size : ℕ) where
  -- What `n` rounds that started with the count `total` and the rows `before` end with.
  abbrev pub Counts : ℕ → ℕ → List Reservation → (ℕ × Bool) × Session → Type 0
  Counts rounds total before r =
      (count_where is_expired r.1.db.reservations + total ≡ count_where is_expired before + r.0.0)
      × ((r.0.1 ≡ false)
          ⊎ ((k : ℕ) × (k < rounds)
              × (count_where (is_due (locked k) (now k)) r.1.db.reservations ≡ 0)))

  abbrev after_round : ℕ → ℕ → Result ℕ → Session → (ℕ × Bool) × Session
  after_round rounds total r t = elim r [
    | err e ↦ ((total, false), t)
    | ok n ↦
        let next = run_rounds rounds locked now size (total + n) t in
        if ltb n size then ((total + n, true), t) else next
  ]

  -- A batch size that the service takes as it is, a valid database, and any failures: the count that a
  -- run returns has grown by the rows that it set to EXPIRED, and where it calls the backlog drained, no
  -- hold is left that had run out, unlocked, at the time of one of its rounds.
  pub run_rounds-Counts :
      (rounds total : ℕ) (s : Session)
      → 1 ≤ size
      → size ≤ 1000
      → Inv s.db
      → Counts rounds total s.db.reservations (run_rounds rounds locked now size total s)
  unfolding run_rounds
  run_rounds-Counts zero total s l h v = (refl, inl refl)
  run_rounds-Counts (suc rounds) total s l h v =
      by_result (batch_expire (locked rounds) (locked rounds) (now rounds) size s)
        (batch_expire-Sweeps (locked rounds) (locked rounds) (now rounds) size s v)
        (batch_expire_atomic (locked rounds) (locked rounds) (now rounds) size s)
        (batch_expire-Inv (locked rounds) (locked rounds) (now rounds) size s v)
        (λ n t w. run_rounds-Counts rounds (total + n) t l h w)
    where
      used : batch_size_or_default size ≡ size
      used = ground arith

      by_result :
          (r : Result ℕ × Session)
          → Ends
              (Sweeps (locked rounds) (now rounds) (batch_size_or_default size) s.db.reservations)
              (λ e. e ≡ db_failure)
              r
          → (IsErr r → db_after r ≡ s.db)
          → Inv (db_after r)
          → ((n : ℕ) (t : Session)
              → Inv t.db
              → Counts rounds
                  (total + n)
                  t.db.reservations
                  (run_rounds rounds locked now size (total + n) t))
          → Counts (suc rounds) total s.db.reservations (after_round rounds total r.0 r.1)
      by_result (err e, t) w same i go = (rw (same tt) refl, inl refl)
      by_result (ok n, t) w same i go =
          let more =
            expired-more (locked rounds) (now rounds) (batch_size_or_default size) s.db.reservations
              n t.db v.unique_rows w in
          let fewer =
            due-fewer (locked rounds) (now rounds) (batch_size_or_default size) s.db.reservations n
              t.db v.unique_rows w in
          elim (Bool-cases (ltb n size)) [
            | inl e ↦
                rw e
                  (omega (arith, more), inr (rounds, omega arith, ground (arith, used, fewer, w.6)))
            | inr e ↦
                let rest = go n t i in
                rw e (
                  omega (arith, more, rest.0),
                  elim rest.1 [ inl f ↦ inl f | inr (k, b, z) ↦ inr (k, omega (arith, b), z) ],
                )
          ]
