-- ===== src/Inventory/Expire.antt =====
-- `BatchExpireReservations` of internal/services/reservation.go, and the worker that calls it
-- (internal/workers/reservation_exp_worker.go).
pub mod Swept
pub mod Batch
pub mod Picked
pub mod Worker
pub mod Drained
use ticket_event_pf.Prelude.{
  ℕ, zero, suc, ◌+◌, ◌-◌, Bool, true, false, not, ◌&&◌, ◌||◌, Option, none, some, List, [], ◌∷◌,
  ◌++◌, ltb, leb, ◌==◌, if◌then◌else◌, mem, length, take, rows_where, sort_by, keys_of, Dict, get,
  update, sorted_keys,
}
use ticket_event_pf.Inventory.Model.{TicketClass, Reservation, ReservationStatus, Db}
use ticket_event_pf.Inventory.Tx.{
  Tx, Session, Result, ok, err, pure, ◌>>=◌, ◌>>◌, query, transaction,
}
use ticket_event_pf.Inventory.Tables.{same_status, update_class}
use ticket_event_pf.Inventory.Settle.{sub_reserved, mark}

-- Rows that another transaction has locked are skipped (`SKIP LOCKED`).
abbrev pub due_rows : (ℕ → Bool) → ℕ → List ℕ → Reservation → Bool
due_rows locked now exclude r =
    same_status r.status ReservationStatus.active
    && leb r.expires_at now
    && not (mem r.ticket_class_id exclude)
    && not (locked r.id)

unfoldable pub select_due : (ℕ → Bool) → ℕ → ℕ → List ℕ → Db → List Reservation
select_due locked now batch exclude d =
    take batch
      (sort_by (λ r. r.expires_at) (rows_where (due_rows locked now exclude) d.reservations))

unfoldable pub quantities : List Reservation → Dict ℕ → Dict ℕ
quantities [] m = m
quantities (r ∷ rs) m = quantities rs (update 0 r.ticket_class_id (λ n. n + r.qty) m)

-- The loop over the classes; a class that cannot absorb the decrement is collected as drifted.
unfoldable pub decrement_classes : Dict ℕ → List ℕ → List ℕ → Tx (List ℕ)
decrement_classes m [] drifted = pure drifted
decrement_classes m (id ∷ ids) drifted =
    let q = get 0 m id in
    let rest = λ (ds : List ℕ). decrement_classes m ids ds in
    update_class id (λ tc. leb q tc.reserved) (sub_reserved q) >>= λ n.
    rest (if n == 0 then drifted ++ id ∷ [] else drifted)

-- `UPDATE … SET status = 'EXPIRED'`, skipped when no row is left.
unfoldable pub mark_expired : List ℕ → List ℕ → Tx (List ℕ × List ℕ)
mark_expired [] drifted = pure ([], drifted)
mark_expired (id ∷ ids) drifted =
    mark (id ∷ ids) ReservationStatus.expired >> pure (id ∷ ids, drifted)

abbrev pub not_drifted : List ℕ → Reservation → Bool
not_drifted drifted r = not (mem r.ticket_class_id drifted)

unfoldable pub expire_rows : List Reservation → Tx (List ℕ × List ℕ)
unfolding mark_expired decrement_classes quantities
expire_rows [] = pure ([], [])
expire_rows (r ∷ rs) =
    let m = quantities (r ∷ rs) [] in
    decrement_classes m (sorted_keys m) [] >>= λ drifted.
    mark_expired (keys_of (λ x. x.id) (rows_where (not_drifted drifted) (r ∷ rs))) drifted

-- The ids that were expired and the classes that drifted.
unfoldable pub select_and_expire_batch : (ℕ → Bool) → ℕ → ℕ → List ℕ → Tx (List ℕ × List ℕ)
unfolding expire_rows select_due
select_and_expire_batch locked now batch exclude =
    query (select_due locked now batch exclude) >>= expire_rows

-- The retry past a page that is all drift.
unfoldable pub retry : (ℕ → Bool) → ℕ → ℕ → List ℕ × List ℕ → Tx ℕ
unfolding select_and_expire_batch
retry locked now batch ([], d ∷ ds) =
    select_and_expire_batch locked now batch (sort_by (λ k. k) (d ∷ ds)) >>= λ r. pure (length r.0)
retry locked now batch (ids, drifted) = pure (length ids)

abbrev pub batch_size_or_default : ℕ → ℕ
batch_size_or_default n = if (n == 0) || ltb 1000 n then 500 else n

unfoldable pub batch_expire : (ℕ → Bool) → (ℕ → Bool) → ℕ → ℕ → Tx ℕ
unfolding retry
batch_expire locked retry_locked now size =
    let batch = batch_size_or_default size in
    transaction (select_and_expire_batch locked now batch [] >>= retry retry_locked now batch)

-- `runJob`: batches until one comes back short, at most `rounds` of them. The result is the total
-- and whether the backlog was drained; an error ends the run. Round `i` reads the clock `now i`
-- and finds the rows `locked i` locked.
unfoldable pub run_rounds : ℕ → (ℕ → ℕ → Bool) → (ℕ → ℕ) → ℕ → ℕ → Session → (ℕ × Bool) × Session
unfolding batch_expire
run_rounds zero locked now size total s = ((total, false), s)
run_rounds (suc rounds) locked now size total s =
    let (r, t) = batch_expire (locked rounds) (locked rounds) (now rounds) size s in
    elim r [
      | err e ↦ ((total, false), t)
      | ok n ↦
          let next = run_rounds rounds locked now size (total + n) t in
          if ltb n size then ((total + n, true), t) else next
    ]

abbrev pub drain_max_iterations : ℕ
drain_max_iterations = 100
