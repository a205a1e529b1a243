-- ===== src/Inventory/System.antt =====
-- The transactions of inventory-svc as the steps of one system: any service call, on any input, at
-- any clock, under any schedule of failures, in any order. A transaction is one step: the row locks
-- and the guarded updates of internal/services serialize two that meet on a row.
use ticket_event_pf.Prelude.{ℕ, ◌+◌, ◌≤◌, String, Bool, List, [], arith, All, All-mono}
use ticket_event_pf.Inventory.Model.{
  TicketClass, ReservationStatus, Db, ReserveInput, CreateTicketClassInput, UpdateTicketClassInput,
}
use ticket_event_pf.Inventory.Tx.{Session, db_after}
use ticket_event_pf.Inventory.Invariant.{Inv, Counts, held}
use ticket_event_pf.Inventory.Reserve.{reserve}
use ticket_event_pf.Inventory.Reserve.Held.{reserve-Inv}
use ticket_event_pf.Inventory.Settle.{confirm, release}
use ticket_event_pf.Inventory.Settle.Confirmed.{confirm-Inv}
use ticket_event_pf.Inventory.Settle.Released.{release-Inv}
use ticket_event_pf.Inventory.Expire.{batch_expire}
use ticket_event_pf.Inventory.Expire.Batch.{batch_expire-Inv}
use ticket_event_pf.Inventory.TicketClasses.{create, update, delete}
use ticket_event_pf.Inventory.TicketClasses.Updated.{update-Inv}
use ticket_event_pf.Inventory.TicketClasses.Created.{create-Inv}
use ticket_event_pf.Inventory.TicketClasses.Deleted.{delete-Keeps}

-- One service call.
pub data Call : Type 0 where
  reserve_call : ℕ → ReserveInput → Call
  confirm_call release_call : String → Call
  sweep_call : (ℕ → Bool) → (ℕ → Bool) → ℕ → ℕ → Call
  create_call : CreateTicketClassInput → Call
  update_call : ℕ → UpdateTicketClassInput → Call
  delete_call : ℕ → Call

unfoldable pub run_call : Call → Session → Db
run_call (reserve_call now i) s = db_after (reserve now i s)
run_call (confirm_call code) s = db_after (confirm code s)
run_call (release_call code) s = db_after (release code s)
run_call (sweep_call locked retry_locked now size) s =
    db_after (batch_expire locked retry_locked now size s)
run_call (create_call i) s = db_after (create i s)
run_call (update_call id i) s = db_after (update id i s)
run_call (delete_call id) s = db_after (delete id s)

abbrev pub empty_db : Db
empty_db = record {
  ticket_classes = [];
  reservations = [];
  next_class_id = 1;
  next_reservation_id = 1;
}

-- The databases that the calls lead to, from the empty one.
pub data Reachable : Db → Type 0 where
  start : Reachable empty_db
  call :
      (c : Call) (faults : List Bool) (d : Db)
      → Reachable d
      → Reachable (run_call c (record { db = d; faults = faults }))

-- One call keeps the invariant.
pub run_call-Inv : (c : Call) (s : Session) → Inv s.db → Inv (run_call c s)
unfolding run_call
run_call-Inv (reserve_call now i) s v = reserve-Inv now i s v
run_call-Inv (confirm_call code) s v = confirm-Inv code s v
run_call-Inv (release_call code) s v = release-Inv code s v
run_call-Inv (sweep_call locked retry_locked now size) s v =
    batch_expire-Inv locked retry_locked now size s v
run_call-Inv (create_call i) s v = create-Inv i s v
run_call-Inv (update_call id i) s v = update-Inv id i s v
run_call-Inv (delete_call id) s v = (delete-Keeps id s v).0

pub empty-Inv : Inv empty_db
empty-Inv = record {
  books = tt;
  unique_classes = tt;
  unique_rows = tt;
  class_ids = tt;
  row_ids = tt;
  owned = tt;
}

-- Every database that is reached satisfies the invariant.
pub Reachable-Inv : (d : Db) → Reachable d → Inv d
Reachable-Inv d start = empty-Inv
Reachable-Inv d (call c faults d₀ r) =
    run_call-Inv c (record { db = d₀; faults = faults }) (Reachable-Inv d₀ r)

-- A class is not oversold: its ACTIVE and CONFIRMED reservations ask for no more than its total.
abbrev pub IsNotOversold : Db → TicketClass → Type 0
IsNotOversold d tc =
    held ReservationStatus.active d.reservations tc.id
      + held ReservationStatus.confirmed d.reservations tc.id
    ≤ tc.total

-- After any sequence of calls, under any failures, no class is oversold: the quantities of the
-- ACTIVE and the CONFIRMED reservations of a class add up to no more than its total.
pub no_oversell : (d : Db) → Reachable d → All (IsNotOversold d) d.ticket_classes
no_oversell d r =
    All-mono
      (Counts (held ReservationStatus.active d.reservations)
        (held ReservationStatus.confirmed d.reservations))
      (IsNotOversold d) (λ tc h. omega (arith, h.0, h.1, h.2)) d.ticket_classes
      (Reachable-Inv d r).books
