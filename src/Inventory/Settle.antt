-- ===== src/Inventory/Settle.antt =====
-- `Confirm` and `Release` of internal/services/reservation.go.
pub mod ReleasedRows
pub mod Released
pub mod ConfirmedClasses
pub mod ConfirmedRows
pub mod Confirmed
use ticket_event_pf.Prelude.{
  ℕ, ◌+◌, ◌-◌, String, Bool, true, false, not, ◌&&◌, ◌||◌, Option, none, some, List, [], ◌∷◌, ◌++◌,
  ltb, leb, ◌==◌, if◌then◌else◌, str_eq, mem, rows_where, any, Dict, get, update, sorted_keys,
}
use ticket_event_pf.Inventory.Model.{
  TicketClass, Reservation, ReservationStatus, Db, Error, state_conflict, not_found,
  inventory_drift,
}
use ticket_event_pf.Inventory.Tx.{
  Tx, pure, raise, ◌>>=◌, ◌>>◌, statement, query, transaction, update_where,
}
use ticket_event_pf.Inventory.Tables.{same_status, update_class, set_reservations}

-- The rows of the order, which the transaction locks.
abbrev pub rows_of : String → Db → List Reservation
rows_of code d = rows_where (λ r. str_eq r.order_code code) d.reservations

abbrev pub set_status : ReservationStatus → Reservation → Reservation
set_status s r = record r { status = s }

-- `UPDATE reservation SET status = ? WHERE id IN ?`
abbrev pub mark : List ℕ → ReservationStatus → Tx (Unit {0})
mark ids s = statement λ d.
    some (tt, set_reservations (update_where (λ r. mem r.id ids) (set_status s) d.reservations) d)

abbrev pub all : (Reservation → Bool) → List Reservation → Bool
all p [] = true
all p (r ∷ rs) = p r && all p rs

-- `RowsAffected == 0` as an error.
abbrev pub affected_or : Error → ℕ → Tx (Unit {0})
affected_or e n = if n == 0 then raise e else pure tt

pub record ConfirmDelta : Type 0 where
  pub from_reserved : ℕ
  pub from_free : ℕ

abbrev pub no_delta : ConfirmDelta
no_delta = record { from_reserved = 0; from_free = 0 }

abbrev pub add_from_reserved : ℕ → ConfirmDelta → ConfirmDelta
add_from_reserved q d = record d { from_reserved = d.from_reserved + q }

abbrev pub add_from_free : ℕ → ConfirmDelta → ConfirmDelta
add_from_free q d = record d { from_free = d.from_free + q }

abbrev pub add_delta :
    Reservation → Dict ConfirmDelta → ReservationStatus → Option (Dict ConfirmDelta)
add_delta r ds ReservationStatus.active =
    some (update no_delta r.ticket_class_id (add_from_reserved r.qty) ds)
add_delta r ds ReservationStatus.expired =
    some (update no_delta r.ticket_class_id (add_from_free r.qty) ds)
add_delta r ds _ = none

-- The loop over the rows: the deltas by class and the ids to mark. `none` is the early return of
-- `ErrStateConflict`.
unfoldable pub confirm_deltas :
    List Reservation → Dict ConfirmDelta → List ℕ → Option (Dict ConfirmDelta × List ℕ)
confirm_deltas [] ds ids = some (ds, ids)
confirm_deltas (r ∷ rs) ds ids = elim (add_delta r ds r.status) [
  | none ↦ none
  | some ds' ↦ confirm_deltas rs ds' (ids ++ r.id ∷ [])
]

abbrev pub sell_reserved : ℕ → TicketClass → TicketClass
sell_reserved q tc = record tc { reserved = tc.reserved - q; sold = tc.sold + q }

abbrev pub sell_free : ℕ → TicketClass → TicketClass
sell_free q tc = record tc { sold = tc.sold + q }

-- The hold that the order still owns moves to `sold`.
unfoldable pub move_reserved : ℕ → ℕ → Tx (Unit {0})
move_reserved id q =
    if ltb 0 q
    then update_class id (λ tc. leb q tc.reserved) (sell_reserved q) >>= affected_or inventory_drift
    else pure tt

-- A hold that was swept is taken again from free stock.
unfoldable pub take_free : ℕ → ℕ → Tx (Unit {0})
take_free id q =
    if ltb 0 q
    then update_class id (λ tc. leb q (tc.total - tc.reserved - tc.sold)) (sell_free q)
      >>= affected_or state_conflict
    else pure tt

unfoldable pub confirm_classes : Dict ConfirmDelta → List ℕ → Tx (Unit {0})
unfolding move_reserved take_free
confirm_classes ds [] = pure tt
confirm_classes ds (id ∷ ids) =
    let d = get no_delta ds id in
    let rest = confirm_classes ds ids in
    (move_reserved id d.from_reserved >> take_free id d.from_free) >> rest

confirm_with : Option (Dict ConfirmDelta × List ℕ) → Tx (Unit {0})
unfolding confirm_classes
confirm_with none = raise state_conflict
confirm_with (some (ds, ids)) =
    confirm_classes ds (sorted_keys ds) >> mark ids ReservationStatus.confirmed

confirm_rows : List Reservation → Tx (Unit {0})
unfolding confirm_with confirm_deltas
confirm_rows [] = raise not_found
confirm_rows (r ∷ rs) =
    if all (λ x. same_status x.status ReservationStatus.confirmed) (r ∷ rs)
    then pure tt
    else confirm_with (confirm_deltas (r ∷ rs) [] [])

unfoldable pub confirm : String → Tx (Unit {0})
unfolding confirm_rows
confirm code = transaction (query (rows_of code) >>= confirm_rows)

abbrev pub is_released : Reservation → Bool
is_released r =
    same_status r.status ReservationStatus.cancelled
    || same_status r.status ReservationStatus.expired

-- The loop over the rows: quantities by class and the ids to mark; `none` is `ErrStateConflict`.
-- The arguments are the quantity and the id lists with and without the row.
abbrev release_step :
    ReservationStatus → Dict ℕ × List ℕ → Dict ℕ × List ℕ → Option (Dict ℕ × List ℕ)
release_step ReservationStatus.confirmed with_row without = none
release_step ReservationStatus.active with_row without = some with_row
release_step _ with_row without = some without

unfoldable pub release_quantities : List Reservation → Dict ℕ → List ℕ → Option (Dict ℕ × List ℕ)
release_quantities [] ups ids = some (ups, ids)
release_quantities (r ∷ rs) ups ids =
    elim (release_step r.status (update 0 r.ticket_class_id (λ n. n + r.qty) ups, ids ++ r.id ∷ [])
      (ups, ids)) [ none ↦ none | some (ups', ids') ↦ release_quantities rs ups' ids' ]

abbrev pub sub_reserved : ℕ → TicketClass → TicketClass
sub_reserved q tc = record tc { reserved = tc.reserved - q }

unfoldable pub release_class : ℕ → ℕ → Tx (Unit {0})
release_class id q =
    update_class id (λ tc. leb q tc.reserved) (sub_reserved q) >>= affected_or inventory_drift

unfoldable pub release_classes : Dict ℕ → List ℕ → Tx (Unit {0})
unfolding release_class
release_classes ups [] = pure tt
release_classes ups (id ∷ ids) =
    let rest = release_classes ups ids in release_class id (get 0 ups id) >> rest

mark_cancelled : List ℕ → Tx (Unit {0})
mark_cancelled [] = pure tt
mark_cancelled (id ∷ ids) = mark (id ∷ ids) ReservationStatus.cancelled

release_with : Option (Dict ℕ × List ℕ) → Tx (Unit {0})
unfolding mark_cancelled release_classes
release_with none = raise state_conflict
release_with (some (ups, ids)) = release_classes ups (sorted_keys ups) >> mark_cancelled ids

release_rows : List Reservation → Tx (Unit {0})
unfolding release_with release_quantities
release_rows [] = pure tt
release_rows (r ∷ rs) =
    if all is_released (r ∷ rs) then pure tt else release_with (release_quantities (r ∷ rs) [] [])

unfoldable pub release : String → Tx (Unit {0})
unfolding release_rows
release code = transaction (query (rows_of code) >>= release_rows)
