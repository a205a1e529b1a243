-- ===== src/Inventory/Tables.antt =====
-- Queries on the two tables that several services of internal/services make, and `onSale` of
-- internal/services/reservation.go.
use ticket_event_pf.Prelude.{
  ℕ, Bool, true, false, not, ◌&&◌, Option, none, some, List, [], ◌∷◌, ltb, leb, ◌==◌, if◌then◌else◌,
}
use ticket_event_pf.Inventory.Model.{
  TicketClass, TicketClassStatus, Reservation, ReservationStatus, Db,
}
use ticket_event_pf.Inventory.Tx.{Tx, statement, update_where, count_where}

abbrev pub same_status : ReservationStatus → ReservationStatus → Bool
same_status ReservationStatus.active ReservationStatus.active = true
same_status ReservationStatus.confirmed ReservationStatus.confirmed = true
same_status ReservationStatus.expired ReservationStatus.expired = true
same_status ReservationStatus.cancelled ReservationStatus.cancelled = true
same_status _ _ = false

abbrev pub is_active : TicketClassStatus → Bool
is_active TicketClassStatus.active = true
is_active _ = false

-- `First(&tc, id)`
abbrev pub find_class : ℕ → List TicketClass → Option TicketClass
find_class id [] = none
find_class id (tc ∷ tcs) = if tc.id == id then some tc else find_class id tcs

abbrev pub set_classes : List TicketClass → Db → Db
set_classes tcs d = record d { ticket_classes = tcs }

abbrev pub set_reservations : List Reservation → Db → Db
set_reservations rs d = record d { reservations = rs }

-- `UPDATE ticket_class SET f WHERE id = ? AND guard`, and `RowsAffected`.
abbrev pub update_class : ℕ → (TicketClass → Bool) → (TicketClass → TicketClass) → Tx ℕ
update_class id guard f = statement λ d.
    let p = λ (tc : TicketClass). (tc.id == id) && guard tc in
    some (count_where p d.ticket_classes, set_classes (update_where p f d.ticket_classes) d)

-- `now.Before(*t)` and `now.After(*t)`, for a bound that may be nil.
abbrev before_start : ℕ → Option ℕ → Bool
before_start now none = false
before_start now (some t) = ltb now t

abbrev after_end : ℕ → Option ℕ → Bool
after_end now none = false
after_end now (some t) = ltb t now

unfoldable pub on_sale : TicketClass → ℕ → Bool
on_sale tc now =
    if not (is_active tc.status)
    then false
    else if before_start now tc.sale_start_at
    then false
    else if after_end now tc.sale_end_at
    then false
    else true

-- The same in SQL: `sale_start_at IS NULL OR sale_start_at <= ?`, and the end likewise.
abbrev pub sql_started : ℕ → Option ℕ → Bool
sql_started now none = true
sql_started now (some t) = leb t now

abbrev pub sql_not_ended : ℕ → Option ℕ → Bool
sql_not_ended now none = true
sql_not_ended now (some t) = leb now t
