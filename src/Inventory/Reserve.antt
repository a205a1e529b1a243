-- ===== src/Inventory/Reserve.antt =====
-- `Reserve` of internal/services/reservation.go, with `aggregateDemand`, `explainReserveMiss` and
-- `buildModel` of reservation_builder.go.
pub mod Demanded
pub mod Counted
pub mod Held
use ticket_event_pf.Prelude.{
  ℕ, suc, ◌+◌, String, Bool, true, false, not, ◌&&◌, ◌||◌, Option, none, some, List, [], ◌∷◌, ◌++◌,
  leb, ◌==◌, if◌then◌else◌, str_eq, rows_where, any, map, sort_by, Dict, get, contains, update,
}
use ticket_event_pf.Inventory.Model.{
  TicketClass, Reservation, ReservationStatus, Db, ReserveItem, ReserveInput, Error, state_conflict,
  insufficient_stock, not_found, sale_closed,
}
use ticket_event_pf.Inventory.Tx.{Tx, pure, raise, ◌>>=◌, ◌>>◌, statement, query, transaction}
use ticket_event_pf.Inventory.Tables.{
  same_status, is_active, find_class, update_class, on_sale, sql_started, sql_not_ended,
}

abbrev pub Demand : Type 0
Demand = List ℕ × Dict ℕ

-- The loop over the items, then the sort.
unfoldable pub aggregate_from : List ReserveItem → List ℕ → Dict ℕ → Demand
aggregate_from [] ids qty_by_id = (sort_by (λ k. k) ids, qty_by_id)
aggregate_from (it ∷ items) ids qty_by_id =
    aggregate_from items
      (if contains it.ticket_class_id qty_by_id then ids else ids ++ it.ticket_class_id ∷ [])
      (update 0 it.ticket_class_id (λ n. n + it.qty) qty_by_id)

unfoldable pub aggregate_demand : List ReserveItem → Demand
unfolding aggregate_from
aggregate_demand items = aggregate_from items [] []

-- The id is left 0, and is given by the insert.
unfoldable pub build_model : String → ℕ → ReserveItem → Reservation
build_model code exp_at it = record {
  id = 0;
  order_code = code;
  ticket_class_id = it.ticket_class_id;
  qty = it.qty;
  expires_at = exp_at;
  status = ReservationStatus.active;
}

-- The predicate of the guarded UPDATE, but for the id.
abbrev pub can_reserve : ℕ → ℕ → TicketClass → Bool
can_reserve now q tc =
    is_active tc.status
    && sql_started now tc.sale_start_at
    && sql_not_ended now tc.sale_end_at
    && leb (tc.reserved + tc.sold + q) tc.total

abbrev pub add_reserved : ℕ → TicketClass → TicketClass
add_reserved q tc = record tc { reserved = tc.reserved + q }

-- Why the guarded update matched no row.
unfoldable pub explain_miss : ℕ → Option TicketClass → Error
explain_miss now none = not_found
explain_miss now (some tc) = if not (on_sale tc now) then sale_closed else insufficient_stock

unfoldable pub explain_reserve_miss : {A : Type 0} → ℕ → ℕ → Tx A
unfolding explain_miss
explain_reserve_miss id now =
    query (λ d. find_class id d.ticket_classes) >>= λ tc. raise (explain_miss now tc)

-- The loop over the sorted ids; `rs` are the rows to insert.
unfoldable pub reserve_classes :
    ℕ → ReserveInput → Dict ℕ → List ℕ → List Reservation → Tx (List Reservation)
unfolding build_model explain_reserve_miss
reserve_classes now i qty_by_id [] rs = pure rs
reserve_classes now i qty_by_id (id ∷ ids) rs =
    let q = get 0 qty_by_id id in
    let item : ReserveItem = record { ticket_class_id = id; qty = q } in
    let rest =
      reserve_classes now i qty_by_id ids (rs ++ build_model i.order_code i.expires_at item ∷ []) in
    update_class id (can_reserve now q) (add_reserved q) >>= λ n.
    if n == 0 then explain_reserve_miss id now else rest

-- What refuses a new row: the unique index `idx_order_ticket`, the check on `qty`, the foreign key.
abbrev pub refuses : Db → Reservation → Bool
refuses d r =
    any (λ x. str_eq x.order_code r.order_code && (x.ticket_class_id == r.ticket_class_id))
      d.reservations
    || (r.qty == 0)
    || not (any (λ tc. tc.id == r.ticket_class_id) d.ticket_classes)

abbrev pub add_reservation : Reservation → Db → Db
add_reservation r d = record d {
  reservations = d.reservations ++ record r { id = d.next_reservation_id } ∷ [];
  next_reservation_id = suc d.next_reservation_id;
}

unfoldable pub insert_rows : List Reservation → Db → Option (Unit {0} × Db)
insert_rows [] d = some (tt, d)
insert_rows (r ∷ rs) d =
    let rest = insert_rows rs (add_reservation r d) in if refuses d r then none else rest

-- gorm refuses to create an empty slice.
unfoldable pub insert_reservations : List Reservation → Db → Option (Unit {0} × Db)
unfolding insert_rows
insert_reservations [] d = none
insert_reservations (r ∷ rs) d = insert_rows (r ∷ rs) d

abbrev pub is_live : ReservationStatus → Bool
is_live s = same_status s ReservationStatus.active || same_status s ReservationStatus.confirmed

abbrev pub statuses_of : String → Db → List ReservationStatus
statuses_of code d = map (λ r. r.status) (rows_where (λ r. str_eq r.order_code code) d.reservations)

-- The body of the transaction, once the statuses of the order are read.
unfoldable pub reserve_new : ℕ → ReserveInput → List ReservationStatus → Tx (Unit {0})
unfolding aggregate_demand insert_reservations reserve_classes
reserve_new now i [] =
    let (ids, qty_by_id) = aggregate_demand i.items in
    reserve_classes now i qty_by_id ids [] >>= λ rs. statement (insert_reservations rs)
reserve_new now i (s ∷ ss) = if any is_live (s ∷ ss) then pure tt else raise state_conflict

unfoldable pub reserve : ℕ → ReserveInput → Tx (Unit {0})
unfolding reserve_new transaction
reserve now i = transaction (query (statuses_of i.order_code) >>= reserve_new now i)
