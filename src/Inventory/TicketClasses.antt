-- ===== src/Inventory/TicketClasses.antt =====
-- internal/services/ticketclass.go and ticketclass_builder.go.
pub mod Created
pub mod Updated
pub mod Deleted
use ticket_event_pf.Prelude.{
  ℕ, suc, ◌+◌, ◌-◌, String, Bool, true, false, not, ◌&&◌, ◌||◌, Option, none, some, List, [], ◌∷◌,
  ◌++◌, ltb, leb, ◌==◌, if◌then◌else◌, str_eq, mem, length, rows_where, any, sum_of, map, Dict, get,
}
use ticket_event_pf.Prelude.Int.{ℤ, pos, sub_ℕ, ◌+ℤ◌, ltb_ℤ}
use ticket_event_pf.Inventory.Model.{
  TicketClass, TicketClassStatus, Reservation, ReservationStatus, Db, Error, state_conflict,
  not_found, record_not_found, CreateTicketClassInput, UpdateTicketClassInput,
  CheckAvailabilityInput, GetManyTicketClassInput, EventStock, ReserveItem,
}
use ticket_event_pf.Inventory.Tx.{
  Tx, pure, raise, ◌>>=◌, ◌>>◌, statement, query, transaction, update_where, count_where,
}
use ticket_event_pf.Inventory.Tables.{
  same_status, is_active, find_class, set_classes, set_reservations, on_sale, sql_started,
  sql_not_ended,
}
use ticket_event_pf.Inventory.Reserve.{is_live, aggregate_demand, Demand}

-- `buildModel`; the id is left 0, and is given by the insert.
unfoldable pub build_model : CreateTicketClassInput → TicketClass
build_model i = record {
  id = 0;
  event_id = i.event_id;
  name = i.name;
  price_cents = i.price_cents;
  currency = i.currency;
  total = i.total;
  reserved = 0;
  sold = 0;
  sale_start_at = i.sale_start_at;
  sale_end_at = i.sale_end_at;
  status = TicketClassStatus.active;
}

-- The unique index `idx_event_name`: another row has this event and name.
abbrev pub name_taken : TicketClass → List TicketClass → Bool
name_taken tc =
    any λ x. str_eq x.event_id tc.event_id && str_eq x.name tc.name && not (x.id == tc.id)

abbrev pub insert_class : TicketClass → Db → Option (TicketClass × Db)
insert_class tc d =
    let row : TicketClass = record tc { id = d.next_class_id } in
    if name_taken row d.ticket_classes
    then none
    else some (
      row,
      record d {
        ticket_classes = d.ticket_classes ++ row ∷ [];
        next_class_id = suc d.next_class_id;
      },
    )

unfoldable pub create : CreateTicketClassInput → Tx TicketClass
unfolding build_model
create i = statement (insert_class (build_model i))

-- One entry of `updateColumns`. No entry stands for `reserved` or `sold`.
pub data Column : Type 0 where
  set_name set_currency : String → Column
  set_price_cents set_total set_sale_start_at set_sale_end_at : ℕ → Column
  set_status : TicketClassStatus → Column

abbrev pub column : {A : Type 0} → (A → Column) → Option A → List Column
column f none = []
column f (some a) = f a ∷ []

-- `updateColumns`
unfoldable pub update_columns : UpdateTicketClassInput → List Column
update_columns i =
    column set_name i.name
    ++ (column set_price_cents i.price_cents
        ++ (column set_currency i.currency
            ++ (column set_total i.total
                ++ (column set_sale_start_at i.sale_start_at
                    ++ (column set_sale_end_at i.sale_end_at ++ column set_status i.status)))))

unfoldable pub write_column : Column → TicketClass → TicketClass
write_column (set_name v) tc = record tc { name = v }
write_column (set_price_cents v) tc = record tc { price_cents = v }
write_column (set_currency v) tc = record tc { currency = v }
write_column (set_total v) tc = record tc { total = v }
write_column (set_sale_start_at v) tc = record tc { sale_start_at = some v }
write_column (set_sale_end_at v) tc = record tc { sale_end_at = some v }
write_column (set_status v) tc = record tc { status = v }

unfoldable pub write_columns : List Column → TicketClass → TicketClass
unfolding write_column
write_columns [] tc = tc
write_columns (c ∷ cs) tc = write_columns cs (write_column c tc)

-- `First(&tc, id)` inside a transaction; `e` is the error for a missing row.
abbrev pub first_or : {A : Type 0} → Tx A → (TicketClass → Tx A) → Option TicketClass → Tx A
first_or missing f none = missing
first_or missing f (some tc) = f tc

abbrev pub first : ℕ → Tx (Option TicketClass)
first id = query λ d. find_class id d.ticket_classes

-- `Updates(cols)`; the unique index refuses a name that another row of the event has.
abbrev pub write_row : ℕ → List Column → Db → Option (Unit {0} × Db)
write_row id cols d =
    let tcs = update_where (λ tc. tc.id == id) (write_columns cols) d.ticket_classes in
    if any (λ tc. (tc.id == id) && name_taken tc tcs) tcs
    then none
    else some (tt, set_classes tcs d)

abbrev pub write_class : ℕ → List Column → Tx (Unit {0})
write_class id cols = statement (write_row id cols)

abbrev pub below_committed : Option ℕ → TicketClass → Bool
below_committed none tc = false
below_committed (some total) tc = ltb total (tc.reserved + tc.sold)

unfoldable pub write_and_reload : ℕ → List Column → TicketClass → Tx TicketClass
unfolding write_columns
write_and_reload id [] tc = pure tc
write_and_reload id (c ∷ cols) tc =
    (write_class id (c ∷ cols) >> first id) >>= first_or (raise record_not_found) pure

unfoldable pub update_row : ℕ → UpdateTicketClassInput → TicketClass → Tx TicketClass
unfolding write_and_reload update_columns
update_row id i tc =
    if below_committed i.total tc
    then raise state_conflict
    else write_and_reload id (update_columns i) tc

unfoldable pub update : ℕ → UpdateTicketClassInput → Tx TicketClass
unfolding update_row
update id i = transaction (first id >>= first_or (raise not_found) (update_row id i))

unfoldable pub get_by_id : ℕ → Tx TicketClass
get_by_id id = first id >>= first_or (raise not_found) pure

-- `event_id = ?` where the event is named, and `id IN ?` where ids are given.
abbrev wanted : GetManyTicketClassInput → TicketClass → Bool
wanted i tc =
    (str_eq i.event_id "" || str_eq tc.event_id i.event_id)
    && ((length i.ids == 0) || mem tc.id i.ids)

unfoldable pub get_many : GetManyTicketClassInput → Tx (List TicketClass)
get_many i = query λ d. rows_where (wanted i) d.ticket_classes

abbrev pub is_live_of : ℕ → Reservation → Bool
is_live_of id r = (r.ticket_class_id == id) && is_live r.status

abbrev pub is_terminal_of : ℕ → Reservation → Bool
is_terminal_of id r =
    (r.ticket_class_id == id)
    && (same_status r.status ReservationStatus.expired
        || same_status r.status ReservationStatus.cancelled)

unfoldable pub delete_terminal_reservations : ℕ → Tx (Unit {0})
delete_terminal_reservations id =
    statement λ d.
      some (tt, set_reservations (rows_where (λ r. not (is_terminal_of id r)) d.reservations) d)

-- The foreign key is RESTRICT: a class that a reservation still names is not deleted.
abbrev pub remove_class : ℕ → Db → Option (Unit {0} × Db)
remove_class id d =
    if any (λ r. r.ticket_class_id == id) d.reservations
    then none
    else some (tt, set_classes (rows_where (λ tc. not (tc.id == id)) d.ticket_classes) d)

abbrev pub delete_class : ℕ → Tx (Unit {0})
delete_class id = statement (remove_class id)

unfoldable pub delete_row : ℕ → TicketClass → Tx (Unit {0})
unfolding delete_terminal_reservations
delete_row id tc = query (λ d. count_where (is_live_of id) d.reservations) >>= λ live.
    if ltb 0 live then raise state_conflict else delete_terminal_reservations id >> delete_class id

unfoldable pub delete : ℕ → Tx (Unit {0})
unfolding delete_row
delete id = transaction (first id >>= first_or (pure tt) (delete_row id))

-- `tc.Total - tc.Reserved - tc.Sold` on Go's signed `int`.
abbrev pub available : TicketClass → ℤ
available tc = sub_ℕ tc.total (tc.reserved + tc.sold)

unfoldable pub get_available_count : ℕ → Tx ℤ
get_available_count id = first id >>= first_or (raise not_found) (λ tc. pure (available tc))

-- The loop over the rows found.
unfoldable pub all_available : ℕ → Dict ℕ → List TicketClass → Bool
all_available now qty_by_id [] = true
all_available now qty_by_id (tc ∷ tcs) =
    let rest = all_available now qty_by_id tcs in
    if not (on_sale tc now)
    then false
    else if ltb_ℤ (available tc) (pos (get 0 qty_by_id tc.id))
    then false
    else rest

abbrev item_of : CheckAvailabilityInput → ReserveItem
item_of i = record { ticket_class_id = i.ticket_class_id; qty = i.qty }

check_rows : ℕ → Demand → List TicketClass → Bool
unfolding all_available
check_rows now (ids, qty_by_id) tcs =
    if not (length tcs == length ids) then false else all_available now qty_by_id tcs

unfoldable pub check_availability : ℕ → List CheckAvailabilityInput → Tx Bool
unfolding check_rows aggregate_demand
check_availability now [] = pure true
check_availability now (i ∷ is) =
    let demand = aggregate_demand (map item_of (i ∷ is)) in
    query (λ d. rows_where (λ tc. mem tc.id demand.0) d.ticket_classes) >>= λ tcs.
    pure (check_rows now demand tcs)

sum_ℤ : (TicketClass → ℤ) → List TicketClass → ℤ
sum_ℤ w [] = pos 0
sum_ℤ w (tc ∷ tcs) = w tc +ℤ sum_ℤ w tcs

abbrev pub can_still_sell : String → ℕ → TicketClass → Bool
can_still_sell event_id now tc =
    str_eq tc.event_id event_id && is_active tc.status && sql_not_ended now tc.sale_end_at

unfoldable pub event_stock : String → ℕ → List TicketClass → EventStock
unfolding sum_ℤ
event_stock event_id now tcs =
    let rows = rows_where (can_still_sell event_id now) tcs in
    record {
      total = sum_of (λ tc. tc.total) rows;
      sold = sum_of (λ tc. tc.sold) rows;
      available = sum_ℤ available (rows_where (λ tc. sql_started now tc.sale_start_at) rows);
    }

unfoldable pub get_event_stock : String → ℕ → Tx EventStock
unfolding event_stock
get_event_stock event_id now = query λ d. event_stock event_id now d.ticket_classes
