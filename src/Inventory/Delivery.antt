-- ===== src/Inventory/Delivery.antt =====
-- internal/delivery/grpc of inventory-svc: the calls on reservations and on stock as they are served
-- to the other services. A request is validated, read into an input of the service, and run; an error
-- of the service is answered by its code. `parse_id` is `strconv.ParseInt` and `parse_time` is
-- `util.ParseISO8601`; an id is a natural number, as in the tables.
pub mod Answered
use ticket_event_pf.Prelude.{
  ℕ, String, Bool, true, false, not, ◌&&◌, Option, none, some, List, [], ◌∷◌, if◌then◌else◌, str_eq,
}
use ticket_event_pf.Prelude.Int.{ℤ, pos, pos_part, ltb_ℤ}
use ticket_event_pf.Inventory.Model.{
  ReserveItem, ReserveInput, CheckAvailabilityInput, EventStock, Error, state_conflict,
  insufficient_stock, not_found, inventory_drift, sale_closed, record_not_found, db_failure,
}
use ticket_event_pf.Inventory.Tx.{Tx, Result, ok, err, Session}
use ticket_event_pf.Inventory.Reserve.{reserve}
use ticket_event_pf.Inventory.Settle.{confirm, release}
use ticket_event_pf.Inventory.TicketClasses.{delete, check_availability, get_event_stock}

-- The codes of pkg/errors/errors.go and of `ErrValidationFailed`.
pub data Code : Type 0 where
  code_not_found invalid_argument failed_precondition internal : Code

pub data Reply (A : Type 0) : Type 0 where
  answer : A → Reply A
  refuse : Code → Reply A

abbrev pub Endpoint : Type 0 → Type 0
Endpoint A = Session → Reply A × Session

-- An item of a `ReserveRequest` or of a `CheckAvailabilityRequest`; the quantity is an int32.
pub record RequestItem : Type 0 where
  pub ticket_class_id : String
  pub quantity : ℤ

pub record ReserveRequest : Type 0 where
  pub order_code : String
  pub items : List RequestItem
  pub expires_at : String

unfoldable pub map_error : Error → Code
map_error not_found = code_not_found
map_error record_not_found = code_not_found
map_error insufficient_stock = failed_precondition
map_error sale_closed = failed_precondition
map_error state_conflict = failed_precondition
map_error inventory_drift = internal
map_error db_failure = internal

-- `req.GetX() == ""`
abbrev pub is_empty : String → Bool
is_empty s = str_eq s ""

unfoldable pub validate_item : RequestItem → Bool
validate_item it =
    if is_empty it.ticket_class_id
    then false
    else if not (ltb_ℤ (pos 0) it.quantity)
    then false
    else true

unfoldable pub validate_items : List RequestItem → Bool
unfolding validate_item
validate_items [] = true
validate_items (it ∷ its) =
    let rest = validate_items its in if validate_item it then rest else false

-- `len(items) == 0`
abbrev pub has_none : List RequestItem → Bool
has_none [] = true
has_none (it ∷ its) = false

unfoldable pub validate_reserve_request : ReserveRequest → Bool
unfolding validate_items
validate_reserve_request r =
    if is_empty r.order_code
    then false
    else if has_none r.items
    then false
    else if is_empty r.expires_at
    then false
    else validate_items r.items

unfoldable pub validate_check_availability_request : List RequestItem → Bool
unfolding validate_items
validate_check_availability_request its = if has_none its then false else validate_items its

-- A service call, its error answered by a code.
abbrev pub reply_of : {A : Type 0} → Result A × Session → Reply A × Session
reply_of (ok a, s) = (answer a, s)
reply_of (err e, s) = (refuse (map_error e), s)

abbrev pub serve : {A : Type 0} → Tx A → Endpoint A
serve m s = reply_of (m s)

abbrev pub refuse_with : {A : Type 0} → Code → Endpoint A
refuse_with c s = (refuse c, s)

-- The service call on the input that was read, or the code for a request that was not.
abbrev pub serve_read : {A B : Type 0} → Code → (B → Tx A) → Option B → Endpoint A
serve_read c f none = refuse_with c
serve_read c f (some b) = serve (f b)

unfoldable pub confirm_rpc : String → Endpoint (Unit {0})
confirm_rpc order_code =
    if is_empty order_code then refuse_with invalid_argument else serve (confirm order_code)

unfoldable pub release_rpc : String → Endpoint (Unit {0})
release_rpc order_code =
    if is_empty order_code then refuse_with invalid_argument else serve (release order_code)

unfoldable pub get_event_stock_rpc : ℕ → String → Endpoint EventStock
get_event_stock_rpc now event_id =
    if is_empty event_id then refuse_with invalid_argument else serve (get_event_stock event_id now)

infixl 5 ◌>>=◌
abbrev pub ◌>>=◌ : {A B : Type 0} → Option A → (A → Option B) → Option B
none >>= f = none
some a >>= f = f a

abbrev pub reserve_item : ℕ → ℕ → ReserveItem
reserve_item id q = record { ticket_class_id = id; qty = q }

abbrev pub check_item : ℕ → ℕ → CheckAvailabilityInput
check_item id q = record { ticket_class_id = id; qty = q }

module _ (parse_id : String → Option ℕ) where
  -- The loops of `newReserveInput` and `newCheckAvailabilityInput`, which read an item alike.
  abbrev pub read_items : {A : Type 0} → (ℕ → ℕ → A) → List RequestItem → Option (List A)
  read_items mk [] = some []
  read_items mk (it ∷ its) = do
    id ← parse_id it.ticket_class_id
    rest ← read_items mk its
    some (mk id (pos_part it.quantity) ∷ rest)

  unfoldable pub check_availability_rpc : ℕ → List RequestItem → Endpoint Bool
  unfolding validate_check_availability_request
  check_availability_rpc now its =
      if not (validate_check_availability_request its)
      then refuse_with invalid_argument
      else serve_read internal (check_availability now) (read_items check_item its)

  unfoldable pub delete_ticket_class_rpc : String → Endpoint (Unit {0})
  delete_ticket_class_rpc id =
      if is_empty id
      then refuse_with invalid_argument
      else serve_read invalid_argument delete (parse_id id)

module _ (parse_id parse_time : String → Option ℕ) where
  unfoldable pub new_reserve_input : ReserveRequest → Option ReserveInput
  new_reserve_input r = do
    exp_at ← parse_time r.expires_at
    its ← read_items parse_id reserve_item r.items
    some (record { order_code = r.order_code; items = its; expires_at = exp_at })

  unfoldable pub reserve_rpc : ℕ → ReserveRequest → Endpoint (Unit {0})
  unfolding validate_reserve_request new_reserve_input
  reserve_rpc now r =
      if not (validate_reserve_request r)
      then refuse_with invalid_argument
      else serve_read internal (reserve now) (new_reserve_input r)
