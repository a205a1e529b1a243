-- ===== src/Order/Repository.antt =====
-- services/order-svc/internal/order/repository: the table of orders, items and purchase slots.
use ticket_event_pf.Prelude.{
  ℕ, String, Bool, true, Option, none, some, List, [], ◌∷◌, ◌++◌, if◌then◌else◌, str_eq,
}
use ticket_event_pf.Order.Model.{
  OrderStatus, status_eq, Order, CreateOrderOption, OrderRow, repo_order_not_found,
  order_already_exists,
}
use ticket_event_pf.Order.World.{World, Result, ok, err, Act, pure, ◌>>=◌, remote}

-- `buildOrderModel`
unfoldable pub build_order : ℕ → CreateOrderOption → Order
build_order now opt = record {
  code = opt.code;
  session_id = opt.session_id;
  user_id = opt.user_id;
  user_full_name = opt.user_full_name;
  email = opt.email;
  phone = opt.phone;
  event_id = opt.event_id;
  total_amount = opt.total_amount;
  currency = opt.currency;
  payment_method = opt.payment_method;
  status = opt.status;
  paid_at = none;
  created_at = now;
  updated_at = now;
  deleted_at = none;
}

abbrev pub find_order : String → List OrderRow → Option Order
find_order code [] = none
find_order code (r ∷ rs) = if str_eq r.key code then some r.order else find_order code rs

-- `UpdateItem`: the row of the key, or a new one that has the written fields alone.
abbrev blank_order : Order
blank_order = record {
  code = "";
  session_id = "";
  user_id = "";
  user_full_name = "";
  email = "";
  phone = "";
  event_id = "";
  total_amount = 0;
  currency = "";
  payment_method = "";
  status = OrderStatus.other "";
  paid_at = none;
  created_at = 0;
  updated_at = 0;
  deleted_at = none;
}

abbrev pub upsert : String → (Order → Order) → List OrderRow → List OrderRow
upsert code f [] = record { key = code; order = f blank_order } ∷ []
upsert code f (r ∷ rs) =
    if str_eq r.key code then record r { order = f r.order } ∷ rs else r ∷ upsert code f rs

abbrev pub set_orders : {S : Type 0} → List OrderRow → World S → World S
set_orders rs w = record w { orders = rs }

abbrev pub undeleted : Option Order → Result Order
undeleted none = err repo_order_not_found
undeleted (some o) = elim o.deleted_at [ none ↦ ok o | some t ↦ err repo_order_not_found ]

abbrev pub set_status : OrderStatus → ℕ → Order → Order
set_status s now o = record o { status = s; updated_at = now }

abbrev pub mark_deleted : ℕ → Order → Order
mark_deleted now o = record o { deleted_at = some now; updated_at = now }

module _ {S : Type 0} where
  abbrev pub put_order : CreateOrderOption → Option Order → Act S Order
  put_order opt (some o) w = (err order_already_exists, w)
  put_order opt none w =
      let o = build_order w.now opt in
      (ok o, set_orders (w.orders ++ record { key = opt.code; order = o } ∷ []) w)

  -- `Create`, with `attribute_not_exists(PK)`.
  unfoldable pub create : CreateOrderOption → Act S Order
  unfolding build_order
  create opt = remote λ w. put_order opt (find_order opt.code w.orders) w

  -- `GetByCode`, and `GetOne` with a code. The source asks for no consistent read: that the row it
  -- answers is the current one is an assumption of the model.
  unfoldable pub get_by_code : String → Act S Order
  get_by_code code = remote λ w. (undeleted (find_order code w.orders), w)

  -- `Update`, which the activities call without `PaidAt`.
  unfoldable pub update : String → OrderStatus → Act S (Unit {0})
  update code s = remote λ w. (ok tt, set_orders (upsert code (set_status s w.now) w.orders) w)

  abbrev pub if_pending : String → OrderStatus → Option Order → Act S (Option Order)
  if_pending code to none w = (ok none, w)
  if_pending code to (some o) w =
      if status_eq o.status OrderStatus.pending
      then (
        ok (some (set_status to w.now o)),
        set_orders (upsert code (set_status to w.now) w.orders) w,
      )
      else (ok none, w)

  -- The conditional `UpdateItem`; `none` where its condition fails.
  unfoldable pub update_pending : String → OrderStatus → Act S (Option Order)
  update_pending code to = remote λ w. if_pending code to (find_order code w.orders) w

  abbrev pub or_read : String → OrderStatus → Option Order → Act S (Order × Bool)
  or_read code to (some o) = pure (o, true)
  or_read code to none = get_by_code code >>= λ o. pure (o, status_eq o.status to)

  -- `leavePending`
  unfoldable pub leave_pending : String → OrderStatus → Act S (Order × Bool)
  unfolding update_pending get_by_code
  leave_pending code to = update_pending code to >>= or_read code to

  abbrev pub expire_if_pending : String → Act S (Order × Bool)
  expire_if_pending code = leave_pending code OrderStatus.timeout

  abbrev pub cancel_if_pending : String → Act S (Order × Bool)
  cancel_if_pending code = leave_pending code OrderStatus.cancelled

  -- `Delete`
  unfoldable pub delete : String → Act S (Unit {0})
  delete code = remote λ w. (ok tt, set_orders (upsert code (mark_deleted w.now) w.orders) w)
