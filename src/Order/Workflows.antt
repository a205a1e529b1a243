-- ===== src/Order/Workflows.antt =====
-- services/order-svc/internal/workflows: `CreateOrder`, `ConfirmOrder` and `ExpireOrder`. Logging and
-- metrics are left out; the version switch of `executeShortStep` chooses between two ways to run the
-- same activity under the same retry policy.
use ticket_event_pf.Prelude.{
  ℕ, ◌+◌, ◌*◌, String, Bool, not, ◌||◌, List, [], ◌∷◌, map, if◌then◌else◌,
}
use ticket_event_pf.Order.Model.{
  OrderStatus, status_eq, Order, OrderItem, CreateOrderOption, CreateOrderItemOption, Reason,
  refund_required, Error, cannot_confirm, already_processed, CreateOrderItemInput,
  CreateOrderWorkflowInput, ReserveItem, PaymentIntent, CreateOrderWorkflowResult,
}
use ticket_event_pf.Order.World.{
  Services, Act, pure, raise, ◌>>=◌, ◌>>◌, catch, best_effort, execute,
}
use ticket_event_pf.Order.Slots.{purchase_slot_key, release_purchase_slot}
use ticket_event_pf.Order.Activities.{
  reserve_inventory, release_inventory, confirm_inventory, create_order, create_order_items,
  get_order, update_order_status, expire_order, delete_order, delete_order_items,
  create_payment_intent, publish, publish_checkout_completed, publish_checkout_expired,
}

-- shared.go, in seconds.
abbrev pub payment_timeout : ℕ
payment_timeout = 6 * 60

abbrev pub reservation_hold_grace : ℕ
reservation_hold_grace = 3 * 60

abbrev pub checkout_lifetime : ℕ
checkout_lifetime = payment_timeout + reservation_hold_grace

unfoldable pub reservation_expiry : ℕ → ℕ
reservation_expiry now = now + checkout_lifetime

-- options.go: the retries after the first attempt.
abbrev pub create_retries : ℕ
create_retries = 4

abbrev pub confirm_retries : ℕ
confirm_retries = 9

abbrev pub compensation_retries : ℕ
compensation_retries = 4

-- steps.go
unfoldable pub order_option : CreateOrderWorkflowInput → CreateOrderOption
order_option i = record {
  code = i.order_code;
  session_id = i.session_id;
  user_id = i.user_id;
  user_full_name = i.user_full_name;
  email = i.email;
  phone = i.phone;
  event_id = i.event_id;
  total_amount = i.total_amount;
  currency = i.currency;
  payment_method = i.payment_provider;
  status = OrderStatus.pending;
}

abbrev pub item_option : String → CreateOrderItemInput → CreateOrderItemOption
item_option code i = record {
  order_code = code;
  ticket_class_id = i.ticket_class_id;
  ticket_class_name = i.ticket_class_name;
  price_at_purchase = i.price_at_purchase;
  quantity = i.quantity;
  total_amount = i.total_amount;
}

abbrev pub reserve_item : CreateOrderItemInput → ReserveItem
reserve_item i = record { ticket_class_id = i.ticket_class_id; quantity = i.quantity }

abbrev pub payment_intent : CreateOrderWorkflowInput → PaymentIntent
payment_intent i = record {
  order_code = i.order_code;
  amount_cents = i.total_amount;
  currency = i.currency;
  provider = i.payment_provider;
  redirect_url = i.redirect_url;
  idempotency_key = i.idempotency_key;
  timeout_seconds = payment_timeout;
}

module _ {S : Type 0} where
  -- `Compensate`: newest first, each under its own retries, past any that fails.
  unfoldable pub compensate : List (Act S (Unit {0})) → Act S (Unit {0})
  compensate [] = pure tt
  compensate (c ∷ cs) =
      let later = compensate cs in later >> best_effort (execute compensation_retries c)

  -- A step of the saga. If it fails, what was registered before it is undone.
  unfoldable pub or_undo : {A : Type 0} → List (Act S (Unit {0})) → Act S A → Act S A
  unfolding compensate execute
  or_undo cs m = catch (execute create_retries m) (λ e. compensate cs >> raise e)

module _ {S : Type 0} (sv : Services S) (i : CreateOrderWorkflowInput) where
  abbrev pub undo_reserve : Act S (Unit {0})
  undo_reserve = release_inventory sv i.order_code

  abbrev pub undo_order : Order → List (Act S (Unit {0}))
  undo_order o = undo_reserve ∷ delete_order o.code ∷ []

  abbrev pub undo_items : Order → List (Act S (Unit {0}))
  undo_items o = undo_reserve ∷ delete_order o.code ∷ delete_order_items o.code ∷ []

  unfoldable pub reserve_step : Act S (Unit {0})
  unfolding reserve_inventory or_undo reservation_expiry
  reserve_step w =
      or_undo []
        (reserve_inventory sv i.order_code (reservation_expiry w.now) (map reserve_item i.items)) w

  unfoldable pub order_step : Act S Order
  unfolding create_order or_undo release_inventory order_option
  order_step = or_undo (undo_reserve ∷ []) (create_order (order_option i))

  unfoldable pub items_step : Order → Act S (List OrderItem)
  unfolding create_order_items or_undo release_inventory delete_order
  items_step o =
      or_undo (undo_order o) (create_order_items o.code (map (item_option o.code) i.items))

  unfoldable pub payment_step : Order → Act S String
  unfolding create_payment_intent or_undo release_inventory delete_order delete_order_items
  payment_step o = or_undo (undo_items o) (create_payment_intent sv (payment_intent i))

  -- `CreateOrder`
  unfoldable pub create_order_workflow : Act S CreateOrderWorkflowResult
  unfolding reserve_step order_step items_step payment_step
  create_order_workflow = reserve_step >>= λ _. order_step >>= λ o. items_step o >>= λ itms.
      payment_step o >>= λ url. pure (record { payment_url = url; order = o; order_items = itms })

module _ {S : Type 0} where
  unfoldable pub set_order_status : String → OrderStatus → Act S (Unit {0})
  unfolding update_order_status execute
  set_order_status code s = execute confirm_retries (update_order_status code s)

  -- `freePurchaseSlot`
  unfoldable pub free_purchase_slot : ℕ → Order → Act S (Unit {0})
  unfolding release_purchase_slot execute
  free_purchase_slot retries o = best_effort (
      execute retries
        (release_purchase_slot (purchase_slot_key o.session_id o.user_id o.event_id) o.code))

  -- `markForRefund`
  unfoldable pub mark_for_refund : Order → Reason → Act S (Unit {0})
  unfolding set_order_status free_purchase_slot publish execute
  mark_for_refund o reason =
      best_effort (set_order_status o.code OrderStatus.refund_required)
      >> best_effort
          (execute confirm_retries (publish (refund_required o.code o.user_id o.event_id reason)))
      >> free_purchase_slot confirm_retries o

  -- An order that is neither PENDING nor TIMEOUT.
  unfoldable pub already_settled : Order → OrderStatus → Act S (Unit {0})
  unfolding mark_for_refund
  already_settled o OrderStatus.completed = pure tt
  already_settled o OrderStatus.cancelled =
      mark_for_refund o (Reason.payment_settled_on OrderStatus.cancelled) >> raise already_processed
  already_settled o OrderStatus.payment_failed =
      mark_for_refund o (Reason.payment_settled_on OrderStatus.payment_failed)
      >> raise already_processed
  already_settled o _ = raise already_processed

  -- What a failed confirm of the hold leads to.
  unfoldable pub unconfirmed : Order → Error → Act S (Unit {0})
  unfolding mark_for_refund
  unconfirmed o cannot_confirm =
      mark_for_refund o (Reason.inventory_not_confirmed cannot_confirm) >> raise cannot_confirm
  unconfirmed o e = raise e

  unfoldable pub notify_completed : Order → Act S (Unit {0})
  unfolding publish_checkout_completed execute
  notify_completed o =
      best_effort
        (execute confirm_retries (publish_checkout_completed o.session_id o.user_id o.event_id))

  unfoldable pub fulfil : Services S → String → Order → Act S (Unit {0})
  unfolding confirm_inventory unconfirmed set_order_status free_purchase_slot notify_completed
      execute
  fulfil sv code o =
      catch (execute confirm_retries (confirm_inventory sv code)) (unconfirmed o)
      >> set_order_status o.code OrderStatus.completed
      >> free_purchase_slot confirm_retries o
      >> notify_completed o

  unfoldable pub settle : Services S → String → Order → Act S (Unit {0})
  unfolding fulfil already_settled
  settle sv code o =
      if status_eq o.status OrderStatus.pending || status_eq o.status OrderStatus.timeout
      then fulfil sv code o
      else already_settled o o.status

  -- `ConfirmOrder`
  unfoldable pub confirm_order_workflow : Services S → String → Act S (Unit {0})
  unfolding settle get_order execute
  confirm_order_workflow sv code = execute confirm_retries (get_order code) >>= settle sv code

  unfoldable pub after_expiry : Services S → Order × Bool → Act S (Unit {0})
  unfolding release_inventory free_purchase_slot publish_checkout_expired execute
  after_expiry sv (o, expired) =
      if not expired
      then pure tt
      else best_effort (execute compensation_retries (release_inventory sv o.code))
        >> free_purchase_slot compensation_retries o
        >> best_effort (
            execute compensation_retries
              (publish_checkout_expired o.session_id o.user_id o.event_id))

  -- `ExpireOrder`
  unfoldable pub expire_order_workflow : Services S → String → Act S (Unit {0})
  unfolding after_expiry expire_order execute
  expire_order_workflow sv code =
      execute compensation_retries (expire_order code) >>= after_expiry sv
