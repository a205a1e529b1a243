-- ===== src/Order/Activities.antt =====
-- services/order-svc/internal/activities: what the workflows run, and how an error is tagged.
use ticket_event_pf.Prelude.{ℕ, String, Bool, not, ◌||◌, List, [], ◌∷◌, ◌++◌, if◌then◌else◌, str_eq}
use ticket_event_pf.Order.Model.{
  OrderStatus, Order, OrderItem, CreateOrderOption, CreateOrderItemOption, Event,
  failed_precondition, not_found, Error, grpc, repo_order_not_found, order_already_exists,
  not_enough_tickets, order_code_collision, cannot_confirm, order_not_found, ReserveItem,
  PaymentIntent, Event, checkout_completed, checkout_expired,
}
use ticket_event_pf.Order.World.{Services, ok, Act, pure, raise, ◌>>=◌, catch, remote, ask}
use ticket_event_pf.Order.Repository.{create, get_by_code, update, expire_if_pending, delete}
use ticket_event_pf.Order.Items.{create_many_items, delete_items}

-- How the error of a call is reported.
abbrev pub reserve_error : Error → Error
reserve_error (grpc failed_precondition) = not_enough_tickets
reserve_error e = e

abbrev pub confirm_error : Error → Error
confirm_error (grpc failed_precondition) = cannot_confirm
confirm_error (grpc not_found) = cannot_confirm
confirm_error e = e

abbrev pub missing_order_error : Error → Error
missing_order_error repo_order_not_found = order_not_found
missing_order_error e = e

module _ {S : Type 0} where
  abbrev pub retag : {A : Type 0} → (Error → Error) → Act S A → Act S A
  retag f m = catch m (λ e. raise (f e))

  -- Inventory.
  unfoldable pub reserve_inventory : Services S → String → ℕ → List ReserveItem → Act S (Unit {0})
  reserve_inventory sv code expires_at items =
      retag reserve_error (ask (sv.reserve code expires_at items))

  unfoldable pub release_inventory : Services S → String → Act S (Unit {0})
  release_inventory sv code = ask (sv.release code)

  unfoldable pub confirm_inventory : Services S → String → Act S (Unit {0})
  confirm_inventory sv code = retag confirm_error (ask (sv.confirm code))

  -- Orders. A create that finds the code taken serves the order that is there, if it is this buyer's.
  abbrev pub serve_existing : CreateOrderOption → Order → Act S Order
  serve_existing opt o =
      if not (str_eq o.user_id opt.user_id) || not (str_eq o.event_id opt.event_id)
      then raise order_code_collision
      else pure o

  abbrev pub after_create_error : CreateOrderOption → Error → Act S Order
  after_create_error opt order_already_exists = get_by_code opt.code >>= serve_existing opt
  after_create_error opt e = raise e

  unfoldable pub create_order : CreateOrderOption → Act S Order
  unfolding create get_by_code
  create_order opt = catch (create opt) (after_create_error opt)

  unfoldable pub create_order_items : String → List CreateOrderItemOption → Act S (List OrderItem)
  unfolding create_many_items
  create_order_items code items = create_many_items code items

  unfoldable pub get_order : String → Act S Order
  unfolding get_by_code
  get_order code = retag missing_order_error (get_by_code code)

  unfoldable pub update_order_status : String → OrderStatus → Act S (Unit {0})
  unfolding update
  update_order_status code s = update code s

  -- The order, and whether it is TIMEOUT.
  unfoldable pub expire_order : String → Act S (Order × Bool)
  expire_order code = retag missing_order_error (expire_if_pending code)

  unfoldable pub delete_order : String → Act S (Unit {0})
  unfolding delete
  delete_order code = delete code

  unfoldable pub delete_order_items : String → Act S (Unit {0})
  unfolding delete_items
  delete_order_items code = delete_items code

  -- Payment.
  unfoldable pub create_payment_intent : Services S → PaymentIntent → Act S String
  create_payment_intent sv i = ask (sv.create_payment_intent i)

  -- Events.
  unfoldable pub publish : Event → Act S (Unit {0})
  publish e = remote λ w. (ok tt, record w { events = w.events ++ e ∷ [] })

  unfoldable pub publish_checkout_completed : String → String → String → Act S (Unit {0})
  unfolding publish
  publish_checkout_completed session user event =
      if str_eq session "" then pure tt else publish (checkout_completed session user event)

  unfoldable pub publish_checkout_expired : String → String → String → Act S (Unit {0})
  unfolding publish
  publish_checkout_expired session user event =
      if str_eq session "" then pure tt else publish (checkout_expired session user event)
