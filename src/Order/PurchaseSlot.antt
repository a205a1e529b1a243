-- ===== src/Order/PurchaseSlot.antt =====
-- The claim of a purchase slot by services/order-svc/internal/order/service/order.go.
use ticket_event_pf.Prelude.{
  ℕ, zero, suc, ◌-◌, String, Bool, true, false, Option, none, some, List, ltb, if◌then◌else◌,
  str_append,
}
use ticket_event_pf.Order.Model.{
  OrderStatus, status_eq, Order, OrderItem, permission_denied, not_found, Error, grpc,
  repo_order_not_found, already_processed, purchase_slot_unsettled, purchase_slot_released,
}
use ticket_event_pf.Order.World.{
  World, Services, Result, ok, err, Act, pure, raise, ◌>>=◌, ◌>>◌, catch, best_effort, ask,
}
use ticket_event_pf.Order.Repository.{get_by_code}
use ticket_event_pf.Order.Items.{list_items}
use ticket_event_pf.Order.Slots.{claim_purchase_slot, release_purchase_slot}
use ticket_event_pf.Order.Budget.{purchase_slot_settle_window}

abbrev pub claim_attempts : ℕ
claim_attempts = 3

-- `generatePaymentIdempotencyKey`
abbrev pub payment_idempotency_key : String → String → String
payment_idempotency_key code provider = str_append code (str_append ":" provider)

pub record CreateOrderOutput : Type 0 where
  pub order : Order
  pub order_items : List OrderItem
  pub payment_url : String

abbrev pub is_payment_record_missing : Error → Bool
is_payment_record_missing (grpc permission_denied) = true
is_payment_record_missing (grpc not_found) = true
is_payment_record_missing _ = false

-- What the status of the order that holds a slot means for a new create.
pub data Hold : Type 0 where
  resumed over unknown : Hold

unfoldable pub hold_of : OrderStatus → Hold
hold_of OrderStatus.pending = Hold.resumed
hold_of OrderStatus.completed = Hold.resumed
hold_of OrderStatus.cancelled = Hold.over
hold_of OrderStatus.payment_failed = Hold.over
hold_of OrderStatus.timeout = Hold.over
hold_of OrderStatus.refund_required = Hold.over
hold_of OrderStatus.refunded = Hold.over
hold_of (OrderStatus.other s) = Hold.unknown

-- Whether a claim of this age may still be a create in flight. A claim with no time is of any age.
abbrev pub is_settling : ℕ → Option ℕ → ℕ → Bool
is_settling create_timeout none now = false
is_settling create_timeout (some t) now = ltb (now - t) (purchase_slot_settle_window create_timeout)

-- `errors.Is(err, errPurchaseSlotReleased)`
abbrev pub is_released : Error → Bool
is_released purchase_slot_released = true
is_released _ = false

module _ {S : Type 0} where
  -- `releasePurchaseSlot` of the service.
  unfoldable pub drop_slot : String → String → Act S (Unit {0})
  unfolding release_purchase_slot
  drop_slot k code = best_effort (release_purchase_slot k code)

  -- A slot that names an order that is not there.
  unfoldable pub unwritten : ℕ → String → String → Option ℕ → Act S CreateOrderOutput
  unfolding drop_slot purchase_slot_settle_window
  unwritten create_timeout k code claimed_at w =
      (if is_settling create_timeout claimed_at w.now
          then raise purchase_slot_unsettled
          else drop_slot k code >> raise purchase_slot_unsettled)
        w

  abbrev pub no_payment : Order → Error → Act S String
  no_payment o e =
      if status_eq o.status OrderStatus.pending
      then (if is_payment_record_missing e then raise purchase_slot_unsettled else raise e)
      else raise e

  -- The order is answered as it stands.
  unfoldable pub resume : Services S → String → Order → Act S CreateOrderOutput
  unfolding list_items
  resume sv method o = list_items o.code >>= λ itms.
      catch (ask (λ s. (sv.get_payment_url (payment_idempotency_key o.code method) s, s)))
        (no_payment o)
      >>= λ url. pure (record { order = o; order_items = itms; payment_url = url })

  unfoldable pub resume_by :
      Hold → Services S → String → String → String → Order → Act S CreateOrderOutput
  unfolding resume drop_slot
  resume_by Hold.resumed sv k code method o = resume sv method o
  resume_by Hold.over sv k code method o = drop_slot k code >> raise purchase_slot_released
  resume_by Hold.unknown sv k code method o = raise already_processed

  abbrev pub found_or_unwritten :
      Services S
      → ℕ
      → String
      → String
      → Option ℕ
      → String
      → Result Order × World S
      → Result CreateOrderOutput × World S
  found_or_unwritten sv create_timeout k code claimed_at method (ok o, v) =
      resume_by (hold_of o.status) sv k code method o v
  found_or_unwritten sv create_timeout k code claimed_at method (err repo_order_not_found, v) =
      unwritten create_timeout k code claimed_at v
  found_or_unwritten sv create_timeout k code claimed_at method (err e, v) = (err e, v)

  -- `resumeExistingOrder`
  unfoldable pub resume_existing_order :
      Services S → ℕ → String → String → Option ℕ → String → Act S CreateOrderOutput
  unfolding get_by_code resume_by unwritten hold_of
  resume_existing_order sv create_timeout k code claimed_at method w =
      found_or_unwritten sv create_timeout k code claimed_at method (get_by_code code w)

  abbrev pub retake :
      Act S (Option CreateOrderOutput)
      → Result CreateOrderOutput × World S
      → Result (Option CreateOrderOutput) × World S
  retake again (ok out, v) = (ok (some out), v)
  retake again (err e, v) = (if is_released e then again else raise e) v

  -- `claimPurchaseSlot`: `none` where this request took the slot.
  unfoldable pub claim_loop :
      ℕ → Services S → ℕ → String → String → String → Act S (Option CreateOrderOutput)
  unfolding claim_purchase_slot resume_existing_order
  claim_loop zero sv create_timeout k code method = raise purchase_slot_unsettled
  claim_loop (suc n) sv create_timeout k code method =
      let again = claim_loop n sv create_timeout k code method in
      claim_purchase_slot k code >>= λ x. elim x [
        | none ↦ pure none
        | some (held_by, claimed_at) ↦ λ w.
            retake again (resume_existing_order sv create_timeout k held_by claimed_at method w)
      ]
