-- ===== src/Order/Cancel.antt =====
-- `Cancel`, `ownedOrder` and `handlePaymentFailure` of
-- services/order-svc/internal/order/service/order.go.
use ticket_event_pf.Prelude.{String, Bool, not, if◌then◌else◌, str_eq}
use ticket_event_pf.Order.Model.{
  OrderStatus, status_eq, Order, order_not_found, order_not_pending, order_cancellation_failed,
  checkout_failed,
}
use ticket_event_pf.Order.World.{Services, Act, pure, raise, ◌>>=◌, ◌>>◌, best_effort, ask}
use ticket_event_pf.Order.Repository.{get_by_code, update, cancel_if_pending}
use ticket_event_pf.Order.Activities.{retag, missing_order_error, publish}

module _ {S : Type 0} where
  -- `ownedOrder`
  unfoldable pub owned_order : String → String → Act S Order
  unfolding get_by_code
  owned_order code user = retag missing_order_error (get_by_code code) >>= λ o.
      if str_eq o.user_id user then pure o else raise order_not_found

  unfoldable pub notify_failed : Order → Act S (Unit {0})
  unfolding publish
  notify_failed o =
      if str_eq o.session_id ""
      then pure tt
      else best_effort (publish (checkout_failed o.session_id o.user_id o.event_id))

  unfoldable pub after_cancel : Services S → Order → Order × Bool → Act S (Unit {0})
  unfolding notify_failed
  after_cancel sv o (o', cancelled) =
      if not cancelled
      then raise order_not_pending
      else best_effort (ask (sv.release o.code)) >> notify_failed o

  -- `Cancel`
  unfoldable pub cancel : Services S → String → String → Act S (Unit {0})
  unfolding owned_order after_cancel
  cancel sv code user = owned_order code user >>= λ o.
      if not (status_eq o.status OrderStatus.pending)
      then raise order_not_pending
      else retag (λ e. order_cancellation_failed) (cancel_if_pending o.code) >>= after_cancel sv o

  -- `handlePaymentFailure`
  unfoldable pub handle_payment_failure : Services S → String → Act S (Unit {0})
  unfolding get_by_code update publish
  handle_payment_failure sv code =
      best_effort (ask (sv.release code))
      >> (retag missing_order_error (get_by_code code) >>= λ o.
          update o.code OrderStatus.payment_failed
          >> best_effort (publish (checkout_failed o.session_id o.user_id o.event_id)))
