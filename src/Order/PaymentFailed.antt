-- ===== src/Order/PaymentFailed.antt =====
-- `handlePaymentFailure` of services/order-svc/internal/order/service/order.go.
use ticket_event_pf.Prelude.{◌≡◌, refl, sym, ap, ◌∙◌, subst, String, some}
use ticket_event_pf.Order.Model.{OrderStatus, Order, Error, checkout_failed}
use ticket_event_pf.Order.World.{
  Result, ok, err, World, Services, Act, pure, raise, ◌>>=◌, ◌>>◌, best_effort, ask,
}
use ticket_event_pf.Order.Repository.{find_order, get_by_code, update, upsert, set_status}
use ticket_event_pf.Order.Activities.{retag, missing_order_error, publish}
use ticket_event_pf.Order.Cancel.{handle_payment_failure}
use ticket_event_pf.Order.Outcome.{
  Ends, >>=-Ends, catch-Ends, remote-Ends, Ends-mono, Same, Same-refl,
}
use ticket_event_pf.Order.Settled.{get_by_code-Ends}
use ticket_event_pf.Order.Fulfilled.{status_of, status_of-upsert}

module _ {S : Type 0} (sv : Services S) (code : String) (o : Order) (own : o.code ≡ code)
    (w : World S) where
  abbrev IsFailed : World S → Type 0
  IsFailed v = status_of code v.orders ≡ some OrderStatus.payment_failed

  abbrev AnyEnd : Error → World S → Type 0
  AnyEnd e v = Unit {0} × Unit {0}

  release-keeps : Ends (λ _ v. v.orders ≡ w.orders) AnyEnd (best_effort (ask (sv.release code)) w)
  release-keeps =
      catch-Ends (λ _ v. v.orders ≡ w.orders) AnyEnd (λ e v. v.orders ≡ w.orders)
        (ask (sv.release code)) (λ e. pure tt) w
        (remote-Ends (λ _ v. v.orders ≡ w.orders) (λ e v. v.orders ≡ w.orders) _ w
          (λ fs. by_result (sv.release code w.services).0 _ refl) (λ fs. refl) (λ fs. refl))
        (λ e v h. h)
    where
      by_result :
          (r : Result (Unit {0})) (v : World S)
          → v.orders ≡ w.orders
          → Ends (λ _ u. u.orders ≡ w.orders) (λ e u. u.orders ≡ w.orders) (r, v)
      by_result (ok u) v h = h
      by_result (err e) v h = h

  abbrev write : Order → Act S (Unit {0})
  write x =
      update x.code OrderStatus.payment_failed
      >> best_effort (publish (checkout_failed x.session_id x.user_id x.event_id))

  write-Ends : (v : World S) → Ends (λ _ u. IsFailed u) AnyEnd (write o v)
  unfolding update publish
  write-Ends v =
      >>=-Ends (λ _ u. IsFailed u) AnyEnd (λ _ u. IsFailed u)
        (update o.code OrderStatus.payment_failed)
        (λ _. best_effort (publish (checkout_failed o.session_id o.user_id o.event_id))) v
        (remote-Ends (λ _ u. IsFailed u) AnyEnd _ v
          (λ fs.
            subst
              (λ c.
                status_of code (upsert c (set_status OrderStatus.payment_failed v.now) v.orders)
                ≡ some OrderStatus.payment_failed)
              (sym own) (status_of-upsert code OrderStatus.payment_failed v.now v.orders))
          (λ fs. (tt, tt)) (λ fs. (tt, tt)))
        (λ x u h.
          catch-Ends (λ _ t. IsFailed t) AnyEnd (λ e t. IsFailed t)
            (publish (checkout_failed o.session_id o.user_id o.event_id)) (λ e. pure tt) u
            (remote-Ends (λ _ t. IsFailed t) (λ e t. IsFailed t) _ u (λ fs. h) (λ fs. h) (λ fs. h))
            (λ e t q. q))

  -- Under any schedule of faults, a payment failure that is handled without an error leaves the order
  -- PAYMENT_FAILED, whatever status it had, COMPLETED included, given that the row under the order's
  -- key has that code.
  pub handle_payment_failure-overwrites :
      find_order code w.orders ≡ some o
      → Ends
          (λ _ v. status_of code v.orders ≡ some OrderStatus.payment_failed)
          (λ e v. Unit {0} × Unit {0})
          (handle_payment_failure sv code w)
  unfolding handle_payment_failure
  handle_payment_failure-overwrites found =
      >>=-Ends (λ _ v. IsFailed v) AnyEnd (λ _ v. v.orders ≡ w.orders)
        (best_effort (ask (sv.release code)))
        (λ _. retag missing_order_error (get_by_code code) >>= write) w release-keeps
        (λ u v k.
          >>=-Ends (λ _ t. IsFailed t) AnyEnd (λ x t. x ≡ o)
            (retag missing_order_error (get_by_code code)) write v
            (catch-Ends (λ x t. x ≡ o) AnyEnd (λ e t. Unit {0} × Unit {0}) (get_by_code code)
              (λ e. raise (missing_order_error e)) v
              (Ends-mono (λ x t. (x ≡ o) × Same v t) (λ x t. x ≡ o) (λ e t. Unit {0} × Same v t)
                AnyEnd _ (λ x t h. h.0) (λ e t h. (tt, tt))
                (get_by_code-Ends v code o (ap (find_order code) k ∙ found) v (Same-refl v)))
              (λ e t h. h))
            (λ x t e.
              subst (λ y. Ends (λ _ r. IsFailed r) AnyEnd (write y t)) (sym e) (write-Ends t)))
