-- ===== src/Order/Settled.antt =====
-- What a payment event or an expired hold does to an order that is settled: nothing.
use ticket_event_pf.Prelude.{
  ℕ, ◌≡◌, refl, sym, ap, ◌∙◌, subst, String, Bool, true, false, Option, none, some,
}
use ticket_event_pf.Order.Model.{OrderStatus, status_eq, Order, Error, repo_order_not_found}
use ticket_event_pf.Order.World.{Result, ok, err, World, Services, pure, raise, execute}
use ticket_event_pf.Order.Repository.{
  find_order, undeleted, get_by_code, update_pending, if_pending, or_read, leave_pending,
}
use ticket_event_pf.Order.Activities.{get_order, expire_order, missing_order_error}
use ticket_event_pf.Order.Workflows.{
  confirm_retries, compensation_retries, settle, already_settled, confirm_order_workflow,
  after_expiry, expire_order_workflow,
}
use ticket_event_pf.Order.Outcome.{
  Ends, >>=-Ends, catch-Ends, remote-Ends, execute-Ends, Same, Same-refl,
}

module _ {S : Type 0} (w : World S) (code : String) (o : Order)
    (found : find_order code w.orders ≡ some o) where
  -- Nothing but the order itself is read.
  abbrev pub Reads : Order → World S → Type 0
  Reads x v = (x ≡ o) × Same w v

  undeleted-Ends :
      (v : World S)
      → Same w v
      → Ends Reads (λ e u. Unit {0} × Same w u) (undeleted (find_order code v.orders), v)
  undeleted-Ends v s =
      let e : find_order code v.orders ≡ some o = ap (find_order code) s.0 ∙ found in
      rw e (by_mark o.deleted_at)
    where
      by_mark :
          (d : Option ℕ)
          → Ends Reads
              (λ e u. Unit {0} × Same w u)
              (elim d as (λ x. Result Order) [ none ↦ ok o | some t ↦ err repo_order_not_found ], v)
      by_mark none = (refl, s)
      by_mark (some t) = (tt, s)

  pub get_by_code-Ends :
      (v : World S) → Same w v → Ends Reads (λ e u. Unit {0} × Same w u) (get_by_code code v)
  unfolding get_by_code
  get_by_code-Ends v s =
      remote-Ends Reads (λ e u. Unit {0} × Same w u)
        (λ u. (undeleted (find_order code u.orders), u)) v
        (λ fs. undeleted-Ends (record v { faults = fs }) s) (λ fs. (tt, s)) (λ fs. (tt, s))

  pub get_order-Ends :
      (v : World S) → Same w v → Ends Reads (λ e u. Unit {0} × Same w u) (get_order code v)
  unfolding get_order
  get_order-Ends v s =
      catch-Ends Reads (λ e u. Unit {0} × Same w u) (λ e u. Unit {0} × Same w u) (get_by_code code)
        (λ e. raise (missing_order_error e)) v (get_by_code-Ends v s) (λ e u h. h)

  update_pending-Ends :
      (to : OrderStatus)
      → status_eq o.status OrderStatus.pending ≡ false
      → (v : World S) → Same w v
      → Ends
          (λ (x : Option Order) u. (x ≡ none) × Same w u)
          (λ e u. Unit {0} × Same w u)
          (update_pending code to v)
  unfolding update_pending
  update_pending-Ends to n v s =
      remote-Ends (λ (x : Option Order) u. (x ≡ none) × Same w u) (λ e u. Unit {0} × Same w u)
        (λ u. if_pending code to (find_order code u.orders) u) v
        (λ fs. refused (record v { faults = fs }) s) (λ fs. (tt, s))
        (λ fs. (tt, unchanged (record v { faults = fs }) s))
    where
      same_row : (u : World S) → Same w u → find_order code u.orders ≡ some o
      same_row u s = ap (find_order code) s.0 ∙ found

      refused :
          (u : World S)
          → Same w u
          → Ends
              (λ (x : Option Order) u. (x ≡ none) × Same w u)
              (λ e u. Unit {0} × Same w u)
              (if_pending code to (find_order code u.orders) u)
      refused u s = rw (same_row u s) (rw n (refl, s))

      unchanged :
          (u : World S) → Same w u → Same w (if_pending code to (find_order code u.orders) u).1
      unchanged u s = rw (same_row u s) (rw n s)

  leave_pending-Ends :
      (to : OrderStatus)
      → status_eq o.status OrderStatus.pending ≡ false
      → (v : World S) → Same w v
      → Ends
          (λ (x : Order × Bool) u. (x ≡ (o, status_eq o.status to)) × Same w u)
          (λ e u. Unit {0} × Same w u)
          (leave_pending code to v)
  unfolding leave_pending
  leave_pending-Ends to n v s =
      let P : Order × Bool → World S → Type 0 =
        λ x u. (x ≡ (o, status_eq o.status to)) × Same w u in
      let E : Error → World S → Type 0 = λ e u. Unit {0} × Same w u in
      >>=-Ends P E (λ x u. (x ≡ none) × Same w u) (update_pending code to) (or_read code to) v
        (update_pending-Ends to n v s)
        (λ x u h.
          subst (λ y. Ends P E (or_read code to y u)) (sym h.0)
            (>>=-Ends P E Reads (get_by_code code) (λ y. pure (y, status_eq y.status to)) u
              (get_by_code-Ends u h.1) (λ y t q. (ap (λ z. (z, status_eq z.status to)) q.0, q.1))))

-- The world that a call leaves, where it is the same however the call ends.
pub Same-after :
    {S A : Type 0} (w : World S) (r : Result A × World S)
    → Ends (λ _ v. Same w v) (λ e v. Unit {0} × Same w v) r
    → Same w r.1
Same-after w (ok a, v) h = h
Same-after w (err e, v) h = h.1

-- The outcomes that a payment event does not change.
abbrev pub is_closed : OrderStatus → Bool
is_closed OrderStatus.completed = true
is_closed OrderStatus.refund_required = true
is_closed OrderStatus.refunded = true
is_closed _ = false

settled-Ends :
    {S : Type 0} (sv : Services S) (w : World S) (code : String) (o : Order) (s : OrderStatus)
    → o.status ≡ s
    → is_closed s ≡ true
    → (v : World S) → Same w v
    → Ends (λ _ u. Same w u) (λ e u. Unit {0} × Same w u) (settle sv code o v)
unfolding settle already_settled
settled-Ends sv w code o OrderStatus.completed e c v s = rw e s
settled-Ends sv w code o OrderStatus.refund_required e c v s = rw e (tt, s)
settled-Ends sv w code o OrderStatus.refunded e c v s = rw e (tt, s)
settled-Ends sv w code o OrderStatus.pending e c v s = cc
settled-Ends sv w code o OrderStatus.timeout e c v s = cc
settled-Ends sv w code o OrderStatus.cancelled e c v s = cc
settled-Ends sv w code o OrderStatus.payment_failed e c v s = cc
settled-Ends sv w code o (OrderStatus.other x) e c v s = cc

-- A payment event that is delivered again for an order that is COMPLETED, REFUND_REQUIRED or REFUNDED
-- changes no table, publishes nothing and calls no service, whichever of its calls fail.
pub confirm_order_workflow-redelivered :
    {S : Type 0} (sv : Services S) (w : World S) (code : String) (o : Order)
    → find_order code w.orders ≡ some o
    → is_closed o.status ≡ true
    → Same w (confirm_order_workflow sv code w).1
unfolding confirm_order_workflow
confirm_order_workflow-redelivered {S} sv w code o found c =
    let P : Order → World S → Type 0 = λ x v. (x ≡ o) × Same w v in
    let E : Error → World S → Type 0 = λ e v. Unit {0} × Same w v in
    Same-after w (confirm_order_workflow sv code w) (
      >>=-Ends (λ _ v. Same w v) E P (execute confirm_retries (get_order code)) (settle sv code) w
        (execute-Ends P (Same w) (λ e. Unit {0}) (get_order code) (get_order-Ends w code o found)
          confirm_retries w (Same-refl w))
        (λ x v h.
          subst (λ y. Ends (λ _ u. Same w u) E (settle sv code y v)) (sym h.0)
            (settled-Ends sv w code o o.status refl c v h.1)))

-- An order that is neither PENDING nor TIMEOUT when its hold expires is left alone: its checkout clock
-- changes no table, publishes nothing and calls no service, whichever of its calls fail.
pub expire_order_workflow-settled :
    {S : Type 0} (sv : Services S) (w : World S) (code : String) (o : Order)
    → find_order code w.orders ≡ some o
    → status_eq o.status OrderStatus.pending ≡ false
    → status_eq o.status OrderStatus.timeout ≡ false
    → Same w (expire_order_workflow sv code w).1
unfolding expire_order_workflow expire_order after_expiry
expire_order_workflow-settled {S} sv w code o found n t =
    let P : Order × Bool → World S → Type 0 = λ x v. (x ≡ (o, false)) × Same w v in
    let E : Error → World S → Type 0 = λ e v. Unit {0} × Same w v in
    Same-after w (expire_order_workflow sv code w) (
      >>=-Ends (λ _ v. Same w v) E P (execute compensation_retries (expire_order code))
        (after_expiry sv) w
        (execute-Ends P (Same w) (λ e. Unit {0}) (expire_order code) attempt compensation_retries w
          (Same-refl w))
        (λ x v h. subst (λ y. Ends (λ _ u. Same w u) E (after_expiry sv y v)) (sym h.0) h.1))
  where
    attempt :
        (v : World S)
        → Same w v
        → Ends
            (λ (x : Order × Bool) u. (x ≡ (o, false)) × Same w u)
            (λ e u. Unit {0} × Same w u)
            (expire_order code v)
    attempt v s =
        catch-Ends (λ (x : Order × Bool) u. (x ≡ (o, false)) × Same w u)
          (λ e u. Unit {0} × Same w u) (λ e u. Unit {0} × Same w u)
          (leave_pending code OrderStatus.timeout) (λ e. raise (missing_order_error e)) v
          (subst
            (λ b.
              Ends (λ (x : Order × Bool) u. (x ≡ (o, b)) × Same w u) (λ e u. Unit {0} × Same w u)
                (leave_pending code OrderStatus.timeout v))
            t (leave_pending-Ends w code o found OrderStatus.timeout n v s))
          (λ e u h. h)
