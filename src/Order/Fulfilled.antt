-- ===== src/Order/Fulfilled.antt =====
-- A payment event that is answered without an error has fulfilled its order.
use ticket_event_pf.Prelude.{
  ℕ, ◌≡◌, refl, sym, ap, ◌∙◌, subst, String, ◌||◌, Option, none, some, List, [], ◌∷◌, if◌then◌else◌,
  str_eq, Bool-cases, inl, inr,
}
use ticket_event_pf.Order.Model.{
  OrderStatus, status_eq, Order, OrderRow, Error, already_processed, Reason,
}
use ticket_event_pf.Order.World.{
  Result, ok, err, then_run, World, Services, Act, pure, raise, ◌>>◌, catch, best_effort, execute,
}
use ticket_event_pf.Order.Repository.{find_order, upsert, update, set_status}
use ticket_event_pf.Order.Slots.{purchase_slot_key, release_purchase_slot}
use ticket_event_pf.Order.Activities.{
  get_order, update_order_status, publish_checkout_completed, confirm_inventory,
}
use ticket_event_pf.Order.Workflows.{
  confirm_retries, settle, already_settled, fulfil, unconfirmed, mark_for_refund, set_order_status,
  free_purchase_slot, notify_completed, confirm_order_workflow,
}
use ticket_event_pf.Order.Outcome.{
  Ends, >>=-Ends, catch-Ends, remote-Ends, execute-Ends, Ends-mono, Same, Same-refl,
}
use ticket_event_pf.Order.Settled.{get_order-Ends}
use mathlib.Core.Option.{some-injective}
use text.Mathlib.TextEquality.{eq_iff}

-- The status of the row under a key.
abbrev pub status_of : String → List OrderRow → Option OrderStatus
status_of code [] = none
status_of code (r ∷ rows) = if str_eq r.key code then some r.order.status else status_of code rows

pub status_of-upsert :
    (code : String) (s : OrderStatus) (now : ℕ) (rows : List OrderRow)
    → status_of code (upsert code (set_status s now) rows) ≡ some s
status_of-upsert code s now [] = let e = (eq_iff code code).1 refl in rw e refl
status_of-upsert code s now (r ∷ rows) = elim (Bool-cases (str_eq r.key code)) [
  | inl z ↦ rw z (rw z refl)
  | inr z ↦ rw z (rw z (status_of-upsert code s now rows))
]

module _ {S : Type 0} (code : String) where
  abbrev IsCompleted : World S → Type 0
  IsCompleted w = status_of code w.orders ≡ some OrderStatus.completed

  abbrev Done : {A : Type 0} → A → World S → Type 0
  Done a w = IsCompleted w

  abbrev Failed : Error → World S → Type 0
  Failed e w = Unit {0} × Unit {0}

  -- A step that neither fails the workflow nor writes an order.
  best_effort-Done :
      (m : Act S (Unit {0}))
      → ((w : World S) → IsCompleted w → Ends Done (λ e v. Unit {0} × IsCompleted v) (m w))
      → (n : ℕ) (w : World S) → IsCompleted w
      → Ends Done Failed (best_effort (execute n m) w)
  best_effort-Done m h n w c =
      catch-Ends Done Failed (λ e v. Unit {0} × IsCompleted v) (execute n m) (λ e. pure tt) w
        (execute-Ends Done IsCompleted (λ e. Unit {0}) m h n w c) (λ e v x. x.1)

  free_purchase_slot-Done :
      (n : ℕ) (o : Order) (w : World S)
      → IsCompleted w
      → Ends Done Failed (free_purchase_slot n o w)
  unfolding free_purchase_slot release_purchase_slot
  free_purchase_slot-Done n o w c =
      best_effort-Done
        (release_purchase_slot (purchase_slot_key o.session_id o.user_id o.event_id) o.code)
        (λ v d.
          remote-Ends Done (λ e v. Unit {0} × IsCompleted v) _ v (λ fs. d) (λ fs. (tt, d))
            (λ fs. (tt, d)))
        n w c

  notify_completed-Done :
      (o : Order) (w : World S) → IsCompleted w → Ends Done Failed (notify_completed o w)
  unfolding notify_completed
  notify_completed-Done o w c =
      best_effort-Done (publish_checkout_completed o.session_id o.user_id o.event_id) published
        confirm_retries w c
    where
      published :
          (v : World S)
          → IsCompleted v
          → Ends Done
              (λ e u. Unit {0} × IsCompleted u)
              (publish_checkout_completed o.session_id o.user_id o.event_id v)
      published v d = elim (Bool-cases (str_eq o.session_id "")) [
        | inl z ↦ rw z d
        | inr z ↦ rw z (
            remote-Ends Done (λ e u. Unit {0} × IsCompleted u) _ v (λ fs. d) (λ fs. (tt, d))
              (λ fs. (tt, d)))
      ]

  set_completed-Done :
      (w : World S) → Ends Done Failed (set_order_status code OrderStatus.completed w)
  unfolding set_order_status update_order_status update
  set_completed-Done w =
      execute-Ends Done (λ _. Unit {0}) (λ _. Unit {0})
        (update_order_status code OrderStatus.completed)
        (λ v u.
          remote-Ends Done Failed _ v
            (λ fs. status_of-upsert code OrderStatus.completed v.now v.orders) (λ fs. (tt, tt))
            (λ fs. (tt, tt)))
        confirm_retries w tt

  fulfil-Done :
      (sv : Services S) (o : Order)
      → o.code ≡ code
      → (w : World S) → Ends Done Failed (fulfil sv code o w)
  unfolding fulfil
  fulfil-Done sv o own w =
      let hold = execute confirm_retries (confirm_inventory sv code) in
      let set = set_order_status o.code OrderStatus.completed in
      let free : Act S (Unit {0}) = free_purchase_slot confirm_retries o in
      >>=-Ends Done Failed Done (catch hold (unconfirmed o) >> set >> free)
        (λ _. notify_completed o) w
        (>>=-Ends Done Failed Done (catch hold (unconfirmed o) >> set) (λ _. free) w
          (>>=-Ends Done Failed (λ _ _. Unit {0}) (catch hold (unconfirmed o)) (λ _. set) w
            (any_end (catch hold (unconfirmed o) w))
            (λ u v q.
              subst (λ c. Ends Done Failed (set_order_status c OrderStatus.completed v)) (sym own)
                (set_completed-Done v)))
          (λ u v d. free_purchase_slot-Done confirm_retries o v d))
        (λ u v d. notify_completed-Done o v d)
    where
      any_end : (r : Result (Unit {0}) × World S) → Ends (λ _ _. Unit {0}) Failed r
      any_end (ok u, v) = tt
      any_end (err e, v) = (tt, tt)

  then_raised :
      (e : Error) (m : Act S (Unit {0})) (w : World S)
      → Ends {A = Unit {0}} Done Failed ((m >> raise e) w)
  then_raised e m w = by_end (m w)
    where
      by_end :
          (r : Result (Unit {0}) × World S)
          → Ends {A = Unit {0}} Done Failed (then_run (λ _. raise e) r)
      by_end (ok u, v) = (tt, tt)
      by_end (err x, v) = (tt, tt)

  abbrev OutcomeOf : Services S → Order → World S → OrderStatus → Type 0
  OutcomeOf sv o w s = Ends {A = Unit {0}} Done Failed (
      (if status_eq s OrderStatus.pending || status_eq s OrderStatus.timeout
          then fulfil sv code o
          else already_settled o s)
        w)

  settle-Done :
      (sv : Services S) (o : Order) (s : OrderStatus)
      → o.code ≡ code
      → o.status ≡ s
      → (w : World S) → status_of code w.orders ≡ some s
      → Ends Done Failed (settle sv code o w)
  unfolding settle already_settled
  settle-Done sv o OrderStatus.pending own e w h = rw e (fulfil-Done sv o own w)
  settle-Done sv o OrderStatus.timeout own e w h = rw e (fulfil-Done sv o own w)
  settle-Done sv o OrderStatus.completed own e w h = rw e h
  settle-Done sv o OrderStatus.refunded own e w h = rw e (tt, tt)
  settle-Done sv o OrderStatus.refund_required own e w h = rw e (tt, tt)
  settle-Done sv o (OrderStatus.other x) own e w h = rw e (tt, tt)
  settle-Done sv o OrderStatus.cancelled own e w h = subst (OutcomeOf sv o w) (sym e) (
      then_raised already_processed
        (mark_for_refund o (Reason.payment_settled_on OrderStatus.cancelled)) w)
  settle-Done sv o OrderStatus.payment_failed own e w h = subst (OutcomeOf sv o w) (sym e) (
      then_raised already_processed
        (mark_for_refund o (Reason.payment_settled_on OrderStatus.payment_failed)) w)

status_of-found :
    (code : String) (o : Order) (rows : List OrderRow)
    → find_order code rows ≡ some o
    → status_of code rows ≡ some o.status
status_of-found code o [] h = cc
status_of-found code o (r ∷ rows) h = elim (Bool-cases (str_eq r.key code)) [
  | inl z ↦ rw z (ap (λ (x : Order). some x.status) (some-injective _ _ (rw z at h)))
  | inr z ↦ rw z (status_of-found code o rows (rw z at h))
]

-- Under any schedule of faults, a payment event that `ConfirmOrder` answers without an error leaves the
-- order COMPLETED, given that the row under the order's key has that code.
pub confirm_order_workflow-completes :
    {S : Type 0} (sv : Services S) (code : String) (o : Order) (w : World S)
    → find_order code w.orders ≡ some o
    → o.code ≡ code
    → Ends
        (λ _ v. status_of code v.orders ≡ some OrderStatus.completed)
        (λ e v. Unit {0} × Unit {0})
        (confirm_order_workflow sv code w)
unfolding confirm_order_workflow
confirm_order_workflow-completes {S} sv code o w found own =
    let P : Order → World S → Type 0 = λ x v. (x ≡ o) × Same w v in
    >>=-Ends (Done code) (Failed code) P (execute confirm_retries (get_order code)) (settle sv code)
      w
      (Ends-mono P P (λ e v. Unit {0} × Same w v) (Failed code) _ (λ x v h. h) (λ e v h. (tt, tt))
        (execute-Ends P (Same w) (λ e. Unit {0}) (get_order code) (get_order-Ends w code o found)
          confirm_retries w (Same-refl w)))
      (λ x v h.
        subst (λ y. Ends (Done code) (Failed code) (settle sv code y v)) (sym h.0)
          (settle-Done code sv o o.status own refl v
            (status_of-found code o v.orders (ap (find_order code) h.1.0 ∙ found))))
