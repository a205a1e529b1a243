-- ===== src/Order/Tests.antt =====
-- The orders on concrete data: a service that accepts every call, and one order.
use mathlib.Core.Option.{some-injective}
use ticket_event_pf.Prelude.{
  ℕ, ◌+◌, ◌-◌, ◌*◌, ◌≡◌, refl, ◌&&◌, false, none, some, List, [], ◌∷◌, arith, str_eq, subst,
}
use ticket_event_pf.Order.Model.{OrderStatus, Order, Slot}
use ticket_event_pf.Order.World.{
  ok, Fault, fine, lost, unacked, World, Services, ◌>>◌, best_effort, execute,
}
use ticket_event_pf.Order.Slots.{
  find_slot, held_by_order, claim_of, claim_purchase_slot, release_purchase_slot,
}
use ticket_event_pf.Order.Activities.{delete_order_items, release_inventory}
use ticket_event_pf.Order.Workflows.{
  compensate, compensation_retries, confirm_order_workflow, expire_order_workflow,
}
use ticket_event_pf.Order.Budget.{
  create_order_activity_options, activity_retry_budget, create_order_slot_budget,
  activity_retry_budget-waits, waits_from,
}
use ticket_event_pf.Order.PurchaseSlot.{claim_attempts, claim_loop, resume_existing_order}
use ticket_event_pf.Order.Outcome.{Ends, Same}
use ticket_event_pf.Order.Settled.{
  confirm_order_workflow-redelivered, expire_order_workflow-settled,
}
use ticket_event_pf.Order.Claimed.{
  holder, claim_loop-holds, Claims, claim_purchase_slot-Claims, release_purchase_slot-others,
}
use ticket_event_pf.Order.Resumed.{resume_existing_order-live, resume_existing_order-settling}
use ticket_event_pf.Order.Fulfilled.{status_of, confirm_order_workflow-completes}
use ticket_event_pf.Order.Cancel.{handle_payment_failure}
use ticket_event_pf.Order.PaymentFailed.{handle_payment_failure-overwrites}
use ticket_event_pf.Order.Compensated.{compensate-newest_first}

-- The state of the services is the number of calls they took.
abbrev services : Services ℕ
services = record {
  reserve = λ code exp items n. (ok tt, n + 1);
  release = λ code n. (ok tt, n + 1);
  confirm = λ code n. (ok tt, n + 1);
  create_payment_intent = λ i n. (ok "url", n + 1);
  get_payment_url = λ k n. ok "url";
}

abbrev order_in : OrderStatus → Order
order_in s = record {
  code = "A";
  session_id = "";
  user_id = "u";
  user_full_name = "U";
  email = "u@x";
  phone = "1";
  event_id = "e";
  total_amount = 500;
  currency = "VND";
  payment_method = "VNPAY";
  status = s;
  paid_at = none;
  created_at = 0;
  updated_at = 0;
  deleted_at = none;
}

abbrev world_with : OrderStatus → List Fault → World ℕ
world_with s faults = record {
  orders = record { key = "A"; order = order_in s } ∷ [];
  items = [];
  slots = claim_of "k" "A" 1 ∷ [];
  events = [];
  services = 0;
  now = 5;
  faults = faults;
}

not_b :
    (s : Slot)
    → find_slot "k" (claim_of "k" "A" 1 ∷ []) ≡ some s
    → (str_eq s.dedupe_key "k" && held_by_order "B" s) ≡ false
not_b s e =
    subst (λ x. (str_eq x.dedupe_key "k" && held_by_order "B" x) ≡ false) (some-injective _ _ e)
      refl

confirm_test :
    (confirm_order_workflow services "A" (world_with OrderStatus.pending (unacked ∷ lost ∷ []))).0
    ≡ ok tt
unfolding confirm_order_workflow
confirm_test = refl

budget_test : create_order_slot_budget ≡ 1230
unfolding create_order_slot_budget
budget_test = refl

confirm_order_workflow-redelivered_example :
    Same
      (world_with OrderStatus.refunded (unacked ∷ []))
      (confirm_order_workflow services "A" (world_with OrderStatus.refunded (unacked ∷ []))).1
confirm_order_workflow-redelivered_example =
    confirm_order_workflow-redelivered services (world_with OrderStatus.refunded (unacked ∷ [])) "A"
      (order_in OrderStatus.refunded) refl refl

confirm_order_workflow-completes_example :
    Ends
      (λ _ v. status_of "A" v.orders ≡ some OrderStatus.completed)
      (λ e v. Unit {0} × Unit {0})
      (confirm_order_workflow services "A" (world_with OrderStatus.timeout (lost ∷ [])))
confirm_order_workflow-completes_example =
    confirm_order_workflow-completes services "A" (order_in OrderStatus.timeout)
      (world_with OrderStatus.timeout (lost ∷ [])) refl refl

expire_order_workflow-settled_example :
    Same
      (world_with OrderStatus.completed (unacked ∷ []))
      (expire_order_workflow services "A" (world_with OrderStatus.completed (unacked ∷ []))).1
expire_order_workflow-settled_example =
    expire_order_workflow-settled services (world_with OrderStatus.completed (unacked ∷ [])) "A"
      (order_in OrderStatus.completed) refl refl refl

claim_purchase_slot-Claims_example :
    Ends
      (Claims "j" "B" (world_with OrderStatus.pending []))
      (λ e v. Unit {0})
      (claim_purchase_slot "j" "B" (world_with OrderStatus.pending []))
claim_purchase_slot-Claims_example =
    claim_purchase_slot-Claims "j" "B" (world_with OrderStatus.pending [])

release_purchase_slot-others_example :
    find_slot "k" (release_purchase_slot "k" "B" (world_with OrderStatus.pending [])).1.slots
    ≡ find_slot "k" (world_with OrderStatus.pending []).slots
release_purchase_slot-others_example =
    release_purchase_slot-others "k" "B" "k" (world_with OrderStatus.pending []) not_b

resume_existing_order-live_example :
    Same
      (world_with OrderStatus.pending (fine ∷ lost ∷ []))
      (resume_existing_order services 30 "k" "A"
        (some 1)
        "VNPAY"
        (world_with OrderStatus.pending (fine ∷ lost ∷ []))).1
resume_existing_order-live_example =
    resume_existing_order-live services 30 "k" "A" (some 1) "VNPAY"
      (world_with OrderStatus.pending (fine ∷ lost ∷ [])) (order_in OrderStatus.pending) refl refl
      tt

resume_existing_order-settling_example :
    Same
      (world_with OrderStatus.pending [])
      (resume_existing_order services 30 "k" "Z"
        (some 1)
        "VNPAY"
        (world_with OrderStatus.pending [])).1
resume_existing_order-settling_example =
    resume_existing_order-settling services 30 "k" "Z" (some 1) "VNPAY"
      (world_with OrderStatus.pending []) 1 refl refl (omega arith)

compensate-newest_first_example :
    compensate
      (release_inventory services "A" ∷ delete_order_items "A" ∷ [])
      (world_with OrderStatus.pending (lost ∷ []))
    ≡ (best_effort (execute compensation_retries (delete_order_items "A"))
          >> compensate (release_inventory services "A" ∷ []))
        (world_with OrderStatus.pending (lost ∷ []))
compensate-newest_first_example =
    compensate-newest_first (release_inventory services "A" ∷ []) (delete_order_items "A")
      (world_with OrderStatus.pending (lost ∷ []))

activity_retry_budget-waits_example :
    activity_retry_budget create_order_activity_options
    ≡ create_order_activity_options.start_to_close_timeout
        * create_order_activity_options.maximum_attempts
      + waits_from create_order_activity_options 0
          (create_order_activity_options.maximum_attempts - 1)
activity_retry_budget-waits_example =
    activity_retry_budget-waits create_order_activity_options (omega arith) (omega arith)

claim_loop-holds_example :
    Ends
      (λ x v. x ≡ none → holder "j" v.slots ≡ some "B")
      (λ e v. Unit {0})
      (claim_loop claim_attempts services 30 "j" "B" "VNPAY" (world_with OrderStatus.pending []))
claim_loop-holds_example =
    claim_loop-holds services 30 "j" "B" "VNPAY" claim_attempts (world_with OrderStatus.pending [])

handle_payment_failure-overwrites_example :
    Ends
      (λ _ v. status_of "A" v.orders ≡ some OrderStatus.payment_failed)
      (λ e v. Unit {0} × Unit {0})
      (handle_payment_failure services "A" (world_with OrderStatus.completed []))
handle_payment_failure-overwrites_example =
    handle_payment_failure-overwrites services "A" (order_in OrderStatus.completed) refl
      (world_with OrderStatus.completed []) refl
