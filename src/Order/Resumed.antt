-- ===== src/Order/Resumed.antt =====
-- What a create that finds the slot taken does to the order and the claim that it finds.
use ticket_event_pf.Prelude.{
  ℕ, ◌+◌, ◌*◌, ◌<◌, ◌≡◌, refl, ◌≢◌, arith, String, true, false, Option, none, some, List,
  if◌then◌else◌, rows_where,
}
use ticket_event_pf.Order.Model.{OrderStatus, status_eq, Order, Error, purchase_slot_unsettled}
use ticket_event_pf.Order.World.{
  Result, ok, err, World, Services, Act, Fault, fine, lost, unacked, next_fault, suffer, pure,
  raise, ◌>>=◌, catch, ask,
}
use ticket_event_pf.Order.Repository.{find_order, undeleted, get_by_code}
use ticket_event_pf.Order.Items.{list_items, is_item_of}
use ticket_event_pf.Order.PurchaseSlot.{
  Hold, hold_of, is_settling, unwritten, no_payment, resume, resume_by, found_or_unwritten,
  resume_existing_order, payment_idempotency_key, is_payment_record_missing,
}
use ticket_event_pf.Order.Budget.{purchase_slot_settle_window}
use ticket_event_pf.Order.Outcome.{Ends, >>=-Ends, catch-Ends, remote-Ends, Same, Same-refl}
use ticket_event_pf.Order.Settled.{Same-after}

-- The statuses of an order that keeps its slot, for its buyer or because nothing is known of it.
abbrev pub IsKept : OrderStatus → Type 0
IsKept OrderStatus.pending = Unit
IsKept OrderStatus.completed = Unit
IsKept (OrderStatus.other s) = Unit
IsKept OrderStatus.cancelled = ⊥
IsKept OrderStatus.payment_failed = ⊥
IsKept OrderStatus.timeout = ⊥
IsKept OrderStatus.refund_required = ⊥
IsKept OrderStatus.refunded = ⊥

hold_of-IsKept : (s : OrderStatus) → IsKept s → hold_of s ≢ Hold.over
unfolding hold_of
hold_of-IsKept OrderStatus.pending k = λ e. cc
hold_of-IsKept OrderStatus.completed k = λ e. cc
hold_of-IsKept (OrderStatus.other s) k = λ e. cc
hold_of-IsKept OrderStatus.cancelled k = absurd k
hold_of-IsKept OrderStatus.payment_failed k = absurd k
hold_of-IsKept OrderStatus.timeout k = absurd k
hold_of-IsKept OrderStatus.refund_required k = absurd k
hold_of-IsKept OrderStatus.refunded k = absurd k

module _ {S : Type 0} (w : World S) where
  abbrev Unchanged : {A : Type 0} → A → World S → Type 0
  Unchanged a v = Same w v

  abbrev UnchangedErr : Error → World S → Type 0
  UnchangedErr e v = Unit {0} × Same w v

  list_items-Ends :
      (code : String) (v : World S) → Same w v → Ends Unchanged UnchangedErr (list_items code v)
  unfolding list_items
  list_items-Ends code v s =
      remote-Ends Unchanged UnchangedErr (λ u. (ok (rows_where (is_item_of code) u.items), u)) v
        (λ fs. s) (λ fs. (tt, s)) (λ fs. (tt, s))

  no_payment-Ends :
      (o : Order) (e : Error) (v : World S)
      → Same w v
      → Ends Unchanged UnchangedErr (no_payment o e v)
  no_payment-Ends o e v s =
      elim (status_eq o.status OrderStatus.pending)
        as (λ b. Ends Unchanged UnchangedErr (
          (if b
              then (if is_payment_record_missing e then raise purchase_slot_unsettled else raise e)
              else raise {A = String} e)
            v)) [
              | false ↦ (tt, s)
              | true ↦
                  elim (is_payment_record_missing e)
                    as (λ b.
                      Ends Unchanged UnchangedErr
                        ((if b then raise purchase_slot_unsettled else raise {A = String} e) v)) [
                          | true ↦ (tt, s)
                          | false ↦ (tt, s)
                        ]
            ]

  url-Ends :
      (f : S → Result String) (v : World S)
      → Same w v
      → Ends Unchanged UnchangedErr (ask (λ x. (f x, x)) v)
  url-Ends f v s =
      remote-Ends Unchanged UnchangedErr (λ u. (f u.services, record u { services = u.services })) v
        (λ fs. by_result (record v { faults = fs }) s (f v.services)) (λ fs. (tt, s))
        (λ fs. (tt, s))
    where
      by_result :
          (u : World S) → Same w u → (r : Result String) → Ends Unchanged UnchangedErr (r, u)
      by_result u s (ok x) = s
      by_result u s (err e) = (tt, s)

  resume-Ends :
      (sv : Services S) (method : String) (o : Order) (v : World S)
      → Same w v
      → Ends Unchanged UnchangedErr (resume sv method o v)
  unfolding resume
  resume-Ends sv method o v s =
      let url = sv.get_payment_url (payment_idempotency_key o.code method) in
      let fetch : Act S String = catch (ask (λ x. (url x, x))) (no_payment o) in
      >>=-Ends Unchanged UnchangedErr (λ _ u. Same w u) (list_items o.code)
        (λ itms. fetch >>= λ x. pure (record { order = o; order_items = itms; payment_url = x })) v
        (list_items-Ends o.code v s)
        (λ itms u q.
          >>=-Ends Unchanged UnchangedErr (λ _ t. Same w t) fetch
            (λ x. pure (record { order = o; order_items = itms; payment_url = x })) u
            (catch-Ends Unchanged UnchangedErr UnchangedErr (ask (λ x. (url x, x))) (no_payment o) u
              (url-Ends url u q) (λ e t r. no_payment-Ends o e t r.1))
            (λ x t r. r))

is_settling-young :
    (create_timeout t now : ℕ)
    → now < t + create_timeout + 2 * (5 * 120 + 1 + 2 + 4 + 8) + 30
    → is_settling create_timeout (some t) now ≡ true
unfolding purchase_slot_settle_window
is_settling-young create_timeout t now h = ground arith

module _ {S : Type 0} (sv : Services S) (create_timeout : ℕ) (k code : String)
    (claimed_at : Option ℕ) (method : String) (w : World S) where
  resume_by-Same :
      (h : Hold)
      → h ≢ Hold.over
      → (o : Order) (v : World S) → Same w v
      → Same w (resume_by h sv k code method o v).1
  unfolding resume_by
  resume_by-Same Hold.resumed n o v s =
      Same-after w (resume sv method o v) (resume-Ends w sv method o v s)
  resume_by-Same Hold.over n o v s = absurd (n refl)
  resume_by-Same Hold.unknown n o v s = s

  -- A create that finds the slot held by an order that is not deleted, and that is PENDING or COMPLETED
  -- or in a status that the service does not know, changes nothing, under any schedule of faults: in
  -- particular it does not give the slot away.
  pub resume_existing_order-live :
      (o : Order)
      → find_order code w.orders ≡ some o
      → o.deleted_at ≡ none
      → IsKept o.status
      → Same w (resume_existing_order sv create_timeout k code claimed_at method w).1
  unfolding resume_existing_order get_by_code
  resume_existing_order-live o found live held = run (next_fault w.faults).0 (next_fault w.faults).1
    where
      run :
          (f : Fault) (fs : List Fault)
          → Same w
              (found_or_unwritten sv create_timeout k code claimed_at method (
                suffer f
                  (λ u. (undeleted (find_order code u.orders), u))
                  (record w { faults = fs }))).1
      run fine fs = rw found (
          rw live (
            resume_by-Same (hold_of o.status) (hold_of-IsKept o.status held) o
              (record w { faults = fs }) (Same-refl w)))
      run lost fs = Same-refl w
      run unacked fs = Same-refl w

  -- A create that finds the slot claimed for an order that is not written yet changes nothing, under any
  -- schedule of faults, while the claim is younger than the time of a create, two activities of five
  -- attempts of two minutes with waits of 1, 2, 4 and 8 seconds between them, and half a minute.
  pub resume_existing_order-settling :
      (t : ℕ)
      → find_order code w.orders ≡ none
      → claimed_at ≡ some t
      → w.now < t + create_timeout + 2 * (5 * 120 + 1 + 2 + 4 + 8) + 30
      → Same w (resume_existing_order sv create_timeout k code claimed_at method w).1
  unfolding resume_existing_order get_by_code unwritten
  resume_existing_order-settling t missing claimed young =
      run (next_fault w.faults).0 (next_fault w.faults).1
    where
      settling : is_settling create_timeout claimed_at w.now ≡ true
      settling = rw claimed (is_settling-young create_timeout t w.now young)

      run :
          (f : Fault) (fs : List Fault)
          → Same w
              (found_or_unwritten sv create_timeout k code claimed_at method (
                suffer f
                  (λ u. (undeleted (find_order code u.orders), u))
                  (record w { faults = fs }))).1
      run fine fs = rw missing (rw settling (Same-refl w))
      run lost fs = Same-refl w
      run unacked fs = Same-refl w
