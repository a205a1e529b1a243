-- ===== src/Inventory/Tests.antt =====
-- The inventory on concrete data: one class of ten tickets and the orders on it.
use ticket_event_pf.Prelude.{
  ℕ, String, Option, if◌then◌else◌, str_eq, ◌+◌, ◌-◌, ◌<◌, ◌≤◌, ◌≡◌, refl, true, false, ◌⊎◌, ◌↔◌,
  none, some, [], ◌∷◌, arith, All, get,
}
use ticket_event_pf.Prelude.Int.{pos}
use ticket_event_pf.Inventory.Model.{
  TicketClass, TicketClassStatus, ReservationStatus, Db, state_conflict, db_failure, not_found,
  insufficient_stock, ReserveInput, CreateTicketClassInput, UpdateTicketClassInput,
}
use ticket_event_pf.Inventory.Tx.{Session, ok, Ends, db_after}
use ticket_event_pf.Inventory.Tables.{on_sale, find_class}
use ticket_event_pf.Inventory.Invariant.{Inv, held}
use ticket_event_pf.Inventory.Reserve.{can_reserve, explain_miss, reserve}
use ticket_event_pf.Inventory.Reserve.Counted.{ReserveError}
use ticket_event_pf.Inventory.Reserve.Held.{Reserves, reserve-Reserves}
use ticket_event_pf.Inventory.Delivery.{
  ReserveRequest, Code, invalid_argument, answer, refuse, reserve_rpc, release_rpc,
  check_availability_rpc, delete_ticket_class_rpc, map_error,
}
use ticket_event_pf.Inventory.Delivery.Answered.{Answers, reserve_rpc-Answers}
use ticket_event_pf.Inventory.Settle.{confirm, release}
use ticket_event_pf.Inventory.Settle.Confirmed.{NoDrift, confirm-NoDrift}
use ticket_event_pf.Inventory.Settle.Released.{release-no_drift}
use ticket_event_pf.Inventory.Expire.{
  batch_expire, batch_size_or_default, run_rounds, drain_max_iterations,
}
use ticket_event_pf.Inventory.Expire.Picked.{Sweeps, batch_expire-Sweeps}
use ticket_event_pf.Inventory.Expire.Drained.{Counts, run_rounds-Counts}
use ticket_event_pf.Inventory.Expire.Worker.{oversized_batch-stops}
use ticket_event_pf.Inventory.TicketClasses.{
  create, delete, get_available_count, all_available, check_availability,
}
use ticket_event_pf.Inventory.TicketClasses.Deleted.{Keeps, delete-Keeps}
use ticket_event_pf.Inventory.Availability.{
  all_available_iff, explain_miss-stock, get_available_count-exact,
}
use ticket_event_pf.Inventory.System.{
  reserve_call, confirm_call, create_call, run_call, Reachable, start, call, empty_db, empty-Inv,
  run_call-Inv, Reachable-Inv, IsNotOversold, no_oversell,
}

abbrev with_db : Db → Session
with_db d = record { db = d; faults = [] }

abbrev concert : CreateTicketClassInput
concert = record {
  event_id = "e1";
  name = "GA";
  price_cents = 500;
  currency = "VND";
  total = 10;
  sale_start_at = some 3;
  sale_end_at = none;
}

abbrev two_tickets : ReserveInput
two_tickets = record {
  order_code = "A";
  items = record { ticket_class_id = 1; qty = 1 } ∷ record { ticket_class_id = 1; qty = 1 } ∷ [];
  expires_at = 20;
}

abbrev opened : Db
opened = run_call (create_call concert) (with_db empty_db)

abbrev reserved : Db
reserved = run_call (reserve_call 5 two_tickets) (with_db opened)

abbrev sold : Db
sold = run_call (confirm_call "A") (with_db reserved)

opened-Inv : Inv opened
opened-Inv = run_call-Inv (create_call concert) (with_db empty_db) empty-Inv

reserved-Inv : Inv reserved
reserved-Inv = run_call-Inv (reserve_call 5 two_tickets) (with_db opened) opened-Inv

sold-Reachable : Reachable sold
sold-Reachable =
    call (confirm_call "A") [] reserved
      (call (reserve_call 5 two_tickets) [] opened (call (create_call concert) [] empty_db start))

-- The calls on these data succeed.
reserve_test : (reserve 5 two_tickets (with_db opened)).0 ≡ ok tt
unfolding run_call create reserve
reserve_test = refl

confirm_test : (confirm "A" (with_db reserved)).0 ≡ ok tt
unfolding run_call create reserve confirm
confirm_test = refl

release_test : (release "A" (with_db reserved)).0 ≡ ok tt
unfolding run_call create reserve release
release_test = refl

sweep_test : (batch_expire (λ k. false) (λ k. false) 20 0 (with_db reserved)).0 ≡ ok 1
unfolding run_call create reserve batch_expire
sweep_test = refl

no_oversell_example : All (IsNotOversold sold) sold.ticket_classes
no_oversell_example = no_oversell sold sold-Reachable

Reachable-Inv_example : Inv sold
Reachable-Inv_example = Reachable-Inv sold sold-Reachable

reserve-Reserves_example :
    Ends
      (λ _ d. Reserves two_tickets opened d)
      ReserveError
      (reserve 5 two_tickets (with_db opened))
reserve-Reserves_example = reserve-Reserves 5 two_tickets (with_db opened) opened-Inv

confirm-NoDrift_example : Ends (λ _ d. Inv d) NoDrift (confirm "A" (with_db reserved))
confirm-NoDrift_example = confirm-NoDrift "A" (with_db reserved) reserved-Inv

release-no_drift_example :
    Ends
      (λ _ d. Inv d)
      (λ e. (e ≡ state_conflict) ⊎ (e ≡ db_failure))
      (release "A" (with_db reserved))
release-no_drift_example = release-no_drift "A" (with_db reserved) reserved-Inv

batch_expire-Sweeps_example :
    Ends
      (Sweeps (λ k. false) 20 (batch_size_or_default 0) reserved.reservations)
      (λ e. e ≡ db_failure)
      (batch_expire (λ k. false) (λ k. false) 20 0 (with_db reserved))
batch_expire-Sweeps_example =
    batch_expire-Sweeps (λ k. false) (λ k. false) 20 0 (with_db reserved) reserved-Inv

run_rounds-Counts_example :
    Counts
      (λ k j. false)
      (λ k. 20)
      100
      drain_max_iterations
      0
      reserved.reservations
      (run_rounds drain_max_iterations (λ k j. false) (λ k. 20) 100 0 (with_db reserved))
run_rounds-Counts_example =
    run_rounds-Counts (λ k j. false) (λ k. 20) 100 drain_max_iterations 0 (with_db reserved)
      (omega arith) (omega arith) reserved-Inv

oversized_batch-stops_example :
    Ends
      (λ n d.
        ((run_rounds 100 (λ k j. false) (λ k. 20) 5000 0 (with_db reserved)).0 ≡ (n, true))
        × (n ≤ 500))
      (λ e. e ≡ db_failure)
      (batch_expire (λ j. false) (λ j. false) 20 5000 (with_db reserved))
oversized_batch-stops_example =
    oversized_batch-stops (λ k j. false) (λ k. 20) 5000 99 (with_db reserved) (omega arith)
      reserved-Inv

abbrev more_tickets : UpdateTicketClassInput
more_tickets = record {
  name = none;
  price_cents = some 700;
  currency = none;
  total = some 20;
  sale_start_at = none;
  sale_end_at = none;
  status = none;
}

delete-Keeps_example : Keeps reserved (db_after (delete 1 (with_db reserved)))
delete-Keeps_example = delete-Keeps 1 (with_db reserved) reserved-Inv

abbrev general : TicketClass
general = record {
  id = 1;
  event_id = "e1";
  name = "GA";
  price_cents = 500;
  currency = "VND";
  total = 10;
  reserved = 4;
  sold = 5;
  sale_start_at = some 3;
  sale_end_at = none;
  status = TicketClassStatus.active;
}

all_available_iff_example :
    (all_available 5 ((1, 1) ∷ []) (general ∷ []) ≡ true)
    ↔ All (λ tc. can_reserve 5 (get 0 ((1, 1) ∷ []) tc.id) tc ≡ true) (general ∷ [])
all_available_iff_example = all_available_iff 5 ((1, 1) ∷ []) (general ∷ [])

explain_miss-stock_example :
    (explain_miss 5 (some general) ≡ insufficient_stock)
    ↔ ((on_sale general 5 ≡ true) × (general.total < general.reserved + general.sold + 2))
explain_miss-stock_example = explain_miss-stock 5 2 general refl

get_available_count-exact_example :
    Ends
      (λ n d.
        (tc : TicketClass) × (find_class 1 reserved.ticket_classes ≡ some tc)
        × (n
            ≡ pos (
                tc.total
                - held ReservationStatus.active reserved.reservations 1
                - held ReservationStatus.confirmed reserved.reservations 1)))
      (λ e. (e ≡ db_failure) ⊎ ((e ≡ not_found) × (find_class 1 reserved.ticket_classes ≡ none)))
      (get_available_count 1 (with_db reserved))
get_available_count-exact_example = get_available_count-exact 1 (with_db reserved) reserved-Inv

-- A parser of the numerals that the tests write.
abbrev digit : String → Option ℕ
digit s = if str_eq s "1" then some 1 else if str_eq s "9" then some 9 else none

abbrev request : ReserveRequest
request = record {
  order_code = "B";
  items = record { ticket_class_id = "1"; quantity = pos 2 } ∷ [];
  expires_at = "9";
}

reserve_rpc_test : (reserve_rpc digit digit 5 request (with_db opened)).0 ≡ answer tt
unfolding run_call create reserve reserve_rpc
reserve_rpc_test = refl

no_tickets_test :
    (reserve_rpc digit digit 5
      (record request { items = record { ticket_class_id = "1"; quantity = pos 0 } ∷ [] })
      (with_db opened)).0
    ≡ refuse invalid_argument
unfolding run_call create reserve reserve_rpc
no_tickets_test = refl

-- An id that is no number is answered as a fault of the service.
bad_id_test :
    (reserve_rpc digit digit 5
      (record request { items = record { ticket_class_id = "x"; quantity = pos 1 } ∷ [] })
      (with_db opened)).0
    ≡ refuse Code.internal
unfolding run_call create reserve reserve_rpc
bad_id_test = refl

check_availability_rpc_test :
    (check_availability_rpc digit 5 request.items (with_db opened)).0 ≡ answer true
unfolding run_call create check_availability_rpc check_availability on_sale
check_availability_rpc_test = refl

release_rpc_test : (release_rpc "A" (with_db reserved)).0 ≡ answer tt
unfolding run_call create reserve release_rpc release
release_rpc_test = refl

delete_rpc_test :
    (delete_ticket_class_rpc digit "1" (with_db reserved)).0 ≡ refuse Code.failed_precondition
unfolding run_call create reserve delete_ticket_class_rpc delete map_error
delete_rpc_test = refl

reserve_rpc-Answers_example :
    Answers digit digit 5 request
      (with_db opened)
      (reserve_rpc digit digit 5 request (with_db opened))
reserve_rpc-Answers_example = reserve_rpc-Answers digit digit 5 request (with_db opened)
