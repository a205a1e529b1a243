-- ===== src/Waitroom/Tests.antt =====
-- The theorems on concrete data: one event on sale, two sessions, and services that answer.
use mathlib.Core.Option.{some-injective}
use ticket_event_pf.Prelude.{
  ℕ, ◌+◌, ◌*◌, ◌≤◌, ◌<◌, ◌≡◌, refl, ◌⊎◌, inl, inr, String, true, false, Option, none, some, leb,
  subst, Bool-cases, [], ◌∷◌, length, All, any, arith, if◌then◌else◌, str_eq,
}
use ticket_event_pf.Prelude.Int
use ticket_event_pf.Prelude.Act.{ok, Ends}
use ticket_event_pf.Waitroom.Model.{
  Session, SessionStatus, queued, unix, second, draw_queue_score, QueueReadyEvent,
}
use ticket_event_pf.Waitroom.World.{
  World, Env, Stock, open_door, found, EventStock, Keyed, Waiting, Step, lost, fine,
}
use ticket_event_pf.Waitroom.Redis.{waits, str_mem}
use ticket_event_pf.Waitroom.Redis.Laws.{has_slot}
use ticket_event_pf.Waitroom.QueueService.{peek_queue, dequeue_session, enqueue_session}
use ticket_event_pf.Waitroom.StockGate.{stock}
use ticket_event_pf.Waitroom.EventGate.{get_event}
use ticket_event_pf.Waitroom.SessionService.{active_session, validate_checkout_token}
use ticket_event_pf.Waitroom.Tick.{admit_count, process_event_queue, drain_buffered_queue_ready}
use ticket_event_pf.Waitroom.Service.{
  CheckoutInput, handle_checkout_completed, handle_checkout_failed, handle_checkout_expired,
}
use ticket_event_pf.Waitroom.Processor.{do_admit_user_to_checkout}
use ticket_event_pf.Waitroom.Admitted.{calm, IsLetIn, do_admit_user_to_checkout-IsLetIn}
use ticket_event_pf.Waitroom.Kept.{enters}
use ticket_event_pf.Waitroom.Kept.Removed.{in_line}
use ticket_event_pf.Waitroom.Kept.Tick.{process_event_queue-Safe}
use ticket_event_pf.Waitroom.Doors.{admit_count-bounds, stock-serves, Answers, get_event-Answers}
use ticket_event_pf.Waitroom.Due.{draw_queue_score-before_open, is_due, peek_queue-due}
use ticket_event_pf.Waitroom.Strangers.{without_session, IsOthers, active_session-stranger}
use ticket_event_pf.Waitroom.Tokens.{Accepted, validate_checkout_token-Accepted}
use ticket_event_pf.Waitroom.Drained.{Rest, drain_buffered_queue_ready-Rest}
use ticket_event_pf.Waitroom.Ended.{IsOver, handle_checkout-IsOver}
use ticket_event_pf.Waitroom.Stranded.{
  left, joined, removing, adding, Race, Reaches, both_start, leave_join-Stranded,
}
use ticket_event_pf.Waitroom.Consumer.{Message, CheckoutEvent, RetryPolicy, Consumer, consume_claim}
use ticket_event_pf.Waitroom.Consumer.Committed.{Marks, consume_claim-Marks}
use ticket_event_pf.Waitroom.Consumer.Drained.{undisturbed, consume_claim-all}

abbrev stock_in : EventStock
stock_in = record { total = Int.pos 10; sold = Int.pos 2; available = Int.pos 8 }

abbrev ready : QueueReadyEvent
ready = record {
  session_id = "s1";
  user_id = "u1";
  event_id = "e";
  checkout_token = "t";
  admitted_at = 0;
  expires_at = none;
  timestamp = 0;
}

abbrev env : Env
env = record {
  ties = λ a b. true;
  hash_token = λ t. t;
  marshal = λ e. some e.session_id;
  unmarshal = λ p. some ready;
  sign = λ s u e x i. some "t";
  parse = λ now t. some (record { valid = true; session_id = some "s1" });
  uuid = λ n. "s9";
  lot = λ n. 7;
  find_one = λ now e. found tt;
  get_config = λ now e. found (record { allow_wait_room = true; ticket_sale_start = none });
  get_event_stock = λ now e. some stock_in;
  batch_size = 10;
  checkout_ttl = 900000000000;
  event_cache_ttl = 60000000000;
  stock_cache_ttl = 2000000000;
}

abbrev session : String → String → SessionStatus → Session
session k user st = record {
  id = k;
  user_id = user;
  event_id = "e";
  position = Int.pos 0;
  queued_at = 3000000000;
  status = st;
  admitted_at = none;
  completed_at = none;
  expires_at = 7203000000000;
  checkout_token = "";
  checkout_expires_at = none;
  token_invalidated = false;
  token_invalidated_at = none;
  token_invalidation_reason = "";
  connection_id = "";
  user_agent = "";
  ip_address = "";
  last_heartbeat_at = none;
  attempt_count = 1;
  queue_score = 3 * second;
  created_at = 3000000000;
  updated_at = 3000000000;
}

abbrev stored : Session → Keyed Session
stored s = record { key = s.id; value = s; expires_at = 7203000000000 }

abbrev in_queue : String → Waiting
in_queue k = record { event = "e"; member = k; score = 3 * second }

-- Two sessions of one event wait.
abbrev world : World
world = record {
  sessions = stored (session "s1" "u1" queued) ∷ stored (session "s2" "u2" queued) ∷ [];
  user_sessions = [];
  blacklist = [];
  queue = in_queue "s1" ∷ in_queue "s2" ∷ [];
  checkouts = [];
  pending = "p" ∷ [];
  active_events = "e" ∷ [];
  published = [];
  event_gate = [];
  stock_gate = [];
  stock_asked = [];
  processor = record {
    is_running = true;
    started_at = none;
    last_processed = none;
    total_admitted = 0;
    error_count = 0;
  };
  created = 0;
  now = 5000000000;
  steps = [];
}

abbrev slow_lost : Step
slow_lost = record { fault = lost; elapsed = 1000000 }

abbrev slow : Step
slow = record { fault = fine; elapsed = 1000000 }

abbrev failing : World
failing = record world { steps = slow ∷ slow ∷ slow ∷ slow ∷ slow_lost ∷ slow_lost ∷ slow ∷ [] }

-- A tick without failures lets both in.
both_admitted : (process_event_queue env "e" world).1.processor.total_admitted ≡ 2
unfolding process_event_queue
both_admitted = refl

both_left_line : (process_event_queue env "e" world).1.queue ≡ []
unfolding process_event_queue
both_left_line = refl

process_event_queue-Safe_example :
    (in_line "e" "s1" (process_event_queue env "e" failing).1.queue ≡ true)
    ⊎ (has_slot "e" "s1" (process_event_queue env "e" failing).1.checkouts ≡ true)
    ⊎ (enters "s1" (process_event_queue env "e" failing).1 ≡ false)
process_event_queue-Safe_example =
    process_event_queue-Safe env "e" failing (refl, (refl, tt)) "s1" refl

abbrev eight : Stock
eight = record { door = open_door; available = Int.pos 8; counted = true }

admit_count-bounds_example :
    (admit_count 10 eight 3 ≤ 10)
    × ((admit_count 10 eight 3 ≡ 0) ⊎ (3 + admit_count 10 eight 3 ≤ 8))
    × ((admit_count 10 eight 3 ≡ 10) ⊎ (8 ≤ 3 + admit_count 10 eight 3))
admit_count-bounds_example = admit_count-bounds 10 8 3 eight refl refl

stock-serves_example :
    Ends
      (λ s v.
        (u : World)
        → u.stock_gate ≡ v.stock_gate
        → u.now ≤ v.now + env.stock_cache_ttl
        → stock env "e" u ≡ (ok s, u))
      (λ _ _. ⊥)
      (stock env "e" world)
stock-serves_example = stock-serves env "e" world refl

get_event-Answers_example :
    Answers env "e" world (get_event env "e" world).1 (get_event env "e" world)
get_event-Answers_example =
    get_event-Answers env "e" world (get_event env "e" world).1 refl refl (omega arith)

draw_queue_score-before_open_example :
    (draw_queue_score 7 3000000000 (some 5000000000)
      ≤ draw_queue_score 9 6000000000 (some 5000000000))
    × ((now : ℕ)
        → draw_queue_score 7 3000000000 (some 5000000000) < unix now * second
        → unix 5000000000 ≤ unix now)
draw_queue_score-before_open_example =
    draw_queue_score-before_open 7 9 3000000000 6000000000 5000000000 (omega arith) (omega arith)
      (omega arith) (omega arith)

peek_queue-due_example :
    Ends
      (λ ks _.
        (length ks ≤ 1) × All (λ k. is_due "e" (unix world.now * second) world.queue k ≡ true) ks)
      (λ _ _. Unit {0})
      (peek_queue "e" 1 world)
peek_queue-due_example = peek_queue-due "e" 1 world

drain_buffered_queue_ready-Rest_example : Rest env world (drain_buffered_queue_ready env world).1
drain_buffered_queue_ready-Rest_example = drain_buffered_queue_ready-Rest env world

validate_checkout_token-Accepted_example :
    Ends (λ _ v. Accepted env "t" world v) (λ _ _. Unit {0}) (validate_checkout_token env "t" world)
validate_checkout_token-Accepted_example = validate_checkout_token-Accepted env "t" world

abbrev over : CheckoutInput
over = record { session_id = "s1"; user_id = "u1"; event_id = "e"; timestamp = 4 }

handle_checkout-IsOver_example :
    Ends (λ _ v. IsOver "s1" world v) (λ _ _. Unit {0}) (handle_checkout_completed env over world)
    × Ends (λ _ v. IsOver "s1" world v) (λ _ _. Unit {0}) (handle_checkout_failed env over world)
    × Ends (λ _ v. IsOver "s1" world v) (λ _ _. Unit {0}) (handle_checkout_expired env over world)
handle_checkout-IsOver_example = handle_checkout-IsOver env over world (refl, (refl, tt))

abbrev last_waits : World
last_waits = record world { queue = in_queue "s1" ∷ [] }

leave_join-Stranded_example :
    Reaches env "e" "s1" (session "s2" "u2" queued) (both_start last_waits) (record {
      world = (dequeue_session "e" "s1" (both_start last_waits).world).1;
      leaver = left;
      joiner = adding;
    })
    × Reaches env "e" "s1" (session "s2" "u2" queued) (both_start last_waits) (record {
      world = (enqueue_session env (session "s2" "u2" queued) (both_start last_waits).world).1;
      leaver = removing;
      joiner = joined;
    })
    × ((r : Race) × Reaches env "e" "s1" (session "s2" "u2" queued) (both_start last_waits) r
        × (r.leaver ≡ left)
        × (r.joiner ≡ joined)
        × (any (waits "e" "s2") r.world.queue ≡ true)
        × (str_mem "e" r.world.active_events ≡ false))
leave_join-Stranded_example =
    leave_join-Stranded env "e" "s1" (session "s2" "u2" queued) last_waits refl refl

s1_of_u1 : IsOthers "s1" "u9" world
s1_of_u1 t s h = elim (Bool-cases (leb t 7203000000000)) [
  | inl l ↦
      subst (λ z. str_eq z.user_id "u9" ≡ false)
        (some-injective (session "s1" "u1" queued) s (rw l at h)) refl
  | inr f ↦ let impossible : ◌≡◌ {A = Option Session} none (some s) = rw f at h in absurd cc
]

active_session-stranger_example :
    (active_session "s1" "u9" world).0 ≡ (active_session "s1" "u9" (without_session "s1" world)).0
active_session-stranger_example = active_session-stranger "s1" "u9" world s1_of_u1

do_admit_user_to_checkout-IsLetIn_example :
    ((do_admit_user_to_checkout env "e" "s1" (calm world)).0 ≡ ok tt)
    × IsLetIn "e" "s1"
        (session "s1" "u1" queued)
        "t"
        905000000000
        (do_admit_user_to_checkout env "e" "s1" (calm world)).1
do_admit_user_to_checkout-IsLetIn_example =
    do_admit_user_to_checkout-IsLetIn env "e" "s1" "t" (session "s1" "u1" queued) world refl refl
      refl

-- Two checkout events, the second of which cannot be read.
abbrev message : ℕ → String → Message
message n v = record {
  topic = "checkout.completed";
  partition = 0;
  offset = n;
  value = v;
  timestamp = 4;
}

abbrev decode : String → Option CheckoutEvent
decode v =
    if str_eq v "s1"
    then some (record { session_id = "s1"; user_id = "u1"; event_id = "e"; timestamp = none })
    else none

abbrev thrice : RetryPolicy
thrice = record { max_attempts = 3; base_delay = 1000000000 }

-- The dead letter of the second message is lost, so its offset is not marked.
abbrev unparked : Consumer
unparked = record (undisturbed world []) { sends = lost ∷ [] }

unparked_test :
    (consume_claim env decode thrice (message 7 "s1" ∷ message 8 "?" ∷ []) unparked).0
    ≡ message 7 "s1" ∷ []
unfolding consume_claim handle_checkout_completed
unparked_test = refl

consume_claim-Marks_example :
    Marks env decode thrice
      (message 7 "s1" ∷ message 8 "?" ∷ [])
      unparked
      (consume_claim env decode thrice (message 7 "s1" ∷ message 8 "?" ∷ []) unparked)
consume_claim-Marks_example =
    consume_claim-Marks env decode thrice (message 7 "s1" ∷ message 8 "?" ∷ []) unparked

consume_claim-all_example :
    (consume_claim env decode thrice
      (message 7 "s1" ∷ message 8 "?" ∷ [])
      (undisturbed failing [])).0
    ≡ message 7 "s1" ∷ message 8 "?" ∷ []
consume_claim-all_example =
    consume_claim-all env decode thrice (message 7 "s1" ∷ message 8 "?" ∷ []) failing []
