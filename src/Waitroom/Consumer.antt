-- ===== src/Waitroom/Consumer.antt =====
-- internal/delivery/kafka/consumer of waitroom-svc, with the dead letters of
-- delivery/kafka/producer/deadletter.go: one claim of a partition, its messages handled in their order.
-- JSON is the parameter `decode`. `halts` says at each wait whether the context of the claim is done,
-- and `sends` how each call that publishes a dead letter ends.
pub mod Committed
pub mod Drained
use ticket_event_pf.Prelude.{
  ℕ, zero, suc, ◌+◌, ◌-◌, ◌*◌, String, str_append, str_eq, Bool, true, false, Option, none, some,
  List, [], ◌∷◌, if◌then◌else◌,
}
use ticket_event_pf.Prelude.Act.{Result, ok, err}
use ticket_event_pf.Waitroom.Model.{Error}
use ticket_event_pf.Waitroom.World.{World, Env, Fault, fine, lost, unacked}
use ticket_event_pf.Waitroom.Service.{
  CheckoutInput, handle_checkout_completed, handle_checkout_failed, handle_checkout_expired,
}

pub record Message : Type 0 where
  pub topic : String
  pub partition : ℕ
  pub offset : ℕ
  pub value : String
  pub timestamp : ℕ

-- `PermanentError`, or an error of the service.
pub data HandlerError : Type 0 where
  permanent : HandlerError
  transient : Error → HandlerError

-- A checkout event of delivery/kafka/presenter.go. Its time is `none` where it is absent or malformed.
pub record CheckoutEvent : Type 0 where
  pub session_id : String
  pub user_id : String
  pub event_id : String
  pub timestamp : Option ℕ

pub record DeadLetter : Type 0 where
  pub topic : String
  pub message : Message
  pub attempts : ℕ
  pub reason : HandlerError
  pub failed_at : ℕ

pub record RetryPolicy : Type 0 where
  pub max_attempts : ℕ
  pub base_delay : ℕ

pub record Consumer : Type 0 where
  pub world : World
  pub dead_letters : List DeadLetter
  pub halts : List Bool
  pub sends : List Fault

-- `commit`, or not, or the error of the dead letter.
pub data Delivery : Type 0 where
  committed uncommitted not_parked : Delivery

unfoldable pub is_permanent : HandlerError → Bool
is_permanent permanent = true
is_permanent (transient e) = false

-- The delay before the attempt after `attempt`.
unfoldable pub delay_for : ℕ → ℕ → ℕ
delay_for zero delay = delay
delay_for (suc zero) delay = delay
delay_for (suc (suc n)) delay = delay_for (suc n) (delay * 2)

unfoldable pub or_else : Option ℕ → ℕ → ℕ
or_else none fallback = fallback
or_else (some t) fallback = t

abbrev pub dlq_topic : String → String
dlq_topic topic = str_append topic ".dlq"

abbrev pub letter_of : Message → ℕ → HandlerError → ℕ → DeadLetter
letter_of m attempts e now = record {
  topic = dlq_topic m.topic;
  message = m;
  attempts = attempts;
  reason = e;
  failed_at = now;
}

abbrev pub next_halt : List Bool → Bool × List Bool
next_halt [] = (false, [])
next_halt (b ∷ bs) = (b, bs)

abbrev pub next_send : List Fault → Fault × List Fault
next_send [] = (fine, [])
next_send (f ∷ fs) = (f, fs)

-- A dead letter that is stored while its answer is lost counts as not parked.
abbrev pub send : Fault → DeadLetter → Consumer → Delivery × Consumer
send fine l c = (committed, record c { dead_letters = l ∷ c.dead_letters })
send lost l c = (not_parked, c)
send unacked l c = (not_parked, record c { dead_letters = l ∷ c.dead_letters })

unfoldable pub publish_dead_letter : Message → ℕ → HandlerError → Consumer → Delivery × Consumer
publish_dead_letter m attempts e c =
    let (f, rest) = next_send c.sends in
    send f (letter_of m attempts e c.world.now) (record c { sends = rest })

-- The wait before another attempt, which the end of the context cuts short.
abbrev pub wait_or_stop : ℕ → (Consumer → Delivery × Consumer) → Consumer → Delivery × Consumer
wait_or_stop delay again c =
    let (halt, rest) = next_halt c.halts in
    if halt
    then (uncommitted, record c { halts = rest })
    else again (record c { halts = rest; world = record c.world { now = c.world.now + delay } })

module _ (env : Env) (decode : String → Option CheckoutEvent) where
  abbrev input_of : Message → CheckoutEvent → CheckoutInput
  input_of m e = record {
    session_id = e.session_id;
    user_id = e.user_id;
    event_id = e.event_id;
    timestamp = or_else e.timestamp m.timestamp;
  }

  abbrev answer_of : Result Error (Unit {0}) × World → Result HandlerError (Unit {0}) × World
  answer_of (ok a, w) = (ok a, w)
  answer_of (err e, w) = (err (transient e), w)

  -- The three handlers, which differ in the call of the service alone.
  abbrev pub handle :
      (Env → CheckoutInput → World → Result Error (Unit {0}) × World)
      → Message
      → Option CheckoutEvent
      → World
      → Result HandlerError (Unit {0}) × World
  handle serve m none w = (err permanent, w)
  handle serve m (some e) w = answer_of (serve env (input_of m e) w)

  unfoldable pub process_message : Message → World → Result HandlerError (Unit {0}) × World
  unfolding or_else
  process_message m w =
      if str_eq m.topic "checkout.completed"
      then handle handle_checkout_completed m (decode m.value) w
      else if str_eq m.topic "checkout.failed"
      then handle handle_checkout_failed m (decode m.value) w
      else if str_eq m.topic "checkout.expired"
      then handle handle_checkout_expired m (decode m.value) w
      else (ok tt, w)

  -- The last attempt, and one that may be followed by `again`.
  abbrev pub after_last :
      Message → ℕ → Consumer → Result HandlerError (Unit {0}) × World → Delivery × Consumer
  after_last m attempt c (ok a, w) = (committed, record c { world = w })
  after_last m attempt c (err e, w) = publish_dead_letter m attempt e (record c { world = w })

  abbrev pub after_one :
      RetryPolicy
      → Message
      → ℕ
      → (Consumer → Delivery × Consumer)
      → Consumer
      → Result HandlerError (Unit {0}) × World
      → Delivery × Consumer
  after_one p m attempt again c (ok a, w) = (committed, record c { world = w })
  after_one p m attempt again c (err e, w) =
      if is_permanent e
      then publish_dead_letter m attempt e (record c { world = w })
      else wait_or_stop (delay_for attempt p.base_delay) again (record c { world = w })

  -- The loop from the attempt `attempt` on, with `left` attempts after it.
  unfoldable pub deliver_from : RetryPolicy → ℕ → ℕ → Message → Consumer → Delivery × Consumer
  unfolding process_message publish_dead_letter is_permanent delay_for
  deliver_from p zero attempt m c = after_last m attempt c (process_message m c.world)
  deliver_from p (suc left) attempt m c =
      after_one p m attempt (deliver_from p left (suc attempt) m) c (process_message m c.world)

  -- `max(c.policy.MaxAttempts, 1)` attempts.
  unfoldable pub deliver : RetryPolicy → Message → Consumer → Delivery × Consumer
  unfolding deliver_from
  deliver p m c = deliver_from p (p.max_attempts - 1) 1 m c

  -- The messages that are marked, and the consumer when the claim ends.
  abbrev pub mark_then :
      Message → (Consumer → List Message × Consumer) → Delivery × Consumer → List Message × Consumer
  mark_then m go_on (committed, c) = let (ms, d) = go_on c in (m ∷ ms, d)
  mark_then m go_on (uncommitted, c) = ([], c)
  mark_then m go_on (not_parked, c) = ([], c)

  unfoldable pub consume_claim : RetryPolicy → List Message → Consumer → List Message × Consumer
  unfolding deliver
  consume_claim p [] c = ([], c)
  consume_claim p (m ∷ ms) c =
      let (halt, rest) = next_halt c.halts in
      let go = mark_then m (consume_claim p ms) (deliver p m (record c { halts = rest })) in
      if halt then ([], record c { halts = rest }) else go
