-- ===== src/Waitroom/Processor.antt =====
-- services/waitroom-svc/internal/service/queue_processor.go: how one session is let in.
use ticket_event_pf.Prelude.{
  ℕ, zero, suc, ◌+◌, ◌*◌, String, Bool, true, false, not, ◌&&◌, ◌||◌, Option, none, some, [], ◌∷◌,
  ◌++◌, if◌then◌else◌, ltb, str_eq,
}
use ticket_event_pf.Prelude.Int.{sub_ℕ}
use ticket_event_pf.Prelude.Act.{ok, err, raise, ◌>>=◌, ◌>>◌, catch, modify}
use ticket_event_pf.Waitroom.Model.{
  Session, Error, unavailable, session_not_found, session_not_admittable, QueueReadyEvent,
  queue_ready, Message, can_admit, is_admitted, is_expired, has_checkout_expired,
}
use ticket_event_pf.Waitroom.World.{World, Env, Act, remote, ProcessorStatus}
use ticket_event_pf.Waitroom.QueueRepository.{add_to_processing, is_processing, buffer_queue_ready}
use ticket_event_pf.Waitroom.SessionService.{
  get_session, generate_checkout_token, update_checkout_token,
}

abbrev pub with_processor : (ProcessorStatus → ProcessorStatus) → World → World
with_processor f w = record w { processor = f w.processor }

abbrev pub one_more_error : ProcessorStatus → ProcessorStatus
one_more_error p = record p { error_count = p.error_count + 1 }

unfoldable pub increment_error_count : Act (Unit {0})
increment_error_count = modify (with_processor one_more_error)

-- `PublishQueueReady` of internal/delivery/kafka/producer/producer.go stamps the message.
abbrev pub put_message : Message → World → World
put_message x w = record w { published = w.published ++ x ∷ [] }

unfoldable pub publish_queue_ready : QueueReadyEvent → Act (Unit {0})
publish_queue_ready evt v =
    remote (modify (put_message (queue_ready (record evt { timestamp = v.now })))) v

abbrev pub buffer_payload : Option String → Act (Unit {0})
buffer_payload none = increment_error_count
buffer_payload (some p) = catch (buffer_queue_ready p) (λ _. increment_error_count)

unfoldable pub buffer_ready_event : Env → QueueReadyEvent → Act (Unit {0})
unfolding increment_error_count buffer_queue_ready
buffer_ready_event env evt = buffer_payload (env.marshal evt)

abbrev pub ready_event : String → Session → String → ℕ → ℕ → QueueReadyEvent
ready_event e s token exp_at now = record {
  session_id = s.id;
  user_id = s.user_id;
  event_id = e;
  checkout_token = token;
  admitted_at = now;
  expires_at = some exp_at;
  timestamp = now;
}

-- A failure to publish does not fail the admission: the message is buffered.
abbrev pub announce : Env → String → Session → String → ℕ → Act (Unit {0})
announce env e s token exp_at v =
    let evt = ready_event e s token exp_at v.now in
    catch (publish_queue_ready evt) (λ _. buffer_ready_event env evt) v

unfoldable pub claim_slot : Env → String → Session → String → ℕ → Act (Unit {0})
unfolding add_to_processing publish_queue_ready buffer_ready_event
claim_slot env e s token exp_at v =
    (add_to_processing e s.id (sub_ℕ exp_at v.now) >> announce env e s token exp_at) v

abbrev pub is_none : {A : Type 0} → Option A → Bool
is_none none = true
is_none (some _) = false

-- Half-finished: a token that is still good was committed.
abbrev pub can_resume : ℕ → Session → Bool
can_resume now s =
    is_admitted s.status
    && not (
        is_expired now s
        || has_checkout_expired now s
        || str_eq s.checkout_token ""
        || is_none s.checkout_expires_at)

abbrev pub resume : Env → String → Session → Option ℕ → Act (Unit {0})
resume env e s none = raise session_not_admittable
resume env e s (some exp_at) = is_processing e s.id >>= λ holding.
    if holding then raise session_not_admittable else claim_slot env e s s.checkout_token exp_at

unfoldable pub resume_or_reject : Env → String → Session → Act (Unit {0})
unfolding is_processing claim_slot
resume_or_reject env e s w =
    if can_resume w.now s
    then resume env e s s.checkout_expires_at w
    else (err session_not_admittable, w)

abbrev pub is_gone : Error → Bool
is_gone session_not_found = true
is_gone _ = false

-- A session that is gone cannot be admitted; any other failure to read it is passed on.
abbrev pub gone_is_final : {A : Type 0} → Error → Act A
gone_is_final e = if is_gone e then raise session_not_admittable else raise e

abbrev pub admit_session : Env → String → String → Session → Act (Unit {0})
admit_session env e k s = generate_checkout_token env s >>= λ token v.
    let exp_at = v.now + env.checkout_ttl in
    (update_checkout_token k token exp_at >> claim_slot env e s token exp_at) v

abbrev pub admit_or_resume : Env → String → String → Session → Act (Unit {0})
admit_or_resume env e k s w =
    if can_admit w.now s then admit_session env e k s w else resume_or_reject env e s w

unfoldable pub do_admit_user_to_checkout : Env → String → String → Act (Unit {0})
unfolding get_session generate_checkout_token update_checkout_token claim_slot resume_or_reject
do_admit_user_to_checkout env e k = catch (get_session k) gone_is_final >>= admit_or_resume env e k

abbrev pub is_final : Error → Bool
is_final session_not_admittable = true
is_final _ = false

-- Three attempts; the wait before attempt `n` is `n` seconds, and ends early at the deadline.
abbrev pub retry_attempts : ℕ
retry_attempts = 3

abbrev pub retry_delay : ℕ
retry_delay = 1000000000

abbrev pub wait : ℕ → ℕ → Act (Unit {0})
wait deadline d w =
    if ltb (w.now + d) deadline then (ok tt, record w { now = w.now + d }) else (err unavailable, w)

-- `left` attempts are left after the failure `e` of attempt `attempt`.
unfoldable pub retry : ℕ → ℕ → ℕ → Act (Unit {0}) → Act (Unit {0})
retry deadline zero attempt m = m
retry deadline (suc left) attempt m = catch m λ e v.
    let again = retry deadline left (attempt + 1) m in
    if is_final e then (err e, v) else (wait deadline (retry_delay * attempt) >> again) v

unfoldable pub admit_user_to_checkout : Env → ℕ → String → String → Act (Unit {0})
unfolding do_admit_user_to_checkout retry
admit_user_to_checkout env deadline e k = retry deadline 2 1 (do_admit_user_to_checkout env e k)
