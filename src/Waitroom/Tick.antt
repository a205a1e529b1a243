-- ===== src/Waitroom/Tick.antt =====
-- services/waitroom-svc/internal/service/queue_processor.go: one tick of the processor, the queue of
-- one event, and the buffer of announcements.
use ticket_event_pf.Prelude.{
  ℕ, suc, ◌+◌, String, Bool, true, false, not, ◌||◌, Option, none, some, List, [], ◌∷◌, ◌++◌,
  if◌then◌else◌, ◌==◌, length, take,
}
use ticket_event_pf.Prelude.Int.{ℤ, pos, pos_part, neg_part, sub_ℕ, ltb_ℤ}
use ticket_event_pf.Prelude.Act.{ok, err, pure, ◌>>=◌, ◌>>◌, settle, catch, best_effort, modify}
use ticket_event_pf.Waitroom.Model.{
  Session, Error, session_not_found, already_running, not_running, QueueReadyEvent, is_queued,
  is_terminal, is_expired, after_opt,
}
use ticket_event_pf.Waitroom.Model
use ticket_event_pf.Waitroom.World.{
  Env, Act, Stock, Door, open_door, paused_door, sold_out_door, ProcessorStatus,
}
use ticket_event_pf.Waitroom.QueueRepository.{
  remove_from_queue, get_processing_count, peek_buffered_queue_ready, trim_buffered_queue_ready,
  get_active_events,
}
use ticket_event_pf.Waitroom.QueueService.{peek_queue}
use ticket_event_pf.Waitroom.SessionService.{get_session, update_session_status}
use ticket_event_pf.Waitroom.StockGate.{stock}
use ticket_event_pf.Waitroom.Processor.{
  with_processor, increment_error_count, publish_queue_ready, admit_user_to_checkout, is_gone,
  is_final,
}

-- A list with one more entry, where there is one.
abbrev pub cons_if : {A : Type 0} → Bool → A → List A → List A
cons_if true x xs = x ∷ xs
cons_if false x xs = xs

abbrev min_ℤ : ℤ → ℤ → ℤ
min_ℤ a b = if ltb_ℤ b a then b else a

-- `int(max(0, min(int64(due), s.Available-inside)))`
unfoldable pub admit_count : ℕ → Stock → ℕ → ℕ
admit_count due s inside =
    if not s.counted
    then due
    else pos_part (min_ℤ (pos due) (sub_ℕ (pos_part s.available) (neg_part s.available + inside)))

abbrev pub sweep_batch_size : ℕ
sweep_batch_size = 100

-- The sessions that are removed from a line; a failure to remove them is logged.
abbrev pub let_go : String → List String → Act (Unit {0})
let_go e ks = best_effort (remove_from_queue e ks)

-- Whether a queued session was ended; the others leave if they are over.
abbrev pub end_session : String → Session → Act Bool
end_session k s =
    if is_queued s.status
    then settle (update_session_status k Model.SessionStatus.sold_out) (λ _. pure true)
        (λ _. pure false)
    else pure (is_terminal s)

abbrev pub ended : String → Act Bool
ended k = settle (get_session k) (end_session k) (λ e. pure (is_gone e))

unfoldable pub ended_of : List String → Act (List String)
unfolding get_session update_session_status
ended_of [] = pure []
ended_of (k ∷ ks) =
    let rest = ended_of ks in ended k >>= λ b. rest >>= λ leaving. pure (cons_if b k leaving)

unfoldable pub close_line : String → Act (Unit {0})
unfolding peek_queue remove_from_queue ended_of
close_line e = peek_queue e sweep_batch_size >>= λ ks. ended_of ks >>= let_go e

-- Whether a session can never be admitted.
abbrev pub dead : String → Act Bool
dead k =
    settle (get_session k) (λ s v. pure (is_terminal s || is_expired v.now s) v)
      (λ e. pure (is_gone e))

unfoldable pub dead_head : List String → Act (List String)
unfolding get_session
dead_head [] = pure []
dead_head (k ∷ ks) =
    let rest = dead_head ks in dead k >>= λ b. if b then (rest >>= λ xs. pure (k ∷ xs)) else pure []

unfoldable pub drop_dead_head : String → Act (Unit {0})
unfolding peek_queue remove_from_queue dead_head
drop_dead_head e = peek_queue e sweep_batch_size >>= λ ks. dead_head ks >>= let_go e

-- The sessions let in, and those that are stale; any other stays where it is.
unfoldable pub admit_each : Env → ℕ → String → List String → Act (List String × List String)
unfolding admit_user_to_checkout
admit_each env deadline e [] = pure ([], [])
admit_each env deadline e (k ∷ ks) =
    let rest = admit_each env deadline e ks in
    settle (admit_user_to_checkout env deadline e k) (λ _. rest >>= λ r. pure (k ∷ r.0, r.1))
      (λ er. rest >>= λ r. pure (r.0, cons_if (is_final er) k r.1))

abbrev pub more_admitted : ℕ → ProcessorStatus → ProcessorStatus
more_admitted n p = record p { total_admitted = p.total_admitted + n }

abbrev pub admit_batch : Env → ℕ → String → List String → Act (Unit {0})
admit_batch env deadline e ks = admit_each env deadline e ks >>= λ r.
    let_go e (r.0 ++ r.1) >> modify (with_processor (more_admitted (length r.0)))

abbrev pub admit_some : Env → ℕ → String → List String → ℕ → Act (Unit {0})
admit_some env deadline e ks n = if n == 0 then pure tt else admit_batch env deadline e (take n ks)

abbrev pub at_door : Env → ℕ → String → List String → Stock → Door → Act (Unit {0})
at_door env deadline e ks s paused_door = drop_dead_head e
at_door env deadline e ks s sold_out_door = close_line e
at_door env deadline e ks s open_door = get_processing_count e >>= λ inside.
    admit_some env deadline e ks (admit_count (length ks) s inside)

abbrev pub process_due : Env → ℕ → String → List String → Act (Unit {0})
process_due env deadline e [] = pure tt
process_due env deadline e (k ∷ ks) = stock env e >>= λ s. at_door env deadline e (k ∷ ks) s s.door

-- Ten seconds.
abbrev pub event_timeout : ℕ
event_timeout = 10000000000

unfoldable pub process_event_queue : Env → String → Act (Unit {0})
unfolding peek_queue stock get_processing_count admit_count drop_dead_head close_line admit_each
process_event_queue env e w =
    (peek_queue e env.batch_size >>= process_due env (w.now + event_timeout) e) w

-- The number of buffered announcements, from the head, that are settled: published, expired, or not
-- readable. `rest` is what follows the first.
abbrev pub one_more : Act ℕ → Act ℕ
one_more rest = rest >>= λ n. pure (suc n)

abbrev pub drain_one : Option QueueReadyEvent → Act ℕ → Act ℕ
drain_one none rest = increment_error_count >> one_more rest
drain_one (some evt) rest = λ v.
    if after_opt v.now evt.expires_at
    then one_more rest v
    else settle (publish_queue_ready evt) (λ _. one_more rest) (λ _. pure 0) v

unfoldable pub drain_from : Env → List String → Act ℕ
unfolding increment_error_count publish_queue_ready
drain_from env [] = pure 0
drain_from env (p ∷ ps) = let rest = drain_from env ps in drain_one (env.unmarshal p) rest

unfoldable pub drain_buffered_queue_ready : Env → Act (Unit {0})
unfolding peek_buffered_queue_ready trim_buffered_queue_ready drain_from
drain_buffered_queue_ready env =
    best_effort
      (peek_buffered_queue_ready env.batch_size >>= drain_from env >>= trim_buffered_queue_ready)

unfoldable pub process_each : Env → List String → Act (Unit {0})
unfolding process_event_queue increment_error_count
process_each env [] = pure tt
process_each env (e ∷ es) =
    let rest = process_each env es in
    catch (process_event_queue env e) (λ _. increment_error_count) >> rest

abbrev pub ran_at : ℕ → ProcessorStatus → ProcessorStatus
ran_at now p = record p { last_processed = some now }

-- The deferred write of the time runs on every path.
unfoldable pub process_all_queues : Env → Act (Unit {0})
unfolding drain_buffered_queue_ready get_active_events process_each increment_error_count
process_all_queues env =
    drain_buffered_queue_ready env
    >> (settle get_active_events (process_each env) (λ _. increment_error_count) >> λ v.
        modify (with_processor (ran_at v.now)) v)

abbrev pub started : ℕ → ProcessorStatus → ProcessorStatus
started now p = record p { is_running = true; started_at = some now }

abbrev pub stopped : ProcessorStatus → ProcessorStatus
stopped p = record p { is_running = false }

unfoldable pub start : Act (Unit {0})
start w =
    if w.processor.is_running
    then (err already_running, w)
    else (ok tt, with_processor (started w.now) w)

unfoldable pub stop : Act (Unit {0})
stop w = if w.processor.is_running then (ok tt, with_processor stopped w) else (err not_running, w)
