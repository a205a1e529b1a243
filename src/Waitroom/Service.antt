-- ===== src/Waitroom/Service.antt =====
-- services/waitroom-svc/internal/service/waitroom_service.go.
use ticket_event_pf.Prelude.{ℕ, String, Bool, true, false, not, some, if◌then◌else◌, str_eq}
use ticket_event_pf.Prelude.Int.{ℤ}
use ticket_event_pf.Prelude.Act.{pure, raise, ◌>>=◌, ◌>>◌, settle, best_effort, modify}
use ticket_event_pf.Waitroom.Model.{
  Session, completed, failed, expired, abandoned, session_not_found, sold_out,
  wait_room_not_allowed, QueueJoinedEvent, QueueLeftEvent, queue_joined, queue_left, is_queued,
}
use ticket_event_pf.Waitroom.World.{
  Env, Act, remote, Door, open_door, paused_door, sold_out_door, EventInfo,
}
use ticket_event_pf.Waitroom.QueueRepository.{remove_from_processing}
use ticket_event_pf.Waitroom.SessionService.{
  create_session, update_session, update_session_status, get_session, active_session,
  invalidate_checkout_token,
}
use ticket_event_pf.Waitroom.QueueService.{
  enqueue_session, dequeue_session, get_queue_status, get_queue_info, QueueStatusOutput,
}
use ticket_event_pf.Waitroom.EventGate.{get_event}
use ticket_event_pf.Waitroom.StockGate.{door}
use ticket_event_pf.Waitroom.Processor.{put_message, is_gone}

pub record JoinQueueInput : Type 0 where
  pub user_id : String
  pub event_id : String
  pub user_agent : String
  pub ip_address : String

pub record JoinQueueOutput : Type 0 where
  pub session_id : String
  pub position : ℤ
  pub queue_length : ℕ
  pub queued_at : ℕ
  pub expires_at : ℕ

-- The input of the three handlers; `timestamp` is that of the message.
pub record CheckoutInput : Type 0 where
  pub session_id : String
  pub user_id : String
  pub event_id : String
  pub timestamp : ℕ

abbrev pub is_door_sold_out : Door → Bool
is_door_sold_out sold_out_door = true
is_door_sold_out _ = false

abbrev pub is_door_paused : Door → Bool
is_door_paused paused_door = true
is_door_paused _ = false

abbrev pub joined_of : Session → ℤ → ℕ → QueueJoinedEvent
joined_of s p now = record {
  session_id = s.id;
  user_id = s.user_id;
  event_id = s.event_id;
  position = p;
  joined_at = s.queued_at;
  timestamp = now;
}

unfoldable pub publish_queue_joined : Session → ℤ → Act (Unit {0})
publish_queue_joined s p v = remote (modify (put_message (queue_joined (joined_of s p v.now)))) v

abbrev pub join_out : Session → ℤ → ℕ → JoinQueueOutput
join_out s p n = record {
  session_id = s.id;
  position = p;
  queue_length = n;
  queued_at = s.queued_at;
  expires_at = s.expires_at;
}

abbrev pub enter : Env → JoinQueueInput → EventInfo → Act JoinQueueOutput
enter env i info =
    create_session env i.user_id i.event_id i.user_agent i.ip_address info.sale_start_at >>= λ s.
    enqueue_session env s >>= λ p.
    best_effort (publish_queue_joined s p)
    >> (get_queue_info i.event_id >>= λ q. pure (join_out s p q.queue_length))

unfoldable pub join_queue : Env → JoinQueueInput → Act JoinQueueOutput
unfolding get_event door create_session enqueue_session publish_queue_joined get_queue_info
join_queue env i = get_event env i.event_id >>= λ info.
    if not info.allow_wait_room
    then raise wait_room_not_allowed
    else door env i.event_id >>= λ d.
        if is_door_sold_out d then raise sold_out else enter env i info

abbrev pub door_of_waiter : Env → Session → Act Door
door_of_waiter env s = if is_queued s.status then door env s.event_id else pure open_door

abbrev pub show_status : Session → Door → Act QueueStatusOutput
show_status s d =
    if is_door_sold_out d
    then raise sold_out
    else get_queue_status s >>= λ out. pure (record out { paused = is_door_paused d })

unfoldable pub queue_status : Env → String → String → Act QueueStatusOutput
unfolding active_session door get_queue_status
queue_status env k user = active_session k user >>= λ s. door_of_waiter env s >>= show_status s

abbrev pub left_of : String → Session → ℕ → QueueLeftEvent
left_of k s now = record {
  session_id = k;
  user_id = s.user_id;
  event_id = s.event_id;
  reason = "user_left";
  left_at = s.updated_at;
  timestamp = now;
}

unfoldable pub publish_queue_left : String → Session → Act (Unit {0})
publish_queue_left k s v = remote (modify (put_message (queue_left (left_of k s v.now)))) v

abbrev pub leave : String → Session → Act (Unit {0})
leave k s =
    dequeue_session s.event_id k
    >> (update_session_status k abandoned >> best_effort (publish_queue_left k s))

unfoldable pub leave_queue : String → String → Act (Unit {0})
unfolding get_session dequeue_session update_session_status publish_queue_left
leave_queue k user = get_session k >>= λ s.
    if not (str_eq s.user_id user) then raise session_not_found else leave k s

-- The handlers end the session as they read it; a session that is gone is no error.
abbrev pub end_checkout : Env → String → CheckoutInput → (Session → Session) → Act (Unit {0})
end_checkout env reason i f =
    settle (get_session i.session_id)
      (λ s.
        best_effort (invalidate_checkout_token env i.session_id reason)
        >> (best_effort (remove_from_processing i.event_id i.session_id) >> update_session (f s)))
      (λ e. if is_gone e then pure tt else raise e)

abbrev pub complete_session : CheckoutInput → Session → Session
complete_session i s = record s { status = completed; completed_at = some i.timestamp }

abbrev pub fail_session : Session → Session
fail_session s = record s { status = failed }

abbrev pub expire_session : Session → Session
expire_session s = record s { status = expired }

unfoldable pub handle_checkout_completed : Env → CheckoutInput → Act (Unit {0})
unfolding get_session invalidate_checkout_token remove_from_processing update_session
handle_checkout_completed env i = end_checkout env "completed" i (complete_session i)

unfoldable pub handle_checkout_failed : Env → CheckoutInput → Act (Unit {0})
unfolding get_session invalidate_checkout_token remove_from_processing update_session
handle_checkout_failed env i = end_checkout env "failed" i fail_session

unfoldable pub handle_checkout_expired : Env → CheckoutInput → Act (Unit {0})
unfolding get_session invalidate_checkout_token remove_from_processing update_session
handle_checkout_expired env i = end_checkout env "expired" i expire_session
