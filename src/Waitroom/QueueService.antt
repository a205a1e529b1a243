-- ===== src/Waitroom/QueueService.antt =====
-- services/waitroom-svc/internal/service/queue_service.go.
use ticket_event_pf.Prelude.{
  ℕ, ◌*◌, String, Bool, false, Option, none, List, [], ◌∷◌, if◌then◌else◌, ◌==◌,
}
use ticket_event_pf.Prelude.Int.{ℤ, pos}
use ticket_event_pf.Prelude.Act.{pure, ◌>>=◌, ◌>>◌, best_effort, settle}
use ticket_event_pf.Waitroom.Model.{Session, SessionStatus, is_queued, is_admitted, unix, second}
use ticket_event_pf.Waitroom.World.{Env, Act}
use ticket_event_pf.Waitroom.QueueRepository

-- The position in the queue.
unfoldable pub enqueue_session : Env → Session → Act ℤ
unfolding QueueRepository.add_to_queue QueueRepository.get_queue_position
    QueueRepository.add_active_event
enqueue_session env s =
    QueueRepository.add_to_queue env s.event_id s
    >> (QueueRepository.get_queue_position s.event_id s.id >>= λ p.
        best_effort (QueueRepository.add_active_event s.event_id) >> pure p)

unfoldable pub dequeue_session : String → String → Act (Unit {0})
unfolding QueueRepository.remove_from_queue QueueRepository.get_queue_length
    QueueRepository.remove_active_event
dequeue_session e k =
    QueueRepository.remove_from_queue e (k ∷ [])
    >> settle (QueueRepository.get_queue_length e)
        (λ n. if n == 0 then best_effort (QueueRepository.remove_active_event e) else pure tt)
        (λ _. pure tt)

pub record QueueStatusOutput : Type 0 where
  pub session_id : String
  pub status : SessionStatus
  pub position : ℤ
  pub queue_length : ℕ
  pub queued_at : ℕ
  pub expires_at : ℕ
  pub checkout_token : String
  pub checkout_url : String
  pub checkout_expires_at : Option ℕ
  pub admitted_at : Option ℕ
  pub paused : Bool

pub record QueueInfoOutput : Type 0 where
  pub event_id : String
  pub queue_length : ℕ
  pub processing_count : ℕ

abbrev pub status_out : Session → ℤ × ℕ → QueueStatusOutput
status_out s p =
    let shown = is_admitted s.status in
    record {
      session_id = s.id;
      status = s.status;
      position = p.0;
      queue_length = p.1;
      queued_at = s.queued_at;
      expires_at = s.expires_at;
      checkout_token = if shown then s.checkout_token else "";
      checkout_url = if shown then "/checkout" else "";
      checkout_expires_at = if shown then s.checkout_expires_at else none;
      admitted_at = if shown then s.admitted_at else none;
      paused = false;
    }

unfoldable pub get_queue_status : Session → Act QueueStatusOutput
unfolding QueueRepository.get_queue_position_and_length
get_queue_status s =
    (if is_queued s.status
      then QueueRepository.get_queue_position_and_length s.event_id s.id
      else pure (pos 0, 0))
    >>= λ p. pure (status_out s p)

unfoldable pub get_queue_info : String → Act QueueInfoOutput
unfolding QueueRepository.get_queue_length QueueRepository.get_processing_count
get_queue_info e = QueueRepository.get_queue_length e >>= λ n.
    QueueRepository.get_processing_count e >>= λ c.
    pure (record { event_id = e; queue_length = n; processing_count = c })

-- The first `count` entries whose whole second has passed.
unfoldable pub peek_queue : String → ℕ → Act (List String)
unfolding QueueRepository.get_queue_members
peek_queue e count w =
    if count == 0
    then pure [] w
    else QueueRepository.get_queue_members e (unix w.now * second) count w
