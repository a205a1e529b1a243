-- ===== src/Waitroom/Model.antt =====
-- services/waitroom-svc/internal/models/session.go, the sentinels of internal/service/errors.go, and
-- the messages of internal/delivery/kafka/presenter.go. An instant is a number of nanoseconds of the
-- Unix clock. A queue score, a float64 near the current Unix time, is a number of its units in the
-- last place, which are 2^-22 seconds; `none` is Go's zero time or a nil pointer.
use Prim.Native.Nat.{◌/◌}
use ticket_event_pf.Prelude.Int.{ℤ}
use ticket_event_pf.Prelude.{
  ℕ, ◌+◌, ◌-◌, ◌*◌, String, Bool, true, false, not, ◌&&◌, ◌||◌, Option, none, some, if◌then◌else◌,
  ltb, ◌==◌,
}

pub data SessionStatus : Type 0 where
  queued admitted completed expired abandoned failed evicted sold_out : SessionStatus

pub record Session : Type 0 where
  pub id : String
  pub user_id : String
  pub event_id : String
  pub position : ℤ
  pub queued_at : ℕ
  pub status : SessionStatus
  pub admitted_at : Option ℕ
  pub completed_at : Option ℕ
  pub expires_at : ℕ
  pub checkout_token : String
  pub checkout_expires_at : Option ℕ
  pub token_invalidated : Bool
  pub token_invalidated_at : Option ℕ
  pub token_invalidation_reason : String
  pub connection_id : String
  pub user_agent : String
  pub ip_address : String
  pub last_heartbeat_at : Option ℕ
  pub attempt_count : ℕ
  pub queue_score : ℕ
  pub created_at : ℕ
  pub updated_at : ℕ

pub data Error : Type 0 where
  redis_nil unavailable : Error
  session_not_found session_expired invalid_session_status : Error
  event_not_found event_config_not_found wait_room_not_allowed sold_out : Error
  event_service_unavailable event_service_timeout : Error
  session_not_admittable : Error
  token_empty token_invalid token_invalidated token_expired token_invalid_claims : Error
  token_not_valid session_not_admitted signing_failed : Error
  already_running not_running : Error

pub record QueueReadyEvent : Type 0 where
  pub session_id : String
  pub user_id : String
  pub event_id : String
  pub checkout_token : String
  pub admitted_at : ℕ
  pub expires_at : Option ℕ
  pub timestamp : ℕ

pub record QueueJoinedEvent : Type 0 where
  pub session_id : String
  pub user_id : String
  pub event_id : String
  pub position : ℤ
  pub joined_at : ℕ
  pub timestamp : ℕ

pub record QueueLeftEvent : Type 0 where
  pub session_id : String
  pub user_id : String
  pub event_id : String
  pub reason : String
  pub left_at : ℕ
  pub timestamp : ℕ

pub data Message : Type 0 where
  queue_ready : QueueReadyEvent → Message
  queue_joined : QueueJoinedEvent → Message
  queue_left : QueueLeftEvent → Message

-- Tests on the clock `now`.
abbrev pub is_queued : SessionStatus → Bool
is_queued queued = true
is_queued _ = false

abbrev pub is_admitted : SessionStatus → Bool
is_admitted admitted = true
is_admitted _ = false

abbrev pub is_sold_out : SessionStatus → Bool
is_sold_out sold_out = true
is_sold_out _ = false

abbrev pub is_active : Session → Bool
is_active s = is_queued s.status || is_admitted s.status

abbrev pub is_terminal_status : SessionStatus → Bool
is_terminal_status queued = false
is_terminal_status admitted = false
is_terminal_status _ = true

abbrev pub is_terminal : Session → Bool
is_terminal s = is_terminal_status s.status

abbrev pub can_admit : ℕ → Session → Bool
can_admit now s = is_queued s.status && ltb now s.expires_at

abbrev pub is_expired : ℕ → Session → Bool
is_expired now s = ltb s.expires_at now

abbrev pub after_opt : ℕ → Option ℕ → Bool
after_opt now none = false
after_opt now (some t) = ltb t now

abbrev pub has_checkout_expired : ℕ → Session → Bool
has_checkout_expired now s = after_opt now s.checkout_expires_at

-- `Time.Unix` and `Time.UnixMilli`.
abbrev pub unix : ℕ → ℕ
unix t = t / 1000000000

abbrev pub unix_milli : ℕ → ℕ
unix_milli t = t / 1000000

-- One second of a score.
abbrev pub second : ℕ
second = 4194304

abbrev pub get_queue_score : Session → ℕ
get_queue_score s = if not (s.queue_score == 0) then s.queue_score else unix s.queued_at * second

-- `lot` is `rand.Float64()`, rounded by the addition to a whole number of units.
abbrev pub draw_queue_score : ℕ → ℕ → Option ℕ → ℕ
draw_queue_score lot queued_at none = unix queued_at * second
draw_queue_score lot queued_at (some start) =
    if not (ltb queued_at start) then unix queued_at * second else (unix start - 1) * second + lot
