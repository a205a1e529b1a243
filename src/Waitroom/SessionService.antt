-- ===== src/Waitroom/SessionService.antt =====
-- services/waitroom-svc/internal/service/session_service.go.
use ticket_event_pf.Prelude.{ℕ, ◌+◌, String, false, not, Option, none, some, if◌then◌else◌, str_eq}
use ticket_event_pf.Prelude.Int.{pos}
use ticket_event_pf.Prelude.Act.{Result, ok, err, pure, raise, ◌>>=◌, ◌>>◌, catch}
use ticket_event_pf.Waitroom.Model.{
  Session, SessionStatus, queued, Error, session_not_found, session_expired, invalid_session_status,
  sold_out, token_empty, token_invalid, token_invalidated, token_expired, token_invalid_claims,
  token_not_valid, session_not_admitted, signing_failed, is_active, is_admitted, is_sold_out,
  is_expired, has_checkout_expired, unix, draw_queue_score,
}
use ticket_event_pf.Waitroom.World.{World, Env, Act, ParsedToken}
use ticket_event_pf.Waitroom.SessionRepository
use ticket_event_pf.Waitroom.SessionRepository.{is_nil, session_ttl}

abbrev pub count_created : World → World
count_created w = record w { created = w.created + 1 }

abbrev pub new_session : Env → String → String → String → String → Option ℕ → World → Session
new_session env user event user_agent ip sale_start w = record {
  id = env.uuid w.created;
  user_id = user;
  event_id = event;
  position = pos 0;
  queued_at = w.now;
  status = queued;
  admitted_at = none;
  completed_at = none;
  expires_at = w.now + session_ttl;
  checkout_token = "";
  checkout_expires_at = none;
  token_invalidated = false;
  token_invalidated_at = none;
  token_invalidation_reason = "";
  connection_id = "";
  user_agent = user_agent;
  ip_address = ip;
  last_heartbeat_at = some w.now;
  attempt_count = 1;
  queue_score = draw_queue_score (env.lot w.created) w.now sale_start;
  created_at = w.now;
  updated_at = w.now;
}

unfoldable pub create_session : Env → String → String → String → String → Option ℕ → Act Session
unfolding SessionRepository.create
create_session env user event user_agent ip sale_start w =
    let s = new_session env user event user_agent ip sale_start w in
    (SessionRepository.create s >> pure s) (count_created w)

unfoldable pub update_session : Session → Act (Unit {0})
unfolding SessionRepository.update
update_session s = SessionRepository.update s.id s

-- `redis.Nil` is read as a session that is gone.
abbrev pub nil_is_gone : {A : Type 0} → Error → Act A
nil_is_gone e = if is_nil e then raise session_not_found else raise e

unfoldable pub update_session_status : String → SessionStatus → Act (Unit {0})
unfolding SessionRepository.update_status
update_session_status k status = catch (SessionRepository.update_status k status) nil_is_gone

unfoldable pub get_session : String → Act Session
unfolding SessionRepository.get
get_session k = catch (SessionRepository.get k) nil_is_gone

abbrev pub signed : {A : Type 0} → Option A → World → Result Error A × World
signed none w = (err signing_failed, w)
signed (some t) w = (ok t, w)

-- The token's claims are the session, its buyer and its event, and its end and issue in seconds.
unfoldable pub generate_checkout_token : Env → Session → Act String
generate_checkout_token env s w =
    signed (env.sign s.id s.user_id s.event_id (unix (w.now + env.checkout_ttl)) (unix w.now)) w

-- The checks of `ActiveSession`, on the session as it was read.
abbrev pub if_active : String → Session → Act Session
if_active user s w =
    if not (str_eq s.user_id user)
    then (err session_not_found, w)
    else if is_expired w.now s
    then (err session_expired, w)
    else if is_sold_out s.status
    then (err sold_out, w)
    else if not (is_active s)
    then (err invalid_session_status, w)
    else (ok s, w)

unfoldable pub active_session : String → String → Act Session
unfolding get_session
active_session k user = get_session k >>= if_active user

unfoldable pub update_checkout_token : String → String → ℕ → Act (Unit {0})
unfolding SessionRepository.update_checkout_token
update_checkout_token = SessionRepository.update_checkout_token

unfoldable pub invalidate_checkout_token : Env → String → String → Act (Unit {0})
unfolding SessionRepository.invalidate_token
invalidate_checkout_token = SessionRepository.invalidate_token

-- The checks of `ValidateCheckoutToken` on the session as it was read.
abbrev pub if_admitted : Session → Act (Unit {0})
if_admitted s w =
    if not (is_admitted s.status)
    then (err session_not_admitted, w)
    else if s.token_invalidated
    then (err token_invalidated, w)
    else if has_checkout_expired w.now s
    then (err token_expired, w)
    else (ok tt, w)

abbrev pub claimed_session : Option String → Act String
claimed_session none = raise token_invalid_claims
claimed_session (some k) = pure k

abbrev pub check_blacklist : Env → String → Act (Unit {0})
check_blacklist env token = SessionRepository.is_token_invalidated env token >>= λ b.
    if b then raise token_invalidated else pure tt

abbrev pub validate_parsed : Env → String → Option ParsedToken → Act (Unit {0})
validate_parsed env token none = raise token_invalid
validate_parsed env token (some p) =
    if not p.valid
    then raise token_not_valid
    else check_blacklist env token
      >> (claimed_session p.session_id >>= λ k.
          catch (SessionRepository.get k) nil_is_gone >>= if_admitted)

unfoldable pub validate_checkout_token : Env → String → Act (Unit {0})
unfolding SessionRepository.get SessionRepository.is_token_invalidated
validate_checkout_token env token w =
    if str_eq token ""
    then (err token_empty, w)
    else validate_parsed env token (env.parse w.now token) w
