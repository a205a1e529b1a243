-- ===== src/Waitroom/SessionRepository.antt =====
-- services/waitroom-svc/internal/repository/redis/session_repository.go: one key of Redis for each
-- session, one for each buyer of an event, one for each invalidated token. A pipeline is one call.
-- The JSON text that a session is stored as is left out: a key holds the session, so that `json.Marshal`
-- and `json.Unmarshal` are taken to bring a session back as it was, and never to fail.
use ticket_event_pf.Prelude.{
  ℕ, ◌+◌, ◌-◌, String, Bool, true, false, Option, none, some, if◌then◌else◌, ltb, ◌==◌, str_eq,
  str_append,
}
use ticket_event_pf.Prelude.Int.{ℤ}
use ticket_event_pf.Prelude.Act.{Result, ok, err, pure, raise, ◌>>=◌, settle, catch, gets, modify}
use ticket_event_pf.Waitroom.Model.{Session, SessionStatus, admitted, Error, redis_nil, token_empty}
use ticket_event_pf.Waitroom.World.{World, Env, Act, remote}
use ticket_event_pf.Waitroom.Redis.{get_key, exists_key, set_key, del_key, ttl_of}

-- Two hours, and fifteen minutes.
abbrev pub session_ttl : ℕ
session_ttl = 7200000000000

abbrev pub token_ttl : ℕ
token_ttl = 900000000000

abbrev pub user_event_key : String → String → String
user_event_key user event = str_append user (str_append ":" event)

-- `redis.Nil` for a key that is missing.
abbrev pub or_nil : {A : Type 0} → Option A → World → Result Error A × World
or_nil none w = (err redis_nil, w)
or_nil (some a) w = (ok a, w)

abbrev pub find_session : String → World → Option Session
find_session k w = get_key w.now k w.sessions

abbrev pub put_session : String → Session → ℕ → World → World
put_session k s ttl w = record w { sessions = set_key k s (w.now + ttl) w.sessions }

abbrev pub put_created : Session → World → World
put_created s w = record (put_session s.id s session_ttl w) {
  user_sessions =
      set_key (user_event_key s.user_id s.event_id) s.id (w.now + session_ttl) w.user_sessions;
}

unfoldable pub create : Session → Act (Unit {0})
create s = remote (modify (put_created s))

unfoldable pub get : String → Act Session
get k = remote λ w. or_nil (find_session k w) w

-- `TTL` of a session's key, and two hours where it has none.
abbrev pub ttl_or : ℕ → ℕ
ttl_or t = if t == 0 then session_ttl else t

abbrev pub read_ttl : String → Act ℕ
read_ttl k = remote (gets λ w. ttl_of w.now k w.sessions)

unfoldable pub update : String → Session → Act (Unit {0})
update k s w =
    let s' = record s { updated_at = w.now } in
    (read_ttl k >>= λ t. remote (modify (put_session k s' (ttl_or t)))) w

unfoldable pub update_status : String → SessionStatus → Act (Unit {0})
unfolding get update
update_status k status =
    get k >>= λ s v. update k (record s { status = status; updated_at = v.now }) v

unfoldable pub update_position : String → ℤ → Act (Unit {0})
unfolding get update
update_position k place =
    get k >>= λ s v. update k (record s { position = place; updated_at = v.now }) v

abbrev pub with_token : String → ℕ → ℕ → Session → Session
with_token token exp_at now s = record s {
  checkout_token = token;
  checkout_expires_at = some exp_at;
  admitted_at = some now;
  status = admitted;
  updated_at = now;
}

unfoldable pub update_checkout_token : String → String → ℕ → Act (Unit {0})
unfolding get update
update_checkout_token k token exp_at = get k >>= λ s v. update k (with_token token exp_at v.now s) v

-- A session that is gone is deleted already.
abbrev pub is_nil : Error → Bool
is_nil redis_nil = true
is_nil _ = false

abbrev pub drop_session : String → Session → World → World
drop_session k s w = record w {
  sessions = del_key k w.sessions;
  user_sessions = del_key (user_event_key s.user_id s.event_id) w.user_sessions;
}

unfoldable pub delete : String → Act (Unit {0})
unfolding get
delete k =
    settle (get k) (λ s. remote (modify (drop_session k s)))
      (λ e. if is_nil e then pure tt else raise e)

unfoldable pub get_by_user_and_event : String → String → Act Session
unfolding get
get_by_user_and_event user event =
    remote (λ w. or_nil (get_key w.now (user_event_key user event) w.user_sessions) w) >>= get

unfoldable pub session_exists : String → Act Bool
session_exists k = remote (gets λ w. exists_key w.now k w.sessions)

-- What is left of a token's life, and fifteen minutes where nothing is.
abbrev pub remaining : ℕ → Option ℕ → ℕ
remaining now none = token_ttl
remaining now (some t) = if ltb now t then t - now else token_ttl

abbrev pub invalidated : ℕ → String → Session → Session
invalidated now reason s = record s {
  token_invalidated = true;
  token_invalidated_at = some now;
  token_invalidation_reason = reason;
  updated_at = now;
}

abbrev pub put_invalidated : Env → String → String → Session → ℕ → ℕ → World → World
put_invalidated env k reason s read_at t w =
    record (put_session k (invalidated read_at reason s) (ttl_or t) w) {
      blacklist =
          set_key (env.hash_token s.checkout_token) k
            (w.now + remaining read_at s.checkout_expires_at) w.blacklist;
    }

unfoldable pub invalidate_session : Env → String → String → Session → Act (Unit {0})
invalidate_session env k reason s v =
    if str_eq s.checkout_token ""
    then (ok tt, v)
    else (catch (read_ttl k) (λ e. pure 0) >>= λ t.
          remote (modify (put_invalidated env k reason s v.now t)))
        v

unfoldable pub invalidate_token : Env → String → String → Act (Unit {0})
unfolding get invalidate_session
invalidate_token env k reason = get k >>= invalidate_session env k reason

unfoldable pub is_token_invalidated : Env → String → Act Bool
is_token_invalidated env token =
    if str_eq token ""
    then raise token_empty
    else remote (gets λ w. exists_key w.now (env.hash_token token) w.blacklist)
