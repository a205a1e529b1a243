-- ===== src/Waitroom/EventGate.antt =====
-- services/waitroom-svc/internal/service/event_gate.go, with `eventServiceError` of
-- waitroom_service.go. Calls that `singleflight` collapses are one call.
use ticket_event_pf.Prelude.{
  ℕ, ◌+◌, String, Bool, true, false, not, ◌&&◌, Option, none, some, List, [], ◌∷◌, if◌then◌else◌,
  leb, str_eq, rows_where,
}
use ticket_event_pf.Prelude.Act.{Result, ok, err, pure, raise, ◌>>=◌, ◌>>◌, settle, gets}
use ticket_event_pf.Waitroom.Model.{
  Error, event_not_found, event_config_not_found, event_service_unavailable, event_service_timeout,
}
use ticket_event_pf.Waitroom.World.{
  World, Env, Act, remote, EventInfo, EventGateEntry, Reply, found, missing, not_found, timed_out,
  broken, EventConfig,
}

-- `isEventVerdict`.
abbrev pub is_event_verdict : {A : Type 0} → Result Error A → Bool
is_event_verdict (ok _) = true
is_event_verdict (err event_not_found) = true
is_event_verdict (err event_config_not_found) = true
is_event_verdict (err _) = false

abbrev pub valid_entry : ℕ → String → EventGateEntry → Bool
valid_entry now e r = str_eq r.event e && leb now r.expires_at

abbrev pub lookup_event : ℕ → String → List EventGateEntry → Option (Result Error EventInfo)
lookup_event now e [] = none
lookup_event now e (r ∷ rs) = if valid_entry now e r then some r.verdict else lookup_event now e rs

abbrev pub entry_of : String → Result Error EventInfo → ℕ → EventGateEntry
entry_of e verdict end = record { event = e; verdict = verdict; expires_at = end }

abbrev pub store_event : Env → String → Result Error EventInfo → World → World
store_event env e verdict w = record w {
  event_gate =
      entry_of e verdict (w.now + env.event_cache_ttl)
      ∷ rows_where (λ r. not (str_eq r.event e)) w.event_gate;
}

-- A reply of event-svc; `absent` is the verdict on a value that is missing.
abbrev pub read_reply : {A : Type 0} → Error → Reply A → World → Result Error A × World
read_reply absent (found a) w = (ok a, w)
read_reply absent missing w = (err absent, w)
read_reply absent not_found w = (err absent, w)
read_reply absent timed_out w = (err event_service_timeout, w)
read_reply absent broken w = (err event_service_unavailable, w)

-- A call that is cut off reads as a service that is not there.
abbrev pub ask_event_service : {A : Type 0} → Error → (World → Reply A) → Act A
ask_event_service absent f =
    settle (remote (gets f)) (read_reply absent) (λ _. raise event_service_unavailable)

abbrev pub info_of : EventConfig → EventInfo
info_of c = record { allow_wait_room = c.allow_wait_room; sale_start_at = c.ticket_sale_start }

unfoldable pub fetch_event : Env → String → Act EventInfo
fetch_event env e =
    ask_event_service event_not_found (λ w. env.find_one w.now e)
    >> (ask_event_service event_config_not_found (λ w. env.get_config w.now e) >>= λ c.
        pure (info_of c))

-- A verdict is stored; the failure of a call is not.
abbrev pub remember : Env → String → Result Error EventInfo × World → Result Error EventInfo × World
remember env e (r, w) = (r, if is_event_verdict r then store_event env e r w else w)

abbrev pub or_fetch_event : Env → String → Option (Result Error EventInfo) → Act EventInfo
or_fetch_event env e (some r) w = (r, w)
or_fetch_event env e none w = remember env e (fetch_event env e w)

unfoldable pub get_event : Env → String → Act EventInfo
unfolding fetch_event
get_event env e w = or_fetch_event env e (lookup_event w.now e w.event_gate) w
