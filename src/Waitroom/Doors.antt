-- ===== src/Waitroom/Doors.antt =====
-- How many buyers a tick lets in, and how long an answer about the stock or the event serves.
use ticket_event_pf.Prelude.{
  ℕ, suc, ◌+◌, ◌-◌, ◌≤◌, ◌≡◌, refl, ◌∙◌, String, true, none, some, inl, inr, ◌⊎◌, leb, ltb,
  Bool-cases, arith,
}
use ticket_event_pf.Prelude.Int
use ticket_event_pf.Prelude.Act.{
  Result, ok, err, Ends, settle-Ends, >>=-Ends, Ends-any, Ends-mono, raise, pure, gets,
}
use ticket_event_pf.Waitroom.Model.{
  Error, event_not_found, event_config_not_found, event_service_unavailable, event_service_timeout,
}
use ticket_event_pf.Waitroom.World.{
  World, Env, Stock, EventInfo, remote, Reply, found, not_found, timed_out, broken,
}
use ticket_event_pf.Waitroom.Remote.{remote-Ends}
use ticket_event_pf.Waitroom.Redis.Laws.{str_eq_self}
use ticket_event_pf.Waitroom.StockGate.{
  stock, fetch_stock, lookup_stock, store_stock, log_question, unanswered, read_stock,
}
use ticket_event_pf.Waitroom.EventGate.{
  ask_event_service, read_reply, get_event, fetch_event, lookup_event, store_event, remember,
}
use ticket_event_pf.Waitroom.Tick.{admit_count}

-- Where inventory counted the event with `a` tickets available, a tick lets in no more buyers than are
-- due, it lets in none or leaves no more buyers inside than there are tickets, and it lets in all that
-- are due or as many as there are tickets for.
pub admit_count-bounds :
    (due a inside : ℕ) (s : Stock)
    → s.counted ≡ true
    → s.available ≡ Int.pos a
    → (admit_count due s inside ≤ due)
      × ((admit_count due s inside ≡ 0) ⊎ (inside + admit_count due s inside ≤ a))
      × ((admit_count due s inside ≡ due) ⊎ (a ≤ inside + admit_count due s inside))
unfolding admit_count
admit_count-bounds due a inside s c h =
    rw (c, h)
      (elim (Bool-cases (leb (0 + inside) a)) [
        | inl l ↦ rw l (elim (Bool-cases (ltb (a - (0 + inside) + 0) (due + 0))) [
          | inl m ↦ rw m (ground arith, inr (ground arith), inr (ground arith))
          | inr m ↦ rw m (ground arith, inr (ground arith), inl refl)
        ])
        | inr l ↦
            let none_left : ltb 0 (due + suc (0 + inside - a - 1)) ≡ true = ground arith in
            rw l (rw none_left (omega arith, inl refl, inr (ground arith)))
      ])

-- A row that was just stored is found until it ends.
lookup_stock-stored :
    (env : Env) (e : String) (s : Stock) (v : World) (t : ℕ)
    → t ≤ v.now + env.stock_cache_ttl
    → lookup_stock t e (store_stock env e s v).stock_gate ≡ some s
lookup_stock-stored env e s v t h =
    let fresh : leb t (v.now + env.stock_cache_ttl) ≡ true = ground arith in
    rw (str_eq_self e) (rw fresh refl)

-- A question about an event that no valid row answers always gets an answer, and the answer serves
-- every call about the event until the end of its row, which asks and changes nothing.
pub stock-serves :
    (env : Env) (e : String) (w : World)
    → lookup_stock w.now e w.stock_gate ≡ none
    → Ends
        (λ s v.
          (u : World)
          → u.stock_gate ≡ v.stock_gate
          → u.now ≤ v.now + env.stock_cache_ttl
          → stock env e u ≡ (ok s, u))
        (λ _ _. ⊥)
        (stock env e w)
unfolding stock fetch_stock
stock-serves env e w h = rw h (
    >>=-Ends _ _ (λ _ _. Unit) (fetch_stock env e) (λ s v. (ok s, store_stock env e s v)) w
      (settle-Ends _ _ (λ _ _. Unit) (λ _ _. Unit)
        (remote (gets λ v. read_stock (env.get_event_stock v.now e))) pure (λ _. pure unanswered)
        (log_question e w) (Ends-any _) (λ _ _ _. tt) (λ _ _ _. tt))
      λ s v _ u g t. rw (g, lookup_stock-stored env e s v u.now t) refl)

lookup_event-stored :
    (env : Env) (e : String) (r : Result Error EventInfo) (v : World) (t : ℕ)
    → t ≤ v.now + env.event_cache_ttl
    → lookup_event t e (store_event env e r v).event_gate ≡ some r
lookup_event-stored env e r v t h =
    let fresh : leb t (v.now + env.event_cache_ttl) ≡ true = ground arith in
    rw (str_eq_self e) (rw fresh refl)

-- Fetching an event leaves the cache as it was, and fails with one of four errors.
abbrev SameGate : World → World → Type 0
SameGate w v = v.event_gate ≡ w.event_gate

abbrev IsEventError : Error → Type 0
IsEventError event_not_found = Unit
IsEventError event_config_not_found = Unit
IsEventError event_service_unavailable = Unit
IsEventError event_service_timeout = Unit
IsEventError _ = ⊥

abbrev Fetches : {A : Type 0} → World → Result Error A × World → Type 0
Fetches w r = Ends (λ _ v. SameGate w v) (λ e v. IsEventError e × SameGate w v) r

read-SameGate :
    {A : Type 0} (f : World → A) (w : World)
    → Ends (λ _ v. SameGate w v) (λ _ v. SameGate w v) (remote (gets f) w)
read-SameGate f w =
    remote-Ends (λ _ v. SameGate w v) (λ _ v. SameGate w v) (gets f) w (λ d ss. (refl, refl, refl))

ask-Fetches :
    {A : Type 0} (missing : Error) (f : World → Reply A) (w : World)
    → IsEventError missing
    → Fetches w (ask_event_service missing f w)
ask-Fetches {A = A} missing f w m =
    settle-Ends _ _ (λ _ v. SameGate w v) (λ _ v. SameGate w v) (remote (gets f))
      (read_reply missing) (λ _. raise event_service_unavailable) w (read-SameGate f w) by_reply
      (λ _ v h. (tt, h))
  where
    by_reply : (r : Reply A) (v : World) → SameGate w v → Fetches w (read_reply missing r v)
    by_reply (found a) v h = h
    by_reply Reply.missing v h = (m, h)
    by_reply not_found v h = (m, h)
    by_reply timed_out v h = (tt, h)
    by_reply broken v h = (tt, h)

fetch_event-Fetches : (env : Env) (e : String) (w : World) → Fetches w (fetch_event env e w)
unfolding fetch_event
fetch_event-Fetches env e w =
    >>=-Ends _ _ (λ _ v. SameGate w v) (ask_event_service event_not_found λ v. env.find_one v.now e)
      _ w (ask-Fetches event_not_found (λ v. env.find_one v.now e) w tt)
      λ _ v h.
        >>=-Ends _ _ (λ _ u. SameGate w u)
          (ask_event_service event_config_not_found λ u. env.get_config u.now e) _ v
          (Ends-mono _ _ (λ _ u. SameGate v u) (λ x u. IsEventError x × SameGate v u) _
            (λ _ u g. g ∙ h) (λ _ u g. (g.0, g.1 ∙ h))
            (ask-Fetches event_config_not_found (λ u. env.get_config u.now e) v tt))
          λ _ u g. g

-- What an answer about an event that no valid row answers for does to the cache, by a later call in the
-- world `u`: the event and the two verdicts that it is missing or has no configuration are answered
-- again, without a call; a service that is not there or times out leaves the cache as it was; there is
-- no other error.
abbrev pub Answers : Env → String → World → World → Result Error EventInfo × World → Type 0
Answers env e w u (ok i, v) = get_event env e u ≡ (ok i, u)
Answers env e w u (err event_not_found, v) = get_event env e u ≡ (err event_not_found, u)
Answers env e w u (err event_config_not_found, v) =
    get_event env e u ≡ (err event_config_not_found, u)
Answers env e w u (err event_service_unavailable, v) = v.event_gate ≡ w.event_gate
Answers env e w u (err event_service_timeout, v) = v.event_gate ≡ w.event_gate
Answers env e w u (err _, v) = ⊥

-- The world `u` comes after `v`, with its cache and before the end of a row that is stored in `v`.
abbrev Follows : Env → World → World → Type 0
Follows env v u = (u.event_gate ≡ v.event_gate) × (u.now ≤ v.now + env.event_cache_ttl)

-- An answer that is remembered serves.
store_event-serves :
    (env : Env) (e : String) (r : Result Error EventInfo) (v u : World)
    → Follows env (store_event env e r v) u
    → get_event env e u ≡ (r, u)
unfolding get_event
store_event-serves env e r v u (g, l) = rw (g, lookup_event-stored env e r v u.now l) refl

remember-Answers :
    (env : Env) (e : String) (w u : World) (r : Result Error EventInfo × World)
    → Fetches w r
    → Follows env (remember env e r).1 u
    → Answers env e w u (remember env e r)
remember-Answers env e w u (ok i, v) h f = store_event-serves env e (ok i) v u f
remember-Answers env e w u (err x, v) h f = by_error x h.0 f
  where
    by_error :
        (x : Error)
        → IsEventError x
        → Follows env (remember env e (err x, v)).1 u
        → Answers env e w u (remember env e (err x, v))
    by_error event_not_found k f = store_event-serves env e (err event_not_found) v u f
    by_error event_config_not_found k f =
        store_event-serves env e (err event_config_not_found) v u f
    by_error event_service_unavailable k f = h.1
    by_error event_service_timeout k f = h.1
    by_error _ k f = absurd k

-- Where no valid row answers for an event: an event that is found, and the verdicts that it or its
-- configuration is missing, are what a later call answers, with the cache as it is then and before the
-- end of the row; a service that cannot be reached or times out leaves the cache as it was; and there is
-- no other error.
pub get_event-Answers :
    (env : Env) (e : String) (w u : World)
    → lookup_event w.now e w.event_gate ≡ none
    → u.event_gate ≡ (get_event env e w).1.event_gate
    → u.now ≤ (get_event env e w).1.now + env.event_cache_ttl
    → Answers env e w u (get_event env e w)
unfolding get_event
get_event-Answers env e w u h =
    rw h
      (λ g l. remember-Answers env e w u (fetch_event env e w) (fetch_event-Fetches env e w) (g, l))
