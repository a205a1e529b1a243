-- ===== src/Waitroom/World.antt =====
-- What waitroom-svc reads and writes: Redis, the topics, the two caches and the processor's counters,
-- a log of the events whose stock it asked for, and what it calls outside its own code. Each remote call takes
-- one step of a schedule: time passes, and the call goes through, is lost before it has taken effect,
-- or takes effect and its answer is lost.
use ticket_event_pf.Prelude.{ℕ, ◌+◌, String, Bool, Option, List, [], ◌∷◌}
use ticket_event_pf.Prelude.Int.{ℤ}
use ticket_event_pf.Prelude.Act.{Result, err, Act as ActOf}
use ticket_event_pf.Waitroom.Model.{Session, Error, unavailable, QueueReadyEvent, Message}

-- A key of Redis with its value, and the instant at which it expires.
pub record Keyed (A : Type 0) : Type 0 where
  pub key : String
  pub value : A
  pub expires_at : ℕ

-- A member of the sorted set of an event's queue.
pub record Waiting : Type 0 where
  pub event : String
  pub member : String
  pub score : ℕ

-- A member of the sorted set of an event's checkouts, scored by the end of its slot in milliseconds.
-- Each row carries the time at which the set's key expires.
pub record Checkout : Type 0 where
  pub event : String
  pub member : String
  pub score : ℕ
  pub key_expires_at : ℕ

pub data Door : Type 0 where
  open_door paused_door sold_out_door : Door

pub record Stock : Type 0 where
  pub door : Door
  pub available : ℤ
  pub counted : Bool

pub record EventInfo : Type 0 where
  pub allow_wait_room : Bool
  pub sale_start_at : Option ℕ

-- A cached verdict about an event.
pub record EventGateEntry : Type 0 where
  pub event : String
  pub verdict : Result Error EventInfo
  pub expires_at : ℕ

pub record StockGateEntry : Type 0 where
  pub event : String
  pub stock : Stock
  pub expires_at : ℕ

pub record ProcessorStatus : Type 0 where
  pub is_running : Bool
  pub started_at : Option ℕ
  pub last_processed : Option ℕ
  pub total_admitted : ℕ
  pub error_count : ℕ

pub data Fault : Type 0 where
  fine lost unacked : Fault

pub record Step : Type 0 where
  pub fault : Fault
  pub elapsed : ℕ

pub record World : Type 0 where
  pub sessions : List (Keyed Session)
  pub user_sessions : List (Keyed String)
  pub blacklist : List (Keyed String)
  pub queue : List Waiting
  pub checkouts : List Checkout
  pub pending : List String
  pub active_events : List String
  pub published : List Message
  pub event_gate : List EventGateEntry
  pub stock_gate : List StockGateEntry
  pub stock_asked : List String
  pub processor : ProcessorStatus
  pub created : ℕ
  pub now : ℕ
  pub steps : List Step

-- The counts of inventory-svc's `GetEventStock`.
pub record EventStock : Type 0 where
  pub total : ℤ
  pub sold : ℤ
  pub available : ℤ

-- What a call of event-svc answers: an error by its gRPC code, or a value that may be missing.
pub data Reply (A : Type 0) : Type 0 where
  found : A → Reply A
  missing not_found timed_out broken : Reply A

pub record EventConfig : Type 0 where
  pub allow_wait_room : Bool
  pub ticket_sale_start : Option ℕ

-- A JSON web token that parses: whether it is valid, and its claim `session_id`.
pub record ParsedToken : Type 0 where
  pub valid : Bool
  pub session_id : Option String

-- Code outside this service: how Redis orders members of one score, SHA-256, JSON, JSON web tokens,
-- the generators of ids and of lots by the number drawn before, and what event-svc and inventory-svc
-- answer at an instant. And the configuration: the durations in nanoseconds.
pub record Env : Type 0 where
  pub ties : String → String → Bool
  pub hash_token : String → String
  pub marshal : QueueReadyEvent → Option String
  pub unmarshal : String → Option QueueReadyEvent
  pub sign : String → String → String → ℕ → ℕ → Option String
  pub parse : ℕ → String → Option ParsedToken
  pub uuid : ℕ → String
  pub lot : ℕ → ℕ
  pub find_one : ℕ → String → Reply (Unit {0})
  pub get_config : ℕ → String → Reply EventConfig
  pub get_event_stock : ℕ → String → Option EventStock
  pub batch_size : ℕ
  pub checkout_ttl : ℕ
  pub event_cache_ttl : ℕ
  pub stock_cache_ttl : ℕ

abbrev pub Act : Type 0 → Type 0
Act A = ActOf Error World A

abbrev pub next_step : List Step → Step × List Step
next_step [] = (record { fault = fine; elapsed = 0 }, [])
next_step (s ∷ ss) = (s, ss)

abbrev pub suffer : {A : Type 0} → Fault → Act A → Act A
suffer fine m w = m w
suffer lost m w = (err unavailable, w)
suffer unacked m w = (err unavailable, (m w).1)

-- The world when the answer to the next call is made.
abbrev pub advance : ℕ → List Step → World → World
advance d ss w = record w { now = w.now + d; steps = ss }

abbrev pub remote : {A : Type 0} → Act A → Act A
remote m w = let (s, ss) = next_step w.steps in suffer s.fault m (advance s.elapsed ss w)
