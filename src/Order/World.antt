-- ===== src/Order/World.antt =====
-- What a call of order-svc reads and writes: the table, the topics, and the services it calls. Each
-- remote call takes one entry of a schedule of faults: it goes through, it is lost before it has
-- taken effect, or it takes effect and its answer is lost. Both faults read as the same error.
use ticket_event_pf.Prelude.{ℕ, zero, suc, String, Bool, true, false, List, [], ◌∷◌, if◌then◌else◌}
use ticket_event_pf.Order.Model.{
  OrderRow, OrderItem, Slot, Event, Error, unavailable, not_enough_tickets, order_code_collision,
  cannot_confirm, already_processed, order_not_found, ReserveItem, PaymentIntent,
}

pub data Result (A : Type 0) : Type 0 where
  ok : A → Result A
  err : Error → Result A

pub data Fault : Type 0 where
  fine lost unacked : Fault

-- `S` is the state of the services that order-svc calls.
pub record World (S : Type 0) : Type 0 where
  pub orders : List OrderRow
  pub items : List OrderItem
  pub slots : List Slot
  pub events : List Event
  pub services : S
  pub now : ℕ
  pub faults : List Fault

-- The clients of inventory-svc and payment-svc.
pub record Services (S : Type 0) : Type 0 where
  pub reserve : String → ℕ → List ReserveItem → S → Result (Unit {0}) × S
  pub release : String → S → Result (Unit {0}) × S
  pub confirm : String → S → Result (Unit {0}) × S
  pub create_payment_intent : PaymentIntent → S → Result String × S
  pub get_payment_url : String → S → Result String

abbrev pub Act : Type 0 → Type 0 → Type 0
Act S A = World S → Result A × World S

abbrev pub next_fault : List Fault → Fault × List Fault
next_fault [] = (fine, [])
next_fault (f ∷ fs) = (f, fs)

module _ {S : Type 0} where
  abbrev pub pure : {A : Type 0} → A → Act S A
  pure a w = (ok a, w)

  abbrev pub raise : {A : Type 0} → Error → Act S A
  raise e w = (err e, w)

  abbrev pub then_run : {A B : Type 0} → (A → Act S B) → Result A × World S → Result B × World S
  then_run f (ok a, w) = f a w
  then_run f (err e, w) = (err e, w)

  infixl 5 ◌>>=◌ ◌>>◌
  abbrev pub ◌>>=◌ : {A B : Type 0} → Act S A → (A → Act S B) → Act S B
  ◌>>=◌ m f w = then_run f (m w)

  abbrev pub ◌>>◌ : {A B : Type 0} → Act S A → Act S B → Act S B
  m >> k = m >>= λ _. k

  -- `if err := m; err != nil { return f(err) }`
  abbrev pub on_error : {A : Type 0} → (Error → Act S A) → Result A × World S → Result A × World S
  on_error f (ok a, w) = (ok a, w)
  on_error f (err e, w) = f e w

  abbrev pub catch : {A : Type 0} → Act S A → (Error → Act S A) → Act S A
  catch m f w = on_error f (m w)

  -- An error that is logged and dropped.
  abbrev pub best_effort : Act S (Unit {0}) → Act S (Unit {0})
  best_effort m = catch m (λ e. pure tt)

  abbrev pub suffer : {A : Type 0} → Fault → Act S A → Act S A
  suffer fine m w = m w
  suffer lost m w = (err unavailable, w)
  suffer unacked m w = (err unavailable, (m w).1)

  -- One remote call.
  abbrev pub remote : {A : Type 0} → Act S A → Act S A
  remote m w = let (f, fs) = next_fault w.faults in suffer f m (record w { faults = fs })

  -- A call of another service.
  abbrev pub ask : {A : Type 0} → (S → Result A × S) → Act S A
  ask f = remote λ w. let (r, s) = f w.services in (r, record w { services = s })

-- Errors that are tagged non-retryable.
abbrev pub is_final : Error → Bool
is_final not_enough_tickets = true
is_final order_code_collision = true
is_final cannot_confirm = true
is_final already_processed = true
is_final order_not_found = true
is_final _ = false

-- An activity under a retry policy of `suc n` attempts: an error that may be retried is, while
-- attempts are left.
unfoldable pub execute : {S A : Type 0} → ℕ → Act S A → Act S A
execute zero m w = m w
execute (suc n) m w =
    (catch m λ e v. let again = execute n m v in if is_final e then (err e, v) else again) w
