-- ===== src/Waitroom/Consumer/Drained.antt =====
-- A claim of internal/delivery/kafka/consumer that nothing stops.
use ticket_event_pf.Prelude.{
  ℕ, zero, suc, ◌-◌, ◌≡◌, refl, ap, ◌∙◌, String, true, false, Option, List, [], ◌∷◌, if◌then◌else◌,
}
use ticket_event_pf.Prelude.Act.{Result, ok, err}
use ticket_event_pf.Waitroom.World.{World, Env}
use ticket_event_pf.Waitroom.Consumer.{
  Message, CheckoutEvent, DeadLetter, HandlerError, RetryPolicy, Consumer, Delivery, committed,
  is_permanent, delay_for, publish_dead_letter, wait_or_stop, after_last, after_one, deliver_from,
  deliver, mark_then, consume_claim,
}

-- A consumer whose context goes on, and whose dead letters are all stored.
abbrev pub undisturbed : World → List DeadLetter → Consumer
undisturbed w ls = record { world = w; dead_letters = ls; halts = []; sends = [] }

module _ (env : Env) (decode : String → Option CheckoutEvent) (p : RetryPolicy) where
  abbrev Commits : Delivery × Consumer → Type 0
  Commits r = (w : World) × (ls : List DeadLetter) × (r ≡ (committed, undisturbed w ls))

  publish_dead_letter-Commits :
      (m : Message) (a : ℕ) (e : HandlerError) (w : World) (ls : List DeadLetter)
      → Commits (publish_dead_letter m a e (undisturbed w ls))
  unfolding publish_dead_letter
  publish_dead_letter-Commits m a e w ls = (w, _, refl)

  after_one-Commits :
      (attempt : ℕ) (m : Message) (again : Consumer → Delivery × Consumer) (w : World)
      (ls : List DeadLetter) (r : Result HandlerError (Unit {0}) × World)
      → ((v : World) → Commits (again (undisturbed v ls)))
      → Commits (after_one env decode p m attempt again (undisturbed w ls) r)
  after_one-Commits attempt m again w ls (ok tt, v) g = (v, ls, refl)
  after_one-Commits attempt m again w ls (err x, v) g =
      elim (is_permanent x)
        as (λ b. Commits (
          if b
          then publish_dead_letter m attempt x (undisturbed v ls)
          else wait_or_stop (delay_for attempt p.base_delay) again (undisturbed v ls))) [
            | true ↦ publish_dead_letter-Commits m attempt x v ls
            | false ↦ g _
          ]

  after_last-Commits :
      (attempt : ℕ) (m : Message) (w : World) (ls : List DeadLetter)
      (r : Result HandlerError (Unit {0}) × World)
      → Commits (after_last env decode m attempt (undisturbed w ls) r)
  after_last-Commits attempt m w ls (ok tt, v) = (v, ls, refl)
  after_last-Commits attempt m w ls (err x, v) = publish_dead_letter-Commits m attempt x v ls

  deliver_from-Commits :
      (left attempt : ℕ) (m : Message) (w : World) (ls : List DeadLetter)
      → Commits (deliver_from env decode p left attempt m (undisturbed w ls))
  unfolding deliver_from
  deliver_from-Commits zero attempt m w ls = after_last-Commits attempt m w ls _
  deliver_from-Commits (suc left) attempt m w ls =
      after_one-Commits attempt m (deliver_from env decode p left (suc attempt) m) w ls _
        (λ v. deliver_from-Commits left (suc attempt) m v ls)

  mark_then-all :
      (m : Message) (ms : List Message) (go : Consumer → List Message × Consumer)
      (r : Delivery × Consumer)
      → ((w : World) (ls : List DeadLetter) → (go (undisturbed w ls)).0 ≡ ms)
      → Commits r
      → (mark_then env decode m go r).0 ≡ m ∷ ms
  mark_then-all m ms go r g (w, ls, e) =
      ap (λ x. (mark_then env decode m go x).0) e ∙ ap (λ xs. m ∷ xs) (g w ls)

  -- Where the context goes on and every dead letter that is sent is stored, a claim marks the offsets of
  -- all its messages, whatever the handlers answer and however often the service fails.
  pub consume_claim-all :
      (ms : List Message) (w : World) (ls : List DeadLetter)
      → (consume_claim env decode p ms (undisturbed w ls)).0 ≡ ms
  unfolding consume_claim deliver
  consume_claim-all [] w ls = refl
  consume_claim-all (m ∷ ms) w ls =
      mark_then-all m ms (consume_claim env decode p ms) _ (λ v rs. consume_claim-all ms v rs)
        (deliver_from-Commits (p.max_attempts - 1) 1 m w ls)
