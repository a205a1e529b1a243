-- ===== src/Waitroom/Consumer/Committed.antt =====
-- What a claim of internal/delivery/kafka/consumer marks.
use Prim.Native.Nat.{◌^◌}
use native.Mathlib.Nat.{mul_assoc, mul_comm, pow-suc}
use ticket_event_pf.Prelude.{
  ℕ, zero, suc, ◌+◌, ◌-◌, ◌*◌, ◌≤◌, ◌≡◌, refl, ap, sym, ◌∙◌, String, Bool, true, false, Option,
  List, [], ◌∷◌, ◌++◌, arith, inl, inr, ◌⊎◌, if◌then◌else◌,
}
use ticket_event_pf.Prelude.Act.{Result, ok, err}
use ticket_event_pf.Waitroom.Model.{Error}
use ticket_event_pf.Waitroom.World.{World, Env, Fault, fine, lost, unacked}
use ticket_event_pf.Waitroom.Consumer.{
  Message, CheckoutEvent, DeadLetter, HandlerError, permanent, transient, RetryPolicy, Consumer,
  Delivery, committed, uncommitted, not_parked, is_permanent, delay_for, publish_dead_letter, send,
  letter_of, next_send, next_halt, wait_or_stop, process_message, after_last, after_one,
  deliver_from, deliver, mark_then, consume_claim,
}

-- The dead letters of `d` are those of `ls`, with some more in front.
abbrev pub Extends : List DeadLetter → Consumer → Type 0
Extends ls d = (more : List DeadLetter) × (d.dead_letters ≡ more ++ ls)

-- The world after a wait.
abbrev later : ℕ → World → World
later t w = record w { now = w.now + t }

delay_for-doubles : (n base : ℕ) → delay_for (suc n) base ≡ base * 2 ^ n
unfolding delay_for
delay_for-doubles zero base = omega arith
delay_for-doubles (suc n) base =
    delay_for-doubles n (base * 2)
    ∙ mul_assoc base 2 (2 ^ n)
    ∙ ap (λ x. base * x) (mul_comm 2 (2 ^ n) ∙ sym (pow-suc 2 n))

module _ (env : Env) (decode : String → Option CheckoutEvent) (p : RetryPolicy) where
  -- `max(MaxAttempts, 1)`
  abbrev pub most_attempts : ℕ
  most_attempts = 1 + (p.max_attempts - 1)

  -- From the first world, `n` attempts at a message failed for a time, each followed by a wait that is
  -- twice as long as the one before it; the last world is the one that the next attempt starts in.
  pub data Tried (m : Message) (w : World) : ℕ → World → Type 0 where
    untried : Tried m w 0 w
    failed :
        {n : ℕ} {v : World} (u : World) (e : Error) (t : ℕ)
        → Tried m w n v
        → process_message env decode m v ≡ (err (transient e), u)
        → t ≡ p.base_delay * 2 ^ n
        → Tried m w (suc n) (later t u)

  -- One attempt, after the failed ones, ended without an error, and left the world `u`.
  abbrev pub IsHandled : Message → World → World → Type 0
  IsHandled m w u =
      (n : ℕ) × (v : World) × Tried m w n v
      × (suc n ≤ most_attempts)
      × (process_message env decode m v ≡ (ok tt, u))

  -- One attempt, after the failed ones, failed for good or was the last that the policy allows, and
  -- `l` is the dead letter of it.
  abbrev pub IsParked : Message → World → World → DeadLetter → Type 0
  IsParked m w u l =
      (n : ℕ) × (v : World) × (e : HandlerError) × Tried m w n v
      × (process_message env decode m v ≡ (err e, u))
      × ((e ≡ permanent) ⊎ (suc n ≡ most_attempts))
      × (l ≡ letter_of m (suc n) e u.now)

  -- A message that is done with in the world `w` leaves the world `u` and the dead letters `ls'`.
  abbrev pub Settles : Message → World → List DeadLetter → World → List DeadLetter → Type 0
  Settles m w ls u ls' =
      (IsHandled m w u × (ls' ≡ ls)) ⊎ ((l : DeadLetter) × IsParked m w u l × (ls' ≡ l ∷ ls))

  -- The messages are done with one after the other, each in the world that the one before it left, and
  -- their dead letters are those of the consumer at the end.
  abbrev pub SettlesAll : World → List DeadLetter → List Message → Consumer → Type 0
  SettlesAll w ls [] d = Extends ls d
  SettlesAll w ls (m ∷ ms) d =
      (u : World) × (ls' : List DeadLetter) × Settles m w ls u ls' × SettlesAll u ls' ms d

  -- The messages marked are the first of those of the claim, and are done with.
  abbrev pub Marks : List Message → Consumer → List Message × Consumer → Type 0
  Marks ms c (done, d) =
      ((rest : List Message) × (ms ≡ done ++ rest)) × SettlesAll c.world c.dead_letters done d

  -- How the delivery of a message ends that had the world `w` and the dead letters `ls` at its start.
  abbrev Delivered : Message → World → List DeadLetter → Delivery × Consumer → Type 0
  Delivered m w ls (committed, d) = Settles m w ls d.world d.dead_letters
  Delivered m w ls (uncommitted, d) = Extends ls d
  Delivered m w ls (not_parked, d) = Extends ls d

  publish_dead_letter-Delivered :
      (m : Message) (w v : World) (n : ℕ) (e : HandlerError) (c : Consumer)
      → Tried m w n v
      → process_message env decode m v ≡ (err e, c.world)
      → (e ≡ permanent) ⊎ (suc n ≡ most_attempts)
      → Delivered m w c.dead_letters (publish_dead_letter m (suc n) e c)
  unfolding publish_dead_letter
  publish_dead_letter-Delivered m w v n e c t r last = by_send (next_send c.sends).0
    where
      by_send :
          (f : Fault)
          → Delivered m w c.dead_letters (
              send f
                (letter_of m (suc n) e c.world.now)
                (record c { sends = (next_send c.sends).1 }))
      by_send fine = inr (letter_of m (suc n) e c.world.now, (n, v, e, t, r, last, refl), refl)
      by_send lost = ([], refl)
      by_send unacked = (letter_of m (suc n) e c.world.now ∷ [], refl)

  wait_or_stop-Delivered :
      (m : Message) (w : World) (delay : ℕ) (again : Consumer → Delivery × Consumer) (c : Consumer)
      → ((bs : List Bool)
          → Delivered m w c.dead_letters
              (again (record c { halts = bs; world = later delay c.world })))
      → Delivered m w c.dead_letters (wait_or_stop delay again c)
  wait_or_stop-Delivered m w delay again c h =
      elim (next_halt c.halts).0
        as (λ b. Delivered m w c.dead_letters (
          if b
          then (uncommitted, record c { halts = (next_halt c.halts).1 })
          else again (record c { halts = (next_halt c.halts).1; world = later delay c.world }))) [
            | true ↦ ([], refl)
            | false ↦ h (next_halt c.halts).1
          ]

  after_one-Delivered :
      (m : Message) (w : World) (n : ℕ) (again : Consumer → Delivery × Consumer) (c : Consumer)
      (r : Result HandlerError (Unit {0}) × World)
      → Tried m w n c.world
      → suc n ≤ most_attempts
      → ((bs : List Bool) (e : Error) (u : World) (t : ℕ)
          → Tried m w (suc n) (later t u)
          → Delivered m w c.dead_letters (again (record c { halts = bs; world = later t u })))
      → process_message env decode m c.world ≡ r
      → Delivered m w c.dead_letters (after_one env decode p m (suc n) again c r)
  unfolding is_permanent
  after_one-Delivered m w n again c (ok u, v) t k g e = inl ((n, c.world, t, k, e), refl)
  after_one-Delivered m w n again c (err permanent, v) t k g e =
      publish_dead_letter-Delivered m w c.world n permanent (record c { world = v }) t e (inl refl)
  after_one-Delivered m w n again c (err (transient x), v) t k g e =
      let delay = delay_for (suc n) p.base_delay in
      wait_or_stop-Delivered m w delay again (record c { world = v })
        (λ bs. g bs x v delay (failed v x delay t e (delay_for-doubles n p.base_delay)))

  after_last-Delivered :
      (m : Message) (w : World) (n : ℕ) (c : Consumer) (r : Result HandlerError (Unit {0}) × World)
      → Tried m w n c.world
      → suc n ≡ most_attempts
      → process_message env decode m c.world ≡ r
      → Delivered m w c.dead_letters (after_last env decode m (suc n) c r)
  after_last-Delivered m w n c (ok u, v) t k e = inl ((n, c.world, t, omega (arith, k), e), refl)
  after_last-Delivered m w n c (err x, v) t k e =
      publish_dead_letter-Delivered m w c.world n x (record c { world = v }) t e (inr k)

  deliver_from-Delivered :
      (m : Message) (w : World) (left n : ℕ) (c : Consumer)
      → Tried m w n c.world
      → suc n + left ≡ most_attempts
      → Delivered m w c.dead_letters (deliver_from env decode p left (suc n) m c)
  unfolding deliver_from
  deliver_from-Delivered m w zero n c t k = after_last-Delivered m w n c _ t (omega (arith, k)) refl
  deliver_from-Delivered m w (suc left) n c t k =
      after_one-Delivered m w n (deliver_from env decode p left (suc (suc n)) m) c _ t
        (omega (arith, k))
        (λ bs e u s q.
          deliver_from-Delivered m w left (suc n) (record c { halts = bs; world = later s u }) q
            (omega (arith, k)))
        refl

  deliver-Delivered :
      (m : Message) (c : Consumer) → Delivered m c.world c.dead_letters (deliver env decode p m c)
  unfolding deliver
  deliver-Delivered m c =
      deliver_from-Delivered m c.world (p.max_attempts - 1) 0 c untried (omega arith)

  mark_then-Marks :
      (m : Message) (ms : List Message) (c : Consumer) (go : Consumer → List Message × Consumer)
      (r : Delivery × Consumer)
      → ((d : Consumer) → Marks ms d (go d))
      → Delivered m c.world c.dead_letters r
      → Marks (m ∷ ms) c (mark_then env decode m go r)
  mark_then-Marks m ms c go (committed, d) g h =
      (((g d).0.0, ap (λ xs. m ∷ xs) (g d).0.1), (d.world, d.dead_letters, h, (g d).1))
  mark_then-Marks m ms c go (uncommitted, d) g h = ((m ∷ ms, refl), h)
  mark_then-Marks m ms c go (not_parked, d) g h = ((m ∷ ms, refl), h)

  -- Under any failures, of the service and of the dead letters, and wherever the claim is stopped: the
  -- offsets that are marked are those of the first messages of the claim, without a gap. These messages
  -- were done with one after the other, each in the world that the one before it left: at each, some
  -- attempts failed for a time, with a wait after each that doubles, and then one succeeded, or one
  -- failed for good or was the last that the policy allows and its dead letter, with the number of the
  -- attempt and its error, was stored and is there at the end.
  pub consume_claim-Marks :
      (ms : List Message) (c : Consumer) → Marks ms c (consume_claim env decode p ms c)
  unfolding consume_claim
  consume_claim-Marks [] c = (([], refl), ([], refl))
  consume_claim-Marks (m ∷ ms) c =
      elim (next_halt c.halts).0
        as (λ b. Marks (m ∷ ms) c (
          if b
          then ([], record c { halts = (next_halt c.halts).1 })
          else mark_then env decode m (consume_claim env decode p ms)
              (deliver env decode p m (record c { halts = (next_halt c.halts).1 })))) [
                | true ↦ ((m ∷ ms, refl), ([], refl))
                | false ↦
                    mark_then-Marks m ms (record c { halts = (next_halt c.halts).1 })
                      (consume_claim env decode p ms) _ (λ d. consume_claim-Marks ms d)
                      (deliver-Delivered m (record c { halts = (next_halt c.halts).1 }))
              ]
