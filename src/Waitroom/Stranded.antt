-- ===== src/Waitroom/Stranded.antt =====
-- `DequeueSession` of services/waitroom-svc/internal/service/queue_service.go, interleaved with
-- `EnqueueSession`: each step is one call of internal/repository/redis/queue_repository.go.
use ticket_event_pf.Prelude.{
  ℕ, ◌+◌, ◌≡◌, refl, sym, subst, String, Bool, true, false, ◌||◌, inl, inr, List, [], ◌∷◌,
  if◌then◌else◌, ◌==◌, str_eq, any, Bool-cases,
}
use ticket_event_pf.Prelude.Act.{Result, ok, err}
use ticket_event_pf.Waitroom.Model.{Session, Error}
use ticket_event_pf.Waitroom.World.{World, Env, Waiting}
use ticket_event_pf.Waitroom.Redis.{waits, precedes, insert_waiting, zrem, zcard, srem, str_mem}
use ticket_event_pf.Waitroom.Redis.Laws.{str_eq_self}
use ticket_event_pf.Waitroom.QueueRepository.{
  waiting_of, add_to_queue, remove_from_queue, get_queue_length, add_active_event,
  remove_active_event, get_queue_position,
}
use ticket_event_pf.Waitroom.QueueService.{dequeue_session, enqueue_session}

-- Where the leaver and the joiner are.
pub data LeaverAt : Type 0 where
  removing counting retiring left : LeaverAt

pub data JoinerAt : Type 0 where
  adding locating marking joined : JoinerAt

pub record Race : Type 0 where
  pub world : World
  pub leaver : LeaverAt
  pub joiner : JoinerAt

-- The event is taken off the active ones only if its queue was read as empty.
abbrev after_count : Result Error ℕ → LeaverAt
after_count (ok n) = if n == 0 then retiring else left
after_count (err _) = left

-- A leaver `k` and a joiner `s` of the event `e`.
pub data Next (env : Env) (e k : String) (s : Session) : Race → Race → Type 0 where
  remove :
      (w : World) (j : JoinerAt)
      → Next env e k s
          (record { world = w; leaver = removing; joiner = j })
          (record { world = (remove_from_queue e (k ∷ []) w).1; leaver = counting; joiner = j })
  count :
      (w : World) (j : JoinerAt)
      → Next env e k s
          (record { world = w; leaver = counting; joiner = j })
          (record {
            world = (get_queue_length e w).1;
            leaver = after_count (get_queue_length e w).0;
            joiner = j;
          })
  retire :
      (w : World) (j : JoinerAt)
      → Next env e k s
          (record { world = w; leaver = retiring; joiner = j })
          (record { world = (remove_active_event e w).1; leaver = left; joiner = j })
  add :
      (w : World) (l : LeaverAt)
      → Next env e k s
          (record { world = w; leaver = l; joiner = adding })
          (record { world = (add_to_queue env e s w).1; leaver = l; joiner = locating })
  locate :
      (w : World) (l : LeaverAt)
      → Next env e k s
          (record { world = w; leaver = l; joiner = locating })
          (record { world = (get_queue_position e s.id w).1; leaver = l; joiner = marking })
  mark :
      (w : World) (l : LeaverAt)
      → Next env e k s
          (record { world = w; leaver = l; joiner = marking })
          (record { world = (add_active_event e w).1; leaver = l; joiner = joined })

pub data Reaches (env : Env) (e k : String) (s : Session) (r : Race) : Race → Type 0 where
  here : Reaches env e k s r r
  next : {t u : Race} → Reaches env e k s r t → Next env e k s t u → Reaches env e k s r u

str_mem-srem : (e : String) (es : List String) → str_mem e (srem e es) ≡ false
str_mem-srem e [] = refl
str_mem-srem e (x ∷ es) = elim (Bool-cases (str_eq x e)) [
  | inl t ↦ rw t (str_mem-srem e es)
  | inr f ↦ rw f (rw f (str_mem-srem e es))
]

any-waits-insert :
    (env : Env) (e k : String) (x : Waiting) (q : List Waiting)
    → waits e k x ≡ true
    → any (waits e k) (insert_waiting env.ties x q) ≡ true
any-waits-insert env e k x [] h = rw h refl
any-waits-insert env e k x (y ∷ q) h = elim (Bool-cases (precedes env.ties y x)) [
  | inr f ↦ rw f (rw h refl)
  | inl t ↦ rw t (or_true (waits e k y) (any-waits-insert env e k x q h))
]
  where
    or_true : (a : Bool) {b : Bool} → b ≡ true → (a || b) ≡ true
    or_true true h = refl
    or_true false h = h

-- Both at their first call, and no failure to come.
abbrev pub both_start : World → Race
both_start w = record { world = record w { steps = [] }; leaver = removing; joiner = adding }

-- Where the leaver is the last in the queue of an event, and no call fails. Alone, the leaver goes
-- through the calls of `DequeueSession` and the joiner through those of `EnqueueSession`: each leaves the
-- world that the operation leaves. But the joiner may come between the leaver's counting the queue as
-- empty and its taking the event off the active ones: both are then through, the joiner stands in the
-- queue, and the event is not active.
pub leave_join-Stranded :
    (env : Env) (e k : String) (s : Session) (w : World)
    → s.event_id ≡ e
    → zcard e (zrem e (k ∷ []) w.queue) ≡ 0
    → Reaches env e k s (both_start w) (record {
      world = (dequeue_session e k (both_start w).world).1;
      leaver = left;
      joiner = adding;
    })
      × Reaches env e k s (both_start w) (record {
        world = (enqueue_session env s (both_start w).world).1;
        leaver = removing;
        joiner = joined;
      })
      × ((r : Race) × Reaches env e k s (both_start w) r
          × (r.leaver ≡ left)
          × (r.joiner ≡ joined)
          × (any (waits e s.id) r.world.queue ≡ true)
          × (str_mem e r.world.active_events ≡ false))
unfolding remove_from_queue get_queue_length remove_active_event add_to_queue get_queue_position
    add_active_event dequeue_session enqueue_session
leave_join-Stranded env e k s w of_event last = (
  rw last (next counted (retire _ adding)),
  subst
      (λ x.
        Reaches env e k s (both_start w)
          (record { world = joined_world x; leaver = removing; joiner = joined }))
      (sym of_event)
      (next (next (next here (add _ removing)) (locate _ removing)) (mark _ removing)),
  (
    _,
    next (next (next (next counted (add _ retiring)) (locate _ retiring)) (mark _ retiring))
        (retire _ joined),
    refl,
    refl,
    any-waits-insert env e s.id (waiting_of e s) _ (rw (str_eq_self e) (str_eq_self s.id)),
    str_mem-srem e _,
  ),
)
  where
    -- What joining the queue of the event `x` leaves.
    joined_world : String → World
    joined_world x =
        (add_active_event x
          (get_queue_position x s.id (add_to_queue env x s (both_start w).world).1).1).1

    emptied : World
    emptied = record w { queue = zrem e (k ∷ []) w.queue; now = w.now + 0 + 0; steps = [] }

    seen_empty : after_count (ok (zcard e (zrem e (k ∷ []) w.queue))) ≡ retiring
    seen_empty = rw last refl

    counted :
        Reaches env e k s
          (both_start w)
          (record { world = emptied; leaver = retiring; joiner = adding })
    counted =
        subst
          (λ l.
            Reaches env e k s (both_start w)
              (record { world = emptied; leaver = l; joiner = adding }))
          seen_empty (next (next here (remove _ adding)) (count _ adding))
