-- ===== src/Waitroom/Kept/Tick.antt =====
-- `ProcessEventQueue` of services/waitroom-svc/internal/service/queue_processor.go: no session is
-- lost from the line of the event.
use ticket_event_pf.Prelude.{
  ℕ, ◌+◌, ◌*◌, ◌≡◌, refl, String, true, false, Option, none, some, ◌⊎◌, List, [], ◌∷◌, ◌++◌,
  if◌then◌else◌, ◌==◌, length, take, All, All-append,
}
use ticket_event_pf.Prelude.Act.{
  Result, ok, Ends, settle-Ends, >>=-Ends, Ends-mono, Ends-world, pure, ◌>>=◌, ◌>>◌, settle, gets,
  modify,
}
use ticket_event_pf.Waitroom.Model.{Error, unix, unix_milli, second}
use ticket_event_pf.Waitroom.World.{
  World, Env, Act, Stock, Door, open_door, paused_door, sold_out_door, remote,
}
use ticket_event_pf.Waitroom.Redis.{zrange_below}
use ticket_event_pf.Waitroom.Redis.Laws.{has_slot}
use ticket_event_pf.Waitroom.QueueRepository.{
  get_queue_members, get_processing_count, reap_slots, count_slots,
}
use ticket_event_pf.Waitroom.QueueService.{peek_queue}
use ticket_event_pf.Waitroom.StockGate.{
  stock, fetch_stock, or_fetch, lookup_stock, store_stock, log_question, unanswered, read_stock,
}
use ticket_event_pf.Waitroom.Processor.{is_final, admit_user_to_checkout, with_processor}
use ticket_event_pf.Waitroom.Tick.{
  cons_if, admit_count, let_go, ended_of, close_line, dead_head, drop_dead_head, admit_each,
  more_admitted, admit_batch, admit_some, at_door, process_due, event_timeout, process_event_queue,
  sweep_batch_size,
}
use ticket_event_pf.Waitroom.Kept.{
  Settled, KeyedById, Kept, nobody, Moved-refl, Moved-trans, remote-Moved, same-Moved, Moves,
  Moves-remote, Moves-settle, Moves-bind, Moves-pure, Kept-Settled, enters,
}
use ticket_event_pf.Waitroom.Kept.Attempt.{Let, Refused, admit_user_to_checkout-Attempted}
use ticket_event_pf.Waitroom.Kept.Removed.{
  in_line, Safe, SameLine, Safe-after, SameLine-Safe, Leaving, let_go-Safe, ended_of-Leaving,
  dead_head-Leaving, cons_if-Settled,
}

module _ (e : String) where
  abbrev EndsSafe : {A : Type 0} → World → Result Error A × World → Type 0
  EndsSafe w = Ends (λ _ v. Safe e w v) (λ _ v. Safe e w v)

  EndsSafe-after :
      {A : Type 0} (w v : World) (r : Result Error A × World)
      → v.queue ≡ w.queue
      → EndsSafe v r
      → EndsSafe w r
  EndsSafe-after w v r q =
      Ends-mono (λ _ u. Safe e w u) (λ _ u. Safe e w u) (λ _ u. Safe e v u) (λ _ u. Safe e v u) r
        (λ _ u s. Safe-after e w v u q s) (λ _ u s. Safe-after e w v u q s)

  Kept-Safe : (w v : World) → KeyedById w → Kept e w v → Safe e w v
  Kept-Safe w v keyed m = SameLine-Safe e w v (m.0 keyed, m.1)

  -- A call that only moves the line, and one that follows it.
  Moves-Safe :
      {A B : Type 0} (m : Act A) (f : A → Act B) (w : World)
      → KeyedById w
      → Moves e nobody m
      → ((a : A) (v : World) → KeyedById v → EndsSafe v (f a v))
      → EndsSafe w ((m >>= f) w)
  Moves-Safe m f w keyed h k =
      >>=-Ends _ _ (λ _ v. Kept e w v) m f w
        (Ends-mono _ _ (λ _ v. Kept e w v) (λ _ v. Kept e w v) _ (λ _ v a. a)
          (λ _ v a. Kept-Safe w v keyed a) (h w))
        λ a v c. EndsSafe-after w v (f a v) c.1 (k a v (c.0 keyed))

  -- A walk over the head of the line, and the removal of what it gives.
  walk-Safe :
      (m : Act (List String)) (w : World)
      → KeyedById w
      → Ends (Leaving e w) (λ _ v. Kept e w v) (m w)
      → EndsSafe w ((m >>= let_go e) w)
  walk-Safe m w keyed h =
      >>=-Ends _ _ (Leaving e w) m (let_go e) w
        (Ends-mono _ _ (Leaving e w) (λ _ v. Kept e w v) _ (λ _ v a. a)
          (λ _ v a. Kept-Safe w v keyed a) h)
        λ ks v l. EndsSafe-after w v (let_go e ks v) l.0.1 (let_go-Safe e ks v (l.0.0 keyed) l.1)

  peek_queue-Moves : (count : ℕ) → Moves e nobody (peek_queue e count)
  unfolding peek_queue get_queue_members
  peek_queue-Moves count w =
      elim (count == 0)
        as (λ b.
          Ends (λ _ v. Kept e w v) (λ _ v. Kept e w v)
            (if b then pure [] w else get_queue_members e (unix w.now * second) count w)) [
              | true ↦ Moved-refl e nobody w
              | false ↦
                  Moves-remote e nobody
                    (gets λ v. zrange_below e (unix w.now * second) count v.queue)
                    (λ v. (Moved-refl e nobody v, Moved-refl e nobody v)) w
            ]

  close_line-Safe : (w : World) → KeyedById w → EndsSafe w (close_line e w)
  unfolding close_line
  close_line-Safe w keyed =
      Moves-Safe (peek_queue e sweep_batch_size) (λ ks. ended_of ks >>= let_go e) w keyed
        (peek_queue-Moves sweep_batch_size)
        λ ks v kv. walk-Safe (ended_of ks) v kv (ended_of-Leaving e ks v kv)

  drop_dead_head-Safe : (w : World) → KeyedById w → EndsSafe w (drop_dead_head e w)
  unfolding drop_dead_head
  drop_dead_head-Safe w keyed =
      Moves-Safe (peek_queue e sweep_batch_size) (λ ks. dead_head ks >>= let_go e) w keyed
        (peek_queue-Moves sweep_batch_size)
        λ ks v kv. walk-Safe (dead_head ks) v kv (dead_head-Leaving e ks v kv)

module _ (env : Env) (e : String) where
  -- Both lists of a batch hold sessions that may leave the line.
  abbrev Parted : World → List String × List String → World → Type 0
  Parted w r v = Kept e w v × All (λ k. Settled e k v) r.0 × All (λ k. Settled e k v) r.1

  admit_each-Parted :
      (deadline : ℕ) (ks : List String) (w : World)
      → KeyedById w
      → Ends (Parted w) (λ _ v. Kept e w v) (admit_each env deadline e ks w)
  unfolding admit_each
  admit_each-Parted deadline [] w keyed = (Moved-refl e nobody w, tt, tt)
  admit_each-Parted deadline (k ∷ ks) w keyed =
      let rest = admit_each env deadline e ks in
      settle-Ends _ _ (λ _ v. Let env e k w v) (Refused env e k w)
        (admit_user_to_checkout env deadline e k) (λ _. rest >>= λ r. pure (k ∷ r.0, r.1))
        (λ er. rest >>= λ r. pure (r.0, cons_if (is_final er) k r.1)) w
        (admit_user_to_checkout-Attempted env e deadline k w keyed)
        (λ _ v h.
          >>=-Ends _ _ (Parted v) rest (λ r. pure (k ∷ r.0, r.1)) v
            (from v h.0 (admit_each-Parted deadline ks v (h.0.0 keyed)))
            λ r u p. (Moved-trans e nobody w v u h.0 p.0, (Kept-Settled e k v u p.0 h.1, p.1), p.2))
        (λ er v h.
          >>=-Ends _ _ (Parted v) rest (λ r. pure (r.0, cons_if (is_final er) k r.1)) v
            (from v h.0 (admit_each-Parted deadline ks v (h.0.0 keyed)))
            λ r u p. (
              Moved-trans e nobody w v u h.0 p.0,
              p.1,
              cons_if-Settled e (is_final er) k r.1 u (λ f. Kept-Settled e k v u p.0 (h.1 f)) p.2,
            ))
    where
      from :
          (v : World)
          → Kept e w v
          → Ends (Parted v) (λ _ u. Kept e v u) (admit_each env deadline e ks v)
          → Ends (Parted v) (λ _ u. Kept e w u) (admit_each env deadline e ks v)
      from v m =
          Ends-mono _ _ (Parted v) (λ _ u. Kept e v u) _ (λ r u p. p)
            (λ _ u a. Moved-trans e nobody w v u m a)

  admit_batch-Safe :
      (deadline : ℕ) (ks : List String) (w : World)
      → KeyedById w
      → EndsSafe e w (admit_batch env deadline e ks w)
  admit_batch-Safe deadline ks w keyed =
      >>=-Ends _ _ (Parted w) (admit_each env deadline e ks)
        (λ r. let_go e (r.0 ++ r.1) >> modify (with_processor (more_admitted (length r.0)))) w
        (Ends-mono _ _ (Parted w) (λ _ v. Kept e w v) _ (λ _ v a. a)
          (λ _ v a. Kept-Safe e w v keyed a) (admit_each-Parted deadline ks w keyed))
        λ r v p. EndsSafe-after e w v _ p.0.1 (
          >>=-Ends _ _ (λ _ u. Safe e v u) (let_go e (r.0 ++ r.1))
            (λ _. modify (with_processor (more_admitted (length r.0)))) v
            (let_go-Safe e (r.0 ++ r.1) v (p.0.0 keyed)
              (All-append (λ k. Settled e k v) r.0 r.1 p.1 p.2))
            λ _ u s. s)

  at_door-Safe :
      (deadline : ℕ) (ks : List String) (s : Stock) (d : Door) (w : World)
      → KeyedById w
      → EndsSafe e w (at_door env deadline e ks s d w)
  unfolding get_processing_count
  at_door-Safe deadline ks s paused_door w keyed = drop_dead_head-Safe e w keyed
  at_door-Safe deadline ks s sold_out_door w keyed = close_line-Safe e w keyed
  at_door-Safe deadline ks s open_door w keyed =
      >>=-Ends _ _ (λ _ v. SameLine w v) (get_processing_count e)
        (λ n. admit_some env deadline e ks (admit_count (length ks) s n)) w
        (remote-Moved e nobody (λ _ v. SameLine w v) (λ _ v. Safe e w v)
          (count_slots e (unix_milli w.now)) w
          λ v m. (
            (m.0 keyed, m.1),
            SameLine-Safe e w v (m.0 keyed, m.1),
            SameLine-Safe e w (reap_slots e (unix_milli w.now) v) (m.0 keyed, m.1),
          ))
        λ n v l. EndsSafe-after e w v _ l.1 (some_let_in (admit_count (length ks) s n) v l.0)
    where
      some_let_in :
          (n : ℕ) (v : World) → KeyedById v → EndsSafe e v (admit_some env deadline e ks n v)
      some_let_in n v kv =
          elim (n == 0)
            as (λ b.
              EndsSafe e v ((if b then pure tt else admit_batch env deadline e (take n ks)) v)) [
                | true ↦ SameLine-Safe e v v (kv, refl)
                | false ↦ admit_batch-Safe deadline (take n ks) v kv
              ]

  or_fetch-Moves : (o : Option Stock) → Moves e nobody (or_fetch env e o)
  unfolding fetch_stock
  or_fetch-Moves (some s) = λ w. Moved-refl e nobody w
  or_fetch-Moves none =
      Moves-bind e nobody (fetch_stock env e) (λ s v. (ok s, store_stock env e s v)) fetched
        (λ s v. same-Moved e nobody v (store_stock env e s v) refl refl refl refl)
    where
      asked : Moves e nobody (
          settle
            (remote (gets λ v. read_stock (env.get_event_stock v.now e)))
            pure
            (λ _. pure unanswered))
      asked =
          Moves-settle e nobody _ _ _
            (Moves-remote e nobody (gets λ v. read_stock (env.get_event_stock v.now e))
              (λ v. (Moved-refl e nobody v, Moved-refl e nobody v)))
            (Moves-pure e nobody) (λ _. Moves-pure e nobody unanswered)

      fetched : Moves e nobody (fetch_stock env e)
      fetched v =
          Ends-mono _ _ (λ _ u. Kept e (log_question e v) u) (λ _ u. Kept e (log_question e v) u) _
            (λ _ u m. m) (λ _ u m. m) (asked (log_question e v))

  stock-Moves : Moves e nobody (stock env e)
  unfolding stock
  stock-Moves w = or_fetch-Moves (lookup_stock w.now e w.stock_gate) w

  process_due-Safe :
      (deadline : ℕ) (ks : List String) (w : World)
      → KeyedById w
      → EndsSafe e w (process_due env deadline e ks w)
  process_due-Safe deadline [] w keyed = SameLine-Safe e w w (keyed, refl)
  process_due-Safe deadline (k ∷ ks) w keyed =
      Moves-Safe e (stock env e) (λ s. at_door env deadline e (k ∷ ks) s s.door) w keyed stock-Moves
        λ s v kv. at_door-Safe deadline (k ∷ ks) s s.door v kv

  process_event_queue-Ends : (w : World) → KeyedById w → EndsSafe e w (process_event_queue env e w)
  unfolding process_event_queue
  process_event_queue-Ends w keyed =
      Moves-Safe e (peek_queue e env.batch_size) (process_due env (w.now + event_timeout) e) w keyed
        (peek_queue-Moves e env.batch_size)
        λ ks v kv. process_due-Safe (w.now + event_timeout) ks v kv

  -- Whatever the schedule of failures, and whether the call fails or not, a session that stood in the
  -- queue of the event before `process_event_queue` still stands there, or has a checkout slot, or can
  -- neither be admitted nor resumed: where sessions are stored under their own ids.
  pub process_event_queue-Safe :
      (w : World)
      → KeyedById w
      → (k : String) → in_line e k w.queue ≡ true
      → (in_line e k (process_event_queue env e w).1.queue ≡ true)
        ⊎ (has_slot e k (process_event_queue env e w).1.checkouts ≡ true)
        ⊎ (enters k (process_event_queue env e w).1 ≡ false)
  process_event_queue-Safe w keyed k h =
      (Ends-world (Safe e w) (process_event_queue env e w) (process_event_queue-Ends w keyed)).1 k h
