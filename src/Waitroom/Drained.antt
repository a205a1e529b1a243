-- ===== src/Waitroom/Drained.antt =====
-- `drainBufferedQueueReady` of services/waitroom-svc/internal/service/queue_processor.go.
use ticket_event_pf.Prelude.{
  ℕ, zero, suc, ◌≤◌, ◌≡◌, refl, ◌∙◌, subst, ap, String, true, Option, none, some, inl, inr, ◌⊎◌,
  List, [], ◌∷◌, ◌++◌, ◌==◌, take, length, All, All-mono, In, Bool-cases, arith,
}
use ticket_event_pf.Prelude.Act.{
  Ends, settle-Ends, >>=-Ends, Ends-mono, Ends-world, pure, ◌>>=◌, modify, gets,
}
use ticket_event_pf.Waitroom.Model.{QueueReadyEvent, Message, queue_ready, after_opt}
use ticket_event_pf.Waitroom.World.{World, Env, Act, Step, advance}
use ticket_event_pf.Waitroom.Remote.{remote-Ends}
use ticket_event_pf.Waitroom.Redis.{drop}
use ticket_event_pf.Waitroom.QueueRepository.{
  peek_buffered_queue_ready, trim_buffered_queue_ready, trim_pending,
}
use ticket_event_pf.Waitroom.Processor.{
  publish_queue_ready, increment_error_count, with_processor, one_more_error, put_message,
}
use ticket_event_pf.Waitroom.Tick.{one_more, drain_one, drain_from, drain_buffered_queue_ready}

-- An announcement that need not be kept: it was published, it tells of a checkout that has ended, or it
-- cannot be read.
abbrev Told : QueueReadyEvent → World → Type 0
Told evt v =
    (after_opt v.now evt.expires_at ≡ true)
    ⊎ ((t : ℕ) × In (queue_ready (record evt { timestamp = t })) v.published)

abbrev ToldOf : Option QueueReadyEvent → World → Type 0
ToldOf none v = Unit
ToldOf (some evt) v = Told evt v

abbrev pub Announced : Env → World → String → Type 0
Announced env v p = ToldOf (env.unmarshal p) v

-- Time passes, the buffer stands, and what was published stays so.
abbrev Onward : World → World → Type 0
Onward w v =
    (w.now ≤ v.now)
    × (v.pending ≡ w.pending)
    × ((m : Message) → In m w.published → In m v.published)

Onward-refl : (w : World) → Onward w w
Onward-refl w = (omega arith, refl, λ m h. h)

Onward-trans : (u v w : World) → Onward u v → Onward v w → Onward u w
Onward-trans u v w a b = (omega (arith, a.0, b.0), b.1 ∙ a.1, λ m h. b.2 m (a.2 m h))

advance-Onward : (d : ℕ) (ss : List Step) (w : World) → Onward w (advance d ss w)
advance-Onward d ss w = (omega arith, refl, λ m h. h)

In-append : {A : Type 0} (x y : A) (xs : List A) → In x xs → In x (xs ++ y ∷ [])
In-append x y [] h = absurd h
In-append x y (z ∷ xs) (inl e) = inl e
In-append x y (z ∷ xs) (inr h) = inr (In-append x y xs h)

In-append_last : {A : Type 0} (x : A) (xs : List A) → In x (xs ++ x ∷ [])
In-append_last x [] = inl refl
In-append_last x (y ∷ xs) = inr (In-append_last x xs)

after_opt_later : (t t' : ℕ) (o : Option ℕ) → t ≤ t' → after_opt t o ≡ true → after_opt t' o ≡ true
after_opt_later t t' none le h = h
after_opt_later t t' (some c) le h = ground arith

Announced-later : (o : Option QueueReadyEvent) (w v : World) → Onward w v → ToldOf o w → ToldOf o v
Announced-later none w v m h = tt
Announced-later (some evt) w v m (inl h) = inl (after_opt_later w.now v.now evt.expires_at m.0 h)
Announced-later (some evt) w v m (inr h) = inr (h.0, m.2 _ h.1)

ToldOf-trim :
    (o : Option QueueReadyEvent) (n : ℕ) (v : World) → ToldOf o v → ToldOf o (trim_pending n v)
ToldOf-trim none n v h = tt
ToldOf-trim (some evt) n v h = h

-- A message that is published without an error is published; the buffer stands either way.
publish-Onward :
    (evt : QueueReadyEvent) (w : World)
    → Ends (λ _ v. Onward w v × Told evt v) (λ _ v. Onward w v) (publish_queue_ready evt w)
unfolding publish_queue_ready
publish-Onward evt w =
    let sent = put_message (queue_ready (record evt { timestamp = w.now })) in
    remote-Ends (λ _ v. Onward w v × Told evt v) (λ _ v. Onward w v) (modify sent) w
      λ d ss.
        let after : Onward w (sent (advance d ss w)) =
          (omega arith, refl, λ m h. In-append m _ w.published h) in
        ((after, inr (w.now, In-append_last _ w.published)), advance-Onward d ss w, after)

take-take :
    {A : Type 0} (n c : ℕ) (xs : List A) → n ≤ length (take c xs) → take n (take c xs) ≡ take n xs
take-take zero c xs h = refl
take-take (suc n) zero xs h = absurd (omega (arith, h))
take-take (suc n) (suc c) [] h = refl
take-take (suc n) (suc c) (x ∷ xs) h = ap (λ z. x ∷ z) (take-take n c xs (omega (arith, h)))

module _ (env : Env) where
  -- The first `n` announcements need not be kept.
  abbrev Drained : List String → World → ℕ → World → Type 0
  Drained ps w n v = Onward w v × (n ≤ length ps) × All (Announced env v) (take n ps)

  -- The same, where the first is `o`.
  abbrev Taken : Option QueueReadyEvent → List String → ℕ → World → Type 0
  Taken o ps zero v = Unit
  Taken o ps (suc n) v = (n ≤ length ps) × ToldOf o v × All (Announced env v) (take n ps)

  one_more-Taken :
      (o : Option QueueReadyEvent) (ps : List String) (rest : Act ℕ) (w v : World)
      → Onward w v
      → ToldOf o v
      → Ends (Drained ps v) (λ _ u. Onward v u) (rest v)
      → Ends (λ n u. Onward w u × Taken o ps n u) (λ _ u. Onward w u) (one_more rest v)
  one_more-Taken o ps rest w v m t h =
      >>=-Ends _ _ (Drained ps v) rest (λ n. pure (suc n)) v
        (Ends-mono _ _ (Drained ps v) (λ _ u. Onward v u) _ (λ _ u d. d)
          (λ _ u a. Onward-trans w v u m a) h)
        λ n u d. (Onward-trans w v u m d.0, (d.1, Announced-later o v u d.0 t, d.2))

  drain_one-Taken :
      (o : Option QueueReadyEvent) (ps : List String) (rest : Act ℕ)
      → ((v : World) → Ends (Drained ps v) (λ _ u. Onward v u) (rest v))
      → (w : World)
      → Ends (λ n u. Onward w u × Taken o ps n u) (λ _ u. Onward w u) (drain_one o rest w)
  unfolding increment_error_count
  drain_one-Taken none ps rest h w =
      let counted = with_processor one_more_error w in
      one_more-Taken none ps rest w counted (omega arith, refl, λ m i. i) tt (h counted)
  drain_one-Taken (some evt) ps rest h w = elim (Bool-cases (after_opt w.now evt.expires_at)) [
    | inl late ↦ rw late (one_more-Taken (some evt) ps rest w w (Onward-refl w) (inl late) (h w))
    | inr f ↦ rw f (
        settle-Ends _ _ (λ _ v. Onward w v × Told evt v) (λ _ v. Onward w v)
          (publish_queue_ready evt) (λ _. one_more rest) (λ _. pure 0) w (publish-Onward evt w)
          (λ _ v m. one_more-Taken (some evt) ps rest w v m.0 m.1 (h v)) (λ _ v m. (m, tt)))
  ]

  drain_from-Drained :
      (ps : List String) (w : World) → Ends (Drained ps w) (λ _ v. Onward w v) (drain_from env ps w)
  unfolding drain_from
  drain_from-Drained [] w = (Onward-refl w, omega arith, tt)
  drain_from-Drained (p ∷ ps) w =
      Ends-mono _ _ (λ n u. Onward w u × Taken (env.unmarshal p) ps n u) (λ _ u. Onward w u) _
        (λ n u d. taken n u d) (λ _ u a. a)
        (drain_one-Taken (env.unmarshal p) ps (drain_from env ps) (drain_from-Drained ps) w)
    where
      taken :
          (n : ℕ) (u : World) → Onward w u × Taken (env.unmarshal p) ps n u → Drained (p ∷ ps) w n u
      taken zero u d = (d.0, omega arith, tt)
      taken (suc n) u d = (d.0, omega (arith, d.1.0), (d.1.1, d.1.2))

  -- What is left of the buffer.
  abbrev pub Rest : World → World → Type 0
  Rest w v = (n : ℕ) × (v.pending ≡ drop n w.pending) × All (Announced env v) (take n w.pending)

  abbrev Ready : World → ℕ → World → Type 0
  Ready w n v = Onward w v × All (Announced env v) (take n w.pending)

  kept-Rest : (w v : World) → Onward w v → Rest w v
  kept-Rest w v m = (0, m.1, tt)

  peek-Onward :
      (w : World)
      → Ends
          (λ ps v. Onward w v × (c : ℕ) × (ps ≡ take c w.pending))
          (λ _ v. Onward w v)
          (peek_buffered_queue_ready env.batch_size w)
  unfolding peek_buffered_queue_ready
  peek-Onward w = elim (Bool-cases (env.batch_size == 0)) [
    | inl z ↦ rw z (Onward-refl w, 0, refl)
    | inr f ↦ rw f (
        remote-Ends (λ ps v. Onward w v × (c : ℕ) × (ps ≡ take c w.pending)) (λ _ v. Onward w v)
          (gets λ v. take env.batch_size v.pending) w
          λ d ss. let m = advance-Onward d ss w in ((m, env.batch_size, refl), m, m))
  ]

  drained-Ready :
      (w : World)
      → Ends
          (Ready w)
          (λ _ v. Onward w v)
          ((peek_buffered_queue_ready env.batch_size >>= drain_from env) w)
  drained-Ready w =
      >>=-Ends _ _ (λ ps v. Onward w v × (c : ℕ) × (ps ≡ take c w.pending))
        (peek_buffered_queue_ready env.batch_size) (drain_from env) w (peek-Onward w)
        λ ps v h.
          Ends-mono _ _ (Drained ps v) (λ _ u. Onward v u) _
            (λ n u d. (
              Onward-trans w v u h.0 d.0,
              subst (All (Announced env u))
                  (take-take n h.1 w.pending (subst (λ z. n ≤ length z) h.2 d.1))
                  (subst (λ z. All (Announced env u) (take n z)) h.2 d.2),
            ))
            (λ _ u m. Onward-trans w v u h.0 m) (drain_from-Drained ps v)

  trim-Rest :
      (w : World) (n : ℕ) (v : World)
      → Ready w n v
      → Ends (λ _ u. Rest w u) (λ _ u. Rest w u) (trim_buffered_queue_ready n v)
  unfolding trim_buffered_queue_ready
  trim-Rest w n v h = elim (Bool-cases (n == 0)) [
    | inl z ↦ rw z (kept-Rest w v h.0)
    | inr f ↦ rw f (
        remote-Ends (λ _ u. Rest w u) (λ _ u. Rest w u) (modify (trim_pending n)) v
          λ d ss.
            let m = advance-Onward d ss v in
            let later =
              All-mono (Announced env v) (Announced env (trim_pending n (advance d ss v)))
                (λ p t.
                  ToldOf-trim (env.unmarshal p) n (advance d ss v)
                    (Announced-later (env.unmarshal p) v (advance d ss v) m t))
                (take n w.pending) h.1 in
            let cut : Rest w (trim_pending n (advance d ss v)) = (n, ap (drop n) h.0.1, later) in
            (cut, kept-Rest w (advance d ss v) (Onward-trans w v (advance d ss v) h.0 m), cut))
  ]

  -- Whatever the schedule of failures, one drain of the buffer takes announcements only from its front,
  -- and each of those it takes was published by then, tells of a checkout that has ended, or cannot be
  -- read; those that stay keep their order.
  pub drain_buffered_queue_ready-Rest : (w : World) → Rest w (drain_buffered_queue_ready env w).1
  unfolding drain_buffered_queue_ready
  drain_buffered_queue_ready-Rest w = Ends-world (Rest w) (drain_buffered_queue_ready env w) (
      settle-Ends _ _ (λ _ v. Rest w v) (λ _ v. Rest w v)
        (peek_buffered_queue_ready env.batch_size >>= drain_from env >>= trim_buffered_queue_ready)
        pure (λ _. pure tt) w
        (>>=-Ends _ _ (Ready w) (peek_buffered_queue_ready env.batch_size >>= drain_from env)
          trim_buffered_queue_ready w
          (Ends-mono _ _ (Ready w) (λ _ v. Onward w v) _ (λ _ v a. a) (λ _ v a. kept-Rest w v a)
            (drained-Ready w))
          (trim-Rest w))
        (λ _ v r. r) (λ _ v r. r))
