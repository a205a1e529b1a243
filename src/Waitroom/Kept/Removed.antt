-- ===== src/Waitroom/Kept/Removed.antt =====
-- Which entries leave a queue: those of sessions that have a slot or can never be let in.
use text.Mathlib.TextEquality.{eq_iff}
use ticket_event_pf.Prelude.{
  ℕ, ◌≡◌, refl, sym, subst, String, Bool, true, false, ◌&&◌, ◌||◌, inl, inr, ◌⊎◌, List, [], ◌∷◌,
  if◌then◌else◌, str_eq, any, All, All-mono, Bool-cases, arith,
}
use ticket_event_pf.Prelude.Act.{Ends, settle-Ends, >>=-Ends, Ends-mono, pure, ◌>>=◌, modify}
use ticket_event_pf.Waitroom.Model.{
  Session, SessionStatus, queued, admitted, completed, expired, abandoned, failed, evicted, Error,
  is_queued, is_admitted, is_terminal_status, is_terminal, is_expired,
}
use ticket_event_pf.Waitroom.Model
use ticket_event_pf.Waitroom.World.{World, Waiting}
use ticket_event_pf.Waitroom.Redis.{waits, str_mem, zrem}
use ticket_event_pf.Waitroom.Redis.Laws.{and_true}
use ticket_event_pf.Waitroom.QueueRepository.{leave_line, remove_from_queue}
use ticket_event_pf.Waitroom.SessionService.{get_session, update_session_status}
use ticket_event_pf.Waitroom.Processor.{is_gone}
use ticket_event_pf.Waitroom.Tick.{cons_if, let_go, end_session, ended, ended_of, dead, dead_head}
use ticket_event_pf.Waitroom.Kept.{
  Settled, KeyedById, Kept, nobody, Moved-refl, Moved-trans, remote-Moved, Kept-Settled, can_enter,
  enters,
}
use ticket_event_pf.Waitroom.Kept.Sessions.{
  Read, Unread, Failed, get_session-Moved, update_session_status-Moved,
}

abbrev pub in_line : String → String → List Waiting → Bool
in_line e k = any (waits e k)

-- A session that stood in the line stands there, or has a slot, or can never be let in.
abbrev pub Safe : String → World → World → Type 0
Safe e w v =
    KeyedById v
    × ((k : String) → in_line e k w.queue ≡ true → (in_line e k v.queue ≡ true) ⊎ Settled e k v)

-- The line stands as it was.
abbrev pub SameLine : World → World → Type 0
SameLine w v = KeyedById v × (v.queue ≡ w.queue)

pub Safe-after : (e : String) (w v u : World) → v.queue ≡ w.queue → Safe e v u → Safe e w u
Safe-after e w v u q s = (s.0, λ k h. s.1 k (subst (λ z. in_line e k z ≡ true) (sym q) h))

pub SameLine-Safe : (e : String) (w v : World) → SameLine w v → Safe e w v
SameLine-Safe e w v s = (s.0, λ k h. inl (subst (λ z. in_line e k z ≡ true) (sym s.1) h))

in_line-zrem :
    (e k : String) (ks : List String) (q : List Waiting)
    → in_line e k q ≡ true
    → (in_line e k (zrem e ks q) ≡ true) ⊎ (str_mem k ks ≡ true)
in_line-zrem e k ks [] h = let impossible : false ≡ true = h in absurd cc
in_line-zrem e k ks (r ∷ q) h = elim (Bool-cases (waits e k r)) [
  | inl t ↦ elim (Bool-cases (str_eq r.event e && str_mem r.member ks)) [
    | inl d ↦ inr (
        subst (λ z. str_mem z ks ≡ true)
          ((eq_iff r.member k).0 (and_true (str_eq r.event e) (str_eq r.member k) t).1)
          (and_true (str_eq r.event e) (str_mem r.member ks) d).1)
    | inr d ↦ rw d (inl (rw t refl))
  ]
  | inr f ↦
      let rest = in_line-zrem e k ks q (rw f at h) in
      elim (Bool-cases (str_eq r.event e && str_mem r.member ks)) [
        | inl d ↦ rw d rest
        | inr d ↦ rw d (rw f rest)
      ]
]

All-str_mem :
    (P : String → Type 0) (k : String) (ks : List String) → All P ks → str_mem k ks ≡ true → P k
All-str_mem P k [] a h = let impossible : false ≡ true = h in absurd cc
All-str_mem P k (l ∷ ks) a h = elim (Bool-cases (str_eq l k)) [
  | inl t ↦ subst P ((eq_iff l k).0 t) a.0
  | inr f ↦ All-str_mem P k ks a.1 (rw f at h)
]

pub let_go-Safe :
    (e : String) (ks : List String) (w : World)
    → KeyedById w
    → All (λ k. Settled e k w) ks
    → Ends (λ _ v. Safe e w v) (λ _ v. Safe e w v) (let_go e ks w)
unfolding remove_from_queue
let_go-Safe e [] w keyed a = SameLine-Safe e w w (keyed, refl)
let_go-Safe e (k ∷ ks) w keyed a =
    settle-Ends _ _ (λ _ v. Safe e w v) (λ _ v. Safe e w v) (remove_from_queue e (k ∷ ks)) pure
      (λ _. pure tt) w
      (remote-Moved e nobody _ _ (modify (leave_line e (k ∷ ks))) w
        λ v m. (gone v m, SameLine-Safe e w v (m.0 keyed, m.1), gone v m))
      (λ _ v h. h) (λ _ v h. h)
  where
    gone : (v : World) → Kept e w v → Safe e w (leave_line e (k ∷ ks) v)
    gone v m = (
      m.0 keyed,
      λ j h. elim (in_line-zrem e j (k ∷ ks) w.queue h) [
        | inl t ↦ inl (subst (λ z. in_line e j (zrem e (k ∷ ks) z) ≡ true) (sym m.1) t)
        | inr t ↦ inr (Kept-Settled e j w v m (All-str_mem (λ l. Settled e l w) j (k ∷ ks) a t))
      ],
    )

terminal_shut :
    (st : SessionStatus)
    → is_terminal_status st ≡ true
    → (is_queued st ≡ false) × (is_admitted st ≡ false)
terminal_shut queued h = let impossible : false ≡ true = h in absurd cc
terminal_shut admitted h = let impossible : false ≡ true = h in absurd cc
terminal_shut completed h = (refl, refl)
terminal_shut expired h = (refl, refl)
terminal_shut abandoned h = (refl, refl)
terminal_shut failed h = (refl, refl)
terminal_shut evicted h = (refl, refl)
terminal_shut Model.SessionStatus.sold_out h = (refl, refl)

is_terminal-can_enter : (t : ℕ) (s : Session) → is_terminal s ≡ true → can_enter t s ≡ false
is_terminal-can_enter t s h = let shut = terminal_shut s.status h in rw shut.0 (rw shut.1 refl)

is_expired-can_enter : (t : ℕ) (s : Session) → is_expired t s ≡ true → can_enter t s ≡ false
is_expired-can_enter t s h = ground arith

pub All-Settled-after :
    (e : String) (w v : World) (ks : List String)
    → Kept e w v
    → All (λ k. Settled e k w) ks
    → All (λ k. Settled e k v) ks
All-Settled-after e w v ks m =
    All-mono (λ k. Settled e k w) (λ k. Settled e k v) (λ k h. Kept-Settled e k w v m h) ks

module _ (e : String) where
  -- What a walk over the head of a line gives: sessions that may leave it.
  abbrev pub Leaving : World → List String → World → Type 0
  Leaving w ks v = Kept e w v × All (λ k. Settled e k v) ks

  abbrev Told : String → World → Bool → World → Type 0
  Told k w b v = Kept e w v × (b ≡ true → Settled e k v)

  pub cons_if-Settled :
      (b : Bool) (k : String) (ks : List String) (v : World)
      → (b ≡ true → Settled e k v)
      → All (λ j. Settled e j v) ks
      → All (λ j. Settled e j v) (cons_if b k ks)
  cons_if-Settled true k ks v h a = (h refl, a)
  cons_if-Settled false k ks v h a = a

  ended-Told :
      (k : String) (w : World) → KeyedById w → Ends (Told k w) (λ _ v. Kept e w v) (ended k w)
  ended-Told k w keyed =
      settle-Ends _ _ (Read e nobody k w) (Unread e nobody is_gone k w) (get_session k)
        (end_session k) (λ er. pure (is_gone er)) w (get_session-Moved e nobody k w)
        (λ s v h. by_status s v h) (λ er v h. (h.0, λ t. inr (rw (h.1 t) refl)))
    where
      by_status :
          (s : Session) (v : World)
          → Read e nobody k w s v
          → Ends (Told k w) (λ _ v. Kept e w v) (end_session k s v)
      by_status s v h = elim (Bool-cases (is_queued s.status)) [
        | inr f ↦ rw f (h.0, λ t. inr (rw h.1 (is_terminal-can_enter v.now s t)))
        | inl q ↦ rw q (
            settle-Ends _ _ (λ _ u. Kept e v u × (enters k u ≡ false)) (Failed e nobody v)
              (update_session_status k Model.SessionStatus.sold_out) (λ _. pure true)
              (λ _. pure false) v (update_session_status-Moved e nobody k v (h.0.0 keyed))
              (λ _ u m. (Moved-trans e nobody w v u h.0 m.0, λ _. inr m.1))
              (λ _ u m. (Moved-trans e nobody w v u h.0 m.0, λ t. absurd (not_true t))))
      ]
        where
          not_true : false ≡ true → ⊥
          not_true t = cc

  pub ended_of-Leaving :
      (ks : List String) (w : World)
      → KeyedById w
      → Ends (Leaving w) (λ _ v. Kept e w v) (ended_of ks w)
  unfolding ended_of
  ended_of-Leaving [] w keyed = (Moved-refl e nobody w, tt)
  ended_of-Leaving (k ∷ ks) w keyed =
      >>=-Ends _ _ (Told k w) (ended k) (λ b. ended_of ks >>= λ l. pure (cons_if b k l)) w
        (ended-Told k w keyed)
        λ b v h.
          >>=-Ends _ _ (Leaving v) (ended_of ks) (λ l. pure (cons_if b k l)) v
            (Ends-mono _ _ (Leaving v) (λ _ u. Kept e v u) _ (λ l u m. m)
              (λ _ u m. Moved-trans e nobody w v u h.0 m) (ended_of-Leaving ks v (h.0.0 keyed)))
            λ l u m. (
              Moved-trans e nobody w v u h.0 m.0,
              cons_if-Settled b k l u (λ t. Kept-Settled e k v u m.0 (h.1 t)) m.1,
            )

  dead-Told : (k : String) (w : World) → Ends (Told k w) (λ _ v. Kept e w v) (dead k w)
  dead-Told k w =
      settle-Ends _ _ (Read e nobody k w) (Unread e nobody is_gone k w) (get_session k)
        (λ s v. pure (is_terminal s || is_expired v.now s) v) (λ er. pure (is_gone er)) w
        (get_session-Moved e nobody k w) (λ s v h. (h.0, λ t. inr (rw h.1 (over s v t))))
        (λ er v h. (h.0, λ t. inr (rw (h.1 t) refl)))
    where
      over :
          (s : Session) (v : World)
          → (is_terminal s || is_expired v.now s) ≡ true
          → can_enter v.now s ≡ false
      over s v t = elim (Bool-cases (is_terminal s)) [
        | inl a ↦ is_terminal-can_enter v.now s a
        | inr f ↦ is_expired-can_enter v.now s (rw f at t)
      ]

  pub dead_head-Leaving :
      (ks : List String) (w : World)
      → KeyedById w
      → Ends (Leaving w) (λ _ v. Kept e w v) (dead_head ks w)
  unfolding dead_head
  dead_head-Leaving [] w keyed = (Moved-refl e nobody w, tt)
  dead_head-Leaving (k ∷ ks) w keyed =
      >>=-Ends _ _ (Told k w) (dead k)
        (λ b. if b then (dead_head ks >>= λ l. pure (k ∷ l)) else pure []) w (dead-Told k w)
        λ b v h. if_dead (λ v. dead_head-Leaving ks v) b v h
    where
      if_dead :
          ((v : World) → KeyedById v → Ends (Leaving v) (λ _ u. Kept e v u) (dead_head ks v))
          → (b : Bool) (v : World) → Told k w b v
          → Ends
              (Leaving w)
              (λ _ v. Kept e w v)
              ((if b then (dead_head ks >>= λ l. pure (k ∷ l)) else pure []) v)
      if_dead again false v h = (h.0, tt)
      if_dead again true v h =
          >>=-Ends _ _ (Leaving v) (dead_head ks) (λ l. pure (k ∷ l)) v
            (Ends-mono _ _ (Leaving v) (λ _ u. Kept e v u) _ (λ l u m. m)
              (λ _ u m. Moved-trans e nobody w v u h.0 m) (again v (h.0.0 keyed)))
            λ l u m.
              (Moved-trans e nobody w v u h.0 m.0, (Kept-Settled e k v u m.0 (h.1 refl), m.1))
