-- ===== src/Waitroom/Kept.antt =====
-- What a call may do to the line of one event and to the sessions in it: internal/service's
-- invariant that a session which can still be admitted stands in the queue or has a checkout slot.
pub mod Sessions
mod Admission
mod Attempt
pub mod Removed
pub mod Tick
use text.Mathlib.TextEquality.{eq_iff}
use ticket_event_pf.Prelude.{
  ℕ, ◌+◌, ◌≤◌, ◌≡◌, refl, sym, ◌∙◌, subst, String, Bool, true, false, not, ◌&&◌, ◌||◌, Option, none,
  some, inl, inr, ◌⊎◌, List, [], ◌∷◌, if◌then◌else◌, ltb, leb, str_eq, rows_where, any, All,
  Bool-cases, arith, All-where,
}
use ticket_event_pf.Prelude.Act.{
  Result, ok, err, Ends, settle-Ends, >>=-Ends, Ends-mono, pure, ◌>>=◌, settle, gets, modify,
}
use ticket_event_pf.Waitroom.Model.{
  Session, Error, unavailable, can_admit, after_opt, is_queued, is_admitted,
}
use ticket_event_pf.Waitroom.World.{
  Keyed, World, Env, Act, Checkout, Fault, fine, lost, unacked, Step, next_step, suffer, advance,
  remote,
}
use ticket_event_pf.Waitroom.Remote.{remote-Ends}
use ticket_event_pf.Waitroom.Redis.{if_alive, get_key, set_key}
use ticket_event_pf.Waitroom.Redis.Laws.{str_eq_sym, get_key-set, get_key-set_other, has_slot}
use ticket_event_pf.Waitroom.SessionRepository.{put_session}
use ticket_event_pf.Waitroom.Processor.{can_resume}

-- A session that can be let in, or whose admission is half-finished.
abbrev pub can_enter : ℕ → Session → Bool
can_enter now s = can_admit now s || can_resume now s

abbrev pub may_enter : ℕ → Option Session → Bool
may_enter now none = false
may_enter now (some s) = can_enter now s

abbrev pub enters : String → World → Bool
enters k w = may_enter w.now (get_key w.now k w.sessions)

-- The session has a slot of the event, or it can never be let in.
abbrev pub Settled : String → String → World → Type 0
Settled e k w = (has_slot e k w.checkouts ≡ true) ⊎ (enters k w ≡ false)

abbrev pub KeyedById : World → Type 0
KeyedById w = All (λ r. r.value.id ≡ r.key) w.sessions

after_opt_later : (t t' : ℕ) (o : Option ℕ) → t ≤ t' → after_opt t o ≡ true → after_opt t' o ≡ true
after_opt_later t t' none le h = h
after_opt_later t t' (some c) le h = ground arith

can_enter_later : (t t' : ℕ) (s : Session) → t ≤ t' → can_enter t s ≡ false → can_enter t' s ≡ false
can_enter_later t t' s le h = ground (arith, after_opt_later t t' s.checkout_expires_at le)

pub may_enter_later :
    (t t' : ℕ) (k : String) (rows : List (Keyed Session))
    → t ≤ t'
    → may_enter t (get_key t k rows) ≡ false
    → may_enter t' (get_key t' k rows) ≡ false
may_enter_later t t' k [] le h = refl
may_enter_later t t' k (r ∷ rows) le h = elim (Bool-cases (str_eq r.key k)) [
  | inl e ↦ rw e (alive_later r le (rw e at h))
  | inr e ↦ rw e (may_enter_later t t' k rows le (rw e at h))
]
  where
    alive_later :
        (r : Keyed Session)
        → t ≤ t'
        → may_enter t (if_alive t r) ≡ false
        → may_enter t' (if_alive t' r) ≡ false
    alive_later r le h = elim (Bool-cases (leb t' r.expires_at)) [
      | inr f ↦ rw f refl
      | inl f ↦
          let before : leb t r.expires_at ≡ true = ground arith in
          rw f (can_enter_later t t' r.value le (rw before at h))
    ]

-- From `w` to `v`, but for the sessions that `x` names: no entry leaves the queue, no slot is lost,
-- and no session that could not be let in can be.
abbrev pub Moved : String → (String → Bool) → World → World → Type 0
Moved e x w v =
    (KeyedById w → KeyedById v)
    × (v.queue ≡ w.queue)
    × ((k : String) → has_slot e k w.checkouts ≡ true → has_slot e k v.checkouts ≡ true)
    × ((k : String) → x k ≡ false → enters k w ≡ false → enters k v ≡ false)

abbrev pub nobody : String → Bool
nobody k = false

abbrev pub Kept : String → World → World → Type 0
Kept e = Moved e nobody

pub Kept-Settled : (e k : String) (w v : World) → Kept e w v → Settled e k w → Settled e k v
Kept-Settled e k w v m (inl h) = inl (m.2 k h)
Kept-Settled e k w v m (inr h) = inr (m.3 k refl h)

-- The session under change may be counted in, if it could be let in before, or cannot be after.
pub Moved-Kept :
    (e k : String) (w v : World)
    → Moved e (str_eq k) w v
    → (enters k w ≡ true) ⊎ (enters k v ≡ false)
    → Kept e w v
Moved-Kept e k w v m h = (
  m.0,
  m.1,
  m.2,
  λ j _ out. elim (Bool-cases (str_eq k j)) [
    | inr other ↦ m.3 j other out
    | inl same ↦
        let here : k ≡ j = (eq_iff k j).0 same in
        subst (λ z. enters z v ≡ false) here
          (closed h (subst (λ z. enters z w ≡ false) (sym here) out))
  ],
)
  where
    closed : (enters k w ≡ true) ⊎ (enters k v ≡ false) → enters k w ≡ false → enters k v ≡ false
    closed (inl t) f = let impossible : true ≡ false = sym t ∙ f in absurd cc
    closed (inr f) _ = f

module _ (e : String) (x : String → Bool) where
  pub Moved-refl : (w : World) → Moved e x w w
  Moved-refl w = (λ h. h, refl, λ k h. h, λ k _ h. h)

  pub Moved-trans : (u v w : World) → Moved e x u v → Moved e x v w → Moved e x u w
  Moved-trans u v w a b =
      (λ h. b.0 (a.0 h), b.1 ∙ a.1, λ k h. b.2 k (a.2 k h), λ k o h. b.3 k o (a.3 k o h))

  -- Time passes.
  pub advance-Moved : (d : ℕ) (ss : List Step) (w : World) → Moved e x w (advance d ss w)
  advance-Moved d ss w = (
    λ h. h,
    refl,
    λ k h. h,
    λ k _ h. may_enter_later w.now (w.now + d) k w.sessions (omega arith) h,
  )

  -- A write of one session.
  pub put_session-Moved :
      (k : String) (s : Session) (ttl : ℕ) (w : World)
      → s.id ≡ k
      → (x k ≡ false → can_enter w.now s ≡ false)
      → Moved e x w (put_session k s ttl w)
  put_session-Moved k s ttl w id quiet = (
    λ h. (id, All-where (λ r. r.value.id ≡ r.key) (λ r. not (str_eq r.key k)) w.sessions h),
    refl,
    λ j h. h,
    λ j o h. elim (Bool-cases (str_eq k j)) [
      | inl same ↦
          subst (λ z. enters z (put_session k s ttl w) ≡ false) ((eq_iff k j).0 same)
            (written (quiet (subst (λ z. x z ≡ false) (sym ((eq_iff k j).0 same)) o)))
      | inr other ↦
          rw (get_key-set_other w.now j k s (w.now + ttl) w.sessions other (str_eq_sym k j other)) h
    ],
  )
    where
      if_written :
          (b : Bool)
          → can_enter w.now s ≡ false
          → may_enter w.now (if b then some s else none) ≡ false
      if_written true h = h
      if_written false h = refl

      written : can_enter w.now s ≡ false → enters k (put_session k s ttl w) ≡ false
      written h =
          rw (get_key-set w.now k s (w.now + ttl) w.sessions)
            (if_written (leb w.now (w.now + ttl)) h)

  -- A change of what the line does not read.
  pub same-Moved :
      (w v : World)
      → v.now ≡ w.now
      → v.sessions ≡ w.sessions
      → v.queue ≡ w.queue
      → v.checkouts ≡ w.checkouts
      → Moved e x w v
  same-Moved w v n s q c = (
    λ h. subst (All (λ r. r.value.id ≡ r.key)) (sym s) h,
    q,
    λ k h. subst (λ z. has_slot e k z ≡ true) (sym c) h,
    λ k _ h. rw (n, s) h,
  )

  -- How a call ends that moves the line so, whatever else it gives.
  abbrev pub Moves : {A : Type 0} → Act A → Type 0
  Moves m = (w : World) → Ends (λ _ v. Moved e x w v) (λ _ v. Moved e x w v) (m w)

  -- A remote call.
  pub remote-Moved :
      {A : Type 0} (P : A → World → Type 0) (F : Error → World → Type 0) (m : Act A) (w : World)
      → ((v : World) → Moved e x w v → Ends P F (m v) × F unavailable v × F unavailable (m v).1)
      → Ends P F (remote m w)
  remote-Moved P F m w h = remote-Ends P F m w λ d ss. h (advance d ss w) (advance-Moved d ss w)

  pub Moves-pure : {A : Type 0} (a : A) → Moves (pure a)
  Moves-pure a w = Moved-refl w

  pub Moves-modify : (f : World → World) → ((v : World) → Moved e x v (f v)) → Moves (modify f)
  Moves-modify f h w = h w

  pub Moves-remote :
      {A : Type 0} (m : Act A)
      → ((w : World)
          → Ends (λ _ v. Moved e x w v) (λ _ v. Moved e x w v) (m w) × Moved e x w (m w).1)
      → Moves (remote m)
  Moves-remote m h w =
      remote-Moved (λ _ v. Moved e x w v) (λ _ v. Moved e x w v) m w
        λ v a. (
          Ends-mono _ _ (λ _ u. Moved e x v u) (λ _ u. Moved e x v u) (m v)
              (λ _ u b. Moved-trans w v u a b) (λ _ u b. Moved-trans w v u a b) (h v).0,
          a,
          Moved-trans w v (m v).1 a (h v).1,
        )

  pub Moves-settle :
      {A B : Type 0} (m : Act A) (f : A → Act B) (g : Error → Act B)
      → Moves m
      → ((a : A) → Moves (f a))
      → ((er : Error) → Moves (g er))
      → Moves (settle m f g)
  Moves-settle m f g hm hf hg w =
      settle-Ends _ _ (λ _ v. Moved e x w v) (λ _ v. Moved e x w v) m f g w (hm w)
        (λ a v h.
          Ends-mono _ _ (λ _ u. Moved e x v u) (λ _ u. Moved e x v u) (f a v)
            (λ _ u b. Moved-trans w v u h b) (λ _ u b. Moved-trans w v u h b) (hf a v))
        (λ er v h.
          Ends-mono _ _ (λ _ u. Moved e x v u) (λ _ u. Moved e x v u) (g er v)
            (λ _ u b. Moved-trans w v u h b) (λ _ u b. Moved-trans w v u h b) (hg er v))

  pub Moves-bind :
      {A B : Type 0} (m : Act A) (f : A → Act B)
      → Moves m
      → ((a : A) → Moves (f a))
      → Moves (m >>= f)
  Moves-bind m f hm hf w =
      >>=-Ends _ _ (λ _ v. Moved e x w v) m f w (hm w)
        (λ a v h.
          Ends-mono _ _ (λ _ u. Moved e x v u) (λ _ u. Moved e x v u) (f a v)
            (λ _ u b. Moved-trans w v u h b) (λ _ u b. Moved-trans w v u h b) (hf a v))

  pub Moves-if :
      {A : Type 0} (b : Bool) (m n : Act A)
      → Moves m
      → Moves n
      → (w : World) → Ends (λ _ v. Moved e x w v) (λ _ v. Moved e x w v) ((if b then m else n) w)
  Moves-if true m n hm hn w = hm w
  Moves-if false m n hm hn w = hn w
