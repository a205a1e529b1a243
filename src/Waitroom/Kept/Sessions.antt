-- ===== src/Waitroom/Kept/Sessions.antt =====
-- What the reads and writes of sessions do to a line.
use ticket_event_pf.Prelude.{
  ℕ, ◌+◌, ◌≡◌, refl, sym, ◌∙◌, subst, String, Bool, true, false, Option, none, some, inl, inr, List,
  [], ◌∷◌, if◌then◌else◌, leb, str_eq, All, Bool-cases, Option-cases, ◌||◌,
}
use mathlib.Core.Option.{some-injective}
use text.Mathlib.TextEquality.{eq_iff}
use ticket_event_pf.Prelude.Act.{
  Ends, settle-Ends, >>=-Ends, Ends-mono, pure, raise, ◌>>=◌, gets, modify,
}
use ticket_event_pf.Waitroom.Model.{Session, SessionStatus, Error, unavailable, session_not_found}
use ticket_event_pf.Waitroom.World.{Keyed, World, remote}
use ticket_event_pf.Waitroom.Redis.{get_key, ttl_of}
use ticket_event_pf.Waitroom.Redis.Laws.{get_key-set}
use ticket_event_pf.Waitroom.SessionRepository.{
  find_session, put_session, or_nil, get, read_ttl, ttl_or, update, update_status,
  update_checkout_token, with_token, is_nil,
}
use ticket_event_pf.Waitroom.SessionService.{get_session, nil_is_gone}
use ticket_event_pf.Waitroom.SessionService
use ticket_event_pf.Waitroom.Processor.{is_final, is_gone}
use ticket_event_pf.Waitroom.Kept.{
  can_enter, may_enter, enters, KeyedById, Moved, Moved-trans, put_session-Moved, remote-Moved,
}

-- A session that is found is stored under its own id.
pub found_by_id :
    (now : ℕ) (k : String) (s : Session) (rows : List (Keyed Session))
    → All (λ r. r.value.id ≡ r.key) rows
    → get_key now k rows ≡ some s
    → s.id ≡ k
found_by_id now k s [] a h =
    let impossible : ◌≡◌ {A = Option Session} none (some s) = h in absurd cc
found_by_id now k s (r ∷ rows) a h = elim (Bool-cases (str_eq r.key k)) [
  | inr f ↦ found_by_id now k s rows a.1 (rw f at h)
  | inl t ↦ elim (Bool-cases (leb now r.expires_at)) [
    | inl l ↦
        subst (λ z. z.id ≡ k) (some-injective _ _ (rw l at (rw t at h)))
          (a.0 ∙ (eq_iff r.key k).0 t)
    | inr l ↦
        let impossible : ◌≡◌ {A = Option Session} none (some s) = rw l at (rw t at h) in absurd cc
  ]
]

-- An error that says that the key is gone.
abbrev pub absent : Error → Bool
absent er = is_nil er || is_gone er

module _ (e : String) (x : String → Bool) where
  -- What a read gives: the session as it is stored, or, where the key is gone, nothing.
  abbrev pub Read : String → World → Session → World → Type 0
  Read k w s v = Moved e x w v × (find_session k v ≡ some s)

  abbrev pub Unread : (Error → Bool) → String → World → Error → World → Type 0
  Unread gone k w er v =
      Moved e x w v × (gone er ≡ true → find_session k v ≡ none) × (is_final er ≡ false)

  -- A call that failed in a way that a later attempt may not.
  abbrev pub Failed : World → Error → World → Type 0
  Failed w er v = Moved e x w v × (is_final er ≡ false)

  not_true : false ≡ true → ⊥
  not_true h = cc

  pub get-Moved : (k : String) (w : World) → Ends (Read k w) (Unread absent k w) (get k w)
  unfolding get
  get-Moved k w =
      remote-Moved e x (Read k w) (Unread absent k w) (λ v. or_nil (find_session k v) v) w
        λ v m. (found v m, (m, (λ h. absurd (not_true h)), refl), lost v m)
    where
      found :
          (v : World)
          → Moved e x w v
          → Ends (Read k w) (Unread absent k w) (or_nil (find_session k v) v)
      found v m = elim (Option-cases (find_session k v)) [
        | inl n ↦ rw n (m, (λ _. n), refl)
        | inr s ↦ rw s.1 (m, s.1)
      ]

      lost :
          (v : World)
          → Moved e x w v
          → Unread absent k w unavailable (or_nil (find_session k v) v).1
      lost v m = elim (Option-cases (find_session k v)) [
        | inl n ↦ rw n (m, (λ h. absurd (not_true h)), refl)
        | inr s ↦ rw s.1 (m, (λ h. absurd (not_true h)), refl)
      ]

  pub get_session-Moved :
      (k : String) (w : World) → Ends (Read k w) (Unread is_gone k w) (get_session k w)
  unfolding get_session
  get_session-Moved k w =
      settle-Ends (Read k w) (Unread is_gone k w) (Read k w) (Unread absent k w) (get k) pure
        nil_is_gone w (get-Moved k w) (λ s v h. h) (λ er v h. nil_gone er v h)
    where
      nil_gone :
          (er : Error) (v : World)
          → Unread absent k w er v
          → Ends (Read k w) (Unread is_gone k w) (nil_is_gone er v)
      nil_gone er v h = elim (Bool-cases (is_nil er)) [
        | inl t ↦ rw t (h.0, (λ _. h.1 (rw t refl)), refl)
        | inr f ↦ rw f (h.0, (λ g. h.1 (rw f g)), h.2)
      ]

  -- A write of the session `k`. If it could not be let in as written, it cannot be after.
  abbrev pub Written : String → World → Session → Unit {0} → World → Type 0
  Written k w s _ v =
      Moved e x w v
      × (((t now : ℕ) → can_enter t (record s { updated_at = now }) ≡ false) → enters k v ≡ false)

  pub update-Moved :
      (k : String) (s : Session) (w : World)
      → s.id ≡ k
      → (x k ≡ false → (t now : ℕ) → can_enter t (record s { updated_at = now }) ≡ false)
      → Ends (Written k w s) (Failed w) (update k s w)
  unfolding update
  update-Moved k s w id quiet =
      let s' : Session = record s { updated_at = w.now } in
      >>=-Ends (Written k w s) (Failed w) (λ _ v. Moved e x w v) (read_ttl k)
        (λ t. remote (modify (put_session k s' (ttl_or t)))) w
        (remote-Moved e x (λ _ v. Moved e x w v) (Failed w) (gets λ v. ttl_of v.now k v.sessions) w
          λ v m. (m, (m, refl), (m, refl)))
        (λ t u mu.
          remote-Moved e x (Written k w s) (Failed w) (modify (put_session k s' (ttl_or t))) u
            λ v mv.
              let before = Moved-trans e x w u v mu mv in
              let after =
                Moved-trans e x w v (put_session k s' (ttl_or t) v) before
                  (put_session-Moved e x k s' (ttl_or t) v id λ o. quiet o v.now w.now) in
              (
                (after, λ shut. written s' (ttl_or t) v (shut v.now w.now)),
                (before, refl),
                (after, refl),
              ))
    where
      if_written :
          (b : Bool) (t : ℕ) (s' : Session)
          → can_enter t s' ≡ false
          → may_enter t (if b then some s' else none) ≡ false
      if_written true t s' h = h
      if_written false t s' h = refl

      written :
          (s' : Session) (ttl : ℕ) (v : World)
          → can_enter v.now s' ≡ false
          → enters k (put_session k s' ttl v) ≡ false
      written s' ttl v h =
          rw (get_key-set v.now k s' (v.now + ttl) v.sessions)
            (if_written (leb v.now (v.now + ttl)) v.now s' h)

-- A read, and a write of the session as it was read with a change that keeps its id.
module _ (e : String) (x : String → Bool) (k : String) (w : World) (keyed : KeyedById w) where
  change-Moved :
      (f : ℕ → Session → Session)
      → ((t : ℕ) (s : Session) → (f t s).id ≡ s.id)
      → (x k ≡ false
          → (s : Session) (u t now : ℕ) → can_enter t (record (f u s) { updated_at = now }) ≡ false)
      → Ends
          (λ _ v.
            Moved e x w v
            × (((s : Session) (u t now : ℕ)
                  → can_enter t (record (f u s) { updated_at = now }) ≡ false)
                → enters k v ≡ false))
          (Failed e x w)
          ((get k >>= λ s v. update k (f v.now s) v) w)
  change-Moved f same quiet =
      >>=-Ends _ _ (Read e x k w) (get k) (λ s v. update k (f v.now s) v) w
        (Ends-mono (Read e x k w) (Failed e x w) (Read e x k w) (Unread e x absent k w) (get k w)
          (λ s v h. h) (λ er v h. (h.0, h.2)) (get-Moved e x k w))
        λ s v h.
          Ends-mono _ _ (Written e x k v (f v.now s)) (Failed e x v) (update k (f v.now s) v)
            (λ _ u m. (Moved-trans e x w v u h.0 m.0, λ shut. m.1 (shut s v.now)))
            (λ _ u m. (Moved-trans e x w v u h.0 m.0, m.1))
            (update-Moved e x k (f v.now s) v
              (same v.now s ∙ found_by_id v.now k s v.sessions (h.0.0 keyed) h.1)
              (λ o. quiet o s v.now))

  pub update_checkout_token-Moved :
      (token : String) (exp_at : ℕ)
      → x k ≡ true
      → Ends
          (λ _ v. Moved e x w v)
          (Failed e x w)
          (SessionService.update_checkout_token k token exp_at w)
  unfolding SessionService.update_checkout_token update_checkout_token
  update_checkout_token-Moved token exp_at t =
      Ends-mono _ _ _ _ (update_checkout_token k token exp_at w) (λ _ v m. m.0) (λ _ v m. m)
        (change-Moved (with_token token exp_at) (λ u s. refl) (λ o. absurd (clash o)))
    where
      clash : x k ≡ false → ⊥
      clash o = let impossible : true ≡ false = sym t ∙ o in cc

  -- A session that is marked sold out can never be let in.
  pub update_session_status-Moved :
      Ends
        (λ _ v. Moved e x w v × (enters k v ≡ false))
        (Failed e x w)
        (SessionService.update_session_status k SessionStatus.sold_out w)
  unfolding SessionService.update_session_status update_status
  update_session_status-Moved =
      settle-Ends _ _ (λ _ v. Moved e x w v × (enters k v ≡ false)) (Failed e x w)
        (update_status k SessionStatus.sold_out) pure nil_is_gone w
        (Ends-mono _ _ _ _ (update_status k SessionStatus.sold_out w)
          (λ _ v m. (m.0, m.1 λ s u t now. refl)) (λ _ v m. m)
          (change-Moved sold_at (λ u s. refl) (λ o s u t now. refl)))
        (λ _ v m. m)
        (λ er v m.
          elim (is_nil er)
            as (λ b.
              Ends (λ (_ : Unit {0}) v. Moved e x w v × (enters k v ≡ false)) (Failed e x w)
                ((if b then raise session_not_found else raise er) v)) [
                  | true ↦ (m.0, refl)
                  | false ↦ m
                ])
    where
      sold_at : ℕ → Session → Session
      sold_at now s = record s { status = SessionStatus.sold_out; updated_at = now }
