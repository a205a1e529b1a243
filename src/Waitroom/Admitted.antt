-- ===== src/Waitroom/Admitted.antt =====
-- `doAdmitUserToCheckout` of services/waitroom-svc/internal/service/queue_processor.go where no call
-- fails: a session that is due is let in at once.
use ticket_event_pf.Prelude.{
  ℕ, ◌+◌, ◌≡◌, refl, sym, ◌∙◌, subst, ap, String, true, some, inl, inr, List, [], ◌∷◌, ◌++◌,
  if◌then◌else◌, leb, In, arith,
}
use ticket_event_pf.Prelude.Int.{sub_ℕ}
use ticket_event_pf.Prelude.Act.{ok, then_run, settle_run, pure, ◌>>◌, modify, gets}
use ticket_event_pf.Waitroom.Model.{Session, queue_ready, is_admitted, can_admit, unix}
use ticket_event_pf.Waitroom.World.{World, Env, Act, remote}
use ticket_event_pf.Waitroom.Redis.{ttl_of}
use ticket_event_pf.Waitroom.Redis.Laws.{str_eq_self, get_key-set, has_slot}
use ticket_event_pf.Waitroom.SessionRepository
use ticket_event_pf.Waitroom.SessionRepository.{
  find_session, put_session, or_nil, get, read_ttl, ttl_or, update, with_token,
}
use ticket_event_pf.Waitroom.QueueRepository.{take_slot, add_to_processing}
use ticket_event_pf.Waitroom.SessionService.{
  nil_is_gone, get_session, generate_checkout_token, update_checkout_token, signed,
}
use ticket_event_pf.Waitroom.Processor.{
  put_message, publish_queue_ready, buffer_ready_event, ready_event, announce, claim_slot,
  gone_is_final, admit_session, admit_or_resume, resume_or_reject, do_admit_user_to_checkout,
}

-- No failure is to come, and no call takes time.
abbrev pub calm : World → World
calm w = record w { steps = [] }

pub remote-calm : {A : Type 0} (m : Act A) (w : World) → remote m (calm w) ≡ m (calm w)
remote-calm m w =
    let same : w.now + 0 ≡ w.now = omega arith in
    ap (λ t. m (record w { now = t; steps = [] })) same

update-calm :
    (k : String) (s : Session) (w : World)
    → update k s (calm w) ≡ (
      ok tt,
      put_session k (record s { updated_at = w.now }) (ttl_or (ttl_of w.now k w.sessions)) (calm w),
    )
unfolding update
update-calm k s w =
    ap (then_run λ t. remote (modify (put_session k (record s { updated_at = w.now }) (ttl_or t))))
      (remote-calm (gets λ v. ttl_of v.now k v.sessions) w)
    ∙ remote-calm
        (modify
          (put_session k (record s { updated_at = w.now }) (ttl_or (ttl_of w.now k w.sessions))))
        w

pub get-calm :
    (k : String) (s : Session) (w : World)
    → find_session k w ≡ some s
    → get k (calm w) ≡ (ok s, calm w)
unfolding get
get-calm k s w h = remote-calm (λ v. or_nil (find_session k v) v) w ∙ ap (λ o. or_nil o (calm w)) h

-- The session with its token, as it is stored.
abbrev pub with_checkout : String → ℕ → ℕ → Session → Session
with_checkout token exp_at now s = record (with_token token exp_at now s) { updated_at = now }

abbrev pub tokened : String → String → ℕ → Session → World → World
tokened k token exp_at s w =
    put_session k (with_checkout token exp_at w.now s) (ttl_or (ttl_of w.now k w.sessions)) (calm w)

update_checkout_token-calm :
    (k token : String) (exp_at : ℕ) (s : Session) (w : World)
    → find_session k w ≡ some s
    → update_checkout_token k token exp_at (calm w) ≡ (ok tt, tokened k token exp_at s w)
unfolding update_checkout_token SessionRepository.update_checkout_token
update_checkout_token-calm k token exp_at s w h =
    ap (then_run λ s v. update k (with_token token exp_at v.now s) v) (get-calm k s w h)
    ∙ update-calm k (with_token token exp_at w.now s) w

abbrev pub let_in : String → Session → String → ℕ → World → World
let_in e s token exp_at w =
    put_message (queue_ready (ready_event e s token exp_at w.now))
      (take_slot e s.id w.now (sub_ℕ exp_at w.now) (calm w))

claim_slot-calm :
    (env : Env) (e : String) (s : Session) (token : String) (exp_at : ℕ) (w : World)
    → claim_slot env e s token exp_at (calm w) ≡ (ok tt, let_in e s token exp_at w)
unfolding claim_slot add_to_processing publish_queue_ready
claim_slot-calm env e s token exp_at w =
    ap (then_run λ _. announce env e s token exp_at)
      (remote-calm (modify (take_slot e s.id w.now (sub_ℕ exp_at w.now))) w)
    ∙ ap (settle_run pure λ _. buffer_ready_event env (ready_event e s token exp_at w.now)) (
        remote-calm (modify (put_message (queue_ready (ready_event e s token exp_at w.now))))
          (take_slot e s.id w.now (sub_ℕ exp_at w.now) (calm w)))

-- What an admission leaves: a slot, the session admitted with the token, and the announcement.
abbrev pub IsLetIn : String → String → Session → String → ℕ → World → Type 0
IsLetIn e k s token exp_at v =
    (has_slot e s.id v.checkouts ≡ true)
    × ((u : Session) × (find_session k v ≡ some u)
        × (is_admitted u.status ≡ true)
        × (u.checkout_token ≡ token)
        × (u.checkout_expires_at ≡ some exp_at))
    × In (queue_ready (ready_event e s token exp_at v.now)) v.published

In-last : {A : Type 0} (x : A) (xs : List A) → In x (xs ++ x ∷ [])
In-last x [] = inl refl
In-last x (y ∷ xs) = inr (In-last x xs)

module _ (env : Env) (e k token : String) (s : Session) (w : World) where
  let_in-IsLetIn :
      IsLetIn e k s token (w.now + env.checkout_ttl) (
        let_in e s token
          (w.now + env.checkout_ttl)
          (tokened k token (w.now + env.checkout_ttl) s w))
  let_in-IsLetIn =
      let ttl = ttl_or (ttl_of w.now k w.sessions) in
      let stored : leb w.now (w.now + ttl) ≡ true = ground arith in
      (
        rw (str_eq_self e) (rw (str_eq_self s.id) refl),
        (
          with_checkout token (w.now + env.checkout_ttl) w.now s,
          get_key-set w.now k (with_checkout token (w.now + env.checkout_ttl) w.now s) (w.now + ttl)
                w.sessions
              ∙ rw stored refl,
          refl,
          refl,
          refl,
        ),
        In-last _ w.published,
      )

  admits-calm :
      find_session k w ≡ some s
      → can_admit w.now s ≡ true
      → env.sign s.id s.user_id s.event_id (unix (w.now + env.checkout_ttl)) (unix w.now)
        ≡ some token
      → do_admit_user_to_checkout env e k (calm w) ≡ (
        ok tt,
        let_in e s token
            (w.now + env.checkout_ttl)
            (tokened k token (w.now + env.checkout_ttl) s w),
      )
  unfolding do_admit_user_to_checkout get_session generate_checkout_token
  admits-calm h due signs =
      ap
        (λ r.
          then_run (admit_or_resume env e k)
            (settle_run pure gone_is_final (settle_run pure nil_is_gone r)))
        (get-calm k s w h)
      ∙ ap
          (λ b. (if b then admit_session env e k s (calm w) else resume_or_reject env e s (calm w)))
          due
      ∙ ap
          (λ o.
            then_run
              (λ t v.
                let end = v.now + env.checkout_ttl in
                (update_checkout_token k t end >> claim_slot env e s t end) v)
              (signed o (calm w)))
          signs
      ∙ ap (then_run λ _. claim_slot env e s token (w.now + env.checkout_ttl))
          (update_checkout_token-calm k token (w.now + env.checkout_ttl) s w h)
      ∙ claim_slot-calm env e s token (w.now + env.checkout_ttl)
          (tokened k token (w.now + env.checkout_ttl) s w)

  -- Where no call fails or takes time, a stored session that is due and whose token can be signed is
  -- let in by one attempt: the attempt succeeds, the session has a slot, it is stored as admitted with
  -- the token and the end of its checkout, and its admission is announced.
  pub do_admit_user_to_checkout-IsLetIn :
      find_session k w ≡ some s
      → can_admit w.now s ≡ true
      → env.sign s.id s.user_id s.event_id (unix (w.now + env.checkout_ttl)) (unix w.now)
        ≡ some token
      → ((do_admit_user_to_checkout env e k (calm w)).0 ≡ ok tt)
        × IsLetIn e k s token
            (w.now + env.checkout_ttl)
            (do_admit_user_to_checkout env e k (calm w)).1
  do_admit_user_to_checkout-IsLetIn h due signs =
      let run = admits-calm h due signs in
      (
        ap (λ r. r.0) run,
        subst (λ r. IsLetIn e k s token (w.now + env.checkout_ttl) r.1) (sym run) let_in-IsLetIn,
      )
