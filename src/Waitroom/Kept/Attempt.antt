-- ===== src/Waitroom/Kept/Attempt.antt =====
-- An attempt to let a session in, and its retries: either the session has a slot, or it can never be
-- let in, or the failure is one that a later tick may not meet.
use ticket_event_pf.Prelude.{
  ℕ, zero, suc, ◌+◌, ◌*◌, ◌≡◌, refl, sym, ◌∙◌, subst, String, Bool, true, false, Option, none, some,
  inl, inr, if◌then◌else◌, ltb, str_eq, Bool-cases, arith,
}
use ticket_event_pf.Prelude.Act.{
  Result, err, Ends, settle-Ends, >>=-Ends, Ends-mono, pure, raise, ◌>>=◌, ◌>>◌, catch, gets,
}
use ticket_event_pf.Waitroom.Model.{Session, Error, session_not_admittable, can_admit, unix}
use ticket_event_pf.Waitroom.World.{World, Env, Act}
use ticket_event_pf.Waitroom.Redis.{score_of}
use ticket_event_pf.Waitroom.Redis.Laws.{str_eq_self, has_slot}
use ticket_event_pf.Waitroom.SessionRepository.{find_session}
use ticket_event_pf.Waitroom.QueueRepository.{is_processing, ends_after}
use ticket_event_pf.Waitroom.SessionService.{
  get_session, generate_checkout_token, update_checkout_token, signed,
}
use ticket_event_pf.Waitroom.Processor.{
  claim_slot, can_resume, is_none, is_gone, resume, resume_or_reject, gone_is_final, admit_session,
  admit_or_resume, do_admit_user_to_checkout, is_final, wait, retry, retry_delay,
  admit_user_to_checkout,
}
use ticket_event_pf.Waitroom.Kept.{
  Settled, KeyedById, Moved, Kept, nobody, Moved-Kept, Moved-refl, Moved-trans, remote-Moved,
  advance-Moved, enters,
}
use ticket_event_pf.Waitroom.Kept.Sessions.{
  Read, Unread, Failed, get_session-Moved, found_by_id, update_checkout_token-Moved,
}
use ticket_event_pf.Waitroom.Kept.Admission.{
  score_of-has_slot, Claimed, Unclaimed, claim_slot-Moved,
}

module _ (env : Env) (e : String) where
  -- How an attempt for the session `k` ends.
  abbrev pub Let : String → World → World → Type 0
  Let k w v = Kept e w v × Settled e k v

  abbrev pub Refused : String → World → Error → World → Type 0
  Refused k w er v = Kept e w v × (is_final er ≡ true → Settled e k v)

  abbrev pub Attempted : {A : Type 0} → String → World → Result Error A × World → Type 0
  Attempted k w = Ends (λ _ v. Let k w v) (Refused k w)

  not_final : false ≡ true → ⊥
  not_final f = cc

  Attempted-after :
      {A : Type 0} (k : String) (w v : World) (r : Result Error A × World)
      → Kept e w v
      → Attempted k v r
      → Attempted k w r
  Attempted-after k w v r m =
      Ends-mono (λ _ u. Let k w u) (Refused k w) (λ _ u. Let k v u) (Refused k v) r
        (λ _ u h. (Moved-trans e nobody w v u m h.0, h.1))
        (λ _ u h. (Moved-trans e nobody w v u m h.0, h.1))

  claim_slot-Attempted :
      (s : Session) (token : String) (exp_at : ℕ) (w : World)
      → Attempted s.id w (claim_slot env e s token exp_at w)
  claim_slot-Attempted s token exp_at w =
      Ends-mono _ _ (λ _ v. Claimed e nobody s.id w v) (Unclaimed e nobody s.id w) _
        (λ _ v h. (h.0, inl h.1)) (λ _ v h. (h.0, λ f. inl (h.1 f)))
        (claim_slot-Moved e nobody env s token exp_at w)

  ready : (now : ℕ) (s : Session) → can_resume now s ≡ true → is_none s.checkout_expires_at ≡ false
  ready now s h = ground arith

  resume-Attempted :
      (s : Session) (w : World) (c : Option ℕ)
      → is_none c ≡ false
      → Attempted s.id w (resume env e s c w)
  unfolding is_processing
  resume-Attempted s w none h = let impossible : true ≡ false = h in absurd cc
  resume-Attempted s w (some exp_at) h =
      >>=-Ends _ _ (λ b v. Kept e w v × (b ≡ true → has_slot e s.id v.checkouts ≡ true))
        (is_processing e s.id) _ w reads λ b v m. if_holding b v m
    where
      reads :
          Ends
            (λ b v. Kept e w v × (b ≡ true → has_slot e s.id v.checkouts ≡ true))
            (Refused s.id w)
            (is_processing e s.id w)
      reads =
          remote-Moved e nobody _ _ (gets λ v. ends_after v.now (score_of v.now e s.id v.checkouts))
            w
            λ v m. (
              (m, score_of-has_slot v.now e s.id v.checkouts),
              (m, λ f. absurd (not_final f)),
              (m, λ f. absurd (not_final f)),
            )

      if_holding :
          (b : Bool) (v : World)
          → Kept e w v × (b ≡ true → has_slot e s.id v.checkouts ≡ true)
          → Attempted s.id w (
              (if b
                  then raise session_not_admittable
                  else claim_slot env e s s.checkout_token exp_at)
                v)
      if_holding true v m = (m.0, λ _. inl (m.1 refl))
      if_holding false v m =
          Attempted-after s.id w v _ m.0 (claim_slot-Attempted s s.checkout_token exp_at v)

  -- A session that cannot be let in now.
  resume_or_reject-Attempted :
      (s : Session) (w : World)
      → find_session s.id w ≡ some s
      → can_admit w.now s ≡ false
      → Attempted s.id w (resume_or_reject env e s w)
  unfolding resume_or_reject
  resume_or_reject-Attempted s w found shut = elim (Bool-cases (can_resume w.now s)) [
    | inl t ↦ rw t (resume-Attempted s w s.checkout_expires_at (ready w.now s t))
    | inr f ↦ rw f (Moved-refl e nobody w, λ _. inr (rw found (rw shut f)))
  ]

  admit_session-Attempted :
      (s : Session) (w : World)
      → KeyedById w
      → find_session s.id w ≡ some s
      → can_admit w.now s ≡ true
      → Attempted s.id w (admit_session env e s.id s w)
  unfolding generate_checkout_token
  admit_session-Attempted s w keyed found due =
      by_token (env.sign s.id s.user_id s.event_id (unix (w.now + env.checkout_ttl)) (unix w.now))
    where
      inside : enters s.id w ≡ true
      inside = rw found (rw due refl)

      exp_at : ℕ
      exp_at = w.now + env.checkout_ttl

      admitted_to :
          (token : String)
          → Ends
              (λ _ v. Claimed e (str_eq s.id) s.id w v)
              (Unclaimed e (str_eq s.id) s.id w)
              ((update_checkout_token s.id token exp_at >> claim_slot env e s token exp_at) w)
      admitted_to token =
          >>=-Ends _ _ (λ _ v. Moved e (str_eq s.id) w v) (update_checkout_token s.id token exp_at)
            (λ _. claim_slot env e s token exp_at) w
            (Ends-mono _ _ (λ _ v. Moved e (str_eq s.id) w v) (Failed e (str_eq s.id) w) _
              (λ _ v m. m) (λ er v m. (m.0, λ f. absurd (not_final (sym m.1 ∙ f))))
              (update_checkout_token-Moved e (str_eq s.id) s.id w keyed token exp_at
                (str_eq_self s.id)))
            (λ _ v m.
              Ends-mono _ _ (λ _ u. Claimed e (str_eq s.id) s.id v u)
                (Unclaimed e (str_eq s.id) s.id v) _
                (λ _ u h. (Moved-trans e (str_eq s.id) w v u m h.0, h.1))
                (λ _ u h. (Moved-trans e (str_eq s.id) w v u m h.0, h.1))
                (claim_slot-Moved e (str_eq s.id) env s token exp_at v))

      by_token :
          (o : Option String)
          → Attempted s.id w (
              ((λ v. signed o v) >>= λ token v.
              let end = v.now + env.checkout_ttl in
              (update_checkout_token s.id token end >> claim_slot env e s token end) v)
                w)
      by_token none = (Moved-refl e nobody w, λ f. absurd (not_final f))
      by_token (some token) =
          Ends-mono _ _ (λ _ v. Claimed e (str_eq s.id) s.id w v) (Unclaimed e (str_eq s.id) s.id w)
            _ (λ _ v h. (Moved-Kept e s.id w v h.0 (inl inside), inl h.1))
            (λ _ v h. (Moved-Kept e s.id w v h.0 (inl inside), λ f. inl (h.1 f)))
            (admitted_to token)

  admit_or_resume-Attempted :
      (s : Session) (w : World)
      → KeyedById w
      → find_session s.id w ≡ some s
      → Attempted s.id w (admit_or_resume env e s.id s w)
  admit_or_resume-Attempted s w keyed found = elim (Bool-cases (can_admit w.now s)) [
    | inl t ↦ rw t (admit_session-Attempted s w keyed found t)
    | inr f ↦ rw f (resume_or_reject-Attempted s w found f)
  ]

  pub do_admit_user_to_checkout-Attempted :
      (k : String) (w : World) → KeyedById w → Attempted k w (do_admit_user_to_checkout env e k w)
  unfolding do_admit_user_to_checkout
  do_admit_user_to_checkout-Attempted k w keyed =
      >>=-Ends _ _ (Read e nobody k w) (catch (get_session k) gone_is_final)
        (admit_or_resume env e k) w
        (settle-Ends _ _ (Read e nobody k w) (Unread e nobody is_gone k w) (get_session k) pure
          gone_is_final w (get_session-Moved e nobody k w) (λ s v h. h) gone)
        (λ s v h.
          subst (λ z. find_session z v ≡ some s → Attempted z w (admit_or_resume env e z s v))
            (found_by_id v.now k s v.sessions (h.0.0 keyed) h.1)
            (λ f. Attempted-after s.id w v _ h.0 (admit_or_resume-Attempted s v (h.0.0 keyed) f))
            h.1)
    where
      gone :
          (er : Error) (v : World)
          → Unread e nobody is_gone k w er v
          → Ends (Read e nobody k w) (Refused k w) (gone_is_final er v)
      gone er v h = elim (Bool-cases (is_gone er)) [
        | inl t ↦ rw t (h.0, λ _. inr (rw (h.1 t) refl))
        | inr f ↦ rw f (h.0, λ t. absurd (not_final (sym h.2 ∙ t)))
      ]

  pub retry-Attempted :
      (deadline : ℕ) (k : String) (m : Act (Unit {0}))
      → ((w : World) → KeyedById w → Attempted k w (m w))
      → (left attempt : ℕ) (w : World) → KeyedById w
      → Attempted k w (retry deadline left attempt m w)
  unfolding retry
  retry-Attempted deadline k m h zero attempt w keyed = h w keyed
  retry-Attempted deadline k m h (suc left) attempt w keyed =
      settle-Ends _ _ (λ _ v. Let k w v) (Refused k w) m pure
        (λ er v.
          let again = retry deadline left (attempt + 1) m in
          if is_final er then (err er, v) else (wait deadline (retry_delay * attempt) >> again) v)
        w (h w keyed) (λ _ v a. a)
        λ er v a. elim (Bool-cases (is_final er)) [
          | inl t ↦ rw t a
          | inr f ↦ rw f (
              Attempted-after k w v _ a.0 (
                waited v (a.0.0 keyed) (λ u kept.
                  Attempted-after k v u _ kept
                    (retry-Attempted deadline k m h left (attempt + 1) u (kept.0 (a.0.0 keyed))))))
        ]
    where
      waited :
          (v : World)
          → KeyedById v
          → ((u : World) → Kept e v u → Attempted k v (retry deadline left (attempt + 1) m u))
          → Attempted k v
              ((wait deadline (retry_delay * attempt) >> retry deadline left (attempt + 1) m) v)
      waited v keyed go = elim (Bool-cases (ltb (v.now + retry_delay * attempt) deadline)) [
        | inl t ↦ rw t (
            go (record v { now = v.now + retry_delay * attempt })
              (advance-Moved e nobody (retry_delay * attempt) v.steps v))
        | inr f ↦ rw f (Moved-refl e nobody v, λ g. absurd (not_final g))
      ]

  pub admit_user_to_checkout-Attempted :
      (deadline : ℕ) (k : String) (w : World)
      → KeyedById w
      → Attempted k w (admit_user_to_checkout env deadline e k w)
  unfolding admit_user_to_checkout
  admit_user_to_checkout-Attempted deadline k =
      retry-Attempted deadline k (do_admit_user_to_checkout env e k)
        (do_admit_user_to_checkout-Attempted k) 2 1
