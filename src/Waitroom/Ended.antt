-- ===== src/Waitroom/Ended.antt =====
-- What the handlers of services/waitroom-svc/internal/service/waitroom_service.go leave of the session
-- of a checkout that is over: they write it as they read it before the token was invalidated.
use ticket_event_pf.Prelude.{
  ℕ, ◌+◌, ◌≤◌, ◌≡◌, refl, ◌∙◌, subst, String, Bool, true, false, Option, none, some, inl, inr, ◌⊎◌,
  List, [], ◌∷◌, ◌||◌, leb, str_eq, Bool-cases, Option-cases, arith,
}
use ticket_event_pf.Prelude.Act.{
  Ends, settle-Ends, >>=-Ends, Ends-mono, Ends-any, pure, best_effort, modify,
}
use ticket_event_pf.Waitroom.Model.{Session, Error, is_terminal}
use ticket_event_pf.Waitroom.World.{Keyed, World, Env, Step, remote, advance}
use ticket_event_pf.Waitroom.Remote.{remote-Ends}
use ticket_event_pf.Waitroom.Redis.{get_key}
use ticket_event_pf.Waitroom.Redis.Laws.{get_key-set}
use ticket_event_pf.Waitroom.SessionRepository.{
  find_session, put_session, or_nil, is_nil, get, read_ttl, ttl_or, update,
}
use ticket_event_pf.Waitroom.QueueRepository.{remove_from_processing}
use ticket_event_pf.Waitroom.SessionService.{
  get_session, nil_is_gone, update_session, invalidate_checkout_token,
}
use ticket_event_pf.Waitroom.Processor.{is_gone}
use ticket_event_pf.Waitroom.Service.{
  CheckoutInput, end_checkout, complete_session, fail_session, expire_session,
  handle_checkout_completed, handle_checkout_failed, handle_checkout_expired,
}
use ticket_event_pf.Waitroom.Kept.{KeyedById}
use ticket_event_pf.Waitroom.Kept.Sessions.{found_by_id}

-- A session that is there was there before.
get_key_earlier :
    {A : Type 0} (t t' : ℕ) (k : String) (a : A) (rows : List (Keyed A))
    → t ≤ t'
    → get_key t' k rows ≡ some a
    → get_key t k rows ≡ some a
get_key_earlier {A = A} t t' k a [] le h =
    let impossible : ◌≡◌ {A = Option A} none (some a) = h in absurd cc
get_key_earlier {A = A} t t' k a (r ∷ rows) le h = elim (Bool-cases (str_eq r.key k)) [
  | inr f ↦ rw f (get_key_earlier t t' k a rows le (rw f at h))
  | inl e ↦ elim (Bool-cases (leb t' r.expires_at)) [
    | inl f ↦
        let before : leb t r.expires_at ≡ true = ground arith in
        rw e (rw before (rw f at (rw e at h)))
    | inr f ↦ let impossible : ◌≡◌ {A = Option A} none (some a) = rw f at (rw e at h) in absurd cc
  ]
]

abbrev absent : Error → Bool
absent er = is_nil er || is_gone er

read-Ends :
    (k : String) (w : World)
    → Ends
        (λ s _. find_session k w ≡ some s)
        (λ er v. is_gone er ≡ true → find_session k v ≡ none)
        (get_session k w)
unfolding get_session get
read-Ends k w =
    settle-Ends _ _ (λ s v. find_session k w ≡ some s)
      (λ er v. absent er ≡ true → find_session k v ≡ none) (get k) pure nil_is_gone w
      (remote-Ends _ _ (λ v. or_nil (find_session k v) v) w
        λ d ss. (found d ss, (λ x. absurd (not_true x)), (λ x. absurd (not_true x))))
      (λ s v r. r)
      (λ er v n. elim (Bool-cases (is_nil er)) [
        | inl t ↦ rw t (λ _. n (rw t refl))
        | inr g ↦ rw g (λ x. n (rw g x))
      ])
  where
    not_true : false ≡ true → ⊥
    not_true x = cc

    found :
        (d : ℕ) (ss : List Step)
        → Ends
            (λ s _. find_session k w ≡ some s)
            (λ er v. absent er ≡ true → find_session k v ≡ none)
            (or_nil (find_session k (advance d ss w)) (advance d ss w))
    found d ss = elim (Option-cases (find_session k (advance d ss w))) [
      | inl n ↦ rw n (λ _. n)
      | inr x ↦ rw x.1 (get_key_earlier w.now (w.now + d) k x.0 w.sessions (omega arith) x.1)
    ]

-- A session is gone, or stored as it was written.
abbrev Stored : String → Session → World → Type 0
Stored k s v =
    (find_session k v ≡ none) ⊎ ((t : ℕ) × (find_session k v ≡ some (record s { updated_at = t })))

update-Stored :
    (k : String) (s : Session) (w : World)
    → Ends (λ _ v. Stored k s v) (λ _ _. Unit {0}) (update k s w)
unfolding update
update-Stored k s w =
    let s' : Session = record s { updated_at = w.now } in
    >>=-Ends _ _ (λ _ _. Unit {0}) (read_ttl k) (λ t. remote (modify (put_session k s' (ttl_or t))))
      w (Ends-any (read_ttl k w))
      λ t v _.
        remote-Ends (λ _ u. Stored k s u) (λ _ _. Unit {0}) (modify (put_session k s' (ttl_or t))) v
          λ d ss. (stored (ttl_or t) (advance d ss v), tt, tt)
  where
    stored :
        (ttl : ℕ) (v : World) → Stored k s (put_session k (record s { updated_at = w.now }) ttl v)
    stored ttl v =
        let s' : Session = record s { updated_at = w.now } in
        elim (Bool-cases (leb v.now (v.now + ttl))) [
          | inl t ↦ inr (w.now, get_key-set v.now k s' (v.now + ttl) v.sessions ∙ rw t refl)
          | inr f ↦ inl (get_key-set v.now k s' (v.now + ttl) v.sessions ∙ rw f refl)
        ]

-- The session of a checkout is gone, or it is over and its mark of an invalidated token is as it was.
abbrev pub IsOver : String → World → World → Type 0
IsOver k w v =
    (find_session k v ≡ none)
    ⊎ ((s : Session) × (u : Session) × (find_session k w ≡ some s)
        × (find_session k v ≡ some u)
        × (is_terminal u ≡ true)
        × (u.token_invalidated ≡ s.token_invalidated))

end_checkout-IsOver :
    (env : Env) (reason : String) (i : CheckoutInput) (f : Session → Session)
    → ((s : Session)
        → ((f s).id ≡ s.id)
          × (is_terminal (f s) ≡ true)
          × ((f s).token_invalidated ≡ s.token_invalidated))
    → (w : World) → KeyedById w
    → Ends (λ _ v. IsOver i.session_id w v) (λ _ _. Unit {0}) (end_checkout env reason i f w)
unfolding update_session
end_checkout-IsOver env reason i f h w keyed =
    let k = i.session_id in
    settle-Ends _ _ (λ s v. find_session k w ≡ some s)
      (λ er v. is_gone er ≡ true → find_session k v ≡ none) (get_session k) _ _ w (read-Ends k w)
      (λ s v r.
        >>=-Ends _ _ (λ _ _. Unit {0}) (best_effort (invalidate_checkout_token env k reason)) _ v
          (Ends-any _)
          λ _ u _.
            >>=-Ends _ _ (λ _ _. Unit {0}) (best_effort (remove_from_processing i.event_id k)) _ u
              (Ends-any _) λ _ t _. written s r t)
      (λ er v n. elim (Bool-cases (is_gone er)) [ inl t ↦ rw t (inl (n t)) | inr g ↦ rw g tt ])
  where
    written :
        (s : Session)
        → find_session i.session_id w ≡ some s
        → (t : World)
        → Ends (λ _ v. IsOver i.session_id w v) (λ _ _. Unit {0}) (update_session (f s) t)
    written s r t =
        Ends-mono _ _ (λ _ v. Stored (f s).id (f s) v) (λ _ _. Unit {0}) (update (f s).id (f s) t)
          (λ _ v o. over s r v (
            subst (λ z. Stored z (f s) v)
              ((h s).0 ∙ found_by_id w.now i.session_id s w.sessions keyed r) o))
          (λ _ _ x. tt) (update-Stored (f s).id (f s) t)
      where
        over :
            (s : Session)
            → find_session i.session_id w ≡ some s
            → (v : World) → Stored i.session_id (f s) v
            → IsOver i.session_id w v
        over s r v (inl n) = inl n
        over s r v (inr x) = inr (s, record (f s) { updated_at = x.0 }, r, x.1, (h s).1, (h s).2)

-- However a handler of a checkout that is over meets failures, where it ends without an error the
-- session is gone or over; and its mark of an invalidated token is what it was before the handler
-- invalidated the token, since the session is written back as it was read before.
pub handle_checkout-IsOver :
    (env : Env) (i : CheckoutInput) (w : World)
    → KeyedById w
    → Ends (λ _ v. IsOver i.session_id w v) (λ _ _. Unit {0}) (handle_checkout_completed env i w)
      × Ends (λ _ v. IsOver i.session_id w v) (λ _ _. Unit {0}) (handle_checkout_failed env i w)
      × Ends (λ _ v. IsOver i.session_id w v) (λ _ _. Unit {0}) (handle_checkout_expired env i w)
unfolding handle_checkout_completed handle_checkout_failed handle_checkout_expired
handle_checkout-IsOver env i w keyed = (
  end_checkout-IsOver env "completed" i (complete_session i) (λ s. (refl, refl, refl)) w keyed,
  end_checkout-IsOver env "failed" i fail_session (λ s. (refl, refl, refl)) w keyed,
  end_checkout-IsOver env "expired" i expire_session (λ s. (refl, refl, refl)) w keyed,
)
