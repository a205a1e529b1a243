-- ===== src/Waitroom/Tokens.antt =====
-- `ValidateCheckoutToken` of services/waitroom-svc/internal/service/session_service.go, and what the
-- handlers of internal/service/waitroom_service.go leave of the session of a checkout that is over.
use ticket_event_pf.Prelude.{
  ℕ, ◌+◌, ◌≡◌, refl, sym, subst, String, Bool, true, false, Option, none, some, inl, inr, List,
  if◌then◌else◌, str_eq, Bool-cases, Option-cases, arith,
}
use ticket_event_pf.Prelude.Act.{
  Ends, settle-Ends, >>=-Ends, Ends-mono, pure, raise, ◌>>=◌, catch, gets,
}
use ticket_event_pf.Waitroom.Model.{
  Session, token_invalidated, session_not_found, is_admitted, has_checkout_expired,
}
use ticket_event_pf.Waitroom.World.{World, Env, ParsedToken, Step, advance, remote}
use ticket_event_pf.Waitroom.Remote.{remote-Ends}
use ticket_event_pf.Waitroom.Redis.{get_key, exists_key, is_some}
use ticket_event_pf.Waitroom.Redis.Laws.{get_key_later}
use ticket_event_pf.Waitroom.SessionRepository.{
  find_session, or_nil, get, is_token_invalidated, is_nil,
}
use ticket_event_pf.Waitroom.SessionService.{
  nil_is_gone, if_admitted, claimed_session, check_blacklist, validate_parsed,
  validate_checkout_token,
}

module _ (env : Env) (token : String) where
  -- The token is not in the list of the invalidated.
  abbrev NotListed : World → Type 0
  NotListed w = get_key w.now (env.hash_token token) w.blacklist ≡ none

  advance-NotListed :
      (d : ℕ) (ss : List Step) (w : World) → NotListed w → NotListed (advance d ss w)
  advance-NotListed d ss w h =
      get_key_later w.now (w.now + d) (env.hash_token token) w.blacklist (omega arith) h

  -- What a token that is accepted belongs to: a session that is admitted, whose token has not been
  -- invalidated and whose checkout has not ended.
  abbrev pub Accepted : World → World → Type 0
  Accepted w v =
      (p : ParsedToken) × (k : String) × (s : Session) × (env.parse w.now token ≡ some p)
      × (p.valid ≡ true)
      × (p.session_id ≡ some k)
      × (get_key v.now (env.hash_token token) v.blacklist ≡ none)
      × (find_session k v ≡ some s)
      × (is_admitted s.status ≡ true)
      × (s.token_invalidated ≡ false)
      × (has_checkout_expired v.now s ≡ false)

  -- The last checks, on the session that was read.
  abbrev Admitted : Session → World → Type 0
  Admitted s v =
      (is_admitted s.status ≡ true)
      × (s.token_invalidated ≡ false)
      × (has_checkout_expired v.now s ≡ false)

  if_admitted-Ends :
      (s : Session) (v : World)
      → Ends (λ _ u. Admitted s u × (u ≡ v)) (λ _ _. Unit {0}) (if_admitted s v)
  if_admitted-Ends s v = elim (Bool-cases (is_admitted s.status)) [
    | inr f ↦ rw f tt
    | inl a ↦ rw a (elim (Bool-cases s.token_invalidated) [
      | inl t ↦ rw t tt
      | inr i ↦ rw i (elim (Bool-cases (has_checkout_expired v.now s)) [
        | inl t ↦ rw t tt
        | inr x ↦ rw x ((refl, refl, x), refl)
      ])
    ])
  ]

  check_blacklist-Ends :
      (w : World) → Ends (λ _ v. NotListed v) (λ _ _. Unit {0}) (check_blacklist env token w)
  unfolding is_token_invalidated
  check_blacklist-Ends w = elim (Bool-cases (str_eq token "")) [
    | inl t ↦ rw t tt
    | inr f ↦ rw f (
        >>=-Ends _ _ (λ b v. b ≡ is_some (get_key v.now (env.hash_token token) v.blacklist))
          (remote (gets λ v. exists_key v.now (env.hash_token token) v.blacklist)) _ w
          (remote-Ends _ _ (gets λ v. exists_key v.now (env.hash_token token) v.blacklist) w
            λ d ss. (refl, tt, tt))
          λ b v h. if_listed b v (get_key v.now (env.hash_token token) v.blacklist) refl h)
  ]
    where
      if_listed :
          (b : Bool) (v : World) (o : Option String)
          → get_key v.now (env.hash_token token) v.blacklist ≡ o
          → b ≡ is_some o
          → Ends
              (λ _ u. NotListed u)
              (λ _ _. Unit {0})
              ((if b then raise token_invalidated else pure tt) v)
      if_listed true v o e h = tt
      if_listed false v none e h = e
      if_listed false v (some x) e h = let impossible : false ≡ true = h in absurd cc

  read-Ends :
      (k : String) (w : World)
      → NotListed w
      → Ends
          (λ s v. NotListed v × (find_session k v ≡ some s))
          (λ _ _. Unit {0})
          (catch (get k) nil_is_gone w)
  unfolding get
  read-Ends k w h =
      settle-Ends _ _ (λ s v. NotListed v × (find_session k v ≡ some s)) (λ _ _. Unit {0}) (get k)
        pure nil_is_gone w
        (remote-Ends _ _ (λ v. or_nil (find_session k v) v) w
          λ d ss. (found (advance d ss w) (advance-NotListed d ss w h), tt, tt))
        (λ s v m. m)
        (λ er v _.
          elim (is_nil er)
            as (λ b.
              Ends (λ s v. NotListed v × (find_session k v ≡ some s)) (λ _ _. Unit {0})
                ((if b then raise session_not_found else raise er) v)) [ true ↦ tt | false ↦ tt ])
    where
      found :
          (v : World)
          → NotListed v
          → Ends
              (λ s u. NotListed u × (find_session k u ≡ some s))
              (λ _ _. Unit {0})
              (or_nil (find_session k v) v)
      found v m = elim (Option-cases (find_session k v)) [
        | inl n ↦ rw n tt
        | inr x ↦ rw x.1 (m, x.1)
      ]

  -- The claims that a token makes, checked.
  by_claims :
      (w : World) (p : ParsedToken) (c : Option String) (v : World)
      → env.parse w.now token ≡ some p
      → p.valid ≡ true
      → p.session_id ≡ c
      → NotListed v
      → Ends
          (λ _ u. Accepted w u)
          (λ _ _. Unit {0})
          ((claimed_session c >>= λ k. catch (get k) nil_is_gone >>= if_admitted) v)
  by_claims w p none v e valid claims h = tt
  by_claims w p (some k) v e valid claims h =
      >>=-Ends _ _ (λ s u. NotListed u × (find_session k u ≡ some s)) (catch (get k) nil_is_gone)
        if_admitted v (read-Ends k v h)
        λ s u m.
          Ends-mono _ _ (λ _ t. Admitted s t × (t ≡ u)) (λ _ _. Unit {0}) (if_admitted s u)
            (λ _ t a. (
              p,
              k,
              s,
              e,
              valid,
              claims,
              subst (λ z. NotListed z) (sym a.1) m.0,
              subst (λ z. find_session k z ≡ some s) (sym a.1) m.1,
              a.0.0,
              a.0.1,
              a.0.2,
            ))
            (λ _ _ x. tt) (if_admitted-Ends s u)

  by_parse :
      (w : World) (o : Option ParsedToken)
      → env.parse w.now token ≡ o
      → Ends (λ _ v. Accepted w v) (λ _ _. Unit {0}) (validate_parsed env token o w)
  by_parse w none e = tt
  by_parse w (some p) e = elim (Bool-cases p.valid) [
    | inr f ↦ rw f tt
    | inl t ↦ rw t (
        >>=-Ends _ _ (λ _ v. NotListed v) (check_blacklist env token) _ w (check_blacklist-Ends w)
          λ _ v h. by_claims w p p.session_id v e t refl h)
  ]

  -- A token is accepted only if it parses as valid, is not in the list of the invalidated, and belongs
  -- to a session that is then admitted, whose token was not invalidated and whose checkout has not
  -- ended.
  pub validate_checkout_token-Accepted :
      (w : World)
      → Ends (λ _ v. Accepted w v) (λ _ _. Unit {0}) (validate_checkout_token env token w)
  unfolding validate_checkout_token
  validate_checkout_token-Accepted w = elim (Bool-cases (str_eq token "")) [
    | inl t ↦ rw t tt
    | inr f ↦ rw f (by_parse w (env.parse w.now token) refl)
  ]
