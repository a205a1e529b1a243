-- ===== src/Inventory/Delivery/Answered.antt =====
-- What an answer to the `Reserve` of internal/delivery/grpc says of the tables.
use ticket_event_pf.Prelude.{
  ℕ, ◌≤◌, ◌≡◌, refl, sym, ap, ◌∙◌, subst, String, Bool, true, false, not, Option, none, some, List,
  [], ◌∷◌, arith, if◌then◌else◌, All,
}
use ticket_event_pf.Prelude.Int.{ℤ, pos, negsuc, pos_part, ltb_ℤ}
use ticket_event_pf.Inventory.Model.{
  ReserveItem, ReserveInput, Error, state_conflict, insufficient_stock, not_found, inventory_drift,
  sale_closed, record_not_found, db_failure,
}
use ticket_event_pf.Inventory.Tx.{
  Session, Result, ok, err, IsErr, db_after, transaction_atomic, query, ◌>>=◌ as then_tx,
}
use ticket_event_pf.Inventory.Reserve.{reserve, reserve_new, statuses_of}
use ticket_event_pf.Inventory.Delivery.{
  Code, invalid_argument, Reply, answer, refuse, RequestItem, ReserveRequest, map_error,
  validate_item, validate_items, validate_reserve_request, reply_of, refuse_with, serve_read,
  read_items, reserve_item, new_reserve_input, reserve_rpc, internal, ◌>>=◌,
}

abbrev pub is_invalid_argument : Code → Bool
is_invalid_argument invalid_argument = true
is_invalid_argument _ = false

abbrev pub AllPositive : List ReserveItem → Type 0
AllPositive = All λ it. 1 ≤ it.qty

abbrev OnSome : {A : Type 0} → (A → Type 0) → Option A → Type 0
OnSome P none = Unit
OnSome P (some a) = P a

bind-OnSome :
    {A B : Type 0} (Q : A → Type 0) (P : B → Type 0) (o : Option A) (f : A → Option B)
    → OnSome Q o
    → ((a : A) → Q a → OnSome P (f a))
    → OnSome P (o >>= f)
bind-OnSome Q P none f h k = tt
bind-OnSome Q P (some a) f h k = k a h

OnSome-any : {A : Type 0} (o : Option A) → OnSome (λ _. Unit {0}) o
OnSome-any none = tt
OnSome-any (some a) = tt

map_error-is_invalid_argument : (e : Error) → is_invalid_argument (map_error e) ≡ false
unfolding map_error
map_error-is_invalid_argument not_found = refl
map_error-is_invalid_argument record_not_found = refl
map_error-is_invalid_argument insufficient_stock = refl
map_error-is_invalid_argument sale_closed = refl
map_error-is_invalid_argument state_conflict = refl
map_error-is_invalid_argument inventory_drift = refl
map_error-is_invalid_argument db_failure = refl

quantity-positive : (q : ℤ) → ltb_ℤ (pos 0) q ≡ true → 1 ≤ pos_part q
quantity-positive (pos n) h = ground arith
quantity-positive (negsuc n) h = ground arith

validate_item-positive : (it : RequestItem) → validate_item it ≡ true → 1 ≤ pos_part it.quantity
unfolding validate_item
validate_item-positive it h = quantity-positive it.quantity (ground arith)

reserve_atomic :
    (now : ℕ) (i : ReserveInput) (s : Session)
    → IsErr (reserve now i s)
    → db_after (reserve now i s) ≡ s.db
unfolding reserve
reserve_atomic now i s h =
    transaction_atomic (then_tx (query (statuses_of i.order_code)) (reserve_new now i)) s h

module _ (parse_id parse_time : String → Option ℕ) where
  read_items-AllPositive :
      (its : List RequestItem)
      → validate_items its ≡ true
      → OnSome AllPositive (read_items parse_id reserve_item its)
  unfolding validate_items
  read_items-AllPositive [] h = tt
  read_items-AllPositive (it ∷ its) h =
      bind-OnSome (λ _. Unit {0}) AllPositive (parse_id it.ticket_class_id) _
        (OnSome-any (parse_id it.ticket_class_id))
        λ id _.
          bind-OnSome AllPositive AllPositive (read_items parse_id reserve_item its) _
            (read_items-AllPositive its (ground arith))
            (λ xs k. (validate_item-positive it (ground arith), k))

  -- The input that a request is read into.
  new_reserve_input-AllPositive :
      (r : ReserveRequest)
      → validate_reserve_request r ≡ true
      → OnSome (λ i. AllPositive i.items) (new_reserve_input parse_id parse_time r)
  unfolding new_reserve_input validate_reserve_request
  new_reserve_input-AllPositive r h =
      bind-OnSome (λ _. Unit {0}) (λ i. AllPositive i.items) (parse_time r.expires_at) _
        (OnSome-any (parse_time r.expires_at))
        λ exp_at _.
          bind-OnSome AllPositive (λ i. AllPositive i.items)
            (read_items parse_id reserve_item r.items) _
            (read_items-AllPositive r.items (ground arith)) (λ its k. k)

  -- What an answer and a refusal say, of the request and of the sessions before and after.
  unfoldable pub Answers : ℕ → ReserveRequest → Session → Reply (Unit {0}) × Session → Type 0
  Answers now r s (answer a, t) =
      (i : ReserveInput) × (new_reserve_input parse_id parse_time r ≡ some i)
      × AllPositive i.items
      × (reserve now i s ≡ (ok tt, t))
  Answers now r s (refuse c, t) =
      (is_invalid_argument c ≡ not (validate_reserve_request r)) × (t.db ≡ s.db)

  -- An answer of the service, to the input `i` of the request `r`.
  run_service :
      (now : ℕ) (r : ReserveRequest) (s : Session) (i : ReserveInput)
      → validate_reserve_request r ≡ true
      → new_reserve_input parse_id parse_time r ≡ some i
      → AllPositive i.items
      → Answers now r s (reply_of (reserve now i s))
  unfolding Answers
  run_service now r s i v e k = run (reserve now i s) refl
    where
      run : (a : Result (Unit {0}) × Session) → reserve now i s ≡ a → Answers now r s (reply_of a)
      run (ok tt, t) h = (i, e, k, h)
      run (err x, t) h = (
        map_error-is_invalid_argument x ∙ sym (ap not v),
        subst (λ a. IsErr a → db_after a ≡ s.db) h (reserve_atomic now i s) tt,
      )

  by_validation :
      (now : ℕ) (r : ReserveRequest) (s : Session) (b : Bool) (o : Option ReserveInput)
      → validate_reserve_request r ≡ b
      → new_reserve_input parse_id parse_time r ≡ o
      → (b ≡ true → OnSome (λ i. AllPositive i.items) o)
      → Answers now r s
          ((if not b then refuse_with invalid_argument else serve_read internal (reserve now) o) s)
  unfolding Answers
  by_validation now r s false o v e k = (sym (ap not v), refl)
  by_validation now r s true none v e k = (sym (ap not v), refl)
  by_validation now r s true (some i) v e k = run_service now r s i v e (k refl)

  -- A `Reserve` that is answered has reserved the input that the request reads into, each item of it for
  -- one ticket at least. One that is refused leaves the tables as they are, under any failures, and the
  -- code is InvalidArgument exactly if the request is not valid.
  pub reserve_rpc-Answers :
      (now : ℕ) (r : ReserveRequest) (s : Session)
      → Answers now r s (reserve_rpc parse_id parse_time now r s)
  unfolding reserve_rpc validate_reserve_request new_reserve_input
  reserve_rpc-Answers now r s =
      by_validation now r s (validate_reserve_request r) (new_reserve_input parse_id parse_time r)
        refl refl (new_reserve_input-AllPositive r)
