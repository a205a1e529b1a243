-- ===== src/Inventory/Reserve/Held.antt =====
-- `Reserve` adds to each class what the order asks of it, to the counter and to the rows alike.
use ticket_event_pf.Prelude.{
  ℕ, ◌+◌, ◌≡◌, refl, sym, ap, ◌∙◌, subst, true, ◌⊎◌, inl, inr, List, [], ◌∷◌, Option, none, some,
  arith, Bool-cases, any, sum_of-append, All,
}
use ticket_event_pf.Inventory.Model.{
  Reservation, ReservationStatus, Db, ReserveInput, Error, state_conflict,
}
use ticket_event_pf.Inventory.Tx.{
  Session, Ends, query, statement, >>=-Ends, query-Ends, statement-Ends, transaction-Ends,
  transaction-keeps, Ends-mono, db_after, ◌>>=◌,
}
use ticket_event_pf.Inventory.Reserve.{
  aggregate_demand, reserve_classes, refuses, add_reservation, insert_rows, insert_reservations,
  is_live, statuses_of, reserve_new, reserve,
}
use ticket_event_pf.Inventory.Reserve.Demanded.{demand, due-aggregate_demand}
use ticket_event_pf.Inventory.Reserve.Counted.{
  ReserveError, IsNew, pending, ahead, Reserving, db_fails, reserve_classes-Ends, row_added,
}
use ticket_event_pf.Inventory.Invariant.{Inv, Pending, Pending-ext, held, held_by}
use ticket_event_pf.Inventory.Invariant.Update.{Later-refl, Later-ext}

abbrev active_of : Db → ℕ → ℕ
active_of d = held ReservationStatus.active d.reservations

abbrev sold_of : Db → ℕ → ℕ
sold_of d = held ReservationStatus.confirmed d.reservations

held-added :
    (r : Reservation) (d : Db) (c : ℕ)
    → IsNew r
    → (active_of (add_reservation r d) c ≡ active_of d c + held_by ReservationStatus.active c r)
      × (sold_of (add_reservation r d) c ≡ sold_of d c)
unfolding held
held-added r d c n = (
  ground (
    arith,
    sum_of-append (held_by ReservationStatus.active c) d.reservations
        (record r { id = d.next_reservation_id } ∷ []),
  ),
  ground (
    arith,
    sum_of-append (held_by ReservationStatus.confirmed c) d.reservations
        (record r { id = d.next_reservation_id } ∷ []),
  ),
)

-- The table has caught up: the database is valid and the classes hold `rs` more.
abbrev Caught : List Reservation → Db → Db → Type 0
Caught rs d d' =
    Inv d'
    × ((c : ℕ) → active_of d' c ≡ active_of d c + pending rs c)
    × ((c : ℕ) → sold_of d' c ≡ sold_of d c)

abbrev Ahead : List Reservation → Db → Type 0
Ahead rs d = Pending (λ c. active_of d c + pending rs c) (sold_of d) d

insert_rows-Caught :
    (rs : List Reservation) (d d' : Db)
    → All IsNew rs
    → Ahead rs d
    → insert_rows rs d ≡ some (tt, d')
    → Caught rs d d'
unfolding insert_rows
insert_rows-Caught [] d d' n h e = subst (Caught [] d) (ap (λ x. last d x) e) (
  Pending-ext (λ c. active_of d c + 0) (active_of d) (sold_of d) (sold_of d) d (λ c. omega arith)
      (λ c. refl) h,
  (λ c. omega arith),
  λ c. refl,
)
  where
    last : Db → Option (Unit {0} × Db) → Db
    last x none = x
    last x (some (u, y)) = y
insert_rows-Caught (r ∷ rs) d d' n h e = elim (Bool-cases (refuses d r)) [
  | inl z ↦ let impossible : ◌≡◌ {A = Option (Unit {0} × Db)} none (some (tt, d')) = rw z at e in cc
  | inr z ↦
      let a : ℕ → ℕ = λ c. active_of d c + pending (r ∷ rs) c in
      let next = add_reservation r d in
      let start : Ahead rs next =
        Pending-ext a (λ c. active_of next c + pending rs c) (sold_of d) (sold_of next) next
          (λ c. omega (arith, held-added r d c n.0)) (λ c. omega (arith, held-added r d c n.0))
          (row_added a (sold_of d) r d z h) in
      let (v, held_more, sold_same) = insert_rows-Caught rs next d' n.1 start (rw z at e) in
      (
        v,
        (λ c. omega (arith, held_more c, held-added r d c n.0)),
        (λ c. omega (arith, sold_same c, held-added r d c n.0)),
      )
]

-- What a reserve that succeeds has done: nothing, where the order already holds a live row;
-- otherwise, where it has none at all, it holds of each class just what the items ask.
abbrev pub Reserves : ReserveInput → Db → Db → Type 0
Reserves i d d' =
    ((any is_live (statuses_of i.order_code d) ≡ true) × (d' ≡ d))
    ⊎ ((statuses_of i.order_code d ≡ [])
        × ((c : ℕ) → active_of d' c ≡ active_of d c + demand i.items c)
        × ((c : ℕ) → sold_of d' c ≡ sold_of d c))

module _ (E : Error → Type 0) (fails : (e : Error) → ReserveError e → E e) (now : ℕ)
    (i : ReserveInput) where
  insert_reservations-Ends :
      (d₀ : Db) (rs : List Reservation) (t : Session)
      → Reserving E fails d₀
          (active_of d₀)
          (sold_of d₀)
          now
          i
          (aggregate_demand i.items).1
          (aggregate_demand i.items).0
          []
          rs
          t.db
      → statuses_of i.order_code d₀ ≡ []
      → Ends (λ _ d. Inv d × Reserves i d₀ d) E (statement (insert_reservations rs) t)
  unfolding insert_reservations
  insert_reservations-Ends d₀ [] t h new =
      statement-Ends (λ _ d. Inv d × Reserves i d₀ d) E (insert_reservations []) t
        (db_fails E fails) (λ u d e. cc)
  insert_reservations-Ends d₀ (r ∷ rs) t (news, asked, later) new =
      statement-Ends (λ _ d. Inv d × Reserves i d₀ d) E (insert_reservations (r ∷ rs)) t
        (db_fails E fails)
        (λ u d e.
          let same : (s : ReservationStatus) (c : ℕ)
              → held s t.db.reservations c ≡ held s d₀.reservations c =
            λ s c. ap (λ rows. held s rows c) later.1 in
          let start : Ahead (r ∷ rs) t.db =
            Pending-ext (λ c. active_of d₀ c + pending (r ∷ rs) c)
              (λ c. active_of t.db c + pending (r ∷ rs) c) (sold_of d₀) (sold_of t.db) t.db
              (λ c. omega (arith, same ReservationStatus.active c))
              (λ c. sym (same ReservationStatus.confirmed c)) later.0 in
          let (v, more, sold_same) = insert_rows-Caught (r ∷ rs) t.db d news start e in
          (
            v,
            inr (
              new,
              (λ c. omega (
                arith,
                more c,
                same ReservationStatus.active c,
                asked c,
                due-aggregate_demand i.items c,
              )),
              λ c. sold_same c ∙ same ReservationStatus.confirmed c,
            ),
          ))

  reserve_new-Ends :
      (t : Session)
      → Inv t.db
      → Ends
          (λ _ d. Inv d × Reserves i t.db d)
          E
          (reserve_new now i (statuses_of i.order_code t.db) t)
  unfolding reserve_new
  reserve_new-Ends t v = by_statuses (statuses_of i.order_code t.db) refl
    where
      by_statuses :
          (ss : List ReservationStatus)
          → ss ≡ statuses_of i.order_code t.db
          → Ends (λ _ d. Inv d × Reserves i t.db d) E (reserve_new now i ss t)
      by_statuses [] e =
          let (ids, m) = aggregate_demand i.items in
          let a = active_of t.db in
          let s = sold_of t.db in
          >>=-Ends (λ _ d. Inv d × Reserves i t.db d) E (Reserving E fails t.db a s now i m ids [])
            (reserve_classes now i m ids []) (λ rs. statement (insert_reservations rs)) t
            (reserve_classes-Ends E fails t.db a s now i m ids [] t tt (
              Later-ext t.db a (ahead E fails t.db a s now i m []) s s t.db (λ c. omega arith)
                (λ c. refl) (Later-refl a s t.db v)))
            (λ rs u h. insert_reservations-Ends t.db rs u h (sym e))
      by_statuses (s ∷ ss) e = elim (Bool-cases (any is_live (s ∷ ss))) [
        | inl z ↦ rw z (v, inl (ap (any is_live) (sym e) ∙ z, refl))
        | inr z ↦ rw z (fails state_conflict ((λ x. cc), λ x. cc))
      ]

  reserve_body-Ends :
      (t : Session)
      → Inv t.db
      → Ends
          (λ _ d. Inv d × Reserves i t.db d)
          E
          ((query (statuses_of i.order_code) >>= reserve_new now i) t)
  reserve_body-Ends t v =
      let Q : List ReservationStatus → Db → Type 0 =
        λ ss d. (ss ≡ statuses_of i.order_code t.db) × (d ≡ t.db) in
      >>=-Ends (λ _ d. Inv d × Reserves i t.db d) E Q (query (statuses_of i.order_code))
        (reserve_new now i) t
        (query-Ends Q E (statuses_of i.order_code) t (db_fails E fails) (refl, refl))
        (λ ss u h. read ss u h)
    where
      read :
          (ss : List ReservationStatus) (u : Session)
          → (ss ≡ statuses_of i.order_code t.db) × (u.db ≡ t.db)
          → Ends (λ _ d. Inv d × Reserves i t.db d) E (reserve_new now i ss u)
      read ss u (e, same) =
          let body = reserve_new-Ends u (subst Inv (sym same) v) in
          let e' = e ∙ ap (statuses_of i.order_code) (sym same) in
          subst (λ d₀. Ends (λ _ d. Inv d × Reserves i d₀ d) E (reserve_new now i ss u)) same
            (subst (λ x. Ends (λ _ d. Inv d × Reserves i u.db d) E (reserve_new now i x u)) (sym e')
              body)

-- A reserve keeps the invariant, whichever of its statements fail and however it ends.
pub reserve-Inv :
    (now : ℕ) (i : ReserveInput) (t : Session) → Inv t.db → Inv (db_after (reserve now i t))
unfolding reserve
reserve-Inv now i t v =
    transaction-keeps Inv (query (statuses_of i.order_code) >>= reserve_new now i) t v (
      Ends-mono (λ _ d. Inv d × Reserves i t.db d) (λ _ d. Inv d) (λ _. Unit) _ (λ _ d h. h.0)
        (reserve_body-Ends (λ _. Unit) (λ e h. tt) now i t v))

-- On a database that satisfies the invariant, a reserve that succeeds either finds a live row of
-- its order and changes nothing, or finds no row of the order at all and then holds as ACTIVE, of
-- every class, just what the items ask for more than before, and as CONFIRMED just as much as
-- before. One that fails reports neither counter drift nor a bare missing record.
pub reserve-Reserves :
    (now : ℕ) (i : ReserveInput) (t : Session)
    → Inv t.db
    → Ends (λ _ d. Reserves i t.db d) ReserveError (reserve now i t)
unfolding reserve
reserve-Reserves now i t v =
    transaction-Ends (λ _ d. Reserves i t.db d) ReserveError
      (query (statuses_of i.order_code) >>= reserve_new now i) t (db_fails ReserveError (λ e h. h))
      (Ends-mono (λ _ d. Inv d × Reserves i t.db d) (λ _ d. Reserves i t.db d) ReserveError _
        (λ _ d h. h.1) (reserve_body-Ends ReserveError (λ e h. h) now i t v))
