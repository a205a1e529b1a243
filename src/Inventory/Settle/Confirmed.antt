-- ===== src/Inventory/Settle/Confirmed.antt =====
-- `Confirm` keeps the counters those of the reservations.
use ticket_event_pf.Prelude.{
  ℕ, ◌+◌, ◌≡◌, refl, sym, ap, ◌≢◌, subst, String, true, false, List, [], ◌∷◌, Option, none, some,
  arith, if◌then◌else◌, sum_of, sum_of-zero, All, In-where, All-where, All-sort, Unique-where,
  str_eq, Dict, get, keys, sorted_keys, due, due-sorted_keys,
}
use ticket_event_pf.Inventory.Model.{
  Reservation, ReservationStatus, Db, Error, db_failure, state_conflict, not_found, inventory_drift,
}
use ticket_event_pf.Inventory.Tx.{
  Session, Ends, pure, query, >>=-Ends, query-Ends, transaction-Ends, transaction-keeps, db_after,
  ◌>>=◌,
}
use ticket_event_pf.Inventory.Tables.{same_status}
use ticket_event_pf.Inventory.Settle.{
  ConfirmDelta, no_delta, confirm_deltas, confirm_classes, confirm_with, confirm_rows, confirm,
  mark, rows_of, set_status, all,
}
use ticket_event_pf.Inventory.Invariant.{Inv, row_id, held, held_by, HasClass}
use ticket_event_pf.Inventory.Invariant.Update.{Exists, Later, Later-refl, Later-ext}
use ticket_event_pf.Inventory.Invariant.Marked.{Selects, marked, held-marked, marked-Ends}
use ticket_event_pf.Inventory.Settle.ConfirmedClasses.{confirm_classes-Ends}
use ticket_event_pf.Inventory.Settle.ConfirmedRows.{
  IsSettleable, Collected, confirm_deltas-Collected,
}

-- Marked CONFIRMED, rows that are ACTIVE or EXPIRED hold as sold all that they held as either.
sum_of-sold :
    (c : ℕ) (rs : List Reservation)
    → All IsSettleable rs
    → sum_of
        (λ r. held_by ReservationStatus.confirmed c (set_status ReservationStatus.confirmed r))
        rs
      ≡ sum_of (held_by ReservationStatus.active c) rs
        + sum_of (held_by ReservationStatus.expired c) rs
sum_of-sold c [] h = refl
sum_of-sold c (r ∷ rs) h = ground (arith, sum_of-sold c rs h.1)

sum_of-unsold :
    (c : ℕ) (rs : List Reservation)
    → All IsSettleable rs
    → sum_of (held_by ReservationStatus.confirmed c) rs ≡ 0
sum_of-unsold c [] h = refl
sum_of-unsold c (r ∷ rs) h = ground (arith, sum_of-unsold c rs h.1)

module _ (code : String) (d : Db) (v : Inv d) (ds : Dict ConfirmDelta) (ids : List ℕ)
    (collected : Collected (Exists d.ticket_classes) (rows_of code d) [] ds [] ids) where
  abbrev sold_rows : List Reservation
  sold_rows = marked ids ReservationStatus.confirmed d.reservations

  abbrev reserved_due : ℕ → ℕ
  reserved_due c = due (λ k. (get no_delta ds k).from_reserved) c (sorted_keys ds)

  abbrev free_due : ℕ → ℕ
  free_due c = due (λ k. (get no_delta ds k).from_free) c (sorted_keys ds)

  selects : Selects d.reservations (rows_of code d)
  selects = (
    Unique-where row_id (λ r. str_eq r.order_code code) d.reservations v.unique_rows,
    In-where (λ r. str_eq r.order_code code) d.reservations,
  )

  balance :
      (s : ReservationStatus) (c : ℕ)
      → held s sold_rows c + sum_of (held_by s c) (rows_of code d)
        ≡ held s d.reservations c
          + sum_of (λ r. held_by s c (set_status ReservationStatus.confirmed r)) (rows_of code d)
  balance s c = rw collected.ids_of (
      held-marked s ReservationStatus.confirmed c d.reservations (rows_of code d) v.unique_rows
        selects)

  all_due :
      (c : ℕ)
      → (reserved_due c ≡ sum_of (held_by ReservationStatus.active c) (rows_of code d))
        × (free_due c ≡ sum_of (held_by ReservationStatus.expired c) (rows_of code d))
  all_due c = (
    omega (
      arith,
      due-sorted_keys no_delta (λ e. e.from_reserved) c ds (collected.map_kept tt) refl,
      collected.reserved c,
    ),
    omega (
      arith,
      due-sorted_keys no_delta (λ e. e.from_free) c ds (collected.map_kept tt) refl,
      collected.free c,
    ),
  )

  reserved_balance :
      (c : ℕ)
      → held ReservationStatus.active d.reservations c
        ≡ held ReservationStatus.active sold_rows c + reserved_due c
  reserved_balance c = omega (
    arith,
    balance ReservationStatus.active c,
    all_due c,
    sum_of-zero (λ r. held_by ReservationStatus.active c (set_status ReservationStatus.confirmed r))
        (rows_of code d) (λ r. ground arith),
  )

  sold_balance :
      (c : ℕ)
      → held ReservationStatus.confirmed d.reservations c + reserved_due c + free_due c
        ≡ held ReservationStatus.confirmed sold_rows c
  sold_balance c = omega (
    arith,
    balance ReservationStatus.confirmed c,
    all_due c,
    sum_of-sold c (rows_of code d) collected.settleable,
    sum_of-unsold c (rows_of code d) collected.settleable,
  )

  All-exist : All (Exists d.ticket_classes) (sorted_keys ds)
  All-exist = All-sort (Exists d.ticket_classes) (λ k. k) (keys ds) (collected.keys_kept tt)

  -- What the counters stand at, before the loop over the classes.
  abbrev stage : ℕ → ℕ
  stage c = held ReservationStatus.active sold_rows c + reserved_due c

  start : Later d stage (held ReservationStatus.confirmed d.reservations) d
  start =
      Later-ext d (held ReservationStatus.active d.reservations) stage
        (held ReservationStatus.confirmed d.reservations)
        (held ReservationStatus.confirmed d.reservations) d reserved_balance (λ c. refl)
        (Later-refl _ _ d v)

  confirm_collected-Ends :
      (E : Error → Type 0)
      → E db_failure
      → E state_conflict
      → (t : Session) → t.db ≡ d
      → Ends (λ _ d. Inv d) E (confirm_with (some (ds, ids)) t)
  unfolding confirm_with
  confirm_collected-Ends E fails conflict t e =
      >>=-Ends (λ _ d. Inv d) E
        (λ _ d'.
          Later d (held ReservationStatus.active sold_rows)
            (held ReservationStatus.confirmed sold_rows) d')
        (confirm_classes ds (sorted_keys ds)) (λ _. mark ids ReservationStatus.confirmed) t
        (confirm_classes-Ends E fails d (held ReservationStatus.active sold_rows)
          (held ReservationStatus.confirmed sold_rows) ds (sorted_keys ds)
          (held ReservationStatus.confirmed d.reservations) t conflict All-exist sold_balance
          (subst (Later d stage (held ReservationStatus.confirmed d.reservations)) (sym e) start))
        (λ _ u h. marked-Ends E d ids ReservationStatus.confirmed u fails h)

module _ (E : Error → Type 0) (fails : E db_failure) (conflict : E state_conflict)
    (missing : E not_found) (code : String) where
  confirm_with-Ends :
      (t : Session) (r : Option (Dict ConfirmDelta × List ℕ))
      → confirm_deltas (rows_of code t.db) [] [] ≡ r
      → Inv t.db
      → Ends (λ _ d. Inv d) E (confirm_with r t)
  confirm_with-Ends t none e v = unfold confirm_with in conflict
  confirm_with-Ends t (some (ds, ids)) e v =
      confirm_collected-Ends code t.db v ds ids
        (confirm_deltas-Collected (Exists t.db.ticket_classes) (rows_of code t.db) [] ds [] ids
          (All-where (HasClass t.db.ticket_classes) _ t.db.reservations v.owned) e)
        E fails conflict t refl

  confirm_rows-Ends :
      (t : Session) (rs : List Reservation)
      → rs ≡ rows_of code t.db
      → Inv t.db
      → Ends (λ _ d. Inv d) E (confirm_rows rs t)
  unfolding confirm_rows
  confirm_rows-Ends t [] e v = missing
  confirm_rows-Ends t (r ∷ rs) e v =
      elim (all (λ x. same_status x.status ReservationStatus.confirmed) (r ∷ rs))
        as (λ b.
          Ends (λ _ d. Inv d) E
            ((if b then pure tt else confirm_with (confirm_deltas (r ∷ rs) [] [])) t)) [
              | true ↦ v
              | false ↦ confirm_with-Ends t _ (ap (λ x. confirm_deltas x [] []) (sym e)) v
            ]

  confirm_body-Ends :
      (t : Session) → Inv t.db → Ends (λ _ d. Inv d) E ((query (rows_of code) >>= confirm_rows) t)
  confirm_body-Ends t v =
      >>=-Ends (λ _ d. Inv d) E (λ rs d. (rs ≡ rows_of code d) × Inv d) (query (rows_of code))
        confirm_rows t
        (query-Ends (λ rs d. (rs ≡ rows_of code d) × Inv d) E (rows_of code) t fails (refl, v))
        (λ rs u h. confirm_rows-Ends u rs h.0 h.1)

-- The errors that a confirm or a release of a valid database may end with.
abbrev pub NoDrift : Error → Type 0
NoDrift e = e ≢ inventory_drift

-- `Confirm` keeps the invariant, whichever of its statements fail and however it ends.
pub confirm-Inv : (code : String) (t : Session) → Inv t.db → Inv (db_after (confirm code t))
unfolding confirm
confirm-Inv code t v =
    transaction-keeps Inv (query (rows_of code) >>= confirm_rows) t v
      (confirm_body-Ends (λ _. Unit) tt tt tt code t v)

-- On a database that satisfies the invariant, `Confirm` does not report drift, and where it succeeds the
-- database satisfies the invariant again.
pub confirm-NoDrift :
    (code : String) (t : Session) → Inv t.db → Ends (λ _ d. Inv d) NoDrift (confirm code t)
unfolding confirm
confirm-NoDrift code t v =
    transaction-Ends (λ _ d. Inv d) NoDrift (query (rows_of code) >>= confirm_rows) t (λ e. cc)
      (confirm_body-Ends NoDrift (λ e. cc) (λ e. cc) (λ e. cc) code t v)
