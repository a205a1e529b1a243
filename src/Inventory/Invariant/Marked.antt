-- ===== src/Inventory/Invariant/Marked.antt =====
-- What marking a selection of reservations does to the tickets held, and to the invariant.
use ticket_event_pf.Prelude.{
  ℕ, ◌+◌, ◌<◌, ◌≡◌, refl, sym, ap, subst, Bool, true, List, [], ◌∷◌, arith, ◌==◌, mem, any, sum_of,
  All, In, Unique, keys_of, sum_of-if_mem, rows_where, Unique-where, All-where, In-where,
}
use ticket_event_pf.Inventory.Model.{
  TicketClass, Reservation, ReservationStatus, Db, Error, db_failure,
}
use ticket_event_pf.Inventory.Tx.{
  Session, Ends, write-Ends, update_where, update_where-All, update_where-Unique,
  sum_of-update_where,
}
use ticket_event_pf.Inventory.Tables.{set_reservations}
use ticket_event_pf.Inventory.Settle.{mark, set_status}
use ticket_event_pf.Inventory.Invariant.Update.{Later}
use ticket_event_pf.Inventory.Invariant.{Inv, Pending, row_id, HasClass, held, held_by}

-- `sel` is a selection of the rows `rs`, each at most once.
abbrev pub Selects : List Reservation → List Reservation → Type 0
Selects rs sel = Unique row_id sel × All (λ r. In r rs) sel

abbrev pub marked : List ℕ → ReservationStatus → List Reservation → List Reservation
marked ids st = update_where (λ r. mem r.id ids) (set_status st)

-- Marking a selection takes out what its rows held and puts in what they hold at the new status.
pub held-marked :
    (s st : ReservationStatus) (c : ℕ) (rs sel : List Reservation)
    → Unique row_id rs
    → Selects rs sel
    → held s (marked (keys_of row_id sel) st rs) c + sum_of (held_by s c) sel
      ≡ held s rs c + sum_of (λ r. held_by s c (set_status st r)) sel
unfolding held
held-marked s st c rs sel u (us, h) = omega (
  arith,
  sum_of-update_where (held_by s c) (λ r. mem r.id (keys_of row_id sel)) (set_status st) rs,
  sum_of-if_mem row_id (held_by s c) sel rs us u h,
  sum_of-if_mem row_id (λ r. held_by s c (set_status st r)) sel rs us u h,
)

marked-HasClass :
    (tcs : List TicketClass) (ids : List ℕ) (st : ReservationStatus) (rs : List Reservation)
    → All (HasClass tcs) rs
    → All (HasClass tcs) (marked ids st rs)
marked-HasClass tcs ids st =
    update_where-All (λ r. r.ticket_class_id) (λ r. mem r.id ids) (set_status st) (λ r. refl)
      (λ k. any (λ tc. tc.id == k) tcs ≡ true)

-- Marking a selection ends in a valid database if the counters already allow for it.
pub mark-Inv :
    (E : Error → Type 0) (ids : List ℕ) (st : ReservationStatus) (t : Session)
    → E db_failure
    → Pending
        (held ReservationStatus.active (marked ids st t.db.reservations))
        (held ReservationStatus.confirmed (marked ids st t.db.reservations))
        t.db
    → Ends (λ _ d. Inv d) E (mark ids st t)
mark-Inv E ids st t e h =
    write-Ends (λ _ d. Inv d) E (λ _. tt) (λ d. set_reservations (marked ids st d.reservations) d) t
      e
      (record {
        books = h.books;
        unique_classes = h.unique_classes;
        unique_rows =
            update_where-Unique row_id (λ r. mem r.id ids) (set_status st) (λ r. refl)
              t.db.reservations h.unique_rows;
        class_ids = h.class_ids;
        row_ids =
            update_where-All row_id (λ r. mem r.id ids) (set_status st) (λ r. refl)
              (λ k. k < t.db.next_reservation_id) t.db.reservations h.row_ids;
        owned = marked-HasClass t.db.ticket_classes ids st t.db.reservations h.owned;
      })

-- The last step of a settling transaction that began at `d₀`.
pub marked-Ends :
    (E : Error → Type 0) (d₀ : Db) (ids : List ℕ) (st : ReservationStatus) (t : Session)
    → E db_failure
    → Later d₀
        (held ReservationStatus.active (marked ids st d₀.reservations))
        (held ReservationStatus.confirmed (marked ids st d₀.reservations))
        t.db
    → Ends (λ _ d. Inv d) E (mark ids st t)
marked-Ends E d₀ ids st t e (h, same, x) = mark-Inv E ids st t e (
    subst
      (λ rs.
        Pending (held ReservationStatus.active (marked ids st rs))
          (held ReservationStatus.confirmed (marked ids st rs)) t.db)
      (sym same) h)

pub marked-nil : (st : ReservationStatus) (rs : List Reservation) → marked [] st rs ≡ rs
marked-nil st [] = refl
marked-nil st (r ∷ rs) = ap (◌∷◌ r) (marked-nil st rs)

-- Rows of the table that pass a first test, picked by a second one.
pub Selects-where :
    (p q : Reservation → Bool) (rs : List Reservation)
    → Unique row_id rs
    → Selects rs (rows_where q (rows_where p rs))
Selects-where p q rs u = (
  Unique-where row_id q (rows_where p rs) (Unique-where row_id p rs u),
  All-where (λ r. In r rs) q (rows_where p rs) (In-where p rs),
)
