-- ===== src/Inventory/TicketClasses/Deleted.antt =====
-- `Delete` of a ticket class removes rows that hold nothing, and no reservation that holds a ticket.
use mathlib.Core.Option.{some-injective}
use ticket_event_pf.Prelude.{
  ℕ, ◌<◌, ◌≡◌, refl, sym, ap, ◌∙◌, subst, Bool, true, false, not, Option, none, some, List, [], ◌∷◌,
  arith, ltb, ◌==◌, if◌then◌else◌, Bool-cases, inl, inr, any, sum_of-where, All, All-where,
  Unique-where, rows_where,
}
use ticket_event_pf.Inventory.Model.{
  TicketClass, Reservation, ReservationStatus, Db, state_conflict,
}
use ticket_event_pf.Inventory.Tx.{
  Session, Ends, pure, raise, query, >>=-Ends, statement-Ends, query-Ends, write-Ends, ◌>>=◌, ◌>>◌,
  count_where, transaction-keeps, db_after,
}
use ticket_event_pf.Inventory.Tables.{set_classes, set_reservations}
use ticket_event_pf.Inventory.Invariant.{
  Inv, Counts, class_id, row_id, HasClass, held, held_by, Pending-ext,
}
use ticket_event_pf.Inventory.TicketClasses.{
  is_live_of, is_terminal_of, delete_terminal_reservations, remove_class, delete_class, delete_row,
  delete, first, first_or,
}
use ticket_event_pf.Inventory.TicketClasses.Updated.{first_or-Ends}

-- The database is valid and holds of each class what `d₀` holds.
abbrev pub Keeps : Db → Db → Type 0
Keeps d₀ d =
    Inv d
    × ((c : ℕ)
        → held ReservationStatus.active d.reservations c
          ≡ held ReservationStatus.active d₀.reservations c)
    × ((c : ℕ)
        → held ReservationStatus.confirmed d.reservations c
          ≡ held ReservationStatus.confirmed d₀.reservations c)

abbrev kept_row : ℕ → Reservation → Bool
kept_row id r = not (is_terminal_of id r)

held-kept_active :
    (id c : ℕ) (rs : List Reservation)
    → held ReservationStatus.active (rows_where (kept_row id) rs) c
      ≡ held ReservationStatus.active rs c
unfolding held
held-kept_active id c rs =
    sum_of-where (held_by ReservationStatus.active c) (kept_row id) rs (λ r e. ground arith)

held-kept_confirmed :
    (id c : ℕ) (rs : List Reservation)
    → held ReservationStatus.confirmed (rows_where (kept_row id) rs) c
      ≡ held ReservationStatus.confirmed rs c
unfolding held
held-kept_confirmed id c rs =
    sum_of-where (held_by ReservationStatus.confirmed c) (kept_row id) rs (λ r e. ground arith)

cleaned-Keeps :
    (d₀ d : Db) (id : ℕ)
    → Keeps d₀ d
    → Keeps d₀ (set_reservations (rows_where (kept_row id) d.reservations) d)
cleaned-Keeps d₀ d id (v, ha, hs) =
    let p = kept_row id in
    let rows = rows_where p d.reservations in
    let w =
      Pending-ext (held ReservationStatus.active d.reservations)
        (held ReservationStatus.active rows) (held ReservationStatus.confirmed d.reservations)
        (held ReservationStatus.confirmed rows) d (λ c. sym (held-kept_active id c d.reservations))
        (λ c. sym (held-kept_confirmed id c d.reservations)) v in
    (
      record {
        books = w.books;
        unique_classes = w.unique_classes;
        unique_rows = Unique-where row_id p d.reservations w.unique_rows;
        class_ids = w.class_ids;
        row_ids =
            All-where (λ (r : Reservation). r.id < d.next_reservation_id) p d.reservations
              w.row_ids;
        owned = All-where (HasClass d.ticket_classes) p d.reservations w.owned;
      },
      (λ c. held-kept_active id c d.reservations ∙ ha c),
      λ c. held-kept_confirmed id c d.reservations ∙ hs c,
    )

any-other :
    (id k : ℕ) (tcs : List TicketClass)
    → (k == id) ≡ false
    → any (λ tc. tc.id == k) tcs ≡ true
    → any (λ tc. tc.id == k) (rows_where (λ (tc : TicketClass). not (tc.id == id)) tcs) ≡ true
any-other id k [] n h = cc
any-other id k (tc ∷ tcs) n h = elim (Bool-cases (tc.id == id)) [
  | inl z ↦ ground (arith, any-other id k tcs n)
  | inr z ↦ ground (arith, any-other id k tcs n)
]

still_owned :
    (id : ℕ) (tcs : List TicketClass) (rs : List Reservation)
    → any (λ r. r.ticket_class_id == id) rs ≡ false
    → All (HasClass tcs) rs
    → All (HasClass (rows_where (λ tc. not (tc.id == id)) tcs)) rs
still_owned id tcs [] n h = tt
still_owned id tcs (r ∷ rs) n h = (
  any-other id r.ticket_class_id tcs (ground arith) h.0,
  still_owned id tcs rs (ground arith) h.1,
)

removed-Keeps :
    (d₀ d : Db) (id : ℕ)
    → any (λ r. r.ticket_class_id == id) d.reservations ≡ false
    → Keeps d₀ d
    → Keeps d₀ (set_classes (rows_where (λ tc. not (tc.id == id)) d.ticket_classes) d)
removed-Keeps d₀ d id n (v, ha, hs) =
    let p : TicketClass → Bool = λ tc. not (tc.id == id) in
    (
      record {
        books =
            All-where
              (Counts (held ReservationStatus.active d.reservations)
                (held ReservationStatus.confirmed d.reservations))
              p d.ticket_classes v.books;
        unique_classes = Unique-where class_id p d.ticket_classes v.unique_classes;
        unique_rows = v.unique_rows;
        class_ids =
            All-where (λ (tc : TicketClass). tc.id < d.next_class_id) p d.ticket_classes
              v.class_ids;
        row_ids = v.row_ids;
        owned = still_owned id d.ticket_classes d.reservations n v.owned;
      },
      ha,
      hs,
    )

module _ (d₀ : Db) (id : ℕ) where
  delete_class-Ends :
      (t : Session) → Keeps d₀ t.db → Ends (λ _ d. Keeps d₀ d) (λ _. Unit) (delete_class id t)
  delete_class-Ends t v =
      statement-Ends (λ _ d. Keeps d₀ d) (λ _. Unit) (remove_class id) t tt
        (λ u d e. elim (Bool-cases (any (λ r. r.ticket_class_id == id) t.db.reservations)) [
          | inl z ↦
              let impossible : ◌≡◌ {A = Option (Unit {0} × Db)} none (some (u, d)) = rw z at e in cc
          | inr z ↦
              subst (Keeps d₀) (ap (λ x. x.1) (some-injective _ _ (rw z at e)))
                (removed-Keeps d₀ t.db id z v)
        ])

  delete_both-Ends :
      (t : Session)
      → Keeps d₀ t.db
      → Ends
          (λ _ d. Keeps d₀ d)
          (λ _. Unit)
          ((delete_terminal_reservations id >> delete_class id) t)
  unfolding delete_terminal_reservations
  delete_both-Ends t v =
      >>=-Ends (λ _ d. Keeps d₀ d) (λ _. Unit) (λ _ d. Keeps d₀ d) (delete_terminal_reservations id)
        (λ _. delete_class id) t
        (write-Ends (λ _ d. Keeps d₀ d) (λ _. Unit) (λ _. tt)
          (λ d. set_reservations (rows_where (kept_row id) d.reservations) d) t tt
          (cleaned-Keeps d₀ t.db id v))
        (λ u s w. delete_class-Ends s w)

  delete_row-Ends :
      (tc : TicketClass) (t : Session)
      → Keeps d₀ t.db
      → Ends (λ _ d. Keeps d₀ d) (λ _. Unit) (delete_row id tc t)
  unfolding delete_row
  delete_row-Ends tc t v =
      >>=-Ends (λ _ d. Keeps d₀ d) (λ _. Unit) (λ _ d. Keeps d₀ d)
        (query (λ d. count_where (is_live_of id) d.reservations))
        (λ live.
          if ltb 0 live
          then raise state_conflict
          else delete_terminal_reservations id >> delete_class id)
        t
        (query-Ends (λ _ d. Keeps d₀ d) (λ _. Unit)
          (λ d. count_where (is_live_of id) d.reservations) t tt v)
        (λ live s w. elim (Bool-cases (ltb 0 live)) [
          | inl z ↦ rw z tt
          | inr z ↦ rw z (delete_both-Ends s w)
        ])

-- A delete keeps the invariant and, of every class, the ACTIVE and the CONFIRMED quantities: it never
-- removes a reservation that holds a ticket, whichever of its statements fail.
pub delete-Keeps : (id : ℕ) (t : Session) → Inv t.db → Keeps t.db (db_after (delete id t))
unfolding delete
delete-Keeps id t v =
    let start : Keeps t.db t.db = (v, (λ c. refl), λ c. refl) in
    transaction-keeps (Keeps t.db) (first id >>= first_or (pure tt) (delete_row id)) t start (
      first_or-Ends (Keeps t.db) (pure tt) (delete_row id) id t start (λ u w. w)
        (λ tc u w e. delete_row-Ends t.db id tc u w))
