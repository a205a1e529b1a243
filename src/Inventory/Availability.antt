-- ===== src/Inventory/Availability.antt =====
-- What a read of the stock promises to a reserve: `GetAvailableCount`, `CheckAvailability` and
-- `explainReserveMiss` against the guarded update of `Reserve`.
use ticket_event_pf.Prelude.{
  ℕ, ◌+◌, ◌-◌, ◌≤◌, ◌<◌, ◌≡◌, refl, ap, ◌∙◌, true, false, ◌&&◌, Option, none, some, List, [], ◌∷◌,
  arith, leb, Bool-cases, inl, inr, ◌⊎◌, ◌↔◌, All, Dict, get,
}
use ticket_event_pf.Prelude.Int.{ℤ, pos}
use ticket_event_pf.Inventory.Model.{
  TicketClass, ReservationStatus, Db, Error, not_found, insufficient_stock, db_failure,
}
use ticket_event_pf.Inventory.Tx.{Session, Ends, query-Ends, >>=-Ends, raise, pure}
use ticket_event_pf.Inventory.Tables.{is_active, on_sale, sql_started, sql_not_ended, find_class}
use ticket_event_pf.Inventory.Reserve.{can_reserve, explain_miss}
use ticket_event_pf.Inventory.Invariant.{Inv, Counts, held}
use ticket_event_pf.Inventory.TicketClasses.{
  available, get_available_count, first, first_or, all_available,
}
use ticket_event_pf.Inventory.TicketClasses.Updated.{find_class-found}

-- The sale window that the service reads in Go is the one that the guarded update tests in SQL.
on_sale-sql :
    (tc : TicketClass) (now : ℕ)
    → on_sale tc now ≡ (
        is_active tc.status && sql_started now tc.sale_start_at && sql_not_ended now tc.sale_end_at)
unfolding on_sale
on_sale-sql tc now = ground arith

-- Room for `q` more.
abbrev pub HasRoom : ℕ → TicketClass → Type 0
HasRoom q tc = tc.reserved + tc.sold + q ≤ tc.total

-- A class that `CheckAvailability` accepts is one whose guarded update would match, and the reverse.
pub all_available-can_reserve :
    (now : ℕ) (m : Dict ℕ) (tcs : List TicketClass)
    → all_available now m tcs ≡ true
    → All (λ tc. can_reserve now (get 0 m tc.id) tc ≡ true) tcs
unfolding all_available
all_available-can_reserve now m [] h = tt
all_available-can_reserve now m (tc ∷ tcs) h =
    (ground (arith, on_sale-sql tc now), all_available-can_reserve now m tcs (ground arith))

can_reserve-all_available :
    (now : ℕ) (m : Dict ℕ) (tcs : List TicketClass)
    → All (λ tc. can_reserve now (get 0 m tc.id) tc ≡ true) tcs
    → all_available now m tcs ≡ true
unfolding all_available
can_reserve-all_available now m [] h = refl
can_reserve-all_available now m (tc ∷ tcs) h =
    ground (arith, on_sale-sql tc now, can_reserve-all_available now m tcs h.1, h.0)

-- The loop of `CheckAvailability` accepts the rows it found exactly if, of each of them, the guarded
-- update of `Reserve` would match it for the quantity that is asked.
pub all_available_iff :
    (now : ℕ) (m : Dict ℕ) (tcs : List TicketClass)
    → (all_available now m tcs ≡ true) ↔ All (λ tc. can_reserve now (get 0 m tc.id) tc ≡ true) tcs
all_available_iff now m tcs =
    (all_available-can_reserve now m tcs, can_reserve-all_available now m tcs)

-- Where the guarded update of a reserve does not match a class, the error reported is a lack of stock
-- exactly if the class is on sale, and then it does lack the room for the quantity.
pub explain_miss-stock :
    (now q : ℕ) (tc : TicketClass)
    → can_reserve now q tc ≡ false
    → (explain_miss now (some tc) ≡ insufficient_stock)
      ↔ ((on_sale tc now ≡ true) × (tc.total < tc.reserved + tc.sold + q))
unfolding explain_miss
explain_miss-stock now q tc h = elim (Bool-cases (on_sale tc now)) [
  | inl z ↦ rw z ((λ e. (refl, ground (arith, on_sale-sql tc now))), (λ p. refl))
  | inr z ↦ rw z ((λ e. cc), (λ p. cc))
]

-- On a database that satisfies the invariant, `GetAvailableCount` returns the total of the class less
-- what its ACTIVE and its CONFIRMED reservations hold, which is never negative; it fails only for a
-- class that is not there, or for want of the database.
pub get_available_count-exact :
    (id : ℕ) (t : Session)
    → Inv t.db
    → Ends
        (λ n d.
          (tc : TicketClass) × (find_class id t.db.ticket_classes ≡ some tc)
          × (n
              ≡ pos (
                  tc.total
                  - held ReservationStatus.active t.db.reservations id
                  - held ReservationStatus.confirmed t.db.reservations id)))
        (λ e. (e ≡ db_failure) ⊎ ((e ≡ not_found) × (find_class id t.db.ticket_classes ≡ none)))
        (get_available_count id t)
unfolding get_available_count
get_available_count-exact id t v =
    let P : ℤ → Db → Type 0 = λ n d.
      (tc : TicketClass) × (find_class id t.db.ticket_classes ≡ some tc)
      × (n
          ≡ pos (
              tc.total
              - held ReservationStatus.active t.db.reservations id
              - held ReservationStatus.confirmed t.db.reservations id)) in
    let E : Error → Type 0 =
      λ e. (e ≡ db_failure) ⊎ ((e ≡ not_found) × (find_class id t.db.ticket_classes ≡ none)) in
    let Q : Option TicketClass → Db → Type 0 = λ o d. find_class id t.db.ticket_classes ≡ o in
    >>=-Ends P E Q (first id) (first_or (raise not_found) (λ tc. pure (available tc))) t
      (query-Ends Q E (λ d. find_class id d.ticket_classes) t (inl refl) refl) by_row
  where
    a : ℕ → ℕ
    a = held ReservationStatus.active t.db.reservations

    s : ℕ → ℕ
    s = held ReservationStatus.confirmed t.db.reservations

    count :
        (tc : TicketClass)
        → find_class id t.db.ticket_classes ≡ some tc
        → available tc ≡ pos (tc.total - a id - s id)
    count tc e =
        let (c, k) = find_class-found (Counts a s) id tc t.db.ticket_classes v.books e in
        let fits : leb (tc.reserved + tc.sold) tc.total ≡ true = ground (arith, c.2) in
        rw fits (ap pos (omega (arith, c.0 ∙ ap a k, c.1 ∙ ap s k)))

    by_row :
        (o : Option TicketClass) (u : Session)
        → find_class id t.db.ticket_classes ≡ o
        → Ends
            (λ n d.
              (tc : TicketClass) × (find_class id t.db.ticket_classes ≡ some tc)
              × (n ≡ pos (tc.total - a id - s id)))
            (λ e. (e ≡ db_failure) ⊎ ((e ≡ not_found) × (find_class id t.db.ticket_classes ≡ none)))
            (first_or (raise not_found) (λ tc. pure (available tc)) o u)
    by_row none u h = inr (refl, h)
    by_row (some tc) u h = (tc, h, count tc h)
