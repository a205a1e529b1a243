-- ===== src/Inventory/Reserve/Counted.antt =====
-- The loop of `Reserve` over the classes: each counter runs ahead of the table by the rows to
-- insert, which `add_reservation` then adds.
use ticket_event_pf.Prelude.{
  ℕ, suc, ◌+◌, ◌<◌, ◌≡◌, refl, ◌≢◌, true, false, not, inl, inr, List, [], ◌∷◌, ◌++◌, Option, none,
  some, arith, ◌==◌, if◌then◌else◌, Bool-cases, sum_of, sum_of-append, All, All-append, All-mono,
  Unique-append, Dict, get, due,
}
use ticket_event_pf.Inventory.Model.{
  TicketClass, Reservation, ReservationStatus, Db, ReserveItem, ReserveInput, Error, db_failure,
  sale_closed, insufficient_stock, inventory_drift, record_not_found,
}
use ticket_event_pf.Inventory.Tx.{Session, Ends, raise, query, >>=-Ends, query-Ends, Ends-mono}
use ticket_event_pf.Inventory.Tables.{find_class, on_sale, update_class}
use ticket_event_pf.Inventory.Reserve.{
  build_model, can_reserve, add_reserved, explain_miss, explain_reserve_miss, reserve_classes,
  refuses, add_reservation,
}
use ticket_event_pf.Inventory.Invariant.{Pending, row_id, held_by, HasClass}
use ticket_event_pf.Inventory.Invariant.Update.{Later, Updates, update_class-Ends}

-- The errors of a reserve: it meets no counter drift, and reports a missing class as not found.
abbrev pub ReserveError : Error → Type 0
ReserveError e = (e ≢ inventory_drift) × (e ≢ record_not_found)

abbrev pub IsNew : Reservation → Type 0
IsNew r = r.status ≡ ReservationStatus.active

-- What the rows to insert will hold.
abbrev pub pending : List Reservation → ℕ → ℕ
pending rs c = sum_of (held_by ReservationStatus.active c) rs

module _ (E : Error → Type 0) (fails : (e : Error) → ReserveError e → E e) where
  pub db_fails : E db_failure
  db_fails = fails db_failure ((λ x. cc), (λ x. cc))

  explain_reserve_miss-Ends :
      {A : Type 0} (P : A → Db → Type 0) (id now : ℕ) (t : Session)
      → Ends P E (explain_reserve_miss id now t)
  unfolding explain_reserve_miss
  explain_reserve_miss-Ends P id now t =
      >>=-Ends P E (λ _ _. Unit {0}) (query (λ d. find_class id d.ticket_classes))
        (λ tc. raise (explain_miss now tc)) t
        (query-Ends (λ _ _. Unit {0}) E (λ d. find_class id d.ticket_classes) t db_fails tt)
        (λ tc u h. fails _ (cause tc))
    where
      cause : (tc : Option TicketClass) → ReserveError (explain_miss now tc)
      cause none = ((λ x. cc), (λ x. cc))
      cause (some tc) =
          elim (on_sale tc now)
            as (λ b. ReserveError (if not b then sale_closed else insufficient_stock)) [
              | true ↦ ((λ x. cc), (λ x. cc))
              | false ↦ ((λ x. cc), (λ x. cc))
            ]

  module _ (d₀ : Db) (a s : ℕ → ℕ) (now : ℕ) (i : ReserveInput) (m : Dict ℕ) where
    -- The counters run ahead of the table by the rows to insert.
    abbrev pub ahead : List Reservation → ℕ → ℕ
    ahead rs c = a c + pending rs c

    abbrev pub Reserving : List ℕ → List Reservation → List Reservation → Db → Type 0
    Reserving ids rs rs' d =
        All IsNew rs'
        × ((c : ℕ) → pending rs' c ≡ pending rs c + due (get 0 m) c ids)
        × Later d₀ (ahead rs') s d

    abbrev item : ℕ → ReserveItem
    item id = record { ticket_class_id = id; qty = get 0 m id }

    abbrev new_row : ℕ → Reservation
    new_row id = build_model i.order_code i.expires_at (item id)

    pending-new_row :
        (rs : List Reservation) (id c : ℕ)
        → pending (rs ++ new_row id ∷ []) c ≡ pending rs c + (if id == c then get 0 m id else 0)
    unfolding build_model
    pending-new_row rs id c =
        ground (arith, sum_of-append (held_by ReservationStatus.active c) rs (new_row id ∷ []))

    new_row-IsNew : (id : ℕ) → IsNew (new_row id)
    unfolding build_model
    new_row-IsNew id = refl

    reserve_one :
        (id : ℕ) (rs : List Reservation) (t : Session)
        → Later d₀ (ahead rs) s t.db
        → Ends
            (Updates d₀ (ahead (rs ++ new_row id ∷ [])) s t.db)
            E
            (update_class id (can_reserve now (get 0 m id)) (add_reserved (get 0 m id)) t)
    reserve_one id rs t h =
        update_class-Ends E db_fails id (can_reserve now (get 0 m id)) (add_reserved (get 0 m id))
          (λ tc. refl) (ahead rs) (ahead (rs ++ new_row id ∷ [])) s s
          (λ tc e g h. ground (arith, pending-new_row rs id tc.id))
          (λ c ne. ground (arith, pending-new_row rs id c)) d₀ t h

    pub reserve_classes-Ends :
        (ids : List ℕ) (rs : List Reservation) (t : Session)
        → All IsNew rs
        → Later d₀ (ahead rs) s t.db
        → Ends (Reserving ids rs) E (reserve_classes now i m ids rs t)
    unfolding reserve_classes
    reserve_classes-Ends [] rs t new h = (new, (λ c. omega arith), h)
    reserve_classes-Ends (id ∷ ids) rs t new h =
        let rs' = rs ++ new_row id ∷ [] in
        >>=-Ends (Reserving (id ∷ ids) rs) E (Updates d₀ (ahead rs') s t.db)
          (update_class id (can_reserve now (get 0 m id)) (add_reserved (get 0 m id)))
          (λ n. if n == 0 then explain_reserve_miss id now else reserve_classes now i m ids rs') t
          (reserve_one id rs t h)
          (λ n u p. elim (Bool-cases (n == 0)) [
            | inl z ↦ rw z (explain_reserve_miss-Ends (Reserving (id ∷ ids) rs) id now u)
            | inr z ↦ rw z (
                Ends-mono (Reserving ids rs') (Reserving (id ∷ ids) rs) E _
                  (λ rs₂ d r. (r.0, (λ c. omega (arith, r.1 c, pending-new_row rs id c)), r.2))
                  (reserve_classes-Ends ids rs' u
                    (All-append IsNew rs (new_row id ∷ []) new (new_row-IsNew id, tt)) (p.0 z)))
          ])

-- Inserting the rows makes the table catch up with the counters.
pub row_added :
    (a s : ℕ → ℕ) (r : Reservation) (d : Db)
    → refuses d r ≡ false
    → Pending a s d
    → Pending a s (add_reservation r d)
row_added a s r d ok h = record {
  books = h.books;
  unique_classes = h.unique_classes;
  unique_rows =
      Unique-append row_id d.reservations (record r { id = d.next_reservation_id }) h.unique_rows
        (All-mono (λ (x : Reservation). x.id < d.next_reservation_id)
          (λ x. x.id ≢ d.next_reservation_id) (λ x l. omega arith) d.reservations h.row_ids);
  class_ids = h.class_ids;
  row_ids =
      All-append (λ (x : Reservation). x.id < suc d.next_reservation_id) d.reservations _
        (All-mono (λ (x : Reservation). x.id < d.next_reservation_id)
          (λ x. x.id < suc d.next_reservation_id) (λ x l. omega arith) d.reservations h.row_ids)
        (omega arith, tt);
  owned = All-append (HasClass d.ticket_classes) d.reservations _ h.owned (ground arith, tt);
}
