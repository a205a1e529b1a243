-- ===== src/Inventory/Expire/Swept.antt =====
-- What a sweep takes off the counters is what its rows hold.
use ticket_event_pf.Prelude.{
  ℕ, ◌+◌, ◌≡◌, refl, ap, List, [], ◌∷◌, ◌++◌, arith, leb, ◌==◌, if◌then◌else◌, sum_of, sum_of-zero,
  All, rows_where, keys_of, Dict, get, update, keys, sorted_keys, IsMap, due, due-sorted_keys,
  get-update, update-IsMap, All-keys-update,
}
use ticket_event_pf.Inventory.Model.{Reservation, ReservationStatus, Db, Error, db_failure}
use ticket_event_pf.Inventory.Tx.{Session, Ends, >>=-Ends}
use ticket_event_pf.Inventory.Tables.{update_class}
use ticket_event_pf.Inventory.Settle.{sub_reserved, set_status}
use ticket_event_pf.Inventory.Invariant.{Inv, row_id, held, held_by, HasClass}
use ticket_event_pf.Inventory.Invariant.Update.{
  Exists, Later, Later-ext, Hits, update_class-Hits-Ends,
}
use ticket_event_pf.Inventory.Invariant.Marked.{Selects, marked, held-marked}
use ticket_event_pf.Inventory.Expire.{quantities, decrement_classes, not_drifted}

-- The counters while the classes `ids` are still to be given back, `b` once all are.
abbrev pub left : (ℕ → ℕ) → Dict ℕ → List ℕ → ℕ → ℕ
left b m ids c = b c + due (get 0 m) c ids

-- No class is collected as drifted.
abbrev pub Undrifted : Db → (ℕ → ℕ) → (ℕ → ℕ) → List ℕ → List ℕ → Db → Type 0
Undrifted d₀ a s drifted ds d = (ds ≡ drifted) × Later d₀ a s d

module _ (E : Error → Type 0) (fails : E db_failure) (d₀ : Db) (b s : ℕ → ℕ) (m : Dict ℕ) where
  pub decrement_classes-Ends :
      (ids drifted : List ℕ) (t : Session)
      → All (Exists d₀.ticket_classes) ids
      → Later d₀ (left b m ids) s t.db
      → Ends (Undrifted d₀ b s drifted) E (decrement_classes m ids drifted t)
  unfolding decrement_classes
  decrement_classes-Ends [] drifted t x h =
      (refl, Later-ext d₀ (left b m []) b s s t.db (λ c. omega arith) (λ c. refl) h)
  decrement_classes-Ends (id ∷ ids) drifted t x h =
      let q = get 0 m id in
      >>=-Ends (Undrifted d₀ b s drifted) E (Hits d₀ (left b m ids) s)
        (update_class id (λ tc. leb q tc.reserved) (sub_reserved q))
        (λ n. decrement_classes m ids (if n == 0 then drifted ++ id ∷ [] else drifted)) t
        (update_class-Hits-Ends E fails id (λ tc. leb q tc.reserved) (sub_reserved q) (λ tc. refl)
          (left b m (id ∷ ids)) (left b m ids) s s (λ tc e g h. ground arith) (λ c ne. ground arith)
          (λ tc e h. ground arith) d₀ t x.0 h)
        (λ n u p. rw (p.0) (decrement_classes-Ends ids drifted u x.1 (p.1)))

-- What the loop over the selected rows sums up.
abbrev qty_of : ℕ → Reservation → ℕ
qty_of c r = if r.ticket_class_id == c then r.qty else 0

get-quantities :
    (rs : List Reservation) (m : Dict ℕ) (c : ℕ)
    → get 0 (quantities rs m) c ≡ get 0 m c + sum_of (qty_of c) rs
unfolding quantities
get-quantities [] m c = omega arith
get-quantities (r ∷ rs) m c = ground (
  arith,
  get-quantities rs (update 0 r.ticket_class_id (λ n. n + r.qty) m) c,
  get-update 0 r.ticket_class_id (λ n. n + r.qty) m c,
)

quantities-IsMap : (rs : List Reservation) (m : Dict ℕ) → IsMap m → IsMap (quantities rs m)
unfolding quantities
quantities-IsMap [] m h = h
quantities-IsMap (r ∷ rs) m h =
    quantities-IsMap rs _ (update-IsMap 0 r.ticket_class_id (λ n. n + r.qty) m h)

pub quantities-keys :
    (P : ℕ → Type 0) (rs : List Reservation) (m : Dict ℕ)
    → All (λ r. P r.ticket_class_id) rs
    → All P (keys m)
    → All P (keys (quantities rs m))
unfolding quantities
quantities-keys P [] m a h = h
quantities-keys P (r ∷ rs) m a h =
    quantities-keys P rs _ a.1 (All-keys-update P 0 r.ticket_class_id (λ n. n + r.qty) m a.0 h)

abbrev pub IsHeld : Reservation → Type 0
IsHeld r = r.status ≡ ReservationStatus.active

sum_of-held :
    (c : ℕ) (rs : List Reservation)
    → All IsHeld rs
    → sum_of (held_by ReservationStatus.active c) rs ≡ sum_of (qty_of c) rs
sum_of-held c [] h = refl
sum_of-held c (r ∷ rs) h = ground (arith, sum_of-held c rs h.1)

sum_of-unsold :
    (c : ℕ) (rs : List Reservation)
    → All IsHeld rs
    → sum_of (held_by ReservationStatus.confirmed c) rs ≡ 0
sum_of-unsold c [] h = refl
sum_of-unsold c (r ∷ rs) h = ground (arith, sum_of-unsold c rs h.1)

pub where_undrifted : (rs : List Reservation) → rows_where (not_drifted []) rs ≡ rs
where_undrifted [] = refl
where_undrifted (r ∷ rs) = ap (◌∷◌ r) (where_undrifted rs)

-- The rows of one page, ACTIVE and each of the table.
module _ (d : Db) (v : Inv d) (rs : List Reservation) (selects : Selects d.reservations rs)
    (active_rows : All IsHeld rs) (classes : All (HasClass d.ticket_classes) rs) where
  abbrev pub swept : List Reservation
  swept = marked (keys_of row_id rs) ReservationStatus.expired d.reservations

  abbrev pub owed : List ℕ
  owed = sorted_keys (quantities rs [])

  pub reserved_balance :
      (c : ℕ)
      → held ReservationStatus.active d.reservations c
        ≡ left (held ReservationStatus.active swept) (quantities rs []) owed c
  reserved_balance c = omega (
    arith,
    held-marked ReservationStatus.active ReservationStatus.expired c d.reservations rs v.unique_rows
        selects,
    due-sorted_keys 0 (λ n. n) c (quantities rs []) (quantities-IsMap rs [] tt) refl,
    get-quantities rs [] c,
    sum_of-held c rs active_rows,
    sum_of-zero (λ r. held_by ReservationStatus.active c (set_status ReservationStatus.expired r))
        rs (λ r. ground arith),
  )

  pub sold_balance :
      (c : ℕ)
      → held ReservationStatus.confirmed d.reservations c ≡ held ReservationStatus.confirmed swept c
  sold_balance c = omega (
    arith,
    held-marked ReservationStatus.confirmed ReservationStatus.expired c d.reservations rs
        v.unique_rows selects,
    sum_of-unsold c rs active_rows,
    sum_of-zero
        (λ r. held_by ReservationStatus.confirmed c (set_status ReservationStatus.expired r)) rs
        (λ r. ground arith),
  )
