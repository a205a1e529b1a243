-- ===== src/Inventory/Settle/Released.antt =====
-- `Release` keeps the counters those of the reservations.
use ticket_event_pf.Prelude.{
  ℕ, ◌+◌, ◌≡◌, refl, sym, ap, ◌∙◌, subst, ◌⊎◌, String, true, false, List, [], ◌∷◌, Option, none,
  some, inl, inr, arith, leb, if◌then◌else◌, sum_of, All, All-where, All-sort, rows_where, str_eq,
  Dict, get, keys, sorted_keys, due, due-sorted_keys, sum_of-zero, sum_of-where, sum_of-where_zero,
}
use ticket_event_pf.Inventory.Model.{
  Reservation, ReservationStatus, Db, Error, db_failure, state_conflict, inventory_drift,
}
use ticket_event_pf.Inventory.Tx.{
  Session, Ends, pure, query, >>=-Ends, query-Ends, transaction-Ends, transaction-keeps, db_after,
  ◌>>=◌,
}
use ticket_event_pf.Inventory.Tables.{update_class, same_status}
use ticket_event_pf.Inventory.Settle.{
  affected_or, sub_reserved, release_class, release_classes, release_quantities, release_with,
  release_rows, release, mark_cancelled, rows_of, set_status, all, is_released,
}
use ticket_event_pf.Inventory.Invariant.{Inv, Pending, held, held_by, HasClass}
use ticket_event_pf.Inventory.Invariant.Update.{
  Exists, Later, Later-refl, Later-ext, Hits, update_class-Hits-Ends,
}
use ticket_event_pf.Inventory.Settle.ReleasedRows.{is_open, Collected, release_quantities-Collected}
use ticket_event_pf.Inventory.Invariant.Marked.{
  Selects, Selects-where, marked, held-marked, marked-nil, marked-Ends,
}

-- The counters while the classes `ids` are still to be given back, `b` once all are.
abbrev left_of : (ℕ → ℕ) → Dict ℕ → List ℕ → ℕ → ℕ
left_of b ups ids c = b c + due (get 0 ups) c ids

module _ (E : Error → Type 0) (fails : E db_failure) (d₀ : Db) (b s : ℕ → ℕ) (ups : Dict ℕ) where
  abbrev left : List ℕ → ℕ → ℕ
  left = left_of b ups

  release_one :
      (id : ℕ) (ids : List ℕ) (t : Session)
      → Exists d₀.ticket_classes id
      → Later d₀ (left (id ∷ ids)) s t.db
      → Ends (λ _ d. Later d₀ (left ids) s d) E (release_class id (get 0 ups id) t)
  unfolding release_class
  release_one id ids t x h =
      >>=-Ends (λ _ d. Later d₀ (left ids) s d) E (Hits d₀ (left ids) s)
        (update_class id (λ tc. leb (get 0 ups id) tc.reserved) (sub_reserved (get 0 ups id)))
        (affected_or inventory_drift) t
        (update_class-Hits-Ends E fails id (λ tc. leb (get 0 ups id) tc.reserved)
          (sub_reserved (get 0 ups id)) (λ tc. refl) (left (id ∷ ids)) (left ids) s s
          (λ tc e g h. ground arith) (λ c ne. ground arith) (λ tc e h. ground arith) d₀ t x h)
        (λ n u p. rw (p.0) (p.1))

  pub release_classes-Ends :
      (ids : List ℕ) (t : Session)
      → All (Exists d₀.ticket_classes) ids
      → Later d₀ (left ids) s t.db
      → Ends (λ _ d. Later d₀ b s d) E (release_classes ups ids t)
  unfolding release_classes
  release_classes-Ends [] t x h = Later-ext d₀ (left []) b s s t.db (λ c. omega arith) (λ c. refl) h
  release_classes-Ends (id ∷ ids) t x h =
      >>=-Ends (λ _ d. Later d₀ b s d) E (λ _ d. Later d₀ (left ids) s d)
        (release_class id (get 0 ups id)) (λ _. release_classes ups ids) t
        (release_one id ids t x.0 h) (λ _ u h'. release_classes-Ends ids u x.1 h')

-- The rows that the transaction selects and what each class owes them.
module _ (code : String) (d : Db) (v : Inv d) (ups : Dict ℕ) (ids : List ℕ)
    (collected : Collected (Exists d.ticket_classes) (rows_of code d) [] ups [] ids) where
  abbrev sel : List Reservation
  sel = rows_where is_open (rows_of code d)

  abbrev freed : List Reservation
  freed = marked ids ReservationStatus.cancelled d.reservations

  selects : Selects d.reservations sel
  selects = Selects-where (λ r. str_eq r.order_code code) is_open d.reservations v.unique_rows

  weighs_nothing :
      (s : ReservationStatus) (c : ℕ)
      → same_status s ReservationStatus.cancelled ≡ false
      → sum_of (λ r. held_by s c (set_status ReservationStatus.cancelled r)) sel ≡ 0
  weighs_nothing s c e = sum_of-zero _ sel (λ r. ground arith)

  freed_balance :
      (s : ReservationStatus) (c : ℕ)
      → same_status s ReservationStatus.cancelled ≡ false
      → held s freed c + sum_of (held_by s c) sel ≡ held s d.reservations c
  freed_balance s c e = rw collected.ids_of (
      omega (
        arith,
        held-marked s ReservationStatus.cancelled c d.reservations sel v.unique_rows selects,
        weighs_nothing s c e,
      ))

  quantity_owed :
      (c : ℕ)
      → held ReservationStatus.active d.reservations c
        ≡ held ReservationStatus.active freed c + due (get 0 ups) c (sorted_keys ups)
  quantity_owed c = omega (
    arith,
    freed_balance ReservationStatus.active c refl,
    due-sorted_keys 0 (λ n. n) c ups (collected.map_kept tt) refl,
    collected.quantity c,
    sum_of-where (held_by ReservationStatus.active c) is_open (rows_of code d)
        (λ r e. ground arith),
  )

  sold_kept :
      (c : ℕ)
      → held ReservationStatus.confirmed d.reservations c ≡ held ReservationStatus.confirmed freed c
  sold_kept c = omega (
    arith,
    freed_balance ReservationStatus.confirmed c refl,
    sum_of-where_zero (held_by ReservationStatus.confirmed c) is_open (rows_of code d)
        (λ r e. ground arith),
  )

  owed_before :
      Later d
        (left_of (held ReservationStatus.active freed) ups (sorted_keys ups))
        (held ReservationStatus.confirmed freed)
        d
  owed_before =
      Later-ext d (held ReservationStatus.active d.reservations)
        (left_of (held ReservationStatus.active freed) ups (sorted_keys ups))
        (held ReservationStatus.confirmed d.reservations) (held ReservationStatus.confirmed freed) d
        quantity_owed sold_kept (Later-refl _ _ d v)

  All-exist : All (Exists d.ticket_classes) (sorted_keys ups)
  All-exist = All-sort (Exists d.ticket_classes) (λ k. k) (keys ups) (collected.keys_kept tt)

mark_cancelled-Ends :
    (E : Error → Type 0) (fails : E db_failure) (d₀ : Db) (ids : List ℕ) (t : Session)
    → Later d₀
        (held ReservationStatus.active (marked ids ReservationStatus.cancelled d₀.reservations))
        (held ReservationStatus.confirmed (marked ids ReservationStatus.cancelled d₀.reservations))
        t.db
    → Ends (λ _ d. Inv d) E (mark_cancelled ids t)
unfolding mark_cancelled
mark_cancelled-Ends E fails d₀ [] t (h, same, x) =
    subst
      (λ rs. Pending (held ReservationStatus.active rs) (held ReservationStatus.confirmed rs) t.db)
      (marked-nil ReservationStatus.cancelled d₀.reservations ∙ sym same) h
mark_cancelled-Ends E fails d₀ (id ∷ ids) t h =
    marked-Ends E d₀ (id ∷ ids) ReservationStatus.cancelled t fails h

module _ (E : Error → Type 0) (fails : E db_failure) (conflict : E state_conflict)
    (code : String) where
  release_with-Ends :
      (t : Session) (r : Option (Dict ℕ × List ℕ))
      → release_quantities (rows_of code t.db) [] [] ≡ r
      → Inv t.db
      → Ends (λ _ d. Inv d) E (release_with r t)
  unfolding release_with
  release_with-Ends t none e v = conflict
  release_with-Ends t (some (ups, ids)) e v =
      >>=-Ends (λ _ d. Inv d) E
        (λ _ d.
          Later t.db (held ReservationStatus.active gone) (held ReservationStatus.confirmed gone) d)
        (release_classes ups (sorted_keys ups)) (λ _. mark_cancelled ids) t
        (release_classes-Ends E fails t.db (held ReservationStatus.active gone)
          (held ReservationStatus.confirmed gone) ups (sorted_keys ups) t
          (All-exist code t.db v ups ids collected) (owed_before code t.db v ups ids collected))
        (λ _ u h. mark_cancelled-Ends E fails t.db ids u h)
    where
      collected : Collected (Exists t.db.ticket_classes) (rows_of code t.db) [] ups [] ids
      collected =
          release_quantities-Collected (Exists t.db.ticket_classes) (rows_of code t.db) [] ups []
            ids (All-where (HasClass t.db.ticket_classes) _ t.db.reservations v.owned) e

      gone : List Reservation
      gone = freed code t.db v ups ids collected

  release_rows-Ends :
      (t : Session) (rs : List Reservation)
      → rs ≡ rows_of code t.db
      → Inv t.db
      → Ends (λ _ d. Inv d) E (release_rows rs t)
  unfolding release_rows
  release_rows-Ends t [] e v = v
  release_rows-Ends t (r ∷ rs) e v =
      elim (all is_released (r ∷ rs))
        as (λ b.
          Ends (λ _ d. Inv d) E
            ((if b then pure tt else release_with (release_quantities (r ∷ rs) [] [])) t)) [
              | true ↦ v
              | false ↦ release_with-Ends t _ (ap (λ x. release_quantities x [] []) (sym e)) v
            ]

  release_body-Ends :
      (t : Session) → Inv t.db → Ends (λ _ d. Inv d) E ((query (rows_of code) >>= release_rows) t)
  release_body-Ends t v =
      >>=-Ends (λ _ d. Inv d) E (λ rs d. (rs ≡ rows_of code d) × Inv d) (query (rows_of code))
        release_rows t
        (query-Ends (λ rs d. (rs ≡ rows_of code d) × Inv d) E (rows_of code) t fails (refl, v))
        (λ rs u h. release_rows-Ends u rs h.0 h.1)

-- `Release` keeps the invariant, whichever of its statements fail and however it ends.
pub release-Inv : (code : String) (t : Session) → Inv t.db → Inv (db_after (release code t))
unfolding release
release-Inv code t v =
    transaction-keeps Inv (query (rows_of code) >>= release_rows) t v
      (release_body-Ends (λ _. Unit) tt tt code t v)

-- On a database that satisfies the invariant, `Release` fails only with a state conflict or with
-- the database, so it never finds a counter below what it has to give back; where it succeeds the
-- database satisfies the invariant again.
pub release-no_drift :
    (code : String) (t : Session)
    → Inv t.db
    → Ends (λ _ d. Inv d) (λ e. (e ≡ state_conflict) ⊎ (e ≡ db_failure)) (release code t)
unfolding release
release-no_drift code t v =
    transaction-Ends (λ _ d. Inv d) (λ e. (e ≡ state_conflict) ⊎ (e ≡ db_failure))
      (query (rows_of code) >>= release_rows) t (inr refl)
      (release_body-Ends (λ e. (e ≡ state_conflict) ⊎ (e ≡ db_failure)) (inr refl) (inl refl) code t
        v)
