-- ===== src/Inventory/Expire/Picked.antt =====
-- Which rows a sweep sets to EXPIRED.
use ticket_event_pf.Prelude.{
  ℕ, zero, suc, ◌≤◌, ◌≡◌, refl, ◌∙◌, ap, Bool, true, not, ◌&&◌, ◌⊎◌, inl, inr, List, [], ◌∷◌, arith,
  leb, length, take, sort_by, insert_by, All, All-take, All-sort, All-where_of, rows_where, keys_of,
}
use ticket_event_pf.Inventory.Model.{Reservation, ReservationStatus, Db, db_failure}
use ticket_event_pf.Inventory.Tx.{Session, Ends, Ends-mono, count_where, transaction-Ends, ◌>>=◌}
use ticket_event_pf.Inventory.Tables.{same_status}
use ticket_event_pf.Inventory.Invariant.{Inv, row_id}
use ticket_event_pf.Inventory.Invariant.Marked.{Selects, marked}
use ticket_event_pf.Inventory.Expire.{
  due_rows, select_due, select_and_expire_batch, retry, batch_size_or_default, batch_expire,
}
use ticket_event_pf.Inventory.Expire.Batch.{Marks, select_due-IsPage, batch_body-Ends}

-- A hold that has run out at `now`, and that no other transaction has locked.
abbrev pub is_due : (ℕ → Bool) → ℕ → Reservation → Bool
is_due locked now r =
    same_status r.status ReservationStatus.active && leb r.expires_at now && not (locked r.id)

-- The sweep of the rows `before` picked `n` due rows, each once, all that are due or as many as a batch
-- takes; these are EXPIRED now, and the other rows are as they were.
abbrev pub Sweeps : (ℕ → Bool) → ℕ → ℕ → List Reservation → ℕ → Db → Type 0
Sweeps locked now batch before n d =
    (rs : List Reservation) × Selects before rs
    × All (λ r. is_due locked now r ≡ true) rs
    × (n ≡ length rs)
    × (n ≤ batch)
    × (n ≤ count_where (is_due locked now) before)
    × ((n ≡ batch) ⊎ (n ≡ count_where (is_due locked now) before))
    × (d.reservations ≡ marked (keys_of row_id rs) ReservationStatus.expired before)

due_rows-is_due :
    (locked : ℕ → Bool) (now : ℕ) (rs : List Reservation)
    → length (rows_where (due_rows locked now []) rs) ≡ count_where (is_due locked now) rs
due_rows-is_due locked now [] = refl
due_rows-is_due locked now (r ∷ rs) = ground (arith, due_rows-is_due locked now rs)

length-insert :
    (r : Reservation) (rs : List Reservation)
    → length (insert_by (λ x. x.expires_at) r rs) ≡ suc (length rs)
length-insert r [] = refl
length-insert r (x ∷ rs) = ground (arith, length-insert r rs)

length-sort : (rs : List Reservation) → length (sort_by (λ x. x.expires_at) rs) ≡ length rs
length-sort [] = refl
length-sort (r ∷ rs) = length-insert r (sort_by (λ x. x.expires_at) rs) ∙ ap suc (length-sort rs)

length-take :
    (n : ℕ) (rs : List Reservation)
    → (length (take n rs) ≤ n)
      × (length (take n rs) ≤ length rs)
      × ((length (take n rs) ≡ n) ⊎ (length (take n rs) ≡ length rs))
length-take zero rs = (omega arith, omega arith, inl refl)
length-take (suc n) [] = (omega arith, omega arith, inr refl)
length-take (suc n) (r ∷ rs) =
    let h = length-take n rs in
    (
      omega (arith, h.0),
      omega (arith, h.1),
      elim h.2 [ inl e ↦ inl (ap suc e) | inr e ↦ inr (ap suc e) ],
    )

select_due-Sweeps :
    (locked : ℕ → Bool) (now batch : ℕ) (d₀ : Db) (n : ℕ) (d : Db)
    → Inv d₀
    → Marks d₀.reservations (select_due locked now batch [] d₀) n d
    → Sweeps locked now batch d₀.reservations n d
unfolding select_due
select_due-Sweeps locked now batch d₀ n d v (e, m) =
    let rows = rows_where (due_rows locked now []) d₀.reservations in
    let by = λ (r : Reservation). r.expires_at in
    let picked = select_due locked now batch [] d₀ in
    let P : Reservation → Type 0 = λ r. is_due locked now r ≡ true in
    let count : length (sort_by by rows) ≡ count_where (is_due locked now) d₀.reservations =
      length-sort rows ∙ due_rows-is_due locked now d₀.reservations in
    let bounds = length-take batch (sort_by by rows) in
    (
      picked,
      (select_due-IsPage (λ _. Unit {0}) tt locked now batch [] d₀ v).0,
      All-take P batch (sort_by by rows) (
          All-sort P by rows
            (All-where_of P (due_rows locked now []) d₀.reservations (λ r h. ground arith))),
      e,
      omega (arith, e, bounds.0),
      omega (arith, e, bounds.1, count),
      elim bounds.2 [ inl h ↦ inl (e ∙ h) | inr h ↦ inr (e ∙ h ∙ count) ],
      m,
    )

-- On a database that satisfies the invariant, a sweep that succeeds reports the number of rows that it
-- set to EXPIRED: each was ACTIVE, had run out by `now` and was locked by no other transaction, all such
-- rows are among them or they fill the batch, and every other row is as it was. A sweep that fails does
-- so for want of the database.
pub batch_expire-Sweeps :
    (locked retry_locked : ℕ → Bool) (now size : ℕ) (t : Session)
    → Inv t.db
    → Ends
        (Sweeps locked now (batch_size_or_default size) t.db.reservations)
        (λ e. e ≡ db_failure)
        (batch_expire locked retry_locked now size t)
unfolding batch_expire
batch_expire-Sweeps locked retry_locked now size t v =
    let batch = batch_size_or_default size in
    transaction-Ends (Sweeps locked now batch t.db.reservations) (λ e. e ≡ db_failure)
      (select_and_expire_batch locked now batch [] >>= retry retry_locked now batch) t refl
      (Ends-mono _ (Sweeps locked now batch t.db.reservations) (λ e. e ≡ db_failure) _
        (λ n d h. select_due-Sweeps locked now batch t.db n d v h.1)
        (batch_body-Ends (λ e. e ≡ db_failure) refl locked retry_locked now batch t v))
