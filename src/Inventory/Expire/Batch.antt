-- ===== src/Inventory/Expire/Batch.antt =====
-- A sweep keeps the counters those of the reservations, and finds no drift.
use ticket_event_pf.Prelude.{
  ℕ, suc, ◌≡◌, refl, sym, ◌∙◌, ap, subst, Bool, List, [], ◌∷◌, arith, length, sort_by, All,
  All-where, All-take, All-sort, All-where_of, In, In-where, Unique-where, Unique-take, Unique-sort,
  rows_where, keys_of, keys, sorted_keys,
}
use ticket_event_pf.Inventory.Model.{Reservation, ReservationStatus, Db, Error, db_failure}
use ticket_event_pf.Inventory.Tx.{
  Session, Ends, Ends-mono, Ends-both, write-Ends, pure, query, >>=-Ends, query-Ends,
  transaction-keeps, db_after, ◌>>=◌,
}
use ticket_event_pf.Inventory.Tables.{set_reservations}
use ticket_event_pf.Inventory.Settle.{mark}
use ticket_event_pf.Inventory.Invariant.{Inv, row_id, held, HasClass}
use ticket_event_pf.Inventory.Invariant.Update.{Exists, Later-refl, Later-ext}
use ticket_event_pf.Inventory.Invariant.Marked.{Selects, marked, marked-nil, marked-Ends}
use ticket_event_pf.Inventory.Expire.{
  due_rows, select_due, quantities, decrement_classes, mark_expired, not_drifted, expire_rows,
  select_and_expire_batch, retry, batch_size_or_default, batch_expire,
}
use ticket_event_pf.Inventory.Expire.Swept.{
  left, Undrifted, decrement_classes-Ends, quantities-keys, IsHeld, where_undrifted, swept,
  reserved_balance, sold_balance,
}

-- A page of the rows `before` was expired whole, and no class drifted.
abbrev pub Expired : List Reservation → List Reservation → List ℕ × List ℕ → Db → Type 0
Expired before rs r d =
    (Inv d × (d.reservations ≡ marked (keys_of row_id rs) ReservationStatus.expired before))
    × (r.0 ≡ keys_of row_id rs)
    × (r.1 ≡ [])

-- `n` rows of `before`, which are `rs`, are EXPIRED, and the others are as they were.
abbrev pub Marks : List Reservation → List Reservation → ℕ → Db → Type 0
Marks before rs n d =
    (n ≡ length rs) × (d.reservations ≡ marked (keys_of row_id rs) ReservationStatus.expired before)

length-keys_of : (rs : List Reservation) → length (keys_of row_id rs) ≡ length rs
length-keys_of [] = refl
length-keys_of (r ∷ rs) = ap suc (length-keys_of rs)

-- Marking, where no reservation was written before it.
mark-marked :
    (E : Error → Type 0) (before : List Reservation) (ids : List ℕ) (st : ReservationStatus)
    (t : Session)
    → E db_failure
    → t.db.reservations ≡ before
    → Ends (λ _ d. d.reservations ≡ marked ids st before) E (mark ids st t)
mark-marked E before ids st t fails e =
    write-Ends (λ _ d. d.reservations ≡ marked ids st before) E (λ _. tt)
      (λ d. set_reservations (marked ids st d.reservations) d) t fails (ap (marked ids st) e)

abbrev pub IsPage : Db → List Reservation → Type 0
IsPage d rs = Selects d.reservations rs × All IsHeld rs × All (HasClass d.ticket_classes) rs

module _ (E : Error → Type 0) (fails : E db_failure) where
  mark_page-Ends :
      (d₀ : Db) (v : Inv d₀) (r : Reservation) (rs : List Reservation) (page : IsPage d₀ (r ∷ rs))
      (drifted : List ℕ) (t : Session)
      → Undrifted d₀
          (held ReservationStatus.active (swept d₀ v (r ∷ rs) page.0 page.1 page.2))
          (held ReservationStatus.confirmed (swept d₀ v (r ∷ rs) page.0 page.1 page.2))
          []
          drifted
          t.db
      → Ends
          (Expired d₀.reservations (r ∷ rs))
          E
          (mark_expired (keys_of row_id (rows_where (not_drifted drifted) (r ∷ rs))) drifted t)
  unfolding mark_expired
  mark_page-Ends d₀ v r rs page drifted t (e, h) =
      subst
        (λ ds.
          Ends (Expired d₀.reservations (r ∷ rs)) E
            (mark_expired (keys_of row_id (rows_where (not_drifted ds) (r ∷ rs))) ds t))
        (sym e) (rw (where_undrifted rs) whole)
    where
      whole :
          Ends (Expired d₀.reservations (r ∷ rs)) E (mark_expired (keys_of row_id (r ∷ rs)) [] t)
      whole =
          >>=-Ends (Expired d₀.reservations (r ∷ rs)) E
            (λ _ d.
              Inv d
              × (d.reservations
                  ≡ marked (keys_of row_id (r ∷ rs)) ReservationStatus.expired d₀.reservations))
            (mark (keys_of row_id (r ∷ rs)) ReservationStatus.expired)
            (λ _. pure (keys_of row_id (r ∷ rs), [])) t
            (Ends-both _ _ E _
              (marked-Ends E d₀ (keys_of row_id (r ∷ rs)) ReservationStatus.expired t fails h)
              (mark-marked E d₀.reservations (keys_of row_id (r ∷ rs)) ReservationStatus.expired t
                fails (h.1)))
            (λ _ u w. (w, refl, refl))

  expire_rows-Ends :
      (rs : List Reservation) (t : Session)
      → Inv t.db
      → IsPage t.db rs
      → Ends (Expired t.db.reservations rs) E (expire_rows rs t)
  unfolding expire_rows
  expire_rows-Ends [] t v page =
      ((v, sym (marked-nil ReservationStatus.expired t.db.reservations)), refl, refl)
  expire_rows-Ends (r ∷ rs) t v page =
      let m = quantities (r ∷ rs) [] in
      let a = held ReservationStatus.active (swept t.db v (r ∷ rs) page.0 page.1 page.2) in
      let s = held ReservationStatus.confirmed (swept t.db v (r ∷ rs) page.0 page.1 page.2) in
      >>=-Ends (Expired t.db.reservations (r ∷ rs)) E (Undrifted t.db a s [])
        (decrement_classes m (sorted_keys m) [])
        (λ drifted.
          mark_expired (keys_of row_id (rows_where (not_drifted drifted) (r ∷ rs))) drifted)
        t
        (decrement_classes-Ends E fails t.db a s m (sorted_keys m) [] t
          (All-sort (Exists t.db.ticket_classes) (λ k. k) (keys m)
            (quantities-keys (Exists t.db.ticket_classes) (r ∷ rs) [] page.2 tt))
          (Later-ext t.db (held ReservationStatus.active t.db.reservations)
            (left a m (sorted_keys m)) (held ReservationStatus.confirmed t.db.reservations) s t.db
            (reserved_balance t.db v (r ∷ rs) page.0 page.1 page.2)
            (sold_balance t.db v (r ∷ rs) page.0 page.1 page.2) (Later-refl _ _ t.db v)))
        (λ drifted u h. mark_page-Ends t.db v r rs page drifted u h)

  pub select_due-IsPage :
      (locked : ℕ → Bool) (now batch : ℕ) (exclude : List ℕ) (d : Db)
      → Inv d
      → IsPage d (select_due locked now batch exclude d)
  unfolding select_due
  select_due-IsPage locked now batch exclude d v =
      let p = due_rows locked now exclude in
      let by = λ (r : Reservation). r.expires_at in
      let rows = rows_where p d.reservations in
      let lift = λ (P : Reservation → Type 0) (h : All P rows).
        All-take P batch (sort_by by rows) (All-sort P by rows h) in
      (
        (
          Unique-take row_id batch (sort_by by rows)
              (Unique-sort row_id by rows (Unique-where row_id p d.reservations v.unique_rows)),
          lift (λ r. In r d.reservations) (In-where p d.reservations),
        ),
        lift IsHeld (All-where_of IsHeld p d.reservations (λ r e. ground arith)),
        lift (HasClass d.ticket_classes)
            (All-where (HasClass d.ticket_classes) p d.reservations v.owned),
      )

  pub page-Ends :
      (locked : ℕ → Bool) (now batch : ℕ) (exclude : List ℕ) (t : Session)
      → Inv t.db
      → Ends
          (Expired t.db.reservations (select_due locked now batch exclude t.db))
          E
          (select_and_expire_batch locked now batch exclude t)
  unfolding select_and_expire_batch
  page-Ends locked now batch exclude t v =
      let page = select_due locked now batch exclude in
      let Q : List Reservation → Db → Type 0 = λ rs d. (rs ≡ page t.db) × (d ≡ t.db) in
      let whole = Expired t.db.reservations (page t.db) in
      >>=-Ends whole E Q (query page) expire_rows t (query-Ends Q E page t fails (refl, refl))
        (λ rs u h.
          subst (λ x. Ends whole E (expire_rows x u)) (sym h.0)
            (subst (λ x. Ends (Expired x.reservations (page t.db)) E (expire_rows (page t.db) u))
              h.1
              (expire_rows-Ends (page t.db) u (subst Inv (sym h.1) v) (
                subst (λ x. IsPage x (page t.db)) (sym h.1)
                  (select_due-IsPage locked now batch exclude t.db v)))))

  -- The retry past a page of drift is never needed.
  retry-Ends :
      (locked : ℕ → Bool) (now batch : ℕ) (before rs : List Reservation) (r : List ℕ × List ℕ)
      (t : Session)
      → Expired before rs r t.db
      → Ends (λ n d. Inv d × Marks before rs n d) E (retry locked now batch r t)
  unfolding retry
  retry-Ends locked now batch before rs ([], []) t h =
      (h.0.0, (ap length h.1 ∙ length-keys_of rs, h.0.1))
  retry-Ends locked now batch before rs ([], d ∷ ds) t h =
      let impossible : ◌≡◌ {A = List ℕ} (d ∷ ds) [] = h.2 in cc
  retry-Ends locked now batch before rs (i ∷ is, ds) t h =
      (h.0.0, (ap length h.1 ∙ length-keys_of rs, h.0.1))

  pub batch_body-Ends :
      (locked retry_locked : ℕ → Bool) (now batch : ℕ) (t : Session)
      → Inv t.db
      → Ends
          (λ n d. Inv d × Marks t.db.reservations (select_due locked now batch [] t.db) n d)
          E
          ((select_and_expire_batch locked now batch [] >>= retry retry_locked now batch) t)
  batch_body-Ends locked retry_locked now batch t v =
      let rs = select_due locked now batch [] t.db in
      >>=-Ends (λ n d. Inv d × Marks t.db.reservations rs n d) E (Expired t.db.reservations rs)
        (select_and_expire_batch locked now batch []) (retry retry_locked now batch) t
        (page-Ends locked now batch [] t v)
        (λ r u h. retry-Ends retry_locked now batch t.db.reservations rs r u h)

-- A sweep keeps the invariant, whichever of its statements fail and however it ends.
pub batch_expire-Inv :
    (locked retry_locked : ℕ → Bool) (now size : ℕ) (t : Session)
    → Inv t.db
    → Inv (db_after (batch_expire locked retry_locked now size t))
unfolding batch_expire
batch_expire-Inv locked retry_locked now size t v =
    let batch = batch_size_or_default size in
    transaction-keeps Inv
      (select_and_expire_batch locked now batch [] >>= retry retry_locked now batch) t v
      (Ends-mono _ (λ _ d. Inv d) (λ _. Unit) _ (λ n d h. h.0)
        (batch_body-Ends (λ _. Unit) tt locked retry_locked now batch t v))
