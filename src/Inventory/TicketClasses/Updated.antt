-- ===== src/Inventory/TicketClasses/Updated.antt =====
-- `Update` of a ticket class keeps the counters within its total.
use mathlib.Core.Option.{some-injective}
use ticket_event_pf.Prelude.{
  ℕ, ◌+◌, ◌≤◌, ◌<◌, ◌≡◌, refl, sym, ap, ◌∙◌, subst, Bool, false, ◌&&◌, Option, none, some, List, [],
  ◌∷◌, arith, ltb, ◌==◌, Bool-cases, inl, inr, any, All, All-append, All-mono, ==_iff,
}
use ticket_event_pf.Inventory.Model.{
  TicketClass, ReservationStatus, Db, not_found, record_not_found, UpdateTicketClassInput,
}
use ticket_event_pf.Inventory.Tx.{
  Tx, Session, Ends, pure, raise, >>=-Ends, statement-Ends, query-Ends, ◌>>=◌, ◌>>◌, update_where,
  update_where-All, update_where-Unique, transaction-keeps, db_after,
}
use ticket_event_pf.Inventory.Tables.{find_class, set_classes}
use ticket_event_pf.Inventory.Invariant.{Inv, Counts, Books, class_id, HasClass, held}
use ticket_event_pf.Inventory.Invariant.Update.{any-update_where}
use ticket_event_pf.Inventory.TicketClasses.{
  name_taken, Column, set_name, set_currency, set_price_cents, set_total, set_sale_start_at,
  set_sale_end_at, set_status, column, update_columns, write_column, write_columns, first, first_or,
  write_row, write_class, below_committed, write_and_reload, update_row, update,
}

-- Columns that do not take the total below `n`.
abbrev pub Allowed : ℕ → Column → Type 0
Allowed n (set_total v) = n ≤ v
Allowed n _ = Unit

-- A class of id `k` that counts `r` and `s`.
abbrev Row : ℕ → ℕ → ℕ → TicketClass → Type 0
Row k r s tc = (tc.id ≡ k) × (tc.reserved ≡ r) × (tc.sold ≡ s) × (r + s ≤ tc.total)

write_column-Row :
    (k r s : ℕ) (c : Column) (tc : TicketClass)
    → Allowed (r + s) c
    → Row k r s tc
    → Row k r s (write_column c tc)
unfolding write_column
write_column-Row k r s (set_name v) tc a h = h
write_column-Row k r s (set_currency v) tc a h = h
write_column-Row k r s (set_price_cents v) tc a h = h
write_column-Row k r s (set_total v) tc a h = (h.0, h.1, h.2, a)
write_column-Row k r s (set_sale_start_at v) tc a h = h
write_column-Row k r s (set_sale_end_at v) tc a h = h
write_column-Row k r s (set_status v) tc a h = h

write_columns-Row :
    (k r s : ℕ) (cs : List Column) (tc : TicketClass)
    → All (Allowed (r + s)) cs
    → Row k r s tc
    → Row k r s (write_columns cs tc)
unfolding write_columns
write_columns-Row k r s [] tc a h = h
write_columns-Row k r s (c ∷ cs) tc a h =
    write_columns-Row k r s cs (write_column c tc) a.1 (write_column-Row k r s c tc a.0 h)

write_column-id : (c : Column) (tc : TicketClass) → (write_column c tc).id ≡ tc.id
unfolding write_column
write_column-id (set_name v) tc = refl
write_column-id (set_currency v) tc = refl
write_column-id (set_price_cents v) tc = refl
write_column-id (set_total v) tc = refl
write_column-id (set_sale_start_at v) tc = refl
write_column-id (set_sale_end_at v) tc = refl
write_column-id (set_status v) tc = refl

pub write_columns-id : (cs : List Column) (tc : TicketClass) → (write_columns cs tc).id ≡ tc.id
unfolding write_columns
write_columns-id [] tc = refl
write_columns-id (c ∷ cs) tc = write_columns-id cs (write_column c tc) ∙ write_column-id c tc

column-All :
    {A : Type 0} (n : ℕ) (f : A → Column) (o : Option A)
    → ((a : A) → o ≡ some a → Allowed n (f a))
    → All (Allowed n) (column f o)
column-All n f none h = tt
column-All n f (some a) h = (h a refl, tt)

-- The check before the update is what makes its columns allowed.
update_columns-Allowed :
    (i : UpdateTicketClassInput) (tc : TicketClass)
    → below_committed i.total tc ≡ false
    → All (Allowed (tc.reserved + tc.sold)) (update_columns i)
unfolding update_columns
update_columns-Allowed i tc h =
    let n = tc.reserved + tc.sold in
    let P = Allowed n in
    All-append P (column set_name i.name) _ (column-All n set_name i.name (λ a e. tt)) (
      All-append P (column set_price_cents i.price_cents) _
        (column-All n set_price_cents i.price_cents (λ a e. tt))
        (All-append P (column set_currency i.currency) _
          (column-All n set_currency i.currency (λ a e. tt))
          (All-append P (column set_total i.total) _
            (column-All n set_total i.total (λ a e. enough a e))
            (All-append P (column set_sale_start_at i.sale_start_at) _
              (column-All n set_sale_start_at i.sale_start_at (λ a e. tt))
              (All-append P (column set_sale_end_at i.sale_end_at) _
                (column-All n set_sale_end_at i.sale_end_at (λ a e. tt))
                (column-All n set_status i.status (λ a e. tt)))))))
  where
    enough : (a : ℕ) → i.total ≡ some a → tc.reserved + tc.sold ≤ a
    enough a e =
        let below : ltb a (tc.reserved + tc.sold) ≡ false =
          ap (λ o. below_committed o tc) (sym e) ∙ h in
        ground arith

pub find_class-found :
    (P : TicketClass → Type 0) (id : ℕ) (tc : TicketClass) (tcs : List TicketClass)
    → All P tcs
    → find_class id tcs ≡ some tc
    → P tc × (tc.id ≡ id)
find_class-found P id tc [] h e = cc
find_class-found P id tc (x ∷ tcs) h e = elim (Bool-cases (x.id == id)) [
  | inl z ↦
      let same : x ≡ tc = some-injective _ _ (rw z at e) in
      (subst P same h.0, ap (λ y. y.id) (sym same) ∙ (==_iff x.id id).0 z)
  | inr z ↦ find_class-found P id tc tcs h.1 (rw z at e)
]

-- The columns of one class, written where they are allowed.
written-Books :
    (a s : ℕ → ℕ) (id : ℕ) (cs : List Column) (tcs : List TicketClass)
    → All (Allowed (a id + s id)) cs
    → Books a s tcs
    → Books a s (update_where (λ tc. tc.id == id) (write_columns cs) tcs)
written-Books a s id cs [] al h = tt
written-Books a s id cs (tc ∷ tcs) al h = elim (Bool-cases (tc.id == id)) [
  | inl z ↦
      let e : tc.id ≡ id = (==_iff tc.id id).0 z in
      let w : Row id (a id) (s id) (write_columns cs tc) =
        write_columns-Row id (a id) (s id) cs tc al (
          e,
          h.0.0 ∙ ap a e,
          h.0.1 ∙ ap s e,
          omega (arith, h.0.0 ∙ ap a e, h.0.1 ∙ ap s e, h.0.2),
        ) in
      rw z (
        (w.1 ∙ ap a (sym w.0), w.2 ∙ ap s (sym w.0), omega (arith, w.1, w.2, w.3)),
        written-Books a s id cs tcs al h.1,
      )
  | inr z ↦ rw z (h.0, written-Books a s id cs tcs al h.1)
]

written-Inv :
    (id : ℕ) (cs : List Column) (d : Db)
    → All
        (Allowed (
          held ReservationStatus.active d.reservations id
          + held ReservationStatus.confirmed d.reservations id))
        cs
    → Inv d
    → Inv (set_classes (update_where (λ tc. tc.id == id) (write_columns cs) d.ticket_classes) d)
written-Inv id cs d al v =
    let p : TicketClass → Bool = λ tc. tc.id == id in
    let f = write_columns cs in
    let keeps : (tc : TicketClass) → (f tc).id ≡ tc.id = write_columns-id cs in
    record {
      books =
          written-Books (held ReservationStatus.active d.reservations)
            (held ReservationStatus.confirmed d.reservations) id cs d.ticket_classes al v.books;
      unique_classes = update_where-Unique class_id p f keeps d.ticket_classes v.unique_classes;
      unique_rows = v.unique_rows;
      class_ids =
          update_where-All class_id p f keeps (λ k. k < d.next_class_id) d.ticket_classes
            v.class_ids;
      row_ids = v.row_ids;
      owned =
          All-mono (HasClass d.ticket_classes) (HasClass (update_where p f d.ticket_classes))
            (λ r e. any-update_where p f keeps r.ticket_class_id d.ticket_classes ∙ e)
            d.reservations v.owned;
    }

write_class-Ends :
    (id : ℕ) (cs : List Column) (t : Session)
    → All
        (Allowed (
          held ReservationStatus.active t.db.reservations id
          + held ReservationStatus.confirmed t.db.reservations id))
        cs
    → Inv t.db
    → Ends (λ _ d. Inv d) (λ _. Unit) (write_class id cs t)
write_class-Ends id cs t al v =
    let tcs = update_where (λ tc. tc.id == id) (write_columns cs) t.db.ticket_classes in
    statement-Ends (λ _ d. Inv d) (λ _. Unit) (write_row id cs) t tt
      (λ u d e. elim (Bool-cases (any (λ tc. (tc.id == id) && name_taken tc tcs) tcs)) [
        | inl z ↦
            let impossible : ◌≡◌ {A = Option (Unit {0} × Db)} none (some (u, d)) = rw z at e in cc
        | inr z ↦
            let same : ◌≡◌ {A = Unit {0} × Db} (tt, set_classes tcs t.db) (u, d) =
              some-injective _ _ (rw z at e) in
            subst Inv (ap (λ x. x.1) same) (written-Inv id cs t.db al v)
      ])

pub first_or-Ends :
    {A : Type 0} (I : Db → Type 0) (missing : Tx A) (f : TicketClass → Tx A) (id : ℕ) (t : Session)
    → I t.db
    → ((u : Session) → I u.db → Ends (λ _ d. I d) (λ _. Unit) (missing u))
    → ((tc : TicketClass) (u : Session)
        → I u.db
        → find_class id u.db.ticket_classes ≡ some tc
        → Ends (λ _ d. I d) (λ _. Unit) (f tc u))
    → Ends (λ _ d. I d) (λ _. Unit) ((first id >>= first_or missing f) t)
first_or-Ends I missing f id t v m k =
    let Q : Option TicketClass → Db → Type 0 = λ o d. I d × (find_class id d.ticket_classes ≡ o) in
    >>=-Ends (λ _ d. I d) (λ _. Unit) Q (first id) (first_or missing f) t
      (query-Ends Q (λ _. Unit) (λ d. find_class id d.ticket_classes) t tt (v, refl)) by_row
  where
    by_row :
        (o : Option TicketClass) (u : Session)
        → I u.db × (find_class id u.db.ticket_classes ≡ o)
        → Ends (λ _ d. I d) (λ _. Unit) (first_or missing f o u)
    by_row none u h = m u h.0
    by_row (some tc) u h = k tc u h.0 h.1

write_and_reload-Ends :
    (id : ℕ) (cs : List Column) (tc : TicketClass) (t : Session)
    → All
        (Allowed (
          held ReservationStatus.active t.db.reservations id
          + held ReservationStatus.confirmed t.db.reservations id))
        cs
    → Inv t.db
    → Ends (λ _ d. Inv d) (λ _. Unit) (write_and_reload id cs tc t)
unfolding write_and_reload
write_and_reload-Ends id [] tc t al v = v
write_and_reload-Ends id (c ∷ cs) tc t al v =
    >>=-Ends (λ _ d. Inv d) (λ _. Unit) (λ _ d. Inv d) (write_class id (c ∷ cs) >> first id)
      (first_or (raise record_not_found) pure) t
      (>>=-Ends (λ _ d. Inv d) (λ _. Unit) (λ _ d. Inv d) (write_class id (c ∷ cs)) (λ _. first id)
        t (write_class-Ends id (c ∷ cs) t al v)
        (λ b u w.
          query-Ends (λ _ d. Inv d) (λ _. Unit) (λ d. find_class id d.ticket_classes) u tt w))
      reload
  where
    reload :
        (o : Option TicketClass) (u : Session)
        → Inv u.db
        → Ends (λ _ d. Inv d) (λ _. Unit) (first_or (raise record_not_found) pure o u)
    reload none u w = tt
    reload (some x) u w = w

update_row-Ends :
    (id : ℕ) (i : UpdateTicketClassInput) (tc : TicketClass) (t : Session)
    → Inv t.db
    → find_class id t.db.ticket_classes ≡ some tc
    → Ends (λ _ d. Inv d) (λ _. Unit) (update_row id i tc t)
unfolding update_row
update_row-Ends id i tc t v e =
    let a = held ReservationStatus.active t.db.reservations in
    let s = held ReservationStatus.confirmed t.db.reservations in
    let (c, k) = find_class-found (Counts a s) id tc t.db.ticket_classes v.books e in
    elim (Bool-cases (below_committed i.total tc)) [
      | inl z ↦ rw z tt
      | inr z ↦ rw z (
          write_and_reload-Ends id (update_columns i) tc t
            (subst (λ n. All (Allowed n) (update_columns i))
              (omega (arith, c.0 ∙ ap a k, c.1 ∙ ap s k)) (update_columns-Allowed i tc z))
            v)
    ]

-- An update keeps the invariant, whatever its columns and whichever of its statements fail.
pub update-Inv :
    (id : ℕ) (i : UpdateTicketClassInput) (t : Session) → Inv t.db → Inv (db_after (update id i t))
unfolding update
update-Inv id i t v =
    transaction-keeps Inv (first id >>= first_or (raise not_found) (update_row id i)) t v (
      first_or-Ends Inv (raise not_found) (update_row id i) id t v (λ u w. tt)
        (λ tc u w e. update_row-Ends id i tc u w e))
