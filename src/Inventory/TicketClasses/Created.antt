-- ===== src/Inventory/TicketClasses/Created.antt =====
-- `Create` of a ticket class: the new class starts with nothing reserved or sold.
use mathlib.Core.Option.{some-injective}
use ticket_event_pf.Prelude.{
  ℕ, suc, ◌<◌, ◌≡◌, refl, sym, ap, ◌∙◌, subst, ◌≢◌, Bool, true, Option, none, some, List, [], ◌∷◌,
  ◌++◌, arith, ◌==◌, Bool-cases, inl, inr, any, All, All-append, All-mono, Unique-append,
}
use ticket_event_pf.Inventory.Model.{
  TicketClass, Reservation, ReservationStatus, Db, CreateTicketClassInput,
}
use ticket_event_pf.Inventory.Tx.{Session, statement-keeps, db_after}
use ticket_event_pf.Inventory.Invariant.{Inv, class_id, HasClass, held}
use ticket_event_pf.Inventory.TicketClasses.{build_model, name_taken, create, insert_class}

-- No row names the next id.
unheld :
    (s : ReservationStatus) (k : ℕ) (tcs : List TicketClass) (rs : List Reservation)
    → All (λ (tc : TicketClass). tc.id < k) tcs
    → All (HasClass tcs) rs
    → held s rs k ≡ 0
unfolding held
unheld s k tcs [] l h = refl
unheld s k tcs (r ∷ rs) l h = ground (arith, unheld s k tcs rs l h.1, named tcs l h.0)
  where
    named :
        (xs : List TicketClass)
        → All (λ (tc : TicketClass). tc.id < k) xs
        → any (λ tc. tc.id == r.ticket_class_id) xs ≡ true
        → r.ticket_class_id < k
    named [] l e = cc
    named (x ∷ xs) l e = elim (Bool-cases (x.id == r.ticket_class_id)) [
      | inl z ↦ ground arith
      | inr z ↦ named xs l.1 (rw z at e)
    ]

any-append :
    (p : TicketClass → Bool) (tcs : List TicketClass) (tc : TicketClass)
    → any p tcs ≡ true
    → any p (tcs ++ tc ∷ []) ≡ true
any-append p [] tc h = cc
any-append p (x ∷ xs) tc h = ground (arith, any-append p xs tc)

created-Inv :
    (d : Db) (tc : TicketClass)
    → tc.reserved ≡ 0
    → tc.sold ≡ 0
    → Inv d
    → Inv (record d {
      ticket_classes = d.ticket_classes ++ record tc { id = d.next_class_id } ∷ [];
      next_class_id = suc d.next_class_id;
    })
created-Inv d tc r s v =
    let row : TicketClass = record tc { id = d.next_class_id } in
    let zero_of = λ (st : ReservationStatus).
      unheld st d.next_class_id d.ticket_classes d.reservations v.class_ids v.owned in
    record {
      books = All-append _ d.ticket_classes (row ∷ []) v.books (
        (
          r ∙ sym (zero_of ReservationStatus.active),
          s ∙ sym (zero_of ReservationStatus.confirmed),
          omega (arith, r, s),
        ),
        tt,
      );
      unique_classes = Unique-append class_id d.ticket_classes row v.unique_classes (
          All-mono (λ (x : TicketClass). x.id < d.next_class_id) (λ x. x.id ≢ d.next_class_id)
            (λ x l. omega arith) d.ticket_classes v.class_ids);
      unique_rows = v.unique_rows;
      class_ids =
          All-append (λ (x : TicketClass). x.id < suc d.next_class_id) d.ticket_classes _
            (All-mono (λ (x : TicketClass). x.id < d.next_class_id)
              (λ x. x.id < suc d.next_class_id) (λ x l. omega arith) d.ticket_classes v.class_ids)
            (omega arith, tt);
      row_ids = v.row_ids;
      owned =
          All-mono (HasClass d.ticket_classes) (HasClass (d.ticket_classes ++ row ∷ []))
            (λ x e. any-append (λ y. y.id == x.ticket_class_id) d.ticket_classes row e)
            d.reservations v.owned;
    }

-- A create of a class keeps the invariant, whether or not it is refused or fails.
pub create-Inv : (i : CreateTicketClassInput) (t : Session) → Inv t.db → Inv (db_after (create i t))
unfolding create build_model
create-Inv i t v =
    let tc : TicketClass = build_model i in
    let row : TicketClass = record tc { id = t.db.next_class_id } in
    statement-keeps Inv (insert_class tc) t v (λ r d e.
      elim (Bool-cases (name_taken row t.db.ticket_classes)) [
        | inl z ↦
            let impossible : ◌≡◌ {A = Option (TicketClass × Db)} none (some (r, d)) = rw z at e in
            cc
        | inr z ↦
            subst Inv (ap (λ x. x.1) (some-injective _ _ (rw z at e)))
              (created-Inv t.db tc refl refl v)
      ])
