-- ===== src/Inventory/Invariant/Update.antt =====
-- What one guarded UPDATE of a ticket class does to the state inside a transaction.
use ticket_event_pf.Prelude.{
  ℕ, ◌<◌, ◌≡◌, refl, ap, ◌∙◌, subst, ◌≢◌, Bool, true, false, ◌&&◌, List, [], ◌∷◌, arith, ◌==◌,
  ==_iff, Bool-cases, inl, inr, any, All-mono, Unique, Fresh,
}
use ticket_event_pf.Inventory.Model.{TicketClass, Db, Error, db_failure}
use ticket_event_pf.Inventory.Tx.{
  Session, Ends, write-Ends, update_where, count_where, update_where-key, update_where-All,
  update_where-Unique, update_where_none,
}
use ticket_event_pf.Inventory.Tables.{update_class, set_classes}
use ticket_event_pf.Inventory.Invariant.{Counts, Books, Pending, class_id, HasClass, Pending-ext}

-- A guarded update of the class `id` that changes a row takes its books from one pair of counts
-- to another, if it does so for that class and the counts agree on the others.
module _ (id : ℕ) (guard : TicketClass → Bool) (f : TicketClass → TicketClass) (a a' s s' : ℕ → ℕ)
    (hit : (tc : TicketClass) → tc.id ≡ id → guard tc ≡ true → Counts a s tc → Counts a' s' (f tc))
    (miss : (c : ℕ) → c ≢ id → (a c ≡ a' c) × (s c ≡ s' c)) where
  abbrev matches : TicketClass → Bool
  matches tc = (tc.id == id) && guard tc

  kept : (tc : TicketClass) → tc.id ≢ id → Counts a s tc → Counts a' s' tc
  kept tc ne h = (h.0 ∙ (miss tc.id ne).0, h.1 ∙ (miss tc.id ne).1, h.2)

  others :
      (tcs : List TicketClass)
      → Fresh class_id id tcs
      → Books a s tcs
      → Books a' s' (update_where matches f tcs)
  others [] u h = tt
  others (tc ∷ tcs) u h =
      let e : (tc.id == id) ≡ false = ground arith in rw e (kept tc u.0 h.0, others tcs u.1 h.1)

  none_matches : (tcs : List TicketClass) → Fresh class_id id tcs → count_where matches tcs ≡ 0
  none_matches [] u = refl
  none_matches (tc ∷ tcs) u = ground (arith, none_matches tcs u.1)

  same_id : (tc : TicketClass) → matches tc ≡ true → tc.id ≡ id
  same_id tc m = ground arith

  id_differs :
      (tc : TicketClass) (tcs : List TicketClass)
      → matches tc ≡ false
      → Fresh class_id tc.id tcs
      → (count_where matches (tc ∷ tcs) == 0) ≡ false
      → tc.id ≢ id
  id_differs tc tcs m u n e =
      ground (arith, none_matches tcs (subst (λ k. Fresh class_id k tcs) e u))

  pub update_class-Books :
      (tcs : List TicketClass)
      → Unique class_id tcs
      → (count_where matches tcs == 0) ≡ false
      → Books a s tcs
      → Books a' s' (update_where matches f tcs)
  update_class-Books [] u n h = tt
  update_class-Books (tc ∷ tcs) u n h = elim (Bool-cases (matches tc)) [
    | inl m ↦ rw m (
      hit tc (ground arith) (ground arith) h.0,
      others tcs (subst (λ k. Fresh class_id k tcs) (same_id tc m) u.0) h.1,
    )
    | inr m ↦
        rw m (kept tc (id_differs tc tcs m u.0 n) h.0, update_class-Books tcs u.1 (rw m at n) h.1)
  ]

-- The class `id` is in the table.
abbrev pub Exists : List TicketClass → ℕ → Type 0
Exists tcs id = any (λ tc. tc.id == id) tcs ≡ true

pub any-update_where :
    (p : TicketClass → Bool) (f : TicketClass → TicketClass)
    → ((tc : TicketClass) → (f tc).id ≡ tc.id)
    → (id : ℕ) (tcs : List TicketClass)
    → any (λ tc. tc.id == id) (update_where p f tcs) ≡ any (λ tc. tc.id == id) tcs
any-update_where p f keeps id [] = refl
any-update_where p f keeps id (tc ∷ tcs) =
    rw (update_where-key class_id p f keeps tc, any-update_where p f keeps id tcs) refl

-- A later state of a transaction that began its updates at `d₀`: the counters stand at `a` and `s`,
-- and the reservations and the set of classes are those of `d₀`.
abbrev pub Later : Db → (ℕ → ℕ) → (ℕ → ℕ) → Db → Type 0
Later d₀ a s d =
    Pending a s d
    × (d.reservations ≡ d₀.reservations)
    × ((k : ℕ) → Exists d₀.ticket_classes k → Exists d.ticket_classes k)

pub Later-refl : (a s : ℕ → ℕ) (d : Db) → Pending a s d → Later d a s d
Later-refl a s d h = (h, refl, λ k e. e)

pub Later-ext :
    (d₀ : Db) (a a' s s' : ℕ → ℕ) (d : Db)
    → ((c : ℕ) → a c ≡ a' c)
    → ((c : ℕ) → s c ≡ s' c)
    → Later d₀ a s d
    → Later d₀ a' s' d
Later-ext d₀ a a' s s' d p q (h, r, x) = (Pending-ext a a' s s' d p q h, r, x)

-- It changes the class, or it changes nothing and reports no row.
abbrev pub Updates : Db → (ℕ → ℕ) → (ℕ → ℕ) → Db → ℕ → Db → Type 0
Updates d₀ a s before n d = ((n == 0) ≡ false → Later d₀ a s d) × ((n == 0) ≡ true → d ≡ before)

-- It changes the class.
abbrev pub Hits : Db → (ℕ → ℕ) → (ℕ → ℕ) → ℕ → Db → Type 0
Hits d₀ a s n d = ((n == 0) ≡ false) × Later d₀ a s d

-- A guarded update of one class, from the counters `a`, `s` to `a'`, `s'`.
module _ (E : Error → Type 0) (fails : E db_failure) (id : ℕ) (guard : TicketClass → Bool)
    (f : TicketClass → TicketClass) (keeps : (tc : TicketClass) → (f tc).id ≡ tc.id)
    (a a' s s' : ℕ → ℕ)
    (hit : (tc : TicketClass) → tc.id ≡ id → guard tc ≡ true → Counts a s tc → Counts a' s' (f tc))
    (miss : (c : ℕ) → c ≢ id → (a c ≡ a' c) × (s c ≡ s' c)) where
  abbrev chosen : TicketClass → Bool
  chosen tc = (tc.id == id) && guard tc

  abbrev count : Db → ℕ
  count d = count_where chosen d.ticket_classes

  abbrev write : Db → Db
  write d = set_classes (update_where chosen f d.ticket_classes) d

  updated-Pending :
      (d : Db)
      → (count_where chosen d.ticket_classes == 0) ≡ false
      → Pending a s d
      → Pending a' s' (set_classes (update_where chosen f d.ticket_classes) d)
  updated-Pending d n h = record {
    books =
        update_class-Books id guard f a a' s s' hit miss d.ticket_classes h.unique_classes n
          h.books;
    unique_classes = update_where-Unique class_id chosen f keeps d.ticket_classes h.unique_classes;
    unique_rows = h.unique_rows;
    class_ids =
        update_where-All class_id chosen f keeps (λ k. k < d.next_class_id) d.ticket_classes
          h.class_ids;
    row_ids = h.row_ids;
    owned =
        All-mono (HasClass d.ticket_classes) (HasClass (update_where chosen f d.ticket_classes))
          (λ r e. any-update_where chosen f keeps r.ticket_class_id d.ticket_classes ∙ e)
          d.reservations h.owned;
  }

  updated-Later :
      (d₀ d : Db)
      → (count_where chosen d.ticket_classes == 0) ≡ false
      → Later d₀ a s d
      → Later d₀ a' s' (set_classes (update_where chosen f d.ticket_classes) d)
  updated-Later d₀ d n (h, r, x) =
      (updated-Pending d n h, r, λ k e. any-update_where chosen f keeps k d.ticket_classes ∙ x k e)

  pub update_class-Ends :
      (d₀ : Db) (t : Session)
      → Later d₀ a s t.db
      → Ends (Updates d₀ a' s' t.db) E (update_class id guard f t)
  update_class-Ends d₀ t h = elim (Bool-cases (count_where chosen t.db.ticket_classes == 0)) [
    | inl e ↦ write-Ends (Updates d₀ a' s' t.db) E count write t fails (
      (λ n. cc),
      λ _. ap (λ tcs. set_classes tcs t.db) (update_where_none chosen f t.db.ticket_classes e),
    )
    | inr e ↦
        write-Ends (Updates d₀ a' s' t.db) E count write t fails
          ((λ n. updated-Later d₀ t.db n h), λ n. cc)
  ]

  -- It does change the class if that exists and its guard holds by the counters.
  module _ (sure : (tc : TicketClass) → tc.id ≡ id → Counts a s tc → guard tc ≡ true) where
    some_chosen :
        (tcs : List TicketClass)
        → Exists tcs id
        → Books a s tcs
        → (count_where chosen tcs == 0) ≡ false
    some_chosen [] x h = cc
    some_chosen (tc ∷ tcs) x h = elim (Bool-cases (tc.id == id)) [
      | inl e ↦ ground (arith, sure tc ((==_iff tc.id id).0 e) h.0)
      | inr e ↦ ground (arith, some_chosen tcs (rw e at x) h.1)
    ]

    pub update_class-Hits-Ends :
        (d₀ : Db) (t : Session)
        → Exists d₀.ticket_classes id
        → Later d₀ a s t.db
        → Ends (Hits d₀ a' s') E (update_class id guard f t)
    update_class-Hits-Ends d₀ t x h =
        let n = some_chosen t.db.ticket_classes (h.2 id x) h.0.books in
        write-Ends (Hits d₀ a' s') E count write t fails (n, updated-Later d₀ t.db n h)
