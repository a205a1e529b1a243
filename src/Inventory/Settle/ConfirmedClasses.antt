-- ===== src/Inventory/Settle/ConfirmedClasses.antt =====
-- `Confirm` keeps the counters those of the reservations: the loop over the classes.
use ticket_event_pf.Prelude.{
  ℕ, ◌+◌, ◌-◌, ◌≡◌, refl, inl, inr, List, [], ◌∷◌, arith, leb, ltb, ◌==◌, if◌then◌else◌, Bool-cases,
  All, Dict, get, due,
}
use ticket_event_pf.Inventory.Model.{Db, Error, db_failure, state_conflict, inventory_drift}
use ticket_event_pf.Inventory.Tx.{Session, Ends, >>=-Ends, ◌>>◌}
use ticket_event_pf.Inventory.Tables.{update_class}
use ticket_event_pf.Inventory.Settle.{
  affected_or, ConfirmDelta, no_delta, sell_reserved, sell_free, move_reserved, take_free,
  confirm_classes,
}
use ticket_event_pf.Inventory.Invariant.Update.{
  Exists, Later, Later-ext, Hits, Updates, update_class-Ends, update_class-Hits-Ends,
}

module _ (E : Error → Type 0) (fails : E db_failure) (d₀ : Db) where
  -- A count that the class `id` moves by `q`.
  abbrev moved : (ℕ → ℕ) → ℕ → ℕ → ℕ → ℕ
  moved s id q c = s c + (if id == c then q else 0)

  move_reserved-Ends :
      (a s : ℕ → ℕ) (id q : ℕ) (t : Session)
      → Exists d₀.ticket_classes id
      → Later d₀ (moved a id q) s t.db
      → Ends (λ _ d. Later d₀ a (moved s id q) d) E (move_reserved id q t)
  unfolding move_reserved
  move_reserved-Ends a s id q t x h = elim (Bool-cases (ltb 0 q)) [
    | inl e ↦ rw e (
        >>=-Ends (λ _ d. Later d₀ a (moved s id q) d) E (Hits d₀ a (moved s id q))
          (update_class id (λ tc. leb q tc.reserved) (sell_reserved q))
          (affected_or inventory_drift) t
          (update_class-Hits-Ends E fails id (λ tc. leb q tc.reserved) (sell_reserved q)
            (λ tc. refl) (moved a id q) a s (moved s id q) (λ tc e g h. ground arith)
            (λ c ne. ground arith) (λ tc e h. ground arith) d₀ t x h)
          (λ n u p. rw (p.0) (p.1)))
    | inr e ↦ rw e (
        Later-ext d₀ (moved a id q) a s (moved s id q) t.db (λ c. ground arith) (λ c. ground arith)
          h)
  ]

  take_free-Ends :
      (a s : ℕ → ℕ) (id q : ℕ) (t : Session)
      → E state_conflict
      → Later d₀ a s t.db
      → Ends (λ _ d. Later d₀ a (moved s id q) d) E (take_free id q t)
  unfolding take_free
  take_free-Ends a s id q t refused h = elim (Bool-cases (ltb 0 q)) [
    | inl e ↦ rw e (
        >>=-Ends (λ _ d. Later d₀ a (moved s id q) d) E (Updates d₀ a (moved s id q) t.db)
          (update_class id (λ tc. leb q (tc.total - tc.reserved - tc.sold)) (sell_free q))
          (affected_or state_conflict) t
          (update_class-Ends E fails id (λ tc. leb q (tc.total - tc.reserved - tc.sold))
            (sell_free q) (λ tc. refl) a a s (moved s id q) (λ tc e' g h. ground arith)
            (λ c ne. ground arith) d₀ t h)
          (λ n u p. elim (Bool-cases (n == 0)) [ inl z ↦ rw z refused | inr z ↦ rw z (p.0 z) ]))
    | inr e ↦ rw e (Later-ext d₀ a a s (moved s id q) t.db (λ c. refl) (λ c. ground arith) h)
  ]

  module _ (b sold : ℕ → ℕ) (ds : Dict ConfirmDelta) where
    abbrev from_reserved_of : ℕ → ℕ
    from_reserved_of k = (get no_delta ds k).from_reserved

    abbrev from_free_of : ℕ → ℕ
    from_free_of k = (get no_delta ds k).from_free

    abbrev left : List ℕ → ℕ → ℕ
    left ids c = b c + due from_reserved_of c ids

    -- `s` falls short of `sold` by what the classes left over are still to be handed.
    pub confirm_classes-Ends :
        (ids : List ℕ) (s : ℕ → ℕ) (t : Session)
        → E state_conflict
        → All (Exists d₀.ticket_classes) ids
        → ((c : ℕ) → s c + due from_reserved_of c ids + due from_free_of c ids ≡ sold c)
        → Later d₀ (left ids) s t.db
        → Ends (λ _ d. Later d₀ b sold d) E (confirm_classes ds ids t)
    unfolding confirm_classes
    confirm_classes-Ends [] s t refused x e h =
        Later-ext d₀ (left []) b s sold t.db (λ c. omega arith) (λ c. omega (arith, e c)) h
    confirm_classes-Ends (id ∷ ids) s t refused x e h =
        let r = from_reserved_of id in
        let f = from_free_of id in
        >>=-Ends (λ _ d. Later d₀ b sold d) E
          (λ _ d. Later d₀ (left ids) (moved (moved s id r) id f) d)
          (move_reserved id r >> take_free id f) (λ _. confirm_classes ds ids) t
          (>>=-Ends (λ _ d. Later d₀ (left ids) (moved (moved s id r) id f) d) E
            (λ _ d. Later d₀ (left ids) (moved s id r) d) (move_reserved id r) (λ _. take_free id f)
            t
            (move_reserved-Ends (left ids) s id r t x.0 (
              Later-ext d₀ (left (id ∷ ids)) (moved (left ids) id r) s s t.db (λ c. ground arith)
                (λ c. refl) h))
            (λ _ u h'. take_free-Ends (left ids) (moved s id r) id f u refused h'))
          (λ _ u h'.
            confirm_classes-Ends ids (moved (moved s id r) id f) u refused x.1
              (λ c. ground (arith, e c)) h')
