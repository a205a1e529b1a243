-- ===== src/Order/Claimed.antt =====
-- Who holds a purchase slot.
use ticket_event_pf.Prelude.{
  ℕ, zero, suc, ◌≡◌, refl, ap, ◌∙◌, ◌⊎◌, String, Bool, true, false, not, ◌&&◌, Option, none, some,
  List, [], ◌∷◌, ◌++◌, if◌then◌else◌, str_eq, Bool-cases, inl, inr, rows_where,
}
use ticket_event_pf.Order.Model.{Slot, Error}
use ticket_event_pf.Order.World.{Result, ok, err, World, Services, Act, pure, ◌>>=◌}
use ticket_event_pf.Order.Slots.{
  find_slot, held_by_order, winner_of, claim_of, put_slot, put_claim, get_winner,
  claim_purchase_slot, release_purchase_slot, set_slots,
}
use ticket_event_pf.Order.PurchaseSlot.{
  CreateOrderOutput, is_released, retake, claim_loop, resume_existing_order,
}
use ticket_event_pf.Order.Outcome.{Ends, >>=-Ends, remote-Ends}
use text.Mathlib.TextEquality.{eq_iff}

find_slot-append :
    (k : String) (ss : List Slot) (s : Slot)
    → find_slot k ss ≡ none
    → s.dedupe_key ≡ k
    → find_slot k (ss ++ s ∷ []) ≡ some s
find_slot-append k [] s h e = rw e (rw ((eq_iff k k).1 refl) refl)
find_slot-append k (x ∷ ss) s h e = elim (Bool-cases (str_eq x.dedupe_key k)) [
  | inl z ↦ let impossible : ◌≡◌ {A = Option Slot} (some x) none = rw z at h in cc
  | inr z ↦ rw z (find_slot-append k ss s (rw z at h) e)
]

-- The order whose claim on the slot stands.
abbrev pub holder : String → List Slot → Option String
holder k ss = elim (find_slot k ss) [ none ↦ none | some s ↦ s.order_code ]

module _ {S : Type 0} (k code : String) (w : World S) where
  -- A put that takes the slot found it free and leaves it to `code`; one that does not changes nothing.
  abbrev Put : Bool → World S → Type 0
  Put b v =
      ((b ≡ true) × (find_slot k w.slots ≡ none) × (holder k v.slots ≡ some code))
      ⊎ ((b ≡ false) × (v.slots ≡ w.slots))

  abbrev pub Claims : Option (String × Option ℕ) → World S → Type 0
  Claims none v = (find_slot k w.slots ≡ none) × (holder k v.slots ≡ some code)
  Claims (some x) v = (x ≡ winner_of (find_slot k w.slots)) × (v.slots ≡ w.slots)

  put_claim-Ends : Ends Put (λ e v. Unit) (put_claim k code w)
  unfolding put_claim
  put_claim-Ends =
      remote-Ends Put (λ e v. Unit) (λ u. put_slot k code (find_slot k u.slots) u) w
        (λ fs. by_slot (record w { faults = fs }) refl (find_slot k w.slots) refl) (λ fs. tt)
        (λ fs. tt)
    where
      taken :
          (ss : List Slot) (s : Slot)
          → find_slot k ss ≡ none
          → s.dedupe_key ≡ k
          → holder k (ss ++ s ∷ []) ≡ s.order_code
      taken ss s h e =
          ap
            (λ (o : Option Slot). elim o as (λ _. Option String) [
              | none ↦ none
              | some x ↦ x.order_code
            ])
            (find_slot-append k ss s h e)

      by_slot :
          (u : World S)
          → u.slots ≡ w.slots
          → (o : Option Slot) → find_slot k w.slots ≡ o
          → Ends Put (λ e v. Unit) (put_slot k code o u)
      by_slot u e none h =
          inl (refl, h, taken u.slots (claim_of k code u.now) (ap (find_slot k) e ∙ h) refl)
      by_slot u e (some s) h = inr (refl, e)

  -- Under any schedule of faults, a claim that is won found the slot free and leaves it to the order;
  -- a claim that is lost changes no slot and names the order that holds it and since when.
  pub claim_purchase_slot-Claims : Ends Claims (λ e v. Unit {0}) (claim_purchase_slot k code w)
  unfolding claim_purchase_slot get_winner
  claim_purchase_slot-Claims =
      >>=-Ends Claims (λ e v. Unit) Put (put_claim k code)
        (λ won. if won then pure none else (get_winner k >>= λ x. pure (some x))) w put_claim-Ends
        by_put
    where
      by_put :
          (b : Bool) (v : World S)
          → Put b v
          → Ends Claims
              (λ e v. Unit)
              ((if b then pure none else (get_winner k >>= λ x. pure (some x))) v)
      by_put b v (inl h) = rw h.0 (h.1, h.2)
      by_put b v (inr h) = rw h.0 (
          >>=-Ends Claims (λ e v. Unit)
            (λ x u. (x ≡ winner_of (find_slot k w.slots)) × (u.slots ≡ w.slots)) (get_winner k)
            (λ x. pure (some x)) v
            (remote-Ends (λ x u. (x ≡ winner_of (find_slot k w.slots)) × (u.slots ≡ w.slots))
              (λ e v. Unit) (λ u. (ok (winner_of (find_slot k u.slots)), u)) v
              (λ fs. (ap (λ ss. winner_of (find_slot k ss)) h.1, h.1)) (λ fs. tt) (λ fs. tt))
            (λ x u q. q))

-- What `release_purchase_slot k code` deletes.
abbrev dropped : String → String → Slot → Bool
dropped k code s = str_eq s.dedupe_key k && held_by_order code s

find_slot-kept :
    (k code j : String) (ss : List Slot)
    → ((s : Slot) → find_slot j ss ≡ some s → dropped k code s ≡ false)
    → find_slot j (rows_where (λ s. not (dropped k code s)) ss) ≡ find_slot j ss
find_slot-kept k code j [] h = refl
find_slot-kept k code j (x ∷ ss) h = elim (Bool-cases (str_eq x.dedupe_key j)) [
  | inl z ↦ let e : dropped k code x ≡ false = h x (rw z refl) in rw e (rw z refl)
  | inr z ↦
      let rest = find_slot-kept k code j ss (λ s e. h s (rw z e)) in
      elim (Bool-cases (dropped k code x)) [ inl y ↦ rw y (rw z rest) | inr y ↦ rw y (rw z rest) ]
]

-- Under any schedule of faults, a release leaves the slot of any key as it is, unless it is the slot
-- of the key released and names the order that releases it.
pub release_purchase_slot-others :
    {S : Type 0} (k code j : String) (w : World S)
    → ((s : Slot)
        → find_slot j w.slots ≡ some s
        → (str_eq s.dedupe_key k && held_by_order code s) ≡ false)
    → find_slot j (release_purchase_slot k code w).1.slots ≡ find_slot j w.slots
unfolding release_purchase_slot
release_purchase_slot-others {S} k code j w h = both (release_purchase_slot k code w) (
    remote-Ends Kept KeptE
      (λ u. (ok tt, set_slots (rows_where (λ s. not (dropped k code s)) u.slots) u)) w
      (λ fs. find_slot-kept k code j w.slots h) (λ fs. refl)
      (λ fs. find_slot-kept k code j w.slots h))
  where
    Kept : Unit {0} → World S → Type 0
    Kept u v = find_slot j v.slots ≡ find_slot j w.slots

    KeptE : Error → World S → Type 0
    KeptE e v = find_slot j v.slots ≡ find_slot j w.slots

    both :
        (r : Result (Unit {0}) × World S)
        → Ends Kept KeptE r
        → find_slot j r.1.slots ≡ find_slot j w.slots
    both (ok u, v) h = h
    both (err e, v) h = h

-- The claim loop.
module _ {S : Type 0} (sv : Services S) (create_timeout : ℕ) (k code method : String) where
  abbrev Holds : Option CreateOrderOutput → World S → Type 0
  Holds x v = x ≡ none → holder k v.slots ≡ some code

  retake-Ends :
      (again : Act S (Option CreateOrderOutput))
      → ((v : World S) → Ends Holds (λ e u. Unit {0}) (again v))
      → (r : Result CreateOrderOutput × World S) → Ends Holds (λ e u. Unit {0}) (retake again r)
  retake-Ends again h (ok out, v) =
      λ e. let impossible : ◌≡◌ {A = Option CreateOrderOutput} (some out) none = e in cc
  retake-Ends again h (err e, v) = elim (Bool-cases (is_released e)) [
    | inl z ↦ rw z (h v)
    | inr z ↦ rw z tt
  ]

  -- Under any schedule of faults, and for any number of attempts, a create that the claim loop lets pass
  -- holds the slot for its own order.
  pub claim_loop-holds :
      (attempts : ℕ) (w : World S)
      → Ends
          (λ x v. x ≡ none → holder k v.slots ≡ some code)
          (λ e v. Unit {0})
          (claim_loop attempts sv create_timeout k code method w)
  unfolding claim_loop
  claim_loop-holds zero w = tt
  claim_loop-holds (suc n) w =
      >>=-Ends Holds (λ e v. Unit {0}) (Claims k code w) (claim_purchase_slot k code)
        (λ x. elim x [
          | none ↦ pure none
          | some (held_by, claimed_at) ↦ λ v.
              retake (claim_loop n sv create_timeout k code method)
                (resume_existing_order sv create_timeout k held_by claimed_at method v)
        ])
        w (claim_purchase_slot-Claims k code w) (by_claim (λ t. claim_loop-holds n t))
    where
      by_claim :
          ((t : World S)
            → Ends Holds (λ e u. Unit {0}) (claim_loop n sv create_timeout k code method t))
          → (x : Option (String × Option ℕ)) (v : World S) → Claims k code w x v
          → Ends Holds
              (λ e u. Unit {0})
              (elim x as (λ y. Act S (Option CreateOrderOutput)) [
                | none ↦ pure none
                | some (held_by, claimed_at) ↦ λ t.
                    retake
                      (claim_loop n sv create_timeout k code method)
                      (resume_existing_order sv create_timeout k held_by claimed_at method t)
              ]
                v)
      by_claim rest none v c = λ e. c.1
      by_claim rest (some (held_by, claimed_at)) v c =
          retake-Ends (claim_loop n sv create_timeout k code method) rest
            (resume_existing_order sv create_timeout k held_by claimed_at method v)
