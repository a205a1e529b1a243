-- ===== src/Inventory/Settle/ConfirmedRows.antt =====
-- What the loop of `confirmReservationTx` over the rows of an order collects.
use mathlib.Core.Option.{some-injective}
use mathlib.Core.List.{append_assoc, append-nil}
use ticket_event_pf.Prelude.{
  ℕ, ◌+◌, ◌≡◌, refl, sym, ◌∙◌, subst, ◌⊎◌, inl, inr, List, [], ◌∷◌, ◌++◌, Option, none, some, arith,
  sum_of, All, keys_of, Dict, get, update, keys, IsMap, get-update, update-IsMap, All-keys-update,
}
use ticket_event_pf.Inventory.Model.{Reservation, ReservationStatus}
use ticket_event_pf.Inventory.Settle.{
  ConfirmDelta, no_delta, add_from_reserved, add_from_free, confirm_deltas,
}
use ticket_event_pf.Inventory.Invariant.{row_id, held_by}

-- A row that a confirm accepts: still held, or swept by the expiry worker.
abbrev pub IsSettleable : Reservation → Type 0
IsSettleable r = (r.status ≡ ReservationStatus.active) ⊎ (r.status ≡ ReservationStatus.expired)

pub record Collected (P : ℕ → Type 0) (rs : List Reservation) (ds ds' : Dict ConfirmDelta)
    (ids ids' : List ℕ) : Type 0 where
  pub reserved :
      (c : ℕ)
      → (get no_delta ds' c).from_reserved
        ≡ (get no_delta ds c).from_reserved + sum_of (held_by ReservationStatus.active c) rs
  pub free :
      (c : ℕ)
      → (get no_delta ds' c).from_free
        ≡ (get no_delta ds c).from_free + sum_of (held_by ReservationStatus.expired c) rs
  pub ids_of : ids' ≡ ids ++ keys_of row_id rs
  pub map_kept : IsMap ds → IsMap ds'
  pub keys_kept : All P (keys ds) → All P (keys ds')
  pub settleable : All IsSettleable rs

collect_nothing :
    (P : ℕ → Type 0) (ds : Dict ConfirmDelta) (ids : List ℕ) → Collected P [] ds ds ids ids
collect_nothing P ds ids = record {
  reserved = λ c. omega arith;
  free = λ c. omega arith;
  ids_of = sym (append-nil ids);
  map_kept = λ m. m;
  keys_kept = λ k. k;
  settleable = tt;
}

-- One row, added to the deltas by `f`.
module _ (P : ℕ → Type 0) (r : Reservation) (rs : List Reservation) (ds ds' : Dict ConfirmDelta)
    (ids ids' : List ℕ) (p : P r.ticket_class_id) where
  collect_one :
      (f : ConfirmDelta → ConfirmDelta)
      → IsSettleable r
      → ((d : ConfirmDelta) (c : ℕ)
          → r.ticket_class_id ≡ c
          → ((f d).from_reserved ≡ d.from_reserved + held_by ReservationStatus.active c r)
            × ((f d).from_free ≡ d.from_free + held_by ReservationStatus.expired c r))
      → Collected P rs (update no_delta r.ticket_class_id f ds) ds' (ids ++ r.id ∷ []) ids'
      → Collected P (r ∷ rs) ds ds' ids ids'
  collect_one f e w h = record {
    reserved = λ c. ground (
      arith,
      h.reserved c,
      get-update no_delta r.ticket_class_id f ds c,
      w (get no_delta ds r.ticket_class_id) c,
    );
    free = λ c. ground (
      arith,
      h.free c,
      get-update no_delta r.ticket_class_id f ds c,
      w (get no_delta ds r.ticket_class_id) c,
    );
    ids_of = h.ids_of ∙ append_assoc ids (r.id ∷ []) _;
    map_kept = λ m. h.map_kept (update-IsMap no_delta r.ticket_class_id f ds m);
    keys_kept = λ k. h.keys_kept (All-keys-update P no_delta r.ticket_class_id f ds p k);
    settleable = (e, h.settleable);
  }

  abbrev Continues : Dict ConfirmDelta → Type 0
  Continues m =
      confirm_deltas rs m (ids ++ r.id ∷ []) ≡ some (ds', ids')
      → Collected P rs m ds' (ids ++ r.id ∷ []) ids'

  collect_row :
      (st : ReservationStatus)
      → r.status ≡ st
      → Continues (update no_delta r.ticket_class_id (add_from_reserved r.qty) ds)
      → Continues (update no_delta r.ticket_class_id (add_from_free r.qty) ds)
      → confirm_deltas (r ∷ rs) ds ids ≡ some (ds', ids')
      → Collected P (r ∷ rs) ds ds' ids ids'
  unfolding confirm_deltas
  collect_row ReservationStatus.active e held swept h =
      collect_one (add_from_reserved r.qty) (inl e) (λ d c q. (ground arith, ground arith))
        (held (rw e at h))
  collect_row ReservationStatus.expired e held swept h =
      collect_one (add_from_free r.qty) (inr e) (λ d c q. (ground arith, ground arith))
        (swept (rw e at h))
  collect_row ReservationStatus.confirmed e held swept h =
      let impossible : ◌≡◌ {A = Option (Dict ConfirmDelta × List ℕ)} none (some (ds', ids')) =
        rw e at h in
      cc
  collect_row ReservationStatus.cancelled e held swept h =
      let impossible : ◌≡◌ {A = Option (Dict ConfirmDelta × List ℕ)} none (some (ds', ids')) =
        rw e at h in
      cc

pub confirm_deltas-Collected :
    (P : ℕ → Type 0) (rs : List Reservation) (ds ds' : Dict ConfirmDelta) (ids ids' : List ℕ)
    → All (λ r. P r.ticket_class_id) rs
    → confirm_deltas rs ds ids ≡ some (ds', ids')
    → Collected P rs ds ds' ids ids'
unfolding confirm_deltas
confirm_deltas-Collected P [] ds ds' ids ids' a h =
    let e : ◌≡◌ {A = Dict ConfirmDelta × List ℕ} (ds, ids) (ds', ids') = some-injective _ _ h in
    subst (λ (x : Dict ConfirmDelta × List ℕ). Collected P [] ds x.0 ids x.1) e
      (collect_nothing P ds ids)
confirm_deltas-Collected P (r ∷ rs) ds ds' ids ids' a h =
    collect_row P r rs ds ds' ids ids' a.0 r.status refl
      (confirm_deltas-Collected P rs
        (update no_delta r.ticket_class_id (add_from_reserved r.qty) ds) ds' (ids ++ r.id ∷ []) ids'
        a.1)
      (confirm_deltas-Collected P rs (update no_delta r.ticket_class_id (add_from_free r.qty) ds)
        ds' (ids ++ r.id ∷ []) ids' a.1)
      h
