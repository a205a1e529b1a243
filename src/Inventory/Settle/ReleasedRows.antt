-- ===== src/Inventory/Settle/ReleasedRows.antt =====
-- What the loop of `cancelReservationTx` over the rows of an order collects.
use mathlib.Core.Option.{some-injective}
use mathlib.Core.List.{append_assoc, append-nil}
use ticket_event_pf.Prelude.{
  ℕ, ◌+◌, ◌≡◌, refl, sym, ◌∙◌, subst, Bool, false, List, [], ◌∷◌, ◌++◌, Option, none, some, arith,
  sum_of, All, rows_where, keys_of, Dict, get, update, keys, IsMap, get-update, update-IsMap,
  All-keys-update,
}
use ticket_event_pf.Inventory.Model.{Reservation, ReservationStatus}
use ticket_event_pf.Inventory.Tables.{same_status}
use ticket_event_pf.Inventory.Settle.{release_quantities}
use ticket_event_pf.Inventory.Invariant.{row_id, held_by}

-- What the loop over the rows collects, from the quantities `ups` and the ids `ids`.
abbrev pub is_open : Reservation → Bool
is_open r = same_status ReservationStatus.active r.status

pub record Collected (P : ℕ → Type 0) (rs : List Reservation) (ups ups' : Dict ℕ)
    (ids ids' : List ℕ) : Type 0 where
  pub quantity :
      (c : ℕ) → get 0 ups' c ≡ get 0 ups c + sum_of (held_by ReservationStatus.active c) rs
  pub ids_of : ids' ≡ ids ++ keys_of row_id (rows_where is_open rs)
  pub map_kept : IsMap ups → IsMap ups'
  pub keys_kept : All P (keys ups) → All P (keys ups')

collect_active :
    (P : ℕ → Type 0) (r : Reservation) (rs : List Reservation) (ups ups' : Dict ℕ)
    (ids ids' : List ℕ)
    → r.status ≡ ReservationStatus.active
    → P r.ticket_class_id
    → Collected P rs (update 0 r.ticket_class_id (λ n. n + r.qty) ups) ups' (ids ++ r.id ∷ []) ids'
    → Collected P (r ∷ rs) ups ups' ids ids'
collect_active P r rs ups ups' ids ids' e p h = record {
  quantity =
      λ c. ground (arith, h.quantity c, get-update 0 r.ticket_class_id (λ n. n + r.qty) ups c);
  ids_of = rw e (h.ids_of ∙ append_assoc ids (r.id ∷ []) _);
  map_kept = λ m. h.map_kept (update-IsMap 0 r.ticket_class_id (λ n. n + r.qty) ups m);
  keys_kept = λ k. h.keys_kept (All-keys-update P 0 r.ticket_class_id (λ n. n + r.qty) ups p k);
}

collect_skipped :
    (P : ℕ → Type 0) (r : Reservation) (rs : List Reservation) (ups ups' : Dict ℕ)
    (ids ids' : List ℕ)
    → same_status ReservationStatus.active r.status ≡ false
    → Collected P rs ups ups' ids ids'
    → Collected P (r ∷ rs) ups ups' ids ids'
collect_skipped P r rs ups ups' ids ids' e h = record {
  quantity = λ c. ground (arith, h.quantity c);
  ids_of = rw e h.ids_of;
  map_kept = h.map_kept;
  keys_kept = h.keys_kept;
}

collect_nothing : (P : ℕ → Type 0) (ups : Dict ℕ) (ids : List ℕ) → Collected P [] ups ups ids ids
collect_nothing P ups ids = record {
  quantity = λ c. omega arith;
  ids_of = sym (append-nil ids);
  map_kept = λ m. m;
  keys_kept = λ k. k;
}

-- The rows that follow, with the row counted and with it left out.
module _ (P : ℕ → Type 0) (r : Reservation) (rs : List Reservation) (ups ups' : Dict ℕ)
    (ids ids' : List ℕ) (p : P r.ticket_class_id) where
  abbrev counted : Dict ℕ
  counted = update 0 r.ticket_class_id (λ n. n + r.qty) ups

  abbrev Continues : Dict ℕ → List ℕ → Type 0
  Continues m is = release_quantities rs m is ≡ some (ups', ids') → Collected P rs m ups' is ids'

  collect_row :
      (st : ReservationStatus)
      → r.status ≡ st
      → Continues counted (ids ++ r.id ∷ [])
      → Continues ups ids
      → release_quantities (r ∷ rs) ups ids ≡ some (ups', ids')
      → Collected P (r ∷ rs) ups ups' ids ids'
  unfolding release_quantities
  collect_row ReservationStatus.active e with_row without h =
      collect_active P r rs ups ups' ids ids' e p (with_row (rw e at h))
  collect_row ReservationStatus.confirmed e with_row without h =
      let impossible : ◌≡◌ {A = Option (Dict ℕ × List ℕ)} none (some (ups', ids')) = rw e at h in cc
  collect_row ReservationStatus.expired e with_row without h =
      collect_skipped P r rs ups ups' ids ids' (rw e) (without (rw e at h))
  collect_row ReservationStatus.cancelled e with_row without h =
      collect_skipped P r rs ups ups' ids ids' (rw e) (without (rw e at h))

pub release_quantities-Collected :
    (P : ℕ → Type 0) (rs : List Reservation) (ups ups' : Dict ℕ) (ids ids' : List ℕ)
    → All (λ r. P r.ticket_class_id) rs
    → release_quantities rs ups ids ≡ some (ups', ids')
    → Collected P rs ups ups' ids ids'
unfolding release_quantities
release_quantities-Collected P [] ups ups' ids ids' a h =
    let e : ◌≡◌ {A = Dict ℕ × List ℕ} (ups, ids) (ups', ids') = some-injective _ _ h in
    subst (λ (x : Dict ℕ × List ℕ). Collected P [] ups x.0 ids x.1) e (collect_nothing P ups ids)
release_quantities-Collected P (r ∷ rs) ups ups' ids ids' a h =
    collect_row P r rs ups ups' ids ids' a.0 r.status refl
      (release_quantities-Collected P rs (counted P r rs ups ups' ids ids' a.0) ups'
        (ids ++ r.id ∷ []) ids' a.1)
      (release_quantities-Collected P rs ups ups' ids ids' a.1) h
