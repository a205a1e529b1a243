-- ===== src/Order/Slots.antt =====
-- The purchase slots of services/order-svc/internal/order/repository/order.go: one item of the table
-- for each buyer's claim.
use ticket_event_pf.Prelude.{
  ℕ, ◌+◌, ◌*◌, String, Bool, true, false, not, ◌&&◌, Option, none, some, List, [], ◌∷◌, ◌++◌,
  if◌then◌else◌, str_eq, str_append, rows_where,
}
use ticket_event_pf.Order.Model.{Slot}
use ticket_event_pf.Order.World.{World, ok, Act, pure, ◌>>=◌, remote}

-- `PurchaseSlotKey` of services/order-svc/internal/order/purchase_slot.go.
unfoldable pub purchase_slot_key : String → String → String → String
purchase_slot_key session user event =
    if not (str_eq session "")
    then session
    else str_append "user#" (str_append user (str_append ":event#" event))

abbrev pub find_slot : String → List Slot → Option Slot
find_slot k [] = none
find_slot k (s ∷ ss) = if str_eq s.dedupe_key k then some s else find_slot k ss

abbrev pub held_by_order : String → Slot → Bool
held_by_order code s = elim s.order_code [ none ↦ false | some c ↦ str_eq c code ]

abbrev pub set_slots : {S : Type 0} → List Slot → World S → World S
set_slots ss w = record w { slots = ss }

abbrev pub purchase_slot_ttl : ℕ
purchase_slot_ttl = 30 * 24 * 3600

-- The order that holds the slot, and when it claimed it. A missing item has neither; `none` is Go's
-- zero time.
abbrev or_empty : Option String → String
or_empty none = ""
or_empty (some c) = c

abbrev pub winner_of : Option Slot → String × Option ℕ
winner_of none = ("", none)
winner_of (some s) = (or_empty s.order_code, s.claimed_at)

abbrev pub claim_of : String → String → ℕ → Slot
claim_of k code now = record {
  dedupe_key = k;
  order_code = some code;
  claimed_at = some now;
  expires_at = now + purchase_slot_ttl;
}

module _ {S : Type 0} where
  -- Whether the put took the slot.
  abbrev pub put_slot : String → String → Option Slot → Act S Bool
  put_slot k code (some s) w = (ok false, w)
  put_slot k code none w = (ok true, set_slots (w.slots ++ claim_of k code w.now ∷ []) w)

  unfoldable pub put_claim : String → String → Act S Bool
  put_claim k code = remote λ w. put_slot k code (find_slot k w.slots) w

  unfoldable pub get_winner : String → Act S (String × Option ℕ)
  get_winner k = remote λ w. (ok (winner_of (find_slot k w.slots)), w)

  -- `ClaimPurchaseSlot`: `none` on a win; on a loss the order that holds the slot, and since when.
  unfoldable pub claim_purchase_slot : String → String → Act S (Option (String × Option ℕ))
  unfolding put_claim get_winner
  claim_purchase_slot k code =
      put_claim k code >>= λ won. if won then pure none else (get_winner k >>= λ x. pure (some x))

  -- `ReleasePurchaseSlot`: only while the slot names the order. A refused delete is no error.
  unfoldable pub release_purchase_slot : String → String → Act S (Unit {0})
  release_purchase_slot k code = remote λ w. (
    ok tt,
    set_slots (rows_where (λ s. not (str_eq s.dedupe_key k && held_by_order code s)) w.slots) w,
  )
