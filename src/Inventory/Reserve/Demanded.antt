-- ===== src/Inventory/Reserve/Demanded.antt =====
-- `aggregateDemand` collapses the items to one entry for each class, in ascending order.
use ticket_event_pf.Prelude.{
  ℕ, ◌+◌, ◌≡◌, refl, List, [], ◌∷◌, ◌++◌, arith, ◌==◌, if◌then◌else◌, sum_of, Dict, get, update,
  keys, contains, sorted_keys, IsMap, due, due-sorted_keys, get-update, update-IsMap,
}
use ticket_event_pf.Inventory.Model.{ReserveItem}
use ticket_event_pf.Inventory.Reserve.{aggregate_from, aggregate_demand}

-- What the items ask of class `c`.
abbrev pub demand_for : ℕ → ReserveItem → ℕ
demand_for c it = if it.ticket_class_id == c then it.qty else 0

unfoldable pub demand : List ReserveItem → ℕ → ℕ
demand items c = sum_of (demand_for c) items

-- The map alone.
tally : List ReserveItem → Dict ℕ → Dict ℕ
tally [] m = m
tally (it ∷ items) m = tally items (update 0 it.ticket_class_id (λ n. n + it.qty) m)

keys-update :
    {V : Type 0} (z : V) (k : ℕ) (f : V → V) (m : Dict V)
    → keys (update z k f m) ≡ (if contains k m then keys m else keys m ++ k ∷ [])
keys-update z k f [] = refl
keys-update z k f ((j, v) ∷ m) = ground (arith, keys-update z k f m)

-- The ids are the keys of the map, in the order of first use until they are sorted.
aggregate_from-tally :
    (items : List ReserveItem) (m : Dict ℕ)
    → aggregate_from items (keys m) m ≡ (sorted_keys (tally items m), tally items m)
unfolding aggregate_from tally
aggregate_from-tally [] m = refl
aggregate_from-tally (it ∷ items) m =
    rw (← keys-update 0 it.ticket_class_id (λ n. n + it.qty) m)
      (aggregate_from-tally items (update 0 it.ticket_class_id (λ n. n + it.qty) m))

get-tally :
    (items : List ReserveItem) (m : Dict ℕ) (c : ℕ)
    → get 0 (tally items m) c ≡ get 0 m c + sum_of (demand_for c) items
unfolding tally
get-tally [] m c = omega arith
get-tally (it ∷ items) m c = ground (
  arith,
  get-tally items (update 0 it.ticket_class_id (λ n. n + it.qty) m) c,
  get-update 0 it.ticket_class_id (λ n. n + it.qty) m c,
)

tally-IsMap : (items : List ReserveItem) (m : Dict ℕ) → IsMap m → IsMap (tally items m)
unfolding tally
tally-IsMap [] m h = h
tally-IsMap (it ∷ items) m h =
    tally-IsMap items _ (update-IsMap 0 it.ticket_class_id (λ n. n + it.qty) m h)

aggregate_demand-tally :
    (items : List ReserveItem)
    → aggregate_demand items ≡ (sorted_keys (tally items []), tally items [])
unfolding aggregate_demand
aggregate_demand-tally items = aggregate_from-tally items []

-- The map holds for each class what the items ask of it in all.
pub get-aggregate_demand :
    (items : List ReserveItem) (c : ℕ) → get 0 (aggregate_demand items).1 c ≡ demand items c
unfolding demand
get-aggregate_demand items c =
    rw (aggregate_demand-tally items) (omega (arith, get-tally items [] c))

-- A loop over the ids that `aggregateDemand` returns, with the quantities of its map, hands each class
-- in all just what the items ask of it.
pub due-aggregate_demand :
    (items : List ReserveItem) (c : ℕ)
    → due (get 0 (aggregate_demand items).1) c (aggregate_demand items).0 ≡ demand items c
unfolding demand
due-aggregate_demand items c = rw (aggregate_demand-tally items) (
    omega (
      arith,
      due-sorted_keys 0 (λ n. n) c (tally items []) (tally-IsMap items [] tt) refl,
      get-tally items [] c,
    ))
