-- ===== src/Order/Items.antt =====
-- services/order-svc/internal/order/repository/item.go and item_builder.go.
use ticket_event_pf.Prelude.{
  ℕ, zero, suc, ◌==◌, String, Bool, true, false, ◌&&◌, Option, none, some, List, [], ◌∷◌,
  if◌then◌else◌, str_eq, rows_where, take, length,
}
use ticket_event_pf.Order.Model.{OrderItem, CreateOrderItemOption}
use ticket_event_pf.Order.World.{World, ok, Act, pure, ◌>>=◌, ◌>>◌, remote}

-- `buildOrderItemModel`. The id of an item prints the code of its order and its number, from 1.
unfoldable pub build_item : ℕ → String → ℕ → CreateOrderItemOption → OrderItem
build_item now code pos opt = record {
  order_code = code;
  number = suc pos;
  ticket_class_id = opt.ticket_class_id;
  ticket_class_name = opt.ticket_class_name;
  price_at_purchase = opt.price_at_purchase;
  quantity = opt.quantity;
  total_amount = opt.total_amount;
  created_at = now;
  updated_at = now;
  deleted_at = none;
}

unfoldable pub build_items : ℕ → String → ℕ → List CreateOrderItemOption → List OrderItem
unfolding build_item
build_items now code pos [] = []
build_items now code pos (opt ∷ opts) =
    build_item now code pos opt ∷ build_items now code (suc pos) opts

abbrev same_item : OrderItem → OrderItem → Bool
same_item a b = str_eq a.order_code b.order_code && (a.number == b.number)

-- A put writes over the item of the same key.
abbrev pub put_item : OrderItem → List OrderItem → List OrderItem
put_item x [] = x ∷ []
put_item x (y ∷ ys) = if same_item y x then x ∷ ys else y ∷ put_item x ys

abbrev pub put_items : List OrderItem → List OrderItem → List OrderItem
put_items [] ys = ys
put_items (x ∷ xs) ys = put_items xs (put_item x ys)

abbrev pub drop : {A : Type 0} → ℕ → List A → List A
drop zero xs = xs
drop (suc n) [] = []
drop (suc n) (x ∷ xs) = drop n xs

abbrev pub set_items : {S : Type 0} → List OrderItem → World S → World S
set_items xs w = record w { items = xs }

abbrev pub batch_limit : ℕ
batch_limit = 25

abbrev is_none : Option ℕ → Bool
is_none none = true
is_none (some t) = false

abbrev pub is_item_of : String → OrderItem → Bool
is_item_of code x = str_eq x.order_code code && is_none x.deleted_at

abbrev delete_item : ℕ → OrderItem → OrderItem → OrderItem
delete_item now x y =
    if same_item y x then record y { deleted_at = some now; updated_at = now } else y

abbrev pub update_item : ℕ → OrderItem → List OrderItem → List OrderItem
update_item now x [] = []
update_item now x (y ∷ ys) = delete_item now x y ∷ update_item now x ys

module _ {S : Type 0} where
  -- `BatchWriteItem`, for the items that DynamoDB processes: all of them.
  abbrev pub write_batch : List OrderItem → Act S (Unit {0})
  write_batch xs = remote λ w. (ok tt, set_items (put_items xs w.items) w)

  -- The loop over the batches, on fuel: the number of items is enough.
  unfoldable pub write_batches : ℕ → List OrderItem → Act S (Unit {0})
  write_batches fuel [] = pure tt
  write_batches zero (x ∷ xs) = pure tt
  write_batches (suc fuel) (x ∷ xs) =
      let rest = write_batches fuel (drop batch_limit (x ∷ xs)) in
      write_batch (take batch_limit (x ∷ xs)) >> rest

  -- `CreateManyItems`
  unfoldable pub create_many_items : String → List CreateOrderItemOption → Act S (List OrderItem)
  unfolding build_items write_batches
  create_many_items code opts w =
      let xs = build_items w.now code 0 opts in (write_batches (length xs) xs >> pure xs) w

  -- `ListItemByOrderCode`
  unfoldable pub list_items : String → Act S (List OrderItem)
  list_items code = remote λ w. (ok (rows_where (is_item_of code) w.items), w)

  unfoldable pub delete_each : List OrderItem → Act S (Unit {0})
  delete_each [] = pure tt
  delete_each (x ∷ xs) =
      let rest = delete_each xs in
      remote (λ w. (ok tt, set_items (update_item w.now x w.items) w)) >> rest

  -- `DeleteItemByOrderCode`
  unfoldable pub delete_items : String → Act S (Unit {0})
  unfolding list_items delete_each
  delete_items code = list_items code >>= delete_each
