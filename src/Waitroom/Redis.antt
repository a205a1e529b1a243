-- ===== src/Waitroom/Redis.antt =====
-- The commands of Redis that services/waitroom-svc/pkg/redis/client.go passes on, on rows with a key
-- and an end, and on the sorted sets of queues and checkouts.
pub mod Laws
use Prim.Native.Nat.{◌/◌}
use ticket_event_pf.Prelude.{
  ℕ, zero, suc, ◌+◌, ◌-◌, ◌*◌, String, Bool, true, false, not, ◌&&◌, ◌||◌, Option, none, some, List,
  [], ◌∷◌, if◌then◌else◌, ltb, leb, ◌==◌, str_eq, rows_where, any, take, length,
}
use ticket_event_pf.Waitroom.World.{Keyed, Waiting, Checkout}

-- Strings with an expiry: `GET`, `SET`, `TTL`.
module _ {A : Type 0} where
  abbrev pub if_alive : ℕ → Keyed A → Option A
  if_alive now r = if leb now r.expires_at then some r.value else none

  abbrev pub get_key : ℕ → String → List (Keyed A) → Option A
  get_key now k [] = none
  get_key now k (r ∷ rs) = if str_eq r.key k then if_alive now r else get_key now k rs

  abbrev pub is_some : Option A → Bool
  is_some none = false
  is_some (some _) = true

  abbrev pub set_key : String → A → ℕ → List (Keyed A) → List (Keyed A)
  set_key k a end rows =
      record { key = k; value = a; expires_at = end } ∷ rows_where (λ r. not (str_eq r.key k)) rows

  abbrev pub del_key : String → List (Keyed A) → List (Keyed A)
  del_key k = rows_where (λ r. not (str_eq r.key k))

  -- In whole seconds, as the command answers, and 0 for a key that is missing.
  abbrev pub ttl_of : ℕ → String → List (Keyed A) → ℕ
  ttl_of now k [] = 0
  ttl_of now k (r ∷ rs) =
      if str_eq r.key k
      then (r.expires_at - now + 500000000) / 1000000000 * 1000000000
      else ttl_of now k rs

abbrev pub exists_key : {A : Type 0} → ℕ → String → List (Keyed A) → Bool
exists_key now k rows = is_some (get_key now k rows)

-- The queue: `ZADD`, `ZREM`, `ZCARD`, `ZRANK`, `ZRANGEBYSCORE`, on rows that stand in order.
abbrev pub waits : String → String → Waiting → Bool
waits e k r = str_eq r.event e && str_eq r.member k

abbrev pub line_of : String → List Waiting → List Waiting
line_of e = rows_where (λ r. str_eq r.event e)

abbrev pub precedes : (String → String → Bool) → Waiting → Waiting → Bool
precedes ties a b = ltb a.score b.score || (a.score == b.score && ties a.member b.member)

abbrev pub insert_waiting : (String → String → Bool) → Waiting → List Waiting → List Waiting
insert_waiting ties x [] = x ∷ []
insert_waiting ties x (y ∷ ys) =
    if precedes ties y x then y ∷ insert_waiting ties x ys else x ∷ y ∷ ys

abbrev pub zadd : (String → String → Bool) → Waiting → List Waiting → List Waiting
zadd ties x q = insert_waiting ties x (rows_where (λ r. not (waits x.event x.member r)) q)

abbrev pub str_mem : String → List String → Bool
str_mem k [] = false
str_mem k (l ∷ ls) = str_eq l k || str_mem k ls

abbrev pub zrem : String → List String → List Waiting → List Waiting
zrem e ks = rows_where (λ r. not (str_eq r.event e && str_mem r.member ks))

abbrev pub zcard : String → List Waiting → ℕ
zcard e q = length (line_of e q)

abbrev pub rank_in : String → List Waiting → Option ℕ
rank_in k [] = none
rank_in k (r ∷ rs) =
    if str_eq r.member k
    then some 0
    else elim (rank_in k rs) [ none ↦ none | some n ↦ some (suc n) ]

abbrev pub zrank : String → String → List Waiting → Option ℕ
zrank e k q = rank_in k (line_of e q)

abbrev pub members_of : List Waiting → List String
members_of [] = []
members_of (r ∷ rs) = r.member ∷ members_of rs

abbrev pub zrange_below : String → ℕ → ℕ → List Waiting → List String
zrange_below e before count q =
    members_of (take count (rows_where (λ r. ltb r.score before) (line_of e q)))

-- The checkouts: `ZADD` with `PEXPIRE`, `ZREM`, `ZREMRANGEBYSCORE`, `ZCARD`, `ZSCORE`. A row whose
-- key has expired is read by none of them.
abbrev pub holds : String → String → Checkout → Bool
holds e k r = str_eq r.event e && str_eq r.member k

abbrev pub in_set : ℕ → String → Checkout → Bool
in_set now e r = str_eq r.event e && leb now r.key_expires_at

abbrev pub with_expiry : ℕ → String → ℕ → Checkout → Checkout
with_expiry now e end r = if in_set now e r then record r { key_expires_at = end } else r

abbrev pub expire_set : ℕ → String → ℕ → List Checkout → List Checkout
expire_set now e end [] = []
expire_set now e end (r ∷ rs) = with_expiry now e end r ∷ expire_set now e end rs

abbrev pub add_checkout : ℕ → Checkout → List Checkout → List Checkout
add_checkout now x rows =
    x
    ∷ expire_set now x.event x.key_expires_at
        (rows_where (λ r. not (holds x.event x.member r)) rows)

abbrev pub rem_checkout : String → String → List Checkout → List Checkout
rem_checkout e k = rows_where (λ r. not (holds e k r))

abbrev pub reap : String → ℕ → List Checkout → List Checkout
reap e now_ms = rows_where (λ r. not (str_eq r.event e && leb r.score now_ms))

abbrev pub card_checkouts : ℕ → String → List Checkout → ℕ
card_checkouts now e rows = length (rows_where (in_set now e) rows)

abbrev pub score_of : ℕ → String → String → List Checkout → Option ℕ
score_of now e k [] = none
score_of now e k (r ∷ rs) =
    if in_set now e r && str_eq r.member k then some r.score else score_of now e k rs

-- Sets of strings: `SADD`, `SREM`, `SISMEMBER`.
abbrev pub sadd : String → List String → List String
sadd e es = if str_mem e es then es else e ∷ es

abbrev pub srem : String → List String → List String
srem e = rows_where (λ x. not (str_eq x e))

-- Lists: `RPUSH` appends, `LTRIM n -1` drops the first `n`.
abbrev pub drop {ℓ} : {A : Type ℓ} → ℕ → List A → List A
drop zero xs = xs
drop (suc n) [] = []
drop (suc n) (x ∷ xs) = drop n xs
