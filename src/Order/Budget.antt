-- ===== src/Order/Budget.antt =====
-- services/order-svc/internal/workflows/options.go: how long an activity can hold up a workflow, and
-- `purchaseSlotSettleWindow` of internal/order/service/order.go.
use Prim.Native.Nat.{◌^◌}
use native.Mathlib.Nat.{mul_assoc, mul-one, pow-suc, pow-zero, mul-le-mul_left}
use ticket_event_pf.Prelude.{
  ℕ, zero, suc, ◌+◌, ◌-◌, ◌*◌, ◌≤◌, ◌≡◌, refl, ◌∙◌, sym, ap, subst, leb, if◌then◌else◌, Bool-cases,
  inl, inr, true, arith,
}

-- `workflow.ActivityOptions`, in seconds; the backoff coefficient is a whole number, as all of the
-- source's are.
pub record ActivityOptions : Type 0 where
  pub start_to_close_timeout : ℕ
  pub initial_interval : ℕ
  pub backoff_coefficient : ℕ
  pub maximum_interval : ℕ
  pub maximum_attempts : ℕ

abbrev pub create_order_activity_options : ActivityOptions
create_order_activity_options = record {
  start_to_close_timeout = 120;
  initial_interval = 1;
  backoff_coefficient = 2;
  maximum_interval = 60;
  maximum_attempts = 5;
}

abbrev pub min : ℕ → ℕ → ℕ
min a b = if leb a b then a else b

-- The loop over the waits between attempts.
unfoldable pub add_waits : ℕ → ActivityOptions → ℕ → ℕ → ℕ
add_waits zero o interval total = total
add_waits (suc n) o interval total =
    add_waits n o (min (interval * o.backoff_coefficient) o.maximum_interval) (total + interval)

unfoldable pub activity_retry_budget : ActivityOptions → ℕ
unfolding add_waits
activity_retry_budget o =
    add_waits (o.maximum_attempts - 1) o o.initial_interval
      (o.start_to_close_timeout * o.maximum_attempts)

unfoldable pub create_order_slot_budget : ℕ
unfolding activity_retry_budget
create_order_slot_budget = 2 * activity_retry_budget create_order_activity_options

abbrev pub purchase_slot_settle_margin : ℕ
purchase_slot_settle_margin = 30

unfoldable pub purchase_slot_settle_window : ℕ → ℕ
unfolding create_order_slot_budget
purchase_slot_settle_window create_timeout =
    create_timeout + create_order_slot_budget + purchase_slot_settle_margin

-- The wait after the attempt `k`, counted from 0: exponential, and cut at the longest.
abbrev pub wait_after : ActivityOptions → ℕ → ℕ
wait_after o k = min (o.initial_interval * o.backoff_coefficient ^ k) o.maximum_interval

-- The `n` waits from the one after the attempt `k` on.
abbrev pub waits_from : ActivityOptions → ℕ → ℕ → ℕ
waits_from o k zero = 0
waits_from o k (suc n) = wait_after o k + waits_from o (suc k) n

-- A wait that was cut already is cut again.
min-grows : (a c m : ℕ) → 1 ≤ c → min (min a m * c) m ≡ min (a * c) m
min-grows a c m h = elim (Bool-cases (leb a m)) [
  | inl e ↦ rw e refl
  | inr e ↦
      let grown : (x : ℕ) → x ≤ x * c =
        λ x. subst (λ y. y ≤ x * c) (mul-one x) (mul-le-mul_left x h) in
      rw e (ground (arith, grown a, grown m))
]

wait_after-suc :
    (o : ActivityOptions) (k : ℕ)
    → 1 ≤ o.backoff_coefficient
    → min (wait_after o k * o.backoff_coefficient) o.maximum_interval ≡ wait_after o (suc k)
wait_after-suc o k b =
    min-grows (o.initial_interval * o.backoff_coefficient ^ k) o.backoff_coefficient
      o.maximum_interval b
    ∙ ap (λ x. min x o.maximum_interval)
        (mul_assoc o.initial_interval (o.backoff_coefficient ^ k) o.backoff_coefficient
          ∙ ap (λ x. o.initial_interval * x) (sym (pow-suc o.backoff_coefficient k)))

add_waits-waits_from :
    (o : ActivityOptions) (n k total : ℕ)
    → 1 ≤ o.backoff_coefficient
    → add_waits n o (wait_after o k) total ≡ total + waits_from o k n
unfolding add_waits
add_waits-waits_from o zero k total b = omega arith
add_waits-waits_from o (suc n) k total b =
    rw (wait_after-suc o k b)
      (omega (arith, add_waits-waits_from o n (suc k) (total + wait_after o k) b))

-- Where the first wait is no longer than the longest allowed and the backoff does not shrink it, the
-- budget is all attempts at their full length, and between each two of them a wait that grows
-- exponentially from the first one up to the longest.
pub activity_retry_budget-waits :
    (o : ActivityOptions)
    → o.initial_interval ≤ o.maximum_interval
    → 1 ≤ o.backoff_coefficient
    → activity_retry_budget o
      ≡ o.start_to_close_timeout * o.maximum_attempts + waits_from o 0 (o.maximum_attempts - 1)
unfolding activity_retry_budget
activity_retry_budget-waits o h b =
    let short : leb o.initial_interval o.maximum_interval ≡ true = ground arith in
    let first : wait_after o 0 ≡ o.initial_interval =
      ap (λ x. min (o.initial_interval * x) o.maximum_interval) (pow-zero o.backoff_coefficient)
      ∙ ap (λ x. min x o.maximum_interval) (mul-one o.initial_interval)
      ∙ rw short refl in
    subst
      (λ x.
        add_waits (o.maximum_attempts - 1) o x (o.start_to_close_timeout * o.maximum_attempts)
        ≡ o.start_to_close_timeout * o.maximum_attempts + waits_from o 0 (o.maximum_attempts - 1))
      first
      (add_waits-waits_from o (o.maximum_attempts - 1) 0
        (o.start_to_close_timeout * o.maximum_attempts) b)
