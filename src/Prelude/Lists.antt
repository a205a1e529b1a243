-- ===== src/Prelude/Lists.antt =====
-- Lists measured by native numbers, predicates on all items, rows picked by a test, and sums.
use Prim.Native.Nat.{ℕ, zero, suc, ◌+◌}
use mathlib.Core.Path.{◌≡◌, refl}
use mathlib.Core.Logic.{◌⊎◌, inl, inr}
use mathlib.Core.Bool.{Bool, true, false, ◌||◌}
use mathlib.Core.List.{List, [], ◌∷◌, ◌++◌}
use native.Mathlib.Omega.{arith}
use ticket_event_pf.Prelude.Tests.{◌==◌, if◌then◌else◌, leb, Bool-cases}

abbrev pub All {ℓ κ} : {A : Type ℓ} → (A → Type κ) → List A → Type κ
All P [] = Unit
All P (x ∷ xs) = P x × All P xs

-- `x` stands in the list.
abbrev pub In : {A : Type 0} → A → List A → Type 0
In x [] = ⊥
In x (y ∷ ys) = (x ≡ y) ⊎ In x ys

abbrev pub mem : ℕ → List ℕ → Bool
mem n [] = false
mem n (m ∷ ms) = (n == m) || mem n ms

module _ {ℓ} {A : Type ℓ} where
  abbrev pub length : List A → ℕ
  length [] = 0
  length (x ∷ xs) = suc (length xs)

  abbrev pub take : ℕ → List A → List A
  take zero xs = []
  take (suc n) [] = []
  take (suc n) (x ∷ xs) = x ∷ take n xs

  -- The rows that pass a test.
  abbrev pub rows_where : (A → Bool) → List A → List A
  rows_where p [] = []
  rows_where p (x ∷ xs) = if p x then x ∷ rows_where p xs else rows_where p xs

  abbrev pub any : (A → Bool) → List A → Bool
  any p [] = false
  any p (x ∷ xs) = p x || any p xs

  abbrev pub sum_of : (A → ℕ) → List A → ℕ
  sum_of w [] = 0
  sum_of w (x ∷ xs) = w x + sum_of w xs

  -- A stable sort by a numeric key.
  abbrev pub insert_by : (A → ℕ) → A → List A → List A
  insert_by key x [] = x ∷ []
  insert_by key x (y ∷ ys) = if leb (key x) (key y) then x ∷ y ∷ ys else y ∷ insert_by key x ys

  abbrev pub sort_by : (A → ℕ) → List A → List A
  sort_by key [] = []
  sort_by key (x ∷ xs) = insert_by key x (sort_by key xs)

module _ {ℓ κ} {A : Type ℓ} (P : A → Type κ) where
  pub All-append : (xs ys : List A) → All P xs → All P ys → All P (xs ++ ys)
  All-append [] ys hx hy = hy
  All-append (x ∷ xs) ys hx hy = (hx.0, All-append xs ys hx.1 hy)

  pub All-where : (p : A → Bool) (xs : List A) → All P xs → All P (rows_where p xs)
  All-where p [] h = tt
  All-where p (x ∷ xs) h =
      elim (p x) as (λ b. All P (if b then x ∷ rows_where p xs else rows_where p xs)) [
        | true ↦ (h.0, All-where p xs h.1)
        | false ↦ All-where p xs h.1
      ]

  pub All-take : (n : ℕ) (xs : List A) → All P xs → All P (take n xs)
  All-take zero xs h = tt
  All-take (suc n) [] h = tt
  All-take (suc n) (x ∷ xs) h = (h.0, All-take n xs h.1)

  pub All-insert : (key : A → ℕ) (x : A) (xs : List A) → P x → All P xs → All P (insert_by key x xs)
  All-insert key x [] p h = (p, tt)
  All-insert key x (y ∷ ys) p h =
      elim (leb (key x) (key y))
        as (λ b. All P (if b then x ∷ y ∷ ys else y ∷ insert_by key x ys)) [
          | true ↦ (p, h)
          | false ↦ (h.0, All-insert key x ys p h.1)
        ]

  pub All-sort : (key : A → ℕ) (xs : List A) → All P xs → All P (sort_by key xs)
  All-sort key [] h = tt
  All-sort key (x ∷ xs) h = All-insert key x (sort_by key xs) h.0 (All-sort key xs h.1)

  -- A test that is passed gives a fact of each row picked by it.
  pub All-where_of :
      (p : A → Bool) (xs : List A) → ((x : A) → p x ≡ true → P x) → All P (rows_where p xs)
  All-where_of p [] f = tt
  All-where_of p (x ∷ xs) f = elim (Bool-cases (p x)) [
    | inl e ↦ rw e (f x e, All-where_of p xs f)
    | inr e ↦ rw e (All-where_of p xs f)
  ]

module _ {ℓ κ μ} {A : Type ℓ} (P : A → Type κ) (Q : A → Type μ) where
  pub All-mono : ((x : A) → P x → Q x) → (xs : List A) → All P xs → All Q xs
  All-mono f [] h = tt
  All-mono f (x ∷ xs) h = (f x h.0, All-mono f xs h.1)

module _ {ℓ} {A : Type ℓ} where
  pub sum_of-append : (w : A → ℕ) (xs ys : List A) → sum_of w (xs ++ ys) ≡ sum_of w xs + sum_of w ys
  sum_of-append w [] ys = omega arith
  sum_of-append w (x ∷ xs) ys = omega (arith, sum_of-append w xs ys)

  pub sum_of-insert :
      (w : A → ℕ) (key : A → ℕ) (x : A) (xs : List A)
      → sum_of w (insert_by key x xs) ≡ w x + sum_of w xs
  sum_of-insert w key x [] = refl
  sum_of-insert w key x (y ∷ ys) = ground (arith, sum_of-insert w key x ys)

  pub sum_of-sort :
      (w : A → ℕ) (key : A → ℕ) (xs : List A) → sum_of w (sort_by key xs) ≡ sum_of w xs
  sum_of-sort w key [] = refl
  sum_of-sort w key (x ∷ xs) =
      omega (arith, sum_of-insert w key x (sort_by key xs), sum_of-sort w key xs)
