-- ===== src/Prelude/Keys.antt =====
-- Rows with a numeric key that stands once, as in a table with a primary key, and sums over a
-- selection of its rows.
use Prim.Native.Nat.{ℕ, zero, suc, ◌+◌}
use mathlib.Core.Path.{◌≡◌, refl, sym, subst, ◌∙◌}
use mathlib.Core.Logic.{inl, inr, ◌≢◌}
use mathlib.Core.Bool.{Bool, true, false}
use mathlib.Core.List.{List, [], ◌∷◌, ◌++◌}
use native.Mathlib.Omega.{arith}
use ticket_event_pf.Prelude.Tests.{◌==◌, if◌then◌else◌, leb, ==_iff, Bool-cases}
use ticket_event_pf.Prelude.Lists.{
  All, In, mem, take, rows_where, sum_of, insert_by, sort_by, All-append, All-where, All-take,
  All-insert, All-sort, All-mono,
}

-- Keys that stand once: `Fresh k` says that no row has the key `k`.
module _ {A : Type 0} (key : A → ℕ) where
  abbrev pub Fresh : ℕ → List A → Type 0
  Fresh k = All (λ x. key x ≢ k)

  abbrev pub Unique : List A → Type 0
  Unique [] = Unit
  Unique (x ∷ xs) = Fresh (key x) xs × Unique xs

  pub Unique-where : (p : A → Bool) (xs : List A) → Unique xs → Unique (rows_where p xs)
  Unique-where p [] u = tt
  Unique-where p (x ∷ xs) u =
      elim (p x) as (λ b. Unique (if b then x ∷ rows_where p xs else rows_where p xs)) [
        | true ↦ (All-where (λ y. key y ≢ key x) p xs u.0, Unique-where p xs u.1)
        | false ↦ Unique-where p xs u.1
      ]

  pub Unique-take : (n : ℕ) (xs : List A) → Unique xs → Unique (take n xs)
  Unique-take zero xs u = tt
  Unique-take (suc n) [] u = tt
  Unique-take (suc n) (x ∷ xs) u = (All-take (λ y. key y ≢ key x) n xs u.0, Unique-take n xs u.1)

  pub Unique-insert :
      (by : A → ℕ) (x : A) (xs : List A) → Fresh (key x) xs → Unique xs → Unique (insert_by by x xs)
  Unique-insert by x [] f u = (tt, tt)
  Unique-insert by x (y ∷ ys) f u =
      elim (leb (by x) (by y)) as (λ b. Unique (if b then x ∷ y ∷ ys else y ∷ insert_by by x ys)) [
        | true ↦ (f, u)
        | false ↦ (
          All-insert (λ z. key z ≢ key y) by x ys (λ e. f.0 (sym e)) u.0,
          Unique-insert by x ys f.1 u.1,
        )
      ]

  pub Unique-sort : (by : A → ℕ) (xs : List A) → Unique xs → Unique (sort_by by xs)
  Unique-sort by [] u = tt
  Unique-sort by (x ∷ xs) u =
      Unique-insert by x (sort_by by xs) (All-sort (λ y. key y ≢ key x) by xs u.0)
        (Unique-sort by xs u.1)

  pub Unique-append : (xs : List A) (y : A) → Unique xs → Fresh (key y) xs → Unique (xs ++ y ∷ [])
  Unique-append [] y u f = (tt, tt)
  Unique-append (x ∷ xs) y u f = (
    All-append (λ z. key z ≢ key x) xs (y ∷ []) u.0 ((λ e. f.0 (sym e)), tt),
    Unique-append xs y u.1 f.1,
  )

  abbrev pub keys_of : List A → List ℕ
  keys_of [] = []
  keys_of (x ∷ xs) = key x ∷ keys_of xs

  pub mem-keys_of-Fresh : (k : ℕ) (xs : List A) → Fresh k xs → mem k (keys_of xs) ≡ false
  mem-keys_of-Fresh k [] f = refl
  mem-keys_of-Fresh k (x ∷ xs) f = ground (arith, mem-keys_of-Fresh k xs f.1)

-- Rows picked by a test, sorted or cut off, are rows of the table.
module _ {A : Type 0} where
  pub In-where : (p : A → Bool) (xs : List A) → All (λ x. In x xs) (rows_where p xs)
  In-where p [] = tt
  In-where p (x ∷ xs) =
      let rest =
        All-mono (λ y. In y xs) (λ y. In y (x ∷ xs)) (λ y h. inr h) (rows_where p xs)
          (In-where p xs) in
      elim (p x)
        as (λ b. All (λ y. In y (x ∷ xs)) (if b then x ∷ rows_where p xs else rows_where p xs)) [
          | true ↦ (inl refl, rest)
          | false ↦ rest
        ]

In-Fresh :
    {A : Type 0} (key : A → ℕ) (k : ℕ) (x : A) (xs : List A) → Fresh key k xs → In x xs → key x ≢ k
In-Fresh key k x [] f m = absurd m
In-Fresh key k x (y ∷ ys) f (inl e) = rw e f.0
In-Fresh key k x (y ∷ ys) f (inr m) = In-Fresh key k x ys f.1 m

-- A selection of rows, summed over the table: `w` of each row whose key is that of a selected row.
module _ {A : Type 0} (key : A → ℕ) (w : A → ℕ) where
  abbrev pub if_mem : List ℕ → A → ℕ
  if_mem ks x = if mem (key x) ks then w x else 0

  sum_of-if_eq-Fresh :
      (k : ℕ) (xs : List A) → Fresh key k xs → sum_of (λ x. if key x == k then w x else 0) xs ≡ 0
  sum_of-if_eq-Fresh k [] f = refl
  sum_of-if_eq-Fresh k (x ∷ xs) f = ground (arith, sum_of-if_eq-Fresh k xs f.1)

  sum_of-if_eq_self :
      (x : A) (xs : List A)
      → Fresh key (key x) xs
      → sum_of (λ y. if key y == key x then w y else 0) (x ∷ xs) ≡ w x
  sum_of-if_eq_self x xs f = ground (arith, sum_of-if_eq-Fresh (key x) xs f)

  sum_of-if_eq :
      (y : A) (xs : List A)
      → Unique key xs
      → In y xs
      → sum_of (λ x. if key x == key y then w x else 0) xs ≡ w y
  sum_of-if_eq y [] u h = absurd h
  sum_of-if_eq y (x ∷ xs) u (inl e) =
      subst (λ z. sum_of (λ x. if key x == key z then w x else 0) (x ∷ xs) ≡ w z) (sym e)
        (sum_of-if_eq_self x xs u.0)
  sum_of-if_eq y (x ∷ xs) u (inr h) =
      ground (arith, sum_of-if_eq y xs u.1 h, In-Fresh key (key x) y xs u.0 h)

  sum_of-if_cons :
      (k : ℕ) (ks : List ℕ) (xs : List A)
      → mem k ks ≡ false
      → sum_of (if_mem (k ∷ ks)) xs
        ≡ sum_of (λ x. if key x == k then w x else 0) xs + sum_of (if_mem ks) xs
  sum_of-if_cons k ks [] h = refl
  sum_of-if_cons k ks (x ∷ xs) h = elim (Bool-cases (key x == k)) [
    | inl e ↦
        let same : mem (key x) ks ≡ false = rw ((==_iff (key x) k).0 e) h in
        ground (arith, sum_of-if_cons k ks xs h)
    | inr e ↦ ground (arith, sum_of-if_cons k ks xs h)
  ]

  sum_of-if_nil : (xs : List A) → sum_of (if_mem []) xs ≡ 0
  sum_of-if_nil [] = refl
  sum_of-if_nil (x ∷ xs) = omega (arith, sum_of-if_nil xs)

  -- The sum over the whole table of the rows whose key is selected is the sum of the selection.
  pub sum_of-if_mem :
      (sel xs : List A)
      → Unique key sel
      → Unique key xs
      → All (λ s. In s xs) sel
      → sum_of (if_mem (keys_of key sel)) xs ≡ sum_of w sel
  sum_of-if_mem [] xs us u h = sum_of-if_nil xs
  sum_of-if_mem (s ∷ sel) xs us u h =
      sum_of-if_cons (key s) (keys_of key sel) xs (mem-keys_of-Fresh key (key s) sel us.0)
      ∙ omega (arith, sum_of-if_eq s xs u h.0, sum_of-if_mem sel xs us.1 u h.1)
