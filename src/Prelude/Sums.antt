-- ===== src/Prelude/Sums.antt =====
-- Sums over the rows that a test picks.
use Prim.Native.Nat.{ℕ}
use mathlib.Core.Path.{◌≡◌, refl}
use mathlib.Core.Logic.{inl, inr}
use mathlib.Core.Bool.{Bool, true, false}
use mathlib.Core.List.{List, [], ◌∷◌}
use native.Mathlib.Omega.{arith}
use ticket_event_pf.Prelude.Tests.{Bool-cases}
use ticket_event_pf.Prelude.Lists.{rows_where, sum_of}

module _ {ℓ} {A : Type ℓ} (w : A → ℕ) where
  pub sum_of-zero : (xs : List A) → ((x : A) → w x ≡ 0) → sum_of w xs ≡ 0
  sum_of-zero [] h = refl
  sum_of-zero (x ∷ xs) h = omega (arith, h x, sum_of-zero xs h)

  -- Rows that weigh nothing may be left out.
  pub sum_of-where :
      (p : A → Bool) (xs : List A)
      → ((x : A) → p x ≡ false → w x ≡ 0)
      → sum_of w (rows_where p xs) ≡ sum_of w xs
  sum_of-where p [] h = refl
  sum_of-where p (x ∷ xs) h = elim (Bool-cases (p x)) [
    | inl e ↦ rw e (omega (arith, sum_of-where p xs h))
    | inr e ↦ rw e (omega (arith, h x e, sum_of-where p xs h))
  ]

  pub sum_of-where_zero :
      (p : A → Bool) (xs : List A)
      → ((x : A) → p x ≡ true → w x ≡ 0)
      → sum_of w (rows_where p xs) ≡ 0
  sum_of-where_zero p [] h = refl
  sum_of-where_zero p (x ∷ xs) h = elim (Bool-cases (p x)) [
    | inl e ↦ rw e (omega (arith, h x e, sum_of-where_zero p xs h))
    | inr e ↦ rw e (sum_of-where_zero p xs h)
  ]
