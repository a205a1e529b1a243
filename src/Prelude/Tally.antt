-- ===== src/Prelude/Tally.antt =====
-- Go's `map[int64]V` as an association list. A missing key reads as a zero value, and a loop in
-- ascending key order is a loop over `sorted_keys`.
use Prim.Native.Nat.{ℕ}
use mathlib.Core.Path.{◌≡◌, refl, sym, ◌∙◌}
use mathlib.Core.Bool.{Bool, true, false, ◌||◌}
use mathlib.Core.Option.{Option, none, some}
use mathlib.Core.List.{List, [], ◌∷◌}
use native.Mathlib.Omega.{arith}
use ticket_event_pf.Prelude.Tests.{◌==◌, if◌then◌else◌}
use ticket_event_pf.Prelude.Lists.{All, sum_of, sort_by, sum_of-sort}

abbrev pub Dict {ℓ} : Type ℓ → Type ℓ
Dict V = List (ℕ × V)

module _ {V : Type 0} where
  abbrev pub lookup : ℕ → Dict V → Option V
  lookup k [] = none
  lookup k ((j, v) ∷ m) = if j == k then some v else lookup k m

  -- `m[k]`, where `z` is the zero value.
  abbrev pub get : V → Dict V → ℕ → V
  get z [] k = z
  get z ((j, v) ∷ m) k = if j == k then v else get z m k

  abbrev pub contains : ℕ → Dict V → Bool
  contains k [] = false
  contains k ((j, v) ∷ m) = (j == k) || contains k m

  -- `m[k] = f(m[k])`
  abbrev pub update : V → ℕ → (V → V) → Dict V → Dict V
  update z k f [] = (k, f z) ∷ []
  update z k f ((j, v) ∷ m) = if j == k then (j, f v) ∷ m else (j, v) ∷ update z k f m

  abbrev pub keys : Dict V → List ℕ
  keys [] = []
  keys ((j, v) ∷ m) = j ∷ keys m

  -- `sortedInt64Keys`
  abbrev pub sorted_keys : Dict V → List ℕ
  sorted_keys m = sort_by (λ k. k) (keys m)

  -- No key stands twice.
  abbrev pub IsMap : Dict V → Type 0
  IsMap [] = Unit
  IsMap ((j, v) ∷ m) = (contains j m ≡ false) × IsMap m

  pub get-update :
      (z : V) (k : ℕ) (f : V → V) (m : Dict V) (j : ℕ)
      → get z (update z k f m) j ≡ (if k == j then f (get z m k) else get z m j)
  get-update z k f [] j = ground arith
  get-update z k f ((i, v) ∷ m) j = ground (arith, get-update z k f m j)

  pub contains-update :
      (z : V) (k : ℕ) (f : V → V) (m : Dict V) (j : ℕ)
      → contains j (update z k f m) ≡ ((k == j) || contains j m)
  contains-update z k f [] j = ground arith
  contains-update z k f ((i, v) ∷ m) j = ground (arith, contains-update z k f m j)

  pub update-IsMap : (z : V) (k : ℕ) (f : V → V) (m : Dict V) → IsMap m → IsMap (update z k f m)
  update-IsMap z k f [] h = (refl, tt)
  update-IsMap z k f ((i, v) ∷ m) h =
      ground (arith, update-IsMap z k f m h.1, contains-update z k f m i)

  pub get-none : (z : V) (m : Dict V) (k : ℕ) → contains k m ≡ false → get z m k ≡ z
  get-none z [] k h = refl
  get-none z ((i, v) ∷ m) k h = ground (arith, get-none z m k)

-- What a loop over the keys still has to hand to the class `c`, if it hands `v k` to each key `k`.
abbrev pub due : (ℕ → ℕ) → ℕ → List ℕ → ℕ
due v c = sum_of (λ k. if k == c then v k else 0)

due-absent :
    {V : Type 0} (v : ℕ → ℕ) (c : ℕ) (m : Dict V) → contains c m ≡ false → due v c (keys m) ≡ 0
due-absent v c [] h = refl
due-absent v c ((i, x) ∷ m) h = ground (arith, due-absent v c m)

due-keys :
    {V : Type 0} (v : ℕ → ℕ) (c : ℕ) (m : Dict V)
    → IsMap m
    → (contains c m ≡ false → v c ≡ 0)
    → due v c (keys m) ≡ v c
due-keys v c [] h z = sym (z refl)
due-keys v c ((i, x) ∷ m) h z = ground (arith, due-keys v c m h.1, due-absent v c m)

-- A loop over the sorted keys hands each class just what the map holds for it.
pub due-sorted_keys :
    {V : Type 0} (z : V) (f : V → ℕ) (c : ℕ) (m : Dict V)
    → IsMap m
    → f z ≡ 0
    → due (λ k. f (get z m k)) c (sorted_keys m) ≡ f (get z m c)
due-sorted_keys z f c m h e =
    sum_of-sort (λ k. if k == c then f (get z m k) else 0) (λ k. k) (keys m)
    ∙ due-keys (λ k. f (get z m k)) c m h (λ absent. rw (get-none z m c absent) e)

pub All-keys-update :
    {V : Type 0} (P : ℕ → Type 0) (z : V) (k : ℕ) (f : V → V) (m : Dict V)
    → P k
    → All P (keys m)
    → All P (keys (update z k f m))
All-keys-update P z k f [] p h = (p, tt)
All-keys-update P z k f ((j, v) ∷ m) p h =
    elim (j == k) as (λ b. All P (keys (if b then (j, f v) ∷ m else (j, v) ∷ update z k f m))) [
      | true ↦ h
      | false ↦ (h.0, All-keys-update P z k f m p h.1)
    ]
