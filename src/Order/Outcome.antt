-- ===== src/Order/Outcome.antt =====
-- How a call of order-svc ends, under any schedule of faults.
use ticket_event_pf.Prelude.{ℕ, zero, suc, ◌≡◌, refl, List, if◌then◌else◌, Bool-cases, inl, inr}
use ticket_event_pf.Order.Model.{Error, unavailable}
use ticket_event_pf.Order.World.{
  Result, ok, err, World, Fault, fine, lost, unacked, Act, then_run, ◌>>=◌, on_error, catch,
  next_fault, suffer, remote, is_final, execute,
}

-- With a value and a world that satisfy `P`, or with an error and a world that satisfy `E`.
abbrev pub Ends :
    {S A : Type 0}
    → (A → World S → Type 0)
    → (Error → World S → Type 0)
    → Result A × World S
    → Type 0
Ends P E (ok a, w) = P a w
Ends P E (err e, w) = E e w

module _ {S A : Type 0} (P : A → World S → Type 0) (E : Error → World S → Type 0) where
  pub >>=-Ends :
      {B : Type 0} (Q : B → World S → Type 0) (m : Act S B) (f : B → Act S A) (w : World S)
      → Ends Q E (m w)
      → ((b : B) (v : World S) → Q b v → Ends P E (f b v))
      → Ends P E ((m >>= f) w)
  >>=-Ends {B = B} Q m f w h k = run (m w) h
    where
      run : (r : Result B × World S) → Ends Q E r → Ends P E (then_run f r)
      run (ok b, v) h = k b v h
      run (err e, v) h = h

  pub catch-Ends :
      (F : Error → World S → Type 0) (m : Act S A) (f : Error → Act S A) (w : World S)
      → Ends P F (m w)
      → ((e : Error) (v : World S) → F e v → Ends P E (f e v))
      → Ends P E (catch m f w)
  catch-Ends F m f w h k = run (m w) h
    where
      run : (r : Result A × World S) → Ends P F r → Ends P E (on_error f r)
      run (ok a, v) h = h
      run (err e, v) h = k e v h

  -- A remote call: it may be lost, or its answer may be.
  pub remote-Ends :
      (m : Act S A) (w : World S)
      → ((fs : List Fault) → Ends P E (m (record w { faults = fs })))
      → ((fs : List Fault) → E unavailable (record w { faults = fs }))
      → ((fs : List Fault) → E unavailable (m (record w { faults = fs })).1)
      → Ends P E (remote m w)
  remote-Ends m w h l u = run (next_fault w.faults).0 (next_fault w.faults).1
    where
      run : (f : Fault) (fs : List Fault) → Ends P E (suffer f m (record w { faults = fs }))
      run fine fs = h fs
      run lost fs = l fs
      run unacked fs = u fs

-- Retries keep what each attempt keeps.
pub execute-Ends :
    {S A : Type 0} (P : A → World S → Type 0) (I : World S → Type 0) (F : Error → Type 0)
    (m : Act S A)
    → ((w : World S) → I w → Ends P (λ e v. F e × I v) (m w))
    → (n : ℕ) (w : World S) → I w
    → Ends P (λ e v. F e × I v) (execute n m w)
unfolding execute
execute-Ends P I F m h zero w i = h w i
execute-Ends P I F m h (suc n) w i =
    catch-Ends P (λ e v. F e × I v) (λ e v. F e × I v) m
      (λ e v. let again = execute n m v in if is_final e then (err e, v) else again) w (h w i)
      (λ e v x. elim (Bool-cases (is_final e)) [
        | inl z ↦ rw z x
        | inr z ↦ rw z (execute-Ends P I F m h n v x.1)
      ])

pub Ends-mono :
    {S A : Type 0} (P Q : A → World S → Type 0) (E F : Error → World S → Type 0)
    (r : Result A × World S)
    → ((a : A) (w : World S) → P a w → Q a w)
    → ((e : Error) (w : World S) → E e w → F e w)
    → Ends P E r
    → Ends Q F r
Ends-mono P Q E F (ok a, w) f g h = f a w h
Ends-mono P Q E F (err e, w) f g h = g e w h

-- The same tables, topics and services: all but the schedule of faults.
abbrev pub Same : {S : Type 0} → World S → World S → Type 0
Same w v =
    (v.orders ≡ w.orders)
    × (v.items ≡ w.items)
    × (v.slots ≡ w.slots)
    × (v.events ≡ w.events)
    × (v.services ≡ w.services)

pub Same-refl : {S : Type 0} (w : World S) → Same w w
Same-refl w = (refl, refl, refl, refl, refl)
