-- ===== src/Prelude/Act.antt =====
-- Steps that read and write a world and may fail: Go's `(value, error)` over a store, and how such a
-- step ends, with a value or with an error, and in which world.

pub data Result (E A : Type 0) : Type 0 where
  ok : A → Result E A
  err : E → Result E A

abbrev pub Act : Type 0 → Type 0 → Type 0 → Type 0
Act E W A = W → Result E A × W

module _ {E W : Type 0} where
  abbrev pub pure : {A : Type 0} → A → Act E W A
  pure a w = (ok a, w)

  abbrev pub raise : {A : Type 0} → E → Act E W A
  raise e w = (err e, w)

  abbrev pub then_run : {A B : Type 0} → (A → Act E W B) → Result E A × W → Result E B × W
  then_run f (ok a, w) = f a w
  then_run f (err e, w) = (err e, w)

  infixl 5 ◌>>=◌ ◌>>◌
  abbrev pub ◌>>=◌ : {A B : Type 0} → Act E W A → (A → Act E W B) → Act E W B
  ◌>>=◌ m f w = then_run f (m w)

  abbrev pub ◌>>◌ : {A B : Type 0} → Act E W A → Act E W B → Act E W B
  m >> k = m >>= λ _. k

  -- What follows both a value and an error.
  abbrev pub settle_run :
      {A B : Type 0} → (A → Act E W B) → (E → Act E W B) → Result E A × W → Result E B × W
  settle_run f g (ok a, w) = f a w
  settle_run f g (err e, w) = g e w

  abbrev pub settle : {A B : Type 0} → Act E W A → (A → Act E W B) → (E → Act E W B) → Act E W B
  settle m f g w = settle_run f g (m w)

  -- `if err := m; err != nil { return f(err) }`
  abbrev pub catch : {A : Type 0} → Act E W A → (E → Act E W A) → Act E W A
  catch m f = settle m pure f

  -- An error that is logged and dropped.
  abbrev pub best_effort : Act E W (Unit {0}) → Act E W (Unit {0})
  best_effort m = catch m (λ e. pure tt)

  -- A read, and a write, of the world.
  abbrev pub gets : {A : Type 0} → (W → A) → Act E W A
  gets f w = (ok (f w), w)

  abbrev pub modify : (W → W) → Act E W (Unit {0})
  modify f w = (ok tt, f w)

-- With a value and a world that satisfy `P`, or with an error and a world that satisfy `F`.
abbrev pub Ends : {E W A : Type 0} → (A → W → Type 0) → (E → W → Type 0) → Result E A × W → Type 0
Ends P F (ok a, w) = P a w
Ends P F (err e, w) = F e w

module _ {E W A : Type 0} (P : A → W → Type 0) (F : E → W → Type 0) where
  pub settle-Ends :
      {B : Type 0} (Q : B → W → Type 0) (G : E → W → Type 0) (m : Act E W B) (f : B → Act E W A)
      (g : E → Act E W A) (w : W)
      → Ends Q G (m w)
      → ((b : B) (v : W) → Q b v → Ends P F (f b v))
      → ((e : E) (v : W) → G e v → Ends P F (g e v))
      → Ends P F (settle m f g w)
  settle-Ends {B = B} Q G m f g w h k l = run (m w) h
    where
      run : (r : Result E B × W) → Ends Q G r → Ends P F (settle_run f g r)
      run (ok b, v) h = k b v h
      run (err e, v) h = l e v h

  pub >>=-Ends :
      {B : Type 0} (Q : B → W → Type 0) (m : Act E W B) (f : B → Act E W A) (w : W)
      → Ends Q F (m w)
      → ((b : B) (v : W) → Q b v → Ends P F (f b v))
      → Ends P F ((m >>= f) w)
  >>=-Ends {B = B} Q m f w h k = run (m w) h
    where
      run : (r : Result E B × W) → Ends Q F r → Ends P F (then_run f r)
      run (ok b, v) h = k b v h
      run (err e, v) h = h

  pub Ends-mono :
      (Q : A → W → Type 0) (G : E → W → Type 0) (r : Result E A × W)
      → ((a : A) (w : W) → Q a w → P a w)
      → ((e : E) (w : W) → G e w → F e w)
      → Ends Q G r
      → Ends P F r
  Ends-mono Q G (ok a, w) f g h = f a w h
  Ends-mono Q G (err e, w) f g h = g e w h

pub Ends-world :
    {E W A : Type 0} (P : W → Type 0) (r : Result E A × W)
    → Ends (λ _ w. P w) (λ _ w. P w) r
    → P r.1
Ends-world P (ok a, w) h = h
Ends-world P (err e, w) h = h

pub Ends-any : {E W A : Type 0} (r : Result E A × W) → Ends (λ _ _. Unit {0}) (λ _ _. Unit {0}) r
Ends-any (ok a, w) = tt
Ends-any (err e, w) = tt
