-- ===== src/Inventory/Tx.antt =====
-- The database that internal/services calls through gorm: statements that may fail, and
-- `Transaction`, which rolls back on an error. A session carries the schedule of the failures to
-- come: each statement and each commit takes one entry, `true` makes it fail.
use ticket_event_pf.Prelude.{
  ℕ, suc, ◌+◌, ◌≡◌, refl, sym, subst, ◌≢◌, Bool, true, false, Option, none, some, List, [], ◌∷◌,
  arith, ◌==◌, if◌then◌else◌, sum_of, All, Unique, Fresh,
}
use ticket_event_pf.Inventory.Model.{Db, Error, db_failure}

pub data Result (A : Type 0) : Type 0 where
  ok : A → Result A
  err : Error → Result A

pub record Session : Type 0 where
  pub db : Db
  pub faults : List Bool

abbrev pub Tx : Type 0 → Type 0
Tx A = Session → Result A × Session

abbrev pub pure : {A : Type 0} → A → Tx A
pure a s = (ok a, s)

abbrev pub raise : {A : Type 0} → Error → Tx A
raise e s = (err e, s)

abbrev pub then_run : {A B : Type 0} → (A → Tx B) → Result A × Session → Result B × Session
then_run f (ok a, s) = f a s
then_run f (err e, s) = (err e, s)

infixl 5 ◌>>=◌ ◌>>◌
abbrev pub ◌>>=◌ : {A B : Type 0} → Tx A → (A → Tx B) → Tx B
◌>>=◌ m f s = then_run f (m s)

abbrev pub ◌>>◌ : {A B : Type 0} → Tx A → Tx B → Tx B
m >> k = m >>= λ _. k

-- Whether the next step fails, and the session after it.
abbrev next_fault : List Bool → Bool × List Bool
next_fault [] = (false, [])
next_fault (b ∷ bs) = (b, bs)

-- One statement. It is refused, and changes nothing, where a constraint refuses it (`none`).
abbrev run_statement : {A : Type 0} → Bool → Option (A × Db) → Session → Result A × Session
run_statement true r s = (err db_failure, s)
run_statement false none s = (err db_failure, s)
run_statement false (some (a, d)) s = (ok a, record s { db = d })

abbrev pub statement : {A : Type 0} → (Db → Option (A × Db)) → Tx A
statement f s =
    let (fails, rest) = next_fault s.faults in
    run_statement fails (f s.db) (record s { faults = rest })

-- A read.
abbrev pub query : {A : Type 0} → (Db → A) → Tx A
query f = statement (λ d. some (f d, d))

abbrev close_transaction : {A : Type 0} → Db → Result A × Session → Result A × Session
close_transaction before (ok a, s) =
    let (fails, rest) = next_fault s.faults in
    if fails
    then (err db_failure, record { db = before; faults = rest })
    else (ok a, record s { faults = rest })
close_transaction before (err e, s) = (err e, record s { db = before })

-- gorm's `Transaction`: commit on success, roll back on an error.
unfoldable pub transaction : {A : Type 0} → Tx A → Tx A
transaction m s = close_transaction s.db (m s)

-- `UPDATE … SET f WHERE p`, and the number of rows that it changes.
module _ {A : Type 0} where
  abbrev pub update_where : (A → Bool) → (A → A) → List A → List A
  update_where p f [] = []
  update_where p f (x ∷ xs) = (if p x then f x else x) ∷ update_where p f xs

  abbrev pub count_where : (A → Bool) → List A → ℕ
  count_where p [] = 0
  count_where p (x ∷ xs) = if p x then suc (count_where p xs) else count_where p xs

  pub sum_of-update_where :
      (w : A → ℕ) (p : A → Bool) (f : A → A) (xs : List A)
      → sum_of w (update_where p f xs) + sum_of (λ x. if p x then w x else 0) xs
        ≡ sum_of w xs + sum_of (λ x. if p x then w (f x) else 0) xs
  sum_of-update_where w p f [] = refl
  sum_of-update_where w p f (x ∷ xs) = ground (arith, sum_of-update_where w p f xs)

  pub update_where_none :
      (p : A → Bool) (f : A → A) (xs : List A)
      → (count_where p xs == 0) ≡ true
      → update_where p f xs ≡ xs
  update_where_none p f [] h = refl
  update_where_none p f (x ∷ xs) h = ground (arith, update_where_none p f xs)

-- An update that keeps a key keeps what is said of keys alone.
module _ {A : Type 0} (key : A → ℕ) (p : A → Bool) (f : A → A)
    (keeps : (x : A) → key (f x) ≡ key x) where
  pub update_where-key : (x : A) → key (if p x then f x else x) ≡ key x
  update_where-key x = elim (p x) as (λ b. key (if b then f x else x) ≡ key x) [
    | true ↦ keeps x
    | false ↦ refl
  ]

  pub update_where-All :
      (P : ℕ → Type 0) (xs : List A)
      → All (λ x. P (key x)) xs
      → All (λ x. P (key x)) (update_where p f xs)
  update_where-All P [] h = tt
  update_where-All P (x ∷ xs) h =
      (subst P (sym (update_where-key x)) h.0, update_where-All P xs h.1)

  pub update_where-Unique : (xs : List A) → Unique key xs → Unique key (update_where p f xs)
  update_where-Unique [] u = tt
  update_where-Unique (x ∷ xs) u = (
    subst (λ k. Fresh key k (update_where p f xs)) (sym (update_where-key x))
        (update_where-All (λ k. k ≢ key x) xs u.0),
    update_where-Unique xs u.1,
  )

-- How a call ends: with a value and a database that satisfy `P`, or with an error that satisfies
-- `E`.
abbrev pub Ends : {A : Type 0} → (A → Db → Type 0) → (Error → Type 0) → Result A × Session → Type 0
Ends P E (ok a, s) = P a s.db
Ends P E (err e, s) = E e

module _ {A : Type 0} (P : A → Db → Type 0) (E : Error → Type 0) where
  pub >>=-Ends :
      {B : Type 0} (Q : B → Db → Type 0) (m : Tx B) (f : B → Tx A) (s : Session)
      → Ends Q E (m s)
      → ((b : B) (t : Session) → Q b t.db → Ends P E (f b t))
      → Ends P E ((m >>= f) s)
  >>=-Ends {B = B} Q m f s h k = run (m s) h
    where
      run : (r : Result B × Session) → Ends Q E r → Ends P E (then_run f r)
      run (ok b, t) h = k b t h
      run (err e, t) h = h

  pub statement-Ends :
      (f : Db → Option (A × Db)) (s : Session)
      → E db_failure
      → ((a : A) (d : Db) → f s.db ≡ some (a, d) → P a d)
      → Ends P E (statement f s)
  statement-Ends f s e h = run (next_fault s.faults).0 (f s.db) h
    where
      run :
          (b : Bool) (r : Option (A × Db))
          → ((a : A) (d : Db) → r ≡ some (a, d) → P a d)
          → Ends P E (run_statement b r (record s { faults = (next_fault s.faults).1 }))
      run true r h = e
      run false none h = e
      run false (some (a, d)) h = h a d refl

  -- A statement that no constraint refuses.
  pub write-Ends :
      (g : Db → A) (h : Db → Db) (s : Session)
      → E db_failure
      → P (g s.db) (h s.db)
      → Ends P E (statement (λ d. some (g d, h d)) s)
  write-Ends g h s e p = run (next_fault s.faults).0
    where
      run :
          (b : Bool)
          → Ends P E (
              run_statement b
                (some (g s.db, h s.db))
                (record s { faults = (next_fault s.faults).1 }))
      run true = e
      run false = p

  pub query-Ends :
      (f : Db → A) (s : Session) → E db_failure → P (f s.db) s.db → Ends P E (query f s)
  query-Ends f s e h = write-Ends f (λ d. d) s e h

  pub raise-Ends : (e : Error) (s : Session) → E e → Ends P E (raise e s)
  raise-Ends e s h = h

pub Ends-mono :
    {A : Type 0} (P Q : A → Db → Type 0) (E : Error → Type 0) (r : Result A × Session)
    → ((a : A) (d : Db) → P a d → Q a d)
    → Ends P E r
    → Ends Q E r
Ends-mono P Q E (ok a, t) f h = f a t.db h
Ends-mono P Q E (err e, t) f h = h

pub Ends-both :
    {A : Type 0} (P Q : A → Db → Type 0) (E : Error → Type 0) (r : Result A × Session)
    → Ends P E r
    → Ends Q E r
    → Ends (λ a d. P a d × Q a d) E r
Ends-both P Q E (ok a, t) h k = (h, k)
Ends-both P Q E (err e, t) h k = h

-- A transaction ends as its body does, but on an error the database is as it was.
pub transaction-Ends :
    {A : Type 0} (P : A → Db → Type 0) (E : Error → Type 0) (m : Tx A) (s : Session)
    → E db_failure
    → Ends P E (m s)
    → Ends P E (transaction m s)
unfolding transaction
transaction-Ends {A} P E m s e h = run (m s) h
  where
    run : (r : Result A × Session) → Ends P E r → Ends P E (close_transaction s.db r)
    run (ok a, t) h =
        elim (next_fault t.faults).0
          as (λ b. Ends P E (
            if b
            then (err db_failure, record { db = s.db; faults = (next_fault t.faults).1 })
            else (ok a, record t { faults = (next_fault t.faults).1 }))) [ true ↦ e | false ↦ h ]
    run (err x, t) h = h

-- The database that a call leaves behind.
abbrev pub db_after : {A : Type 0} → Result A × Session → Db
db_after r = r.1.db

abbrev pub IsErr : {A : Type 0} → Result A × Session → Type 0
IsErr (ok a, s) = ⊥
IsErr (err e, s) = Unit

-- Whatever fails inside, or at the commit, the database is as it was.
pub transaction_atomic :
    {A : Type 0} (m : Tx A) (s : Session)
    → IsErr (transaction m s)
    → db_after (transaction m s) ≡ s.db
unfolding transaction
transaction_atomic {A} m s h = run (m s) h
  where
    run :
        (r : Result A × Session)
        → IsErr (close_transaction s.db r)
        → db_after (close_transaction s.db r) ≡ s.db
    run (ok a, t) h = ground arith
    run (err e, t) h = refl

-- So a transaction keeps what holds of its start, if its body does so where it succeeds.
pub transaction-keeps :
    {A : Type 0} (I : Db → Type 0) (m : Tx A) (s : Session)
    → I s.db
    → Ends (λ _ d. I d) (λ _. Unit {0}) (m s)
    → I (db_after (transaction m s))
unfolding transaction
transaction-keeps {A} I m s i h = run (m s) h
  where
    run :
        (r : Result A × Session)
        → Ends (λ _ d. I d) (λ _. Unit {0}) r
        → I (db_after (close_transaction s.db r))
    run (ok a, t) h =
        elim (next_fault t.faults).0
          as (λ b. I (
            db_after {A = A} (
              if b
              then (err db_failure, record { db = s.db; faults = (next_fault t.faults).1 })
              else (ok a, record t { faults = (next_fault t.faults).1 })))) [ true ↦ i | false ↦ h ]
    run (err x, t) h = i

-- A statement keeps what it keeps where it succeeds.
pub statement-keeps :
    {A : Type 0} (I : Db → Type 0) (f : Db → Option (A × Db)) (s : Session)
    → I s.db
    → ((a : A) (d : Db) → f s.db ≡ some (a, d) → I d)
    → I (db_after (statement f s))
statement-keeps {A} I f s i h = run (next_fault s.faults).0 (f s.db) h
  where
    run :
        (b : Bool) (r : Option (A × Db))
        → ((a : A) (d : Db) → r ≡ some (a, d) → I d)
        → I (db_after (run_statement b r (record s { faults = (next_fault s.faults).1 })))
    run true r h = i
    run false none h = i
    run false (some (a, d)) h = h a d refl
