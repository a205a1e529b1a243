-- ===== src/Waitroom/Redis/Laws.antt =====
-- What the commands of Redis leave as it is: keys of another name, members of another name.
use text.Mathlib.TextEquality.{eq_iff}
use ticket_event_pf.Prelude.{
  ℕ, ◌≤◌, ◌≡◌, refl, sym, ap, ◌∙◌, String, Bool, true, false, not, ◌&&◌, ◌||◌, Option, none, some,
  inl, inr, List, [], ◌∷◌, if◌then◌else◌, leb, str_eq, rows_where, any, Bool-cases, arith,
}
use ticket_event_pf.Waitroom.World.{Keyed, Checkout}
use ticket_event_pf.Waitroom.Redis.{
  get_key, set_key, holds, in_set, with_expiry, expire_set, add_checkout,
}

pub str_eq_self : (k : String) → str_eq k k ≡ true
str_eq_self k = (eq_iff k k).1 refl

-- A key that is another's is not a third's that the other is.
pub str_eq_trans : (i j k : String) → str_eq i j ≡ true → str_eq i k ≡ str_eq j k
str_eq_trans i j k h = ap (λ z. str_eq z k) ((eq_iff i j).0 h)

pub str_eq_sym : (j k : String) → str_eq j k ≡ false → str_eq k j ≡ false
str_eq_sym j k h = elim (Bool-cases (str_eq k j)) [ inr e ↦ e | inl e ↦ absurd (same k e h) ]
  where
    same : (k : String) → str_eq k j ≡ true → str_eq j k ≡ false → ⊥
    same k e h =
        let impossible : true ≡ false = sym (str_eq_self k) ∙ (str_eq_trans k j k e ∙ h) in cc

module _ {A : Type 0} where
  pub get_key-without :
      (now : ℕ) (k : String) (rows : List (Keyed A))
      → get_key now k (rows_where (λ r. not (str_eq r.key k)) rows) ≡ none
  get_key-without now k [] = refl
  get_key-without now k (r ∷ rows) = elim (Bool-cases (str_eq r.key k)) [
    | inl e ↦ rw e (get_key-without now k rows)
    | inr e ↦ rw e (rw e (get_key-without now k rows))
  ]

  pub get_key-without_other :
      (now : ℕ) (j k : String) (rows : List (Keyed A))
      → str_eq j k ≡ false
      → get_key now j (rows_where (λ r. not (str_eq r.key k)) rows) ≡ get_key now j rows
  get_key-without_other now j k [] h = refl
  get_key-without_other now j k (r ∷ rows) h = elim (Bool-cases (str_eq r.key j)) [
    | inl e ↦ rw (str_eq_trans r.key j k e ∙ h) (rw e refl)
    | inr e ↦ elim (Bool-cases (str_eq r.key k)) [
      | inl f ↦ rw f (rw e (get_key-without_other now j k rows h))
      | inr f ↦ rw f (rw e (get_key-without_other now j k rows h))
    ]
  ]

  pub get_key-set :
      (now : ℕ) (k : String) (a : A) (end : ℕ) (rows : List (Keyed A))
      → get_key now k (set_key k a end rows) ≡ (if leb now end then some a else none)
  get_key-set now k a end rows = rw (str_eq_self k) refl

  pub get_key-set_other :
      (now : ℕ) (j k : String) (a : A) (end : ℕ) (rows : List (Keyed A))
      → str_eq k j ≡ false
      → str_eq j k ≡ false
      → get_key now j (set_key k a end rows) ≡ get_key now j rows
  get_key-set_other now j k a end rows f h = rw f (get_key-without_other now j k rows h)

-- A key that is gone stays so.
pub get_key_later :
    {A : Type 0} (t t' : ℕ) (k : String) (rows : List (Keyed A))
    → t ≤ t'
    → get_key t k rows ≡ none
    → get_key t' k rows ≡ none
get_key_later t t' k [] le h = refl
get_key_later {A = A} t t' k (r ∷ rows) le h = elim (Bool-cases (str_eq r.key k)) [
  | inr f ↦ rw f (get_key_later t t' k rows le (rw f at h))
  | inl e ↦ elim (Bool-cases (leb t' r.expires_at)) [
    | inr f ↦ rw e (rw f refl)
    | inl f ↦
        let before : leb t r.expires_at ≡ true = ground arith in
        let impossible : ◌≡◌ {A = Option A} (some r.value) none = rw before at (rw e at h) in
        absurd cc
  ]
]

-- Whether a member has a slot of an event.
abbrev pub has_slot : String → String → List Checkout → Bool
has_slot e k = any (holds e k)

holds-with_expiry :
    (e k : String) (now : ℕ) (e' : String) (end : ℕ) (r : Checkout)
    → holds e k (with_expiry now e' end r) ≡ holds e k r
holds-with_expiry e k now e' end r = elim (Bool-cases (in_set now e' r)) [
  | inl t ↦ rw t refl
  | inr f ↦ rw f refl
]

has_slot-expire :
    (e k : String) (now : ℕ) (e' : String) (end : ℕ) (rows : List Checkout)
    → has_slot e k (expire_set now e' end rows) ≡ has_slot e k rows
has_slot-expire e k now e' end [] = refl
has_slot-expire e k now e' end (r ∷ rows) =
    rw (holds-with_expiry e k now e' end r) (rw (has_slot-expire e k now e' end rows) refl)

pub and_true : (a b : Bool) → (a && b) ≡ true → (a ≡ true) × (b ≡ true)
and_true true b h = (refl, h)
and_true false b h = let impossible : false ≡ true = h in absurd cc

holds_same :
    (e k : String) (x r : Checkout) → holds x.event x.member r ≡ true → holds e k x ≡ holds e k r
holds_same e k x r h =
    let both = and_true (str_eq r.event x.event) (str_eq r.member x.member) h in
    rw ((eq_iff r.event x.event).0 both.0) (rw ((eq_iff r.member x.member).0 both.1) refl)

without_same :
    (x r all rest : Bool)
    → x ≡ r
    → (r || all) ≡ true
    → (all ≡ true → (x || rest) ≡ true)
    → (x || rest) ≡ true
without_same true r all rest e h ih = refl
without_same false true all rest e h ih = let impossible : false ≡ true = e in absurd cc
without_same false false all rest e h ih = ih h

without_other :
    (x r all rest : Bool)
    → (r || all) ≡ true
    → (all ≡ true → (x || rest) ≡ true)
    → (x || (r || rest)) ≡ true
without_other true r all rest h ih = refl
without_other false true all rest h ih = refl
without_other false false all rest h ih = ih h

-- A member of the set that an addition takes out is the one that it puts in.
has_slot-without :
    (e k : String) (x : Checkout) (rows : List Checkout)
    → has_slot e k rows ≡ true
    → (holds e k x || has_slot e k (rows_where (λ r. not (holds x.event x.member r)) rows)) ≡ true
has_slot-without e k x [] h = let impossible : false ≡ true = h in absurd cc
has_slot-without e k x (r ∷ rows) h = elim (Bool-cases (holds x.event x.member r)) [
  | inl t ↦ rw t (
      without_same (holds e k x) (holds e k r) (has_slot e k rows) _ (holds_same e k x r t) h
        (has_slot-without e k x rows))
  | inr f ↦ rw f (
      without_other (holds e k x) (holds e k r) (has_slot e k rows) _ h
        (has_slot-without e k x rows))
]

pub has_slot-add :
    (e k : String) (now : ℕ) (x : Checkout) (rows : List Checkout)
    → has_slot e k rows ≡ true
    → has_slot e k (add_checkout now x rows) ≡ true
has_slot-add e k now x rows h =
    rw
      (has_slot-expire e k now x.event x.key_expires_at
        (rows_where (λ r. not (holds x.event x.member r)) rows))
      (has_slot-without e k x rows h)
