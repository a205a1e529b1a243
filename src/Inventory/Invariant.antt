-- ===== src/Inventory/Invariant.antt =====
-- What holds of the database between two transactions.
pub mod Update
pub mod Marked
use ticket_event_pf.Prelude.{
  ℕ, ◌+◌, ◌≤◌, ◌<◌, ◌≡◌, ◌∙◌, true, ◌&&◌, List, ◌==◌, if◌then◌else◌, any, sum_of, All, All-mono,
  Unique,
}
use ticket_event_pf.Inventory.Model.{TicketClass, Reservation, ReservationStatus, Db}
use ticket_event_pf.Inventory.Tables.{same_status}

-- The tickets that reservations of status `s` hold of class `c`.
abbrev pub held_by : ReservationStatus → ℕ → Reservation → ℕ
held_by s c r = if (r.ticket_class_id == c) && same_status s r.status then r.qty else 0

unfoldable pub held : ReservationStatus → List Reservation → ℕ → ℕ
held s rs c = sum_of (held_by s c) rs

-- Each class counts `a` of its id as reserved and `s` of its id as sold, within its total.
abbrev pub Counts : (ℕ → ℕ) → (ℕ → ℕ) → TicketClass → Type 0
Counts a s tc = (tc.reserved ≡ a tc.id) × (tc.sold ≡ s tc.id) × (tc.reserved + tc.sold ≤ tc.total)

abbrev pub Books : (ℕ → ℕ) → (ℕ → ℕ) → List TicketClass → Type 0
Books a s = All (Counts a s)

abbrev pub class_id : TicketClass → ℕ
class_id tc = tc.id

abbrev pub row_id : Reservation → ℕ
row_id r = r.id

abbrev pub HasClass : List TicketClass → Reservation → Type 0
HasClass tcs r = any (λ tc. tc.id == r.ticket_class_id) tcs ≡ true

-- The state inside a transaction whose counters stand at `a` reserved and `s` sold. No class is
-- oversold, ids stand once and below their sequence, and every reservation names a class.
pub record Pending (a s : ℕ → ℕ) (d : Db) : Type 0 where
  pub books : Books a s d.ticket_classes
  pub unique_classes : Unique class_id d.ticket_classes
  pub unique_rows : Unique row_id d.reservations
  pub class_ids : All (λ (tc : TicketClass). tc.id < d.next_class_id) d.ticket_classes
  pub row_ids : All (λ (r : Reservation). r.id < d.next_reservation_id) d.reservations
  pub owned : All (HasClass d.ticket_classes) d.reservations

-- Between transactions the counters are the sums over the reservations: `reserved` over those that
-- are ACTIVE, `sold` over those that are CONFIRMED.
abbrev pub Inv : Db → Type 0
Inv d =
    Pending (held ReservationStatus.active d.reservations)
      (held ReservationStatus.confirmed d.reservations) d

pub Books-ext :
    (a a' s s' : ℕ → ℕ) (tcs : List TicketClass)
    → ((c : ℕ) → a c ≡ a' c)
    → ((c : ℕ) → s c ≡ s' c)
    → Books a s tcs
    → Books a' s' tcs
Books-ext a a' s s' tcs p q =
    All-mono (Counts a s) (Counts a' s') (λ tc h. (h.0 ∙ p tc.id, h.1 ∙ q tc.id, h.2)) tcs

pub Pending-ext :
    (a a' s s' : ℕ → ℕ) (d : Db)
    → ((c : ℕ) → a c ≡ a' c)
    → ((c : ℕ) → s c ≡ s' c)
    → Pending a s d
    → Pending a' s' d
Pending-ext a a' s s' d p q h = record {
  books = Books-ext a a' s s' d.ticket_classes p q h.books;
  unique_classes = h.unique_classes;
  unique_rows = h.unique_rows;
  class_ids = h.class_ids;
  row_ids = h.row_ids;
  owned = h.owned;
}
