-- ===== src/Inventory/Model.antt =====
-- services/inventory-svc/internal/models and internal/services/*_types.go: the rows of the two
-- tables, the inputs of the services, and the errors. Ids, instants, prices and quantities are
-- natural numbers: the columns hold no negative one (internal/models/ddl.go checks the counters).
use ticket_event_pf.Prelude.{ℕ, String, Option, List}
use ticket_event_pf.Prelude.Int.{ℤ}

-- The column is a string, and an update may write any text into it.
pub data TicketClassStatus : Type 0 where
  active inactive : TicketClassStatus
  other : String → TicketClassStatus

pub record TicketClass : Type 0 where
  pub id : ℕ
  pub event_id : String
  pub name : String
  pub price_cents : ℕ
  pub currency : String
  pub total : ℕ
  pub reserved : ℕ
  pub sold : ℕ
  pub sale_start_at : Option ℕ
  pub sale_end_at : Option ℕ
  pub status : TicketClassStatus

pub data ReservationStatus : Type 0 where
  active confirmed expired cancelled : ReservationStatus

pub record Reservation : Type 0 where
  pub id : ℕ
  pub order_code : String
  pub ticket_class_id : ℕ
  pub qty : ℕ
  pub expires_at : ℕ
  pub status : ReservationStatus

-- The database: the tables `ticket_class` and `reservation` and their id sequences.
pub record Db : Type 0 where
  pub ticket_classes : List TicketClass
  pub reservations : List Reservation
  pub next_class_id : ℕ
  pub next_reservation_id : ℕ

-- internal/services/errors.go; `record_not_found` is gorm's, `db_failure` any other database error.
pub data Error : Type 0 where
  state_conflict insufficient_stock not_found inventory_drift sale_closed : Error
  record_not_found db_failure : Error

pub record ReserveItem : Type 0 where
  pub ticket_class_id : ℕ
  pub qty : ℕ

pub record ReserveInput : Type 0 where
  pub order_code : String
  pub items : List ReserveItem
  pub expires_at : ℕ

pub record CreateTicketClassInput : Type 0 where
  pub event_id : String
  pub name : String
  pub price_cents : ℕ
  pub currency : String
  pub total : ℕ
  pub sale_start_at : Option ℕ
  pub sale_end_at : Option ℕ

-- `none` leaves the column alone.
pub record UpdateTicketClassInput : Type 0 where
  pub name : Option String
  pub price_cents : Option ℕ
  pub currency : Option String
  pub total : Option ℕ
  pub sale_start_at : Option ℕ
  pub sale_end_at : Option ℕ
  pub status : Option TicketClassStatus

pub record CheckAvailabilityInput : Type 0 where
  pub ticket_class_id : ℕ
  pub qty : ℕ

pub record GetManyTicketClassInput : Type 0 where
  pub event_id : String
  pub ids : List ℕ

pub record EventStock : Type 0 where
  pub total : ℕ
  pub sold : ℕ
  pub available : ℤ
