-- ===== src/Order/Model.antt =====
-- internal/models and the options of internal/order/repository and internal/workflows of order-svc.
-- Amounts, quantities and instants are natural numbers. The index keys of the table (GSI1, GSI2,
-- entity_type) are left out: they repeat other fields.
use ticket_event_pf.Prelude.{ℕ, String, Bool, true, false, Option, List, str_eq}

-- The column is a string: `other` is a value that the code does not name.
pub data OrderStatus : Type 0 where
  pending timeout completed cancelled payment_failed refunded refund_required : OrderStatus
  other : String → OrderStatus

abbrev pub status_eq : OrderStatus → OrderStatus → Bool
status_eq OrderStatus.pending OrderStatus.pending = true
status_eq OrderStatus.timeout OrderStatus.timeout = true
status_eq OrderStatus.completed OrderStatus.completed = true
status_eq OrderStatus.cancelled OrderStatus.cancelled = true
status_eq OrderStatus.payment_failed OrderStatus.payment_failed = true
status_eq OrderStatus.refunded OrderStatus.refunded = true
status_eq OrderStatus.refund_required OrderStatus.refund_required = true
status_eq (OrderStatus.other s) (OrderStatus.other t) = str_eq s t
status_eq _ _ = false

pub record Order : Type 0 where
  pub code : String
  pub session_id : String
  pub user_id : String
  pub user_full_name : String
  pub email : String
  pub phone : String
  pub event_id : String
  pub total_amount : ℕ
  pub currency : String
  pub payment_method : String
  pub status : OrderStatus
  pub paid_at : Option ℕ
  pub created_at : ℕ
  pub updated_at : ℕ
  pub deleted_at : Option ℕ

pub record OrderItem : Type 0 where
  pub order_code : String
  pub number : ℕ
  pub ticket_class_id : String
  pub ticket_class_name : String
  pub price_at_purchase : ℕ
  pub quantity : ℕ
  pub total_amount : ℕ
  pub created_at : ℕ
  pub updated_at : ℕ
  pub deleted_at : Option ℕ

pub record CreateOrderOption : Type 0 where
  pub code : String
  pub session_id : String
  pub user_id : String
  pub user_full_name : String
  pub email : String
  pub phone : String
  pub event_id : String
  pub total_amount : ℕ
  pub currency : String
  pub payment_method : String
  pub status : OrderStatus

pub record CreateOrderItemOption : Type 0 where
  pub order_code : String
  pub ticket_class_id : String
  pub ticket_class_name : String
  pub price_at_purchase : ℕ
  pub quantity : ℕ
  pub total_amount : ℕ

-- The claim of a buyer's purchase slot, under its key. An item of the table that lacks a field, or
-- has one that does not parse, reads as `none`.
pub record Slot : Type 0 where
  pub dedupe_key : String
  pub order_code : Option String
  pub claimed_at : Option ℕ
  pub expires_at : ℕ

-- A row of the table: the code in its key, and the order.
pub record OrderRow : Type 0 where
  pub key : String
  pub order : Order

-- The status codes of gRPC that the code tells apart.
pub data Code : Type 0 where
  failed_precondition not_found permission_denied : Code
  other_code : ℕ → Code

-- The errors, by the sentinel or the type string that survives the workflow engine.
pub data Error : Type 0 where
  unavailable : Error
  grpc : Code → Error
  repo_order_not_found order_already_exists : Error
  not_enough_tickets order_code_collision cannot_confirm already_processed order_not_found : Error
  purchase_slot_taken purchase_slot_unsettled purchase_slot_released : Error
  order_not_pending order_cancellation_failed : Error

-- The text of a refund's reason, by what it is printed from.
pub data Reason : Type 0 where
  payment_settled_on : OrderStatus → Reason
  inventory_not_confirmed : Error → Reason

-- The events that order-svc publishes.
pub data Event : Type 0 where
  checkout_completed checkout_expired checkout_failed : String → String → String → Event
  refund_required : String → String → String → Reason → Event

pub record CreateOrderItemInput : Type 0 where
  pub ticket_class_id : String
  pub ticket_class_name : String
  pub price_at_purchase : ℕ
  pub quantity : ℕ
  pub total_amount : ℕ

pub record CreateOrderWorkflowInput : Type 0 where
  pub order_code : String
  pub session_id : String
  pub user_id : String
  pub email : String
  pub phone : String
  pub user_full_name : String
  pub event_id : String
  pub event_name : String
  pub currency : String
  pub total_amount : ℕ
  pub items : List CreateOrderItemInput
  pub payment_provider : String
  pub redirect_url : String
  pub idempotency_key : String

pub record ReserveItem : Type 0 where
  pub ticket_class_id : String
  pub quantity : ℕ

pub record PaymentIntent : Type 0 where
  pub order_code : String
  pub amount_cents : ℕ
  pub currency : String
  pub provider : String
  pub redirect_url : String
  pub idempotency_key : String
  pub timeout_seconds : ℕ

pub record CreateOrderWorkflowResult : Type 0 where
  pub payment_url : String
  pub order : Order
  pub order_items : List OrderItem
