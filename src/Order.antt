-- ===== src/Order.antt =====
-- services/order-svc: the order table, the activities, the workflows and the purchase slot.
pub mod Model
pub mod World
pub mod Repository
pub mod Items
pub mod Slots
pub mod Activities
pub mod Workflows
pub mod Outcome
pub mod Settled
pub mod Claimed
pub mod Resumed
pub mod Fulfilled
pub mod Compensated
pub mod PaymentFailed
pub mod Budget
pub mod Cancel
pub mod PurchaseSlot
mod Tests
