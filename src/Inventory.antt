-- ===== src/Inventory.antt =====
-- services/inventory-svc.
pub mod Delivery
pub mod Model
pub mod Tx
pub mod Tables
pub mod Reserve
pub mod Settle
pub mod Expire
pub mod TicketClasses
pub mod Invariant
pub mod System
pub mod Availability
mod Tests
