-- ===== src/Waitroom.antt =====
-- services/waitroom-svc: the sessions, the queue of each event, the gates and the queue processor.
pub mod Model
pub mod World
pub mod Remote
pub mod Redis
pub mod SessionRepository
pub mod QueueRepository
pub mod SessionService
pub mod QueueService
pub mod EventGate
pub mod StockGate
pub mod Processor
pub mod Tick
pub mod Service
pub mod Kept
pub mod Doors
pub mod Due
pub mod Strangers
pub mod Tokens
pub mod Drained
pub mod Ended
pub mod Stranded
pub mod Admitted
pub mod Consumer
mod Tests
