-- ===== src/Lib.antt =====
-- TicketBottle: a model of its three Go services, waitroom-svc, order-svc and inventory-svc
-- (services/waitroom-svc, services/order-svc and services/inventory-svc).
--
-- inventory-svc counts the tickets of each class (total, reserved, sold) and keeps one reservation row
-- for each order and class. order-svc runs an order's life as workflows that call it: CreateOrder
-- reserves, writes the order and asks for a payment; ConfirmOrder turns the hold into a sale;
-- ExpireOrder times an unpaid order out. The expiry worker of inventory-svc sweeps holds on its own.
-- waitroom-svc keeps a queue for each event: buyers join it with a session, a processor lets those at
-- its head in at each tick while inventory-svc has tickets, with a token and a slot for their checkout,
-- and the end of an order ends the session and frees the slot.
--
-- Inventory (services/inventory-svc/internal)
--   Inventory/Model: models/*.go and the inputs of services/*_types.go, services/errors.go.
--   Inventory/Tx: the database as gorm offers it. A call runs on a session, the database with a
--     schedule of failures: each statement and each commit takes one entry. `transaction` rolls back
--     on an error. gorm and PostgreSQL are not modelled further.
--   Inventory/Tables: the guarded UPDATE of a class, and `onSale` of services/reservation.go.
--   Inventory/Reserve, Settle, Expire: services/reservation.go (`Reserve`; `Confirm` and `Release`;
--     `BatchExpireReservations` with workers/reservation_exp_worker.go). Expire/Worker and
--     Drained are about `runJob`.
--   Inventory/TicketClasses: services/ticketclass.go and ticketclass_builder.go.
--   Inventory/Invariant: what holds between two transactions: the counters are the sums over the
--     reservations and stay within the totals.
--   Inventory/Delivery: delivery/grpc, the calls on reservations and stock; Delivery/Answered: proofs.
--   Inventory/Availability: what a read of the stock promises.
--   Inventory/System: any sequence of the service calls that write, under any failures.
-- Order (services/order-svc/internal)
--   Order/Model: models/*.go, order/errors.go and the inputs of order/repository and workflows.
--   Order/World: the table, the topics, the services that are called, and a schedule of faults: each
--     remote call goes through, is lost, or takes effect while its answer is lost. `execute` is an
--     activity under its retry policy (`executeShortStep` and `ExecuteActivity` of workflows/steps.go).
--   Order/Repository, Items, Slots: order/repository/order.go and item.go, order/purchase_slot.go.
--   Order/Activities: activities/*.go. Order/Workflows: create_order.go, confirm_order.go,
--     expire_order.go, shared.go and steps.go of workflows. Order/Budget: workflows/options.go.
--   Order/PurchaseSlot, Cancel: order/service/order.go.
--   Order/Outcome: how a call ends. Order/Settled, Fulfilled, Claimed, Resumed, Compensated,
--     PaymentFailed: proofs.
-- Waitroom (services/waitroom-svc)
--   Waitroom/Model: internal/models/session.go, internal/service/errors.go and the messages of
--     internal/delivery/kafka/presenter.go.
--   Waitroom/World: Redis, the topics, the caches and the counters; the record `Env` of what is outside
--     the service; and a schedule of steps: at each remote call time passes, and the call goes through,
--     is lost, or takes effect while its answer is lost. Waitroom/Remote: how such a call ends.
--   Waitroom/Redis: the commands that pkg/redis/client.go passes on. Redis/Laws: what they leave alone.
--   Waitroom/SessionRepository, QueueRepository: internal/repository/redis.
--   Waitroom/SessionService, QueueService, EventGate, StockGate, Service: the files of internal/service.
--   Waitroom/Processor, Tick: internal/service/queue_processor.go, one session and one tick.
--   Waitroom/Consumer: internal/delivery/kafka/consumer with producer/deadletter.go, on a claim of one
--     partition; Consumer/Committed, Drained: proofs.
--   Waitroom/Kept: which entries leave a queue (Kept/Sessions, Admission, Attempt, Removed, Tick).
--   Waitroom/Doors, Due, Strangers, Tokens, Drained, Ended, Stranded, Admitted:
--     proofs.
-- Prelude/Act: the steps with a world and an error that Waitroom is written in.
--
-- Bounds and fuel. The drain loop of the worker counts its rounds down from 100, the claim loop from 3,
-- and an activity counts its attempts down, as the source does; so do an admission with its 3 and the
-- consumer. The loop over the batches of items has the number of the items as fuel: each batch takes at
-- least one. Ids, prices, quantities and instants are natural numbers, and the machine's bound on them
-- is left out; the difference of counters that Go computes in signed integers is an integer.
--
-- Parameters. Inventory/Delivery takes the parsers of ids and of instants; an id that they read is a
-- natural number, so a negative one, which no class has, is left out. The consumer takes
-- the parser of its events. The inventory and payment clients of order-svc are the record `Services`.
-- The rows that another transaction has locked are a test that the sweep takes. `Env` holds what
-- waitroom-svc calls: JSON, web tokens, SHA-256, generated ids and lots, the order of equal scores in Redis, event-svc and
-- inventory-svc, and its configuration. A pipeline of Redis is one call. A queue score is counted in the
-- units in which a float64 near the Unix time is rounded, 2^-22 seconds. The text that wraps an error is
-- left out; its cause is kept. A session, an order and an item are stored as they are: that they come
-- back from their JSON and from DynamoDB's attributes as they were, and that neither coding fails, is
-- assumed. So is that a read of an order by its code (`GetByCode`, which asks for no consistent read)
-- answers the current row: the results on ConfirmOrder, ExpireOrder and a create that finds its slot
-- taken hold of reads that do.
--
-- Not modelled: the Kafka layer of order-svc, how waitroom-svc joins its consumer group, the gRPC
-- layers but for the calls of Inventory/Delivery, the paged reads of order-svc, `Create` of its service,
-- logging, metrics and configuration; the goroutine and the locks of the queue processor, and calls
-- that `singleflight` collapses are one call; the services written in TypeScript; generated code.
pub mod Prelude
pub mod Inventory
pub mod Order
pub mod Waitroom
