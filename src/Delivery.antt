-- ===== src/Delivery.antt =====
-- Messages between services: the queue (libs/queue), the outbox (libs/outbox) and the workers that
-- consume (services/backend/src/backend/workers).
pub mod Queue
pub mod Worker
mod Tests
pub mod Outbox
