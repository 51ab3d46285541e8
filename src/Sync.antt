-- ===== src/Sync.antt =====
-- rust-core/src/sync.rs: the service between the store and the server.
pub mod Flush
pub mod Browse
pub mod Service
pub mod FlushLaws
pub mod InFlight
pub mod FlightAck
pub mod Started
pub mod Interleaving
pub mod Safety
pub mod Reachable
pub mod Runs
pub mod RefreshRuns
pub mod FlushEffect
pub mod RefreshEffect
pub mod AllDelivered
pub mod ServiceLaws
pub mod Scheduler
pub mod SchedulerLaws
pub mod SchedulerEnds
mod SchedulerTests
mod ServiceTests
mod Tests
mod RunTests
