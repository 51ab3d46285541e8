-- ===== src/Store.antt =====
-- rust-core/src/persistence: the SQLite store.
pub mod Schema
pub mod Mutations
pub mod Acknowledge
pub mod Apply
pub mod Views
pub mod ReadState
pub mod Keyed
pub mod MarkViews
pub mod MarkLoop
pub mod MarkAll
pub mod UndoItems
pub mod UndoRoundTrip
pub mod SetRead
pub mod Acknowledged
pub mod Consistency
pub mod AckConsistency
pub mod ApplyViews
pub mod ApplyConsistency
pub mod UndoSetRead
pub mod Undoable
pub mod ApplyKeyed
pub mod ApplyTakes
pub mod Records
pub mod Snapshot
pub mod Listing
pub mod Totals
pub mod RecordTrips
pub mod Fixtures
mod SnapshotTests
mod Tests
