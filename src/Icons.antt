-- ===== src/Icons.antt =====
-- rust-core/src/icons.rs: the data URLs of feed icons, and the cache with one load at a time.
pub mod Data
pub mod Flight
pub mod Guarded
pub mod Released
pub mod FlightLaws
pub mod DataLaws
mod Tests
