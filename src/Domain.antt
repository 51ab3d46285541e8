-- ===== src/Domain.antt =====
-- The domain models of rust-core/src/domain: selections, entries and navigation.
pub mod Selection
pub mod Entry
pub mod Navigation
pub mod NavigationLaws
mod Tests
