-- ===== src/Transport.antt =====
-- rust-core/src/transport: the requests and responses of the core.
pub mod Request
pub mod Fields
pub mod FieldsLaws
pub mod Response
pub mod Routing
mod FieldsTests
mod Tests
