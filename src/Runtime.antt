-- ===== src/Runtime.antt =====
-- rust-core/src/runtime.rs, rust-core/src/dispatcher.rs and the request path of rust-core/src/ffi.rs.
pub mod Session
pub mod Services
pub mod Handlers
pub mod Configure
pub mod Dispatch
pub mod SessionLaws
pub mod DispatchLaws
mod Tests
