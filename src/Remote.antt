-- ===== src/Remote.antt =====
-- rust-core/src/remote: the Miniflux client.
pub mod Error
pub mod Dto
pub mod Mapping
pub mod MappingLaws
pub mod Query
pub mod QueryLaws
pub mod Paging
pub mod PagingLaws
pub mod PagingEnd
mod QueryTests
mod Tests
