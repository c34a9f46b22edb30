-- ===== src/Api.antt =====
-- The custom resources of api/v1.
pub mod Rest
pub mod Files
pub mod Commit
pub mod Pull
pub mod Operator
pub mod CelValue
