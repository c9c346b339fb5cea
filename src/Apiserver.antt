-- ===== src/Apiserver.antt =====
-- The process of the API server: pkg/apiserver and its use in cmd/apiserver.
pub mod Context
pub mod Sync
pub mod SyncFactory
pub mod SyncLaws
pub mod Serving
pub mod Runtime
pub mod Routes
pub mod Prepare
pub mod PrepareLaws
pub mod Create
