-- ===== src/Query.antt =====
-- pkg/apiserver/query: which objects a list request asks for, and in which order.
pub mod Types
pub mod Parse
pub mod Window
pub mod Pages
pub mod Filters
