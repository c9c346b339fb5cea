-- ===== src/Server.antt =====
-- pkg/server: its options and the parameters of a request.
pub mod Options
pub mod Params
pub mod Paging
pub mod Conditions
