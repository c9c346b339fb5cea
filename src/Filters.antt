-- ===== src/Filters.antt =====
-- The handler chain of the API server: pkg/apiserver/filters, the values of
-- pkg/apiserver/request/context.go that it hands on, and `buildHandlerChain` of
-- pkg/apiserver/apiserver.go.
pub mod Chain
pub mod Laws
