-- ===== src/Request.antt =====
-- pkg/apiserver/request: what a request asks for, read from its URL.
pub mod Types
pub mod Parse
pub mod Stages
pub mod Panics
pub mod Scope
pub mod Verbs
pub mod Clusters
pub mod Later
pub mod Namespaced
pub mod TenantForms
pub mod Tenants
