-- ===== src/Clients.antt =====
-- The options and the constructors of the clients of the API server: pkg/client/k8s,
-- pkg/client/schedule, pkg/utils/reflectutils/reflect.go and pkg/informers.
pub mod Reflect
pub mod Options
pub mod Kubernetes
pub mod Informers
pub mod Interface
