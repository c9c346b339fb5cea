-- ===== src/Generated.antt =====
-- The generated code under pkg/client and api/schedule/v1alpha1: the factory of shared informers, the
-- lister, the clients of analysis tasks and the deep copies.
pub mod Factory
pub mod FactoryLaws
pub mod Sessions
pub mod Waiting
pub mod Rest
pub mod Tasks
pub mod TaskLaws
pub mod Informers
pub mod InformerLaws
pub mod Lister
pub mod ListerLaws
pub mod Fake
pub mod FakeLaws
pub mod Clientset
pub mod Memory
pub mod MemTypes
pub mod DeepCopy
pub mod DeepCopyLaws
