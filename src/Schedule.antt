-- ===== src/Schedule.antt =====
-- Analysis tasks: the data of api/schedule, the operator of pkg/service/schedule, the handlers of
-- pkg/kapis and the controller of pkg/controller.
pub mod Types
pub mod Cluster
pub mod Operator
pub mod Config
pub mod Crane
pub mod CraneLaws
pub mod OperatorLaws
pub mod Response
pub mod Handlers
pub mod ResponseLaws
pub mod HandlerLaws
pub mod Controller
pub mod CacheLaws
pub mod Reachable
pub mod Setup
pub mod Thresholds
pub mod Wire
pub mod ApiErrors
