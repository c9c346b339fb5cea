-- ===== src/Resources.antt =====
-- pkg/service/resources/v1alpha3: listing of objects by filter, order and pagination.
pub mod Objects
pub mod Filter
pub mod Compare
pub mod Listing
pub mod Pages
pub mod Order
pub mod Matching
pub mod Handlers
pub mod Labels
