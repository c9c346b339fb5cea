-- ===== src/Utils.antt =====
-- Helpers: pkg/utils.
pub mod Net
pub mod NetLaws
pub mod Slices
pub mod SlicesLaws
pub mod Strings
pub mod StringsLaws
pub mod Unique
pub mod Reverse
pub mod Ids
pub mod ResourceParse
