-- ===== src/HashMap.antt =====
-- `std::collections::HashMap`, as an association list. The order in which a map is iterated is not
-- specified in Rust; here it is the list's.
mod Defs
mod Laws
unfoldable pub use Defs.*
pub use Laws.*
