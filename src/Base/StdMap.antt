-- ===== src/Base/StdMap.antt =====
-- std::map with strings for keys: its entries in the order of the keys.
mod Order
mod Defs
mod Sorted
unfoldable pub use Defs.*
pub use Order.*
pub use Sorted.*
