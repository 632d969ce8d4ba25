-- ===== src/Text.antt =====
-- Python's `str` as the list of its code points, and the methods that the scripts call on it.
-- The models read ASCII text: `lower` and `strip` are Python's on code points below 128.
mod Defs
mod Laws
unfoldable pub use Defs.*
pub use Laws.*
