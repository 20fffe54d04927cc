-- ===== src/HashMap.antt =====
-- Rust's `HashMap`, as an association list: what the program uses of it, with its laws. The order
-- of the entries stands for the unspecified order of iteration.
mod Laws
mod Values
mod Defs
pub use Laws.*
pub use Values.*
unfoldable pub use Defs.{HashMap, get, contains_key, insert, remove, modify, retain, keys, values}
