-- ===== src/Table.antt =====
-- Go's maps as association lists: a missing key reads as `none`, a write replaces. Keys come with
-- their equality as an instance.
mod Laws
mod Defs
pub use Defs.{Key, hash_beq_iff}
unfoldable pub use Defs.{◌=?◌, lookup, insert, delete, Hash, hash_beq, hash_eq, nat_eq, get_records}
pub use Laws.*
