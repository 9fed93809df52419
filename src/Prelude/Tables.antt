-- ===== src/Prelude/Tables.antt =====
-- Tables of a relational store as lists of rows: the part of SQL that the repositories use.
-- SELECT ... WHERE with `fetchone` is `find`, UPDATE ... WHERE is `update_where` with `rowcount` for
-- the rows that it changes, INSERT under a uniqueness constraint is `insert_unique`, and ORDER BY is
-- `order_by`, a stable sort.
mod Defs
mod Update
mod Order
mod Keys
mod First
unfoldable pub use Defs.*
pub use Update.*
pub use Order.*
pub use Keys.*
pub use First.*
