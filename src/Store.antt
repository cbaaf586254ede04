-- ===== src/Store.antt =====
-- The database of the server: internal/db/schema.sql table by table, the values that a call takes
-- from outside (clock, random identifiers, libraries), and calls that may fail.
mod Types
mod Rows
mod Ledger
mod Formula
mod Outside
mod Calls
pub mod Results
unfoldable pub use Types.*
unfoldable pub use Rows.*
unfoldable pub use Ledger.*
unfoldable pub use Formula.*
unfoldable pub use Outside.*
unfoldable pub use Calls.*
