-- ===== src/Store.antt =====
-- What the services share and change: the database, the in-memory import counters, and the
-- transaction of the context. A service call takes the world and returns a result with the new one.
-- The statements on single tables are in Store/Repo, transactions in Store/Transaction.
pub mod Repo
pub mod Transaction
pub mod Keeps
pub mod Rows
pub mod Links
pub mod Batches
pub mod Runs
mod State
unfoldable pub use State.*
