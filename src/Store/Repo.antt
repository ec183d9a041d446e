-- ===== src/Store/Repo.antt =====
-- internal/migration/repo/sqlite: the statements of the repositories, as functions of the tables.
-- Rows come in the order of the table, windows by their start. A statement fails where a row that it needs is missing or a
-- UNIQUE column would repeat; the failures of the database engine itself are not modelled.
mod Keys
mod Entries
mod Batches
mod Windows
mod Inventory
mod Warnings
unfoldable pub use Keys.*
unfoldable pub use Entries.*
unfoldable pub use Batches.*
unfoldable pub use Windows.*
unfoldable pub use Inventory.*
unfoldable pub use Warnings.*
