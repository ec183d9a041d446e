-- ===== src/Api.antt =====
-- shared/api: the status types, and the records that the services store and exchange.
pub mod Status
pub mod Types
