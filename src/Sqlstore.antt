-- ===== src/Sqlstore.antt =====
-- internal/storage/sqlstore: the tables, and the parts that the repositories share.
pub mod Db
pub mod Reservations
pub mod Contributions
pub mod Matches
pub mod Items
pub mod Lists
pub mod Exclusive
pub mod Capacity
