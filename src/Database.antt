-- ===== src/Database.antt =====
-- The database layer, go-ooo/database: the queries and the transactions over each table.
pub mod Schemas
pub mod Queries
pub mod Transactions
pub mod Tokens
pub mod Migrations
pub mod Connection
