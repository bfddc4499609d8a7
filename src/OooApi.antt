-- ===== src/OooApi.antt =====
-- The data API, go-ooo/ooo_api: endpoint texts, and the queries built from them.
pub mod Endpoint
pub mod Finchains
pub mod Pairs
pub mod RoundTrip
pub mod Decimal
pub mod Paths
pub mod Adhoc
pub mod Tests
