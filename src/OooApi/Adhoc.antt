-- ===== src/OooApi/Adhoc.antt =====
-- Ad-hoc prices, go-ooo/ooo_api/adhoc.go: prices of pairs on decentralised exchanges, by subgraph.
pub mod Queries
pub mod Dexs
pub mod Graph
pub mod Update
pub mod Price
pub mod Blocks
pub mod Tests
