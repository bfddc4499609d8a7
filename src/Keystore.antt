-- ===== src/Keystore.antt =====
-- The key store, go-ooo/keystore: private keys in a file, encrypted under the operator's token.
pub mod Machine
pub mod Cipher
pub mod Start
pub mod Accounts
pub mod Token
pub mod Sealed
pub mod Selection
pub mod Reload
pub mod Tests
