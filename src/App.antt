-- ===== src/App.antt =====
-- The start of the node, go-ooo/app/app.go and auth.go: the key store is opened and unlocked.
pub mod Init
pub mod Unlock
pub mod Server
pub mod Tests
use xfund_router.Common.{String, Bool, List, [], ◌∷◌, Option, none, some, if◌then◌else◌, str_eq}
use xfund_router.Keystore.Machine.{Machine, Crypto}
use xfund_router.Keystore.Start.{Keystorage, new_key_storage}
use xfund_router.Keystore.Token.{check_token}
use xfund_router.Keystore.Accounts.{select_private_key}

-- The node runs with a key store, has panicked, or asks for a key that is not typed any more.
pub data Started : Type 0 where
  running : Keystorage → Started
  panics : Started
  asks : Started

module _ {Byte : Type 0} (m : Machine Byte) (c : Crypto Byte) where
  -- Keys are read until one opens the store.
  unfoldable pub input_key : List String → Keystorage → Option Keystorage
  input_key [] d = none
  input_key (key ∷ keys) d =
      let rest = input_key keys d in
      let (e, d') = check_token m c key d in elim e [ none ↦ some d' | some x ↦ rest ]

  abbrev pub select_account : String → Option Keystorage → Started
  select_account account none = Started.asks
  select_account account (some d) = elim (select_private_key m c account d) [
    | none ↦ Started.panics
    | some (e, d') ↦ elim e [ none ↦ Started.running d' | some x ↦ Started.panics ]
  ]

  -- The password of the command line, and typed keys where there is none or it does not fit.
  abbrev unlocked : String → List String → Keystorage → Option Keystorage
  unlocked decrypt_password keys d =
      let typed = input_key keys d in
      let (e, d') = check_token m c decrypt_password d in
      if str_eq decrypt_password "" then typed else elim e [ none ↦ some d' | some x ↦ typed ]

  -- The error of the key store is only logged; without a store the next call panics.
  abbrev with_store : String → String → List String → Option Keystorage → Started
  with_store decrypt_password account keys none = Started.panics
  with_store decrypt_password account keys (some d) =
      select_account account (unlocked decrypt_password keys d)

  unfoldable pub init_keystore : String → String → List String → m.World → Started × m.World
  init_keystore decrypt_password account keys w =
      let ((ks, e), w1) = new_key_storage m c w in (with_store decrypt_password account keys ks, w1)
