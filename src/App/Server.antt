-- ===== src/App/Server.antt =====
-- go-ooo/app/app.go, initServer, with NewService of go-ooo/service/service.go: the whole start.
pub mod Token
pub mod Tests
use xfund_router.Common.{ℕ, String, List, Option, none, some, Result, ok, err, ◌==◌}
use xfund_router.Utils.{Floats}
use xfund_router.Keystore.Machine.{Machine, Crypto}
use xfund_router.Keystore.Start.{Keystorage}
use xfund_router.Keystore.Accounts.{get_selected_private_key}
use xfund_router.Database.Connection.{DbConfig, Driver, init_database}
use xfund_router.Chain.Env.{Bytes, Env, Node}
use xfund_router.Chain.Start.{Parts, new_ooo_router}
use xfund_router.Service.Loop.{Service, new_service}
use xfund_router.App.{Started, init_keystore}

-- The service that runs and its token, a panic, or a wait for a key.
pub data Server (e : Env) (f : Floats) : Type 0 where
  serving : Service e f → String → Server e f
  panics : Server e f
  asks : Server e f

-- The settings and flags that the start reads.
pub record Settings : Type 0 where
  pub database : DbConfig
  pub decrypt_password : String
  pub account : String
  pub first_block : ℕ

-- `parts` are the tables of a database and the connections to the chain and to the API, and
-- `dial_error` the error of what NewService calls before NewOoORouter.
module _ {Byte Db : Type 0} {e : Env} (f : Floats) (m : Machine Byte) (c : Crypto Byte)
    (r : Driver Db) (parts : Db → Parts e) (dial_error : Option String)
    (hex_to_ecdsa : String → Result Bytes) (settings : Settings) where
  abbrev pub served : String → Result (Node e) → Server e f
  served token (err x) = Server.panics
  served token (ok n) = Server.serving (new_service f n) token

  abbrev pub dialled : Option String → Db → Keystorage → Server e f
  dialled (some x) db d = Server.panics
  dialled none db d =
      served d.store.token (
        new_ooo_router hex_to_ecdsa settings.first_block (get_selected_private_key m c d)
          (parts db))

  unfoldable pub init_service : Db → Keystorage → Server e f
  init_service db d = dialled dial_error db d

  abbrev pub with_keystore : Db → Started × m.World → Server e f × m.World
  with_keystore db (Started.running d, w) = (init_service db d, w)
  with_keystore db (Started.panics, w) = (Server.panics, w)
  with_keystore db (Started.asks, w) = (Server.asks, w)

  abbrev pub with_database : List String → Option Db → m.World → Server e f × m.World
  with_database keys none w = (Server.panics, w)
  with_database keys (some db) w =
      with_keystore db (init_keystore m c settings.decrypt_password settings.account keys w)

  unfoldable pub init_server : List String → m.World → Server e f × m.World
  init_server keys w = with_database keys (init_database r settings.database) w
