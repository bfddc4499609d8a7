-- ===== src/Cmd/Start.antt =====
-- go-ooo/cmd/start.go, with getPasswordFromFileOrFlag of go-ooo/app/auth.go and the settings that
-- go-ooo/app/app.go reads: the start of a node from its configuration.
use xfund_router.Common.{String, List, Option, none, some, Result, ok, err, if◌then◌else◌, str_eq}
use xfund_router.Utils.{Floats}
use xfund_router.Keystore.Machine.{Machine, Crypto}
use xfund_router.Database.Connection.{DbConfig, Driver}
use xfund_router.Chain.Env.{Bytes, Env}
use xfund_router.Chain.Start.{Parts}
use xfund_router.App.Server.{Server, Settings, init_server}
use xfund_router.Cmd.Init.{Disk}

module _ {World : Type 0} (disk : Disk World) where
  -- A file that is opened and cannot be read gives the empty password.
  abbrev password_in : String → Option (Result String) → String
  password_in flag none = flag
  password_in flag (some (err e)) = ""
  password_in flag (some (ok content)) = content

  unfoldable pub get_password_from_file_or_flag : String → World → String
  get_password_from_file_or_flag flag w =
      disk.trim_space (password_in flag (disk.password_file w flag))

  abbrev db_config : World → DbConfig
  db_config w = record {
    dialect = disk.get_string w "database.dialect";
    storage = disk.get_string w "database.storage";
    host = disk.get_string w "database.host";
    port = disk.get_int w "database.port";
    user = disk.get_string w "database.user";
    password = disk.get_string w "database.password";
    database = disk.get_string w "database.database";
  }

  -- The file that `keystorage.file` names is the one of the machine, for the init command too.
  abbrev pub settings_of : String → World → Settings
  settings_of flag w = record {
    database = db_config w;
    decrypt_password = if str_eq flag "" then "" else get_password_from_file_or_flag flag w;
    account = disk.get_string w "keystorage.account";
    first_block = disk.get_uint64 w "chain.first_block";
  }

-- `dial` is the error of what NewService calls before NewOoORouter, with the host of the chain.
module _ {Byte Db : Type 0} {e : Env} (f : Floats) (m : Machine Byte) (c : Crypto Byte)
    (r : Driver Db) (parts : Db → Parts e) (dial : String → Option String)
    (hex_to_ecdsa : String → Result Bytes) (disk : Disk m.World) where
  -- `none` is the end of the process, without a configuration.
  unfoldable pub start_cmd : String → List String → m.World → Option (Server e f × m.World)
  start_cmd flag keys w =
      if disk.config_missing w
      then none
      else some (
          init_server f m c r parts (dial (disk.get_string w "chain.eth_ws_host")) hex_to_ecdsa
            (settings_of disk flag w) keys w)
