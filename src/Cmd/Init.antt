-- ===== src/Cmd/Init.antt =====
-- go-ooo/cmd/init.go, initCmd, with go-ooo/config/constants.go: the files of a new node.
pub mod Starts
pub mod Tests
use xfund_router.Common.{
  ℕ, String, Bool, true, false, List, [], ◌∷◌, ◌++◌, Option, none, some, Result, if◌then◌else◌,
  str_eq,
}
use xfund_router.Common.Int.{ℤ}
use xfund_router.Keystore.Machine.{Machine, Crypto}
use xfund_router.Keystore.Start.{Keystorage, new_key_storage_no_logger}
use xfund_router.App.Init.{Initialised, init_new_keystore}

-- A value of the configuration.
pub data Value : Type 0 where
  text : String → Value
  number : ℕ → Value

-- The rest of the file system and `viper`: `os.Stat` and `os.MkdirAll` of the home directory,
-- `os.Stat` and `SafeWriteConfigAs` of the configuration file, the values that a later process
-- gets from that file, and the file of a password: none if it cannot be opened, or what
-- `ReadAll` gives.
pub record Disk (World : Type 0) : Type 0 where
  pub config_missing : World → Bool
  pub home_missing : World → Bool
  pub mkdir_all : World → Option String × World
  pub safe_write_config_as : List (String × Value) → World → Option String × World
  pub get_string : World → String → String
  pub get_int : World → String → ℤ
  pub get_uint64 : World → String → ℕ
  pub password_file : World → String → Option (Result String)
  pub trim_space : String → String

-- The settings that depend on the network.
pub record Network : Type 0 where
  pub contract_address : String
  pub eth_http_host : String
  pub eth_ws_host : String
  pub network_id : ℕ
  pub first_block : ℕ

abbrev init_for_rinkeby : Network
init_for_rinkeby = record {
  contract_address = "0x05AB63BeC9CfC3897a20dE62f5f812de10301FDf";
  eth_http_host = "";
  eth_ws_host = "";
  network_id = 4;
  first_block = 8456980;
}

abbrev init_for_mainnet : Network
init_for_mainnet = record {
  contract_address = "0x9ac9AE20a17779c17b069b48A8788e3455fC6121";
  eth_http_host = "";
  eth_ws_host = "";
  network_id = 1;
  first_block = 12728316;
}

abbrev init_for_polygon : Network
init_for_polygon = record {
  contract_address = "0x5E9405888255C142207Ab692C72A8cd6fc85C3A2";
  eth_http_host = "";
  eth_ws_host = "";
  network_id = 137;
  first_block = 24460663;
}

abbrev init_for_devnet : Network
init_for_devnet = record {
  contract_address = "0x5b1869D9A4C187F2EAa108f3062412ecf0526b24";
  eth_http_host = "http://127.0.0.1:8545";
  eth_ws_host = "ws://127.0.0.1:8545";
  network_id = 696969;
  first_block = 1;
}

-- An unknown name is taken for `dev`.
unfoldable pub network_of : String → Network
network_of network =
    if str_eq network "rinkeby"
    then init_for_rinkeby
    else if str_eq network "mainnet"
    then init_for_mainnet
    else if str_eq network "polygon"
    then init_for_polygon
    else init_for_devnet

abbrev network_defaults : Network → List (String × Value)
network_defaults n =
    ("chain.contract_address", Value.text n.contract_address)
    ∷ ("chain.eth_http_host", Value.text n.eth_http_host)
    ∷ ("chain.eth_ws_host", Value.text n.eth_ws_host)
    ∷ ("chain.network_id", Value.number n.network_id)
    ∷ ("chain.first_block", Value.number n.first_block)
    ∷ []

-- The calls of `SetDefault` after the dialogue; no key is set twice.
abbrev common_defaults : String → String → String → List (String × Value)
common_defaults key_store_path db_path ks_user =
    ("jobs.ooo_api_url", Value.text "https://crypto.finchains.io/api")
    ∷ ("serve.host", Value.text "127.0.0.1")
    ∷ ("serve.port", Value.text "8445")
    ∷ ("keystorage.file", Value.text key_store_path)
    ∷ ("keystorage.account", Value.text ks_user)
    ∷ ("chain.gas_limit", Value.number 500000)
    ∷ ("chain.max_gas_price", Value.number 150)
    ∷ ("jobs.check_duration", Value.number 5)
    ∷ ("jobs.wait_confirmations", Value.number 2)
    ∷ ("database.dialect", Value.text "sqlite")
    ∷ ("database.storage", Value.text db_path)
    ∷ ("database.host", Value.text "localhost")
    ∷ ("database.port", Value.number 5432)
    ∷ ("database.user", Value.text "")
    ∷ ("database.password", Value.text "")
    ∷ ("database.database", Value.text "")
    ∷ ("prometheus.port", Value.text "9000")
    ∷ ("log.level", Value.text "info")
    ∷ ("subchain.eth_http_rpc", Value.text "")
    ∷ ("subchain.polygon_http_rpc", Value.text "")
    ∷ ("subchain.bsc_http_rpc", Value.text "")
    ∷ ("subchain.xdai_http_rpc", Value.text "")
    ∷ []

abbrev pub defaults : Network → String → String → String → List (String × Value)
defaults n key_store_path db_path ks_user =
    network_defaults n ++ common_defaults key_store_path db_path ks_user

-- What the command ends with.
pub data Init : Type 0 where
  already : Init
  panics : Init
  initialised : Initialised → Init

module _ {Byte : Type 0} (m : Machine Byte) (c : Crypto Byte) (disk : Disk m.World)
    (address_error : String → Option String) (key_store_path db_path : String) where
  abbrev Ended : Type 0
  Ended = Init × (List String × m.World)

  abbrev pub make_home : m.World → Option String × m.World
  make_home w = if disk.home_missing w then disk.mkdir_all w else (none, w)

  abbrev written : Initialised → List String → Option String × m.World → Ended
  written r ls (some e, w) = (Init.panics, (ls, w))
  written r ls (none, w) = (Init.initialised r, (ls, w))

  abbrev write_config : Network → Initialised × (List String × (Keystorage × m.World)) → Ended
  write_config n (r, (ls, (d, w))) = elim r.error [
    | some e ↦ (Init.panics, (ls, w))
    | none ↦
        written r ls (disk.safe_write_config_as (defaults n key_store_path db_path r.username) w)
  ]

  abbrev pub with_dialogue :
      Network → Option (Initialised × (List String × (Keystorage × m.World))) → Option Ended
  with_dialogue n none = none
  with_dialogue n (some r) = some (write_config n r)

  -- The error of the key store is dropped; without a store the dialogue panics.
  abbrev pub with_new_store :
      (fuel : ℕ)
      → Network
      → List String
      → (Option Keystorage × Option String) × m.World
      → Option Ended
  with_new_store fuel n ls ((none, e), w) = some (Init.panics, (ls, w))
  with_new_store fuel n ls ((some d, e), w) =
      with_dialogue n (init_new_keystore m c address_error fuel (ls, (d, w)))

  abbrev pub with_home : (fuel : ℕ) → Network → List String → Option String × m.World → Option Ended
  with_home fuel n ls (some e, w) = some (Init.panics, (ls, w))
  with_home fuel n ls (none, w) = with_new_store fuel n ls (new_key_storage_no_logger m c w)

  -- `none` is out of fuel, which is for the rounds of the dialogue.
  unfoldable pub init_cmd : (fuel : ℕ) (network : String) → List String → m.World → Option Ended
  init_cmd fuel network ls w =
      if disk.config_missing w
      then with_home fuel (network_of network) ls (make_home w)
      else some (Init.already, (ls, w))
