-- ===== src/App/Server/Tests.antt =====
-- A start of the node with a key store, a database and a chain in memory, and a request to it.
use xfund_router.Common.{ℕ, none, some, ok, err, [], ◌≡◌, ◌≤◌, refl}
use xfund_router.Common.Int.{pos, to_int64}
use xfund_router.Utils.{remove_hex_prefix}
use xfund_router.OooApi.Endpoint.{split}
use xfund_router.OooApi.Adhoc.Tests.{floats}
use xfund_router.Keystore.Start.{Keystorage, new_key_storage}
use xfund_router.Keystore.Token.{check_token}
use xfund_router.Keystore.Accounts.{select_private_key, get_by_account, select}
use xfund_router.Keystore.Cipher.{decrypt, decrypt_aes}
use xfund_router.Keystore.Tests.{machine, crypto}
use xfund_router.Gorm.Memory.{memory}
use xfund_router.Database.Schemas.{dex_pair_schema, token_schema, contract_schema, version_schema}
use xfund_router.Database.Connection.{Driver, init_database, migrate, new_db, new_sqlite_db}
use xfund_router.Database.Queries.{get_last_block_num_queried}
use xfund_router.Chain.Start.{new_ooo_router, with_account, with_nonce_result, with_nonce_of}
use xfund_router.Chain.Events.{initial_from_block, get_historical_events}
use xfund_router.Chain.Jobs.{process_pending_job_queue}
use xfund_router.Chain.Tests.{env, law, display}
use xfund_router.Chain.Tests.Safety.{parts, accepted, started}
use xfund_router.Service.Analytics.Tests.{arithmetic}
use xfund_router.Service.Loop.{new_service, Service, Phase, Turn, begin, then_turn}
use xfund_router.Service.Loop.Tests.{web}
use xfund_router.App.{init_keystore, input_key}
use xfund_router.App.Server.{Server, Settings, init_service, init_server}
use xfund_router.App.Server.Token.{init_server-Run}
use xfund_router.App.Tests.{contents, token}

abbrev pub driver : Driver Unit
driver = record {
  open_sqlite = λ storage. ok tt;
  open_postgres = λ dsn. err "no server";
  auto_migrate = λ db. (none, db);
  int_text = λ n. "5432";
  Float = ℕ;
  pairs = memory dex_pair_schema;
  tokens = memory token_schema;
  contracts = memory contract_schema;
  versions = memory version_schema;
  tables = λ db. (([], ([], [])), []);
  with_tables = λ t db. db;
}

abbrev settings : Settings
settings = record {
  database = record {
    dialect = "sqlite";
    storage = "node.db";
    host = "";
    port = pos 0;
    user = "";
    password = "";
    database = "";
  };
  decrypt_password = token;
  account = "oracle";
  first_block = 90;
}

serves :
    (init_server floats machine crypto driver (λ db. parts) none accepted settings [] contents).0
    ≡ Server.serving (new_service floats started) token
unfolding init_server init_service init_database migrate new_db new_sqlite_db init_keystore
    new_key_storage check_token select_private_key get_by_account select decrypt decrypt_aes split
    input_key remove_hex_prefix new_ooo_router with_account with_nonce_result with_nonce_of
    initial_from_block to_int64 get_last_block_num_queried
serves = refl

abbrev first : Service env floats
first = new_service floats started

abbrev watching : Service env floats
watching = record first { node = (get_historical_events started).1; phase = Phase.selecting }

abbrev after_pass : Service env floats
after_pass = record watching { node = (process_pending_job_queue watching.node).1 }

init_server-Run_example :
    (k : Keystorage) × ((new_key_storage machine crypto contents).0.0 ≡ some k)
    × (crypto.compare_hash k.store.hash token ≡ none)
    × (after_pass.node.transact_opts.nonce ≡ to_int64 after_pass.node.prev_tx_nonce)
    × (90 ≤ after_pass.node.last_block_number)
init_server-Run_example =
    init_server-Run machine crypto driver (λ db. parts) none accepted settings [] contents serves
      web arithmetic 5 display law
      (then_turn (then_turn begin (Turn.history first refl)) (Turn.tick watching refl))
