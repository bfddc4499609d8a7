-- ===== src/App/Server/Token.antt =====
-- go-ooo/app/app.go: the token that the HTTP interface of a node that runs asks for.
use xfund_router.Common.{
  ℕ, String, List, [], ◌∷◌, Option, none, some, Result, ok, err, ◌≡◌, ◌≤◌, refl, arith,
}
use xfund_router.Utils.{Floats}
use xfund_router.Keystore.Machine.{Machine, Crypto}
use xfund_router.Keystore.Start.{Keystorage, new_key_storage}
use xfund_router.Keystore.Token.{check_token}
use xfund_router.Keystore.Selection.{select_private_key-token}
use xfund_router.Keystore.Accounts.{get_selected_private_key}
use xfund_router.Database.Connection.{Driver}
use xfund_router.Chain.Env.{Bytes, Env, Node}
use xfund_router.Chain.Start.{Parts, new_ooo_router}
use xfund_router.Gorm.{IsGorm}
use xfund_router.Common.Int.{to_int64}
use xfund_router.Database.Schemas.{request_schema}
use xfund_router.Chain.Admin.{Display}
use xfund_router.Chain.Schedule.{here}
use xfund_router.Chain.Start.Counters.{new_ooo_router-Reach}
use xfund_router.Service.Analytics.Types.{Arithmetic}
use xfund_router.Service.Server.{Web}
use xfund_router.Service.Loop.{Service, new_service, Run}
use xfund_router.Service.Loop.Refinement.{Run-Reach}
use xfund_router.App.{Started, init_keystore, input_key, unlocked, select_account, with_store}
use xfund_router.App.Server.{
  Server, Settings, served, dialled, init_service, with_keystore, with_database, init_server,
}

module _ {Byte : Type 0} (m : Machine Byte) (c : Crypto Byte) where
  -- The token of `d'` opens the store `d`.
  abbrev pub Opens : Keystorage → Keystorage → Type 0
  Opens d d' = c.compare_hash d.store.hash d'.store.token ≡ none

  check_token-Opens :
      (token : String) (d : Keystorage)
      → (check_token m c token d).0 ≡ none
      → Opens d (check_token m c token d).1
  unfolding check_token
  check_token-Opens token d h = ground arith

  input_key-Opens :
      (keys : List String) (d d' : Keystorage) → input_key m c keys d ≡ some d' → Opens d d'
  unfolding input_key
  input_key-Opens [] d d' h = cc
  input_key-Opens (key ∷ keys) d d' h =
      ground (arith, input_key-Opens keys d d', check_token-Opens key d)

  unlocked-Opens :
      (password : String) (keys : List String) (d d' : Keystorage)
      → unlocked m c password keys d ≡ some d'
      → Opens d d'
  unlocked-Opens password keys d d' h =
      ground (arith, input_key-Opens keys d d', check_token-Opens password d)

  select_account-token :
      (account : String) (o : Option Keystorage) (d : Keystorage)
      → select_account m c account o ≡ Started.running d
      → (d' : Keystorage) × (o ≡ some d') × (d.store.token ≡ d'.store.token)
  select_account-token account none d h = cc
  select_account-token account (some d') d h =
      (d', refl, ground (arith, select_private_key-token m c account d' d))

  with_store-Opens :
      (password account : String) (keys : List String) (o : Option Keystorage) (d : Keystorage)
      → with_store m c password account keys o ≡ Started.running d
      → (d0 : Keystorage) × (o ≡ some d0) × Opens d0 d
  with_store-Opens password account keys none d h = cc
  with_store-Opens password account keys (some d0) d h =
      let (d', given, same) = select_account-token account (unlocked m c password keys d0) d h in
      (d0, refl, rw same (unlocked-Opens password keys d0 d' given))

  init_keystore-Opens :
      (password account : String) (keys : List String) (w : m.World) (d : Keystorage)
      → (init_keystore m c password account keys w).0 ≡ Started.running d
      → (d0 : Keystorage) × ((new_key_storage m c w).0.0 ≡ some d0) × Opens d0 d
  unfolding init_keystore
  init_keystore-Opens password account keys w d h =
      with_store-Opens password account keys (new_key_storage m c w).0.0 d h

module _ {Byte Db : Type 0} {e : Env} {f : Floats} (m : Machine Byte) (c : Crypto Byte)
    (r : Driver Db) (parts : Db → Parts e) (dial_error : Option String)
    (hex_to_ecdsa : String → Result Bytes) (settings : Settings) where
  served-token :
      (token : String) (n : Result (Node e)) {s : Service e f} {t : String}
      → served f m c r parts dial_error hex_to_ecdsa settings token n ≡ Server.serving s t
      → (t ≡ token) × (n ≡ ok s.node) × (s ≡ new_service f s.node)
  served-token token (err x) h = cc
  served-token token (ok n) h = ground arith

  -- What a server that serves was started from.
  Serves : Keystorage → Db → Service e f → String → Type 0
  Serves d db s token =
      (token ≡ d.store.token)
      × (s ≡ new_service f s.node)
      × (new_ooo_router hex_to_ecdsa settings.first_block (get_selected_private_key m c d)
            (parts db)
          ≡ ok s.node)

  dialled-Serves :
      (o : Option String) (db : Db) (d : Keystorage) {s : Service e f} {t : String}
      → dialled f m c r parts dial_error hex_to_ecdsa settings o db d ≡ Server.serving s t
      → Serves d db s t
  unfolding Serves
  dialled-Serves (some x) db d h = cc
  dialled-Serves none db d h =
      let (same, made, start) = served-token d.store.token _ h in (same, start, made)

  with_keystore-Serves :
      (db : Db) (o : Started) (w : m.World) {s : Service e f} {t : String}
      → (with_keystore f m c r parts dial_error hex_to_ecdsa settings db (o, w)).0
        ≡ Server.serving s t
      → (d : Keystorage) × (o ≡ Started.running d) × Serves d db s t
  unfolding init_service
  with_keystore-Serves db Started.panics w h = cc
  with_keystore-Serves db Started.asks w h = cc
  with_keystore-Serves db (Started.running d) w h = (d, refl, dialled-Serves dial_error db d h)

  with_database-Serves :
      (keys : List String) (o : Option Db) (w : m.World) {s : Service e f} {t : String}
      → (with_database f m c r parts dial_error hex_to_ecdsa settings keys o w).0
        ≡ Server.serving s t
      → (d : Keystorage) × (db : Db) × Serves d db s t
        × ((init_keystore m c settings.decrypt_password settings.account keys w).0
            ≡ Started.running d)
  with_database-Serves keys none w h = cc
  with_database-Serves keys (some db) w h =
      let (d, runs, serves) = with_keystore-Serves db _ _ h in (d, db, serves, runs)

  module _ {s : Service e f} {token : String} (keys : List String) (w : m.World)
      (started : (init_server f m c r parts dial_error hex_to_ecdsa settings keys w).0
        ≡ Server.serving s token) where
    -- If the start of the node ends with a service that runs, with a token, then, with a requests
    -- table that keeps its promises, the key store of the file was loaded and the token fits its
    -- hash, and in every node that a run of the service leads to, the nonce in the transaction
    -- options is the one of its counter and the last block is not below the configured first
    -- block.
    pub init_server-Run :
        (web : Web f) (a : Arithmetic f) (fuel : ℕ) (d : Display)
        (law : IsGorm request_schema e.requests) {u : Service e f}
        → Run web a fuel d token s u
        → (k : Keystorage) × ((new_key_storage m c w).0.0 ≡ some k)
          × (c.compare_hash k.store.hash token ≡ none)
          × (u.node.transact_opts.nonce ≡ to_int64 u.node.prev_tx_nonce)
          × (settings.first_block ≤ u.node.last_block_number)
    unfolding init_server Serves
    init_server-Run web a fuel d law run =
        let (k', db, serves, runs) = with_database-Serves keys _ w started in
        let (same, start, made) = serves in
        let (k, loaded, opens) = init_keystore-Opens m c _ _ keys w k' runs in
        let reach = Run-Reach web a fuel d token law run here in
        let (nonce, low, _) =
          new_ooo_router-Reach hex_to_ecdsa settings.first_block d _ _ made reach in
        (k, loaded, rw same opens, nonce, low)
