-- ===== src/Keystore/Accounts.antt =====
-- go-ooo/keystore/keystore.go: the operations of the key store.
use xfund_router.Common.{
  String, Bool, true, false, List, [], ◌∷◌, ◌++◌, Option, none, some, Result, ok, err, value_or,
  if◌then◌else◌, str_eq, any, ltb, length,
}
use xfund_router.Utils.{add_hex_prefix}
use xfund_router.Keystore.Machine.{KeyStorageKeyModel, no_key, Machine, Crypto}
use xfund_router.Keystore.Cipher.{encrypt, decrypt}
use xfund_router.Keystore.Start.{Keystorage}

abbrev pub set_keys : List KeyStorageKeyModel → Keystorage → Keystorage
set_keys keys d = record d { store = record d.store { key = keys } }

-- The account of a new key.
abbrev pub account_of : String → String
account_of username = if str_eq username "" then "autogenerated" else username

-- The first key of an account, changed in its place.
unfoldable pub select :
    String
    → (KeyStorageKeyModel → KeyStorageKeyModel)
    → List KeyStorageKeyModel
    → Option (KeyStorageKeyModel × List KeyStorageKeyModel)
select account f [] = none
select account f (k ∷ ks) =
    let rest = select account f ks in
    if str_eq k.account account
    then some (f k, f k ∷ ks)
    else elim rest [ none ↦ none | some (k', ks') ↦ some (k', k ∷ ks') ]

module _ {Byte : Type 0} (m : Machine Byte) (c : Crypto Byte) where
  -- The private key where it is not known yet; a key that cannot be decrypted is left empty.
  abbrev pub with_private : String → KeyStorageKeyModel → KeyStorageKeyModel
  with_private token k =
      if str_eq k.private ""
      then record k { private = value_or "" (decrypt c k.cipher_private token) }
      else k

  -- `none` is a panic: there is no first key.
  abbrev first_of : List KeyStorageKeyModel → Keystorage → Option (KeyStorageKeyModel × Keystorage)
  first_of [] d = none
  first_of (k ∷ ks) d = let k' = with_private d.store.token k in some (k', set_keys (k' ∷ ks) d)

  unfoldable pub get_first : Keystorage → Option (KeyStorageKeyModel × Keystorage)
  get_first d = first_of d.store.key d

  abbrev selected_key :
      Option (KeyStorageKeyModel × List KeyStorageKeyModel)
      → Keystorage
      → KeyStorageKeyModel × Keystorage
  selected_key none d = (no_key, d)
  selected_key (some (k, ks)) d = (k, set_keys ks d)

  unfoldable pub get_by_username : String → Keystorage → KeyStorageKeyModel × Keystorage
  get_by_username account d =
      selected_key (select account (with_private d.store.token) d.store.key) d

  unfoldable pub exists_by_username : String → Keystorage → Bool
  exists_by_username account d = any (λ k. str_eq k.account account) d.store.key

  -- Always decrypted again.
  abbrev pub decrypted : String → KeyStorageKeyModel → KeyStorageKeyModel
  decrypted token k = record k { private = value_or "" (decrypt c k.cipher_private token) }

  abbrev account_or_error :
      Option (KeyStorageKeyModel × List KeyStorageKeyModel)
      → Keystorage
      → Result KeyStorageKeyModel × Keystorage
  account_or_error none d = (err "Can't find user, sorry.", d)
  account_or_error (some (k, ks)) d = (ok k, set_keys ks d)

  unfoldable pub get_by_account : String → Keystorage → Result KeyStorageKeyModel × Keystorage
  get_by_account account d =
      account_or_error (select account (decrypted d.store.token) d.store.key) d

  unfoldable pub exists : Keystorage → Bool
  exists d = ltb 0 (length d.store.key)

  abbrev pub save_bytes : Bool → Result (List Byte) → m.World → Option String × m.World
  save_bytes opened (err e) w = (some e, w)
  save_bytes false (ok b) w = (some "invalid argument", w)
  save_bytes true (ok b) w = m.write_at b w

  unfoldable pub save : Keystorage → m.World → Option String × m.World
  save d w = save_bytes d.opened (c.marshal d.store) w

  abbrev pub with_key : String → String → String → Keystorage → Keystorage
  with_key username private cipher_private d =
      set_keys
        (d.store.key
          ++ record {
            account = account_of username;
            cipher_private = cipher_private;
            private = private;
          }
            ∷ [])
        d

  -- The key is kept and the store is saved, if the key could be encrypted.
  abbrev pub add_encrypted :
      String
      → String
      → Result String
      → Keystorage × m.World
      → Option String × (Keystorage × m.World)
  add_encrypted username private (err e) s = (some e, s)
  add_encrypted username private (ok cipher_private) (d, w) =
      let d1 = with_key username private cipher_private d in
      let (e, w1) = save d1 w in (e, (d1, w1))

  unfoldable pub add_existing :
      String → String → Keystorage × m.World → Option String × (Keystorage × m.World)
  add_existing username private_key (d, w) =
      let privkey_hex = add_hex_prefix private_key in
      let (r, w1) = encrypt c m privkey_hex d.store.token w in
      add_encrypted username privkey_hex r (d, w1)

  -- A key that was made but not encrypted is not returned; one that was not saved is.
  abbrev generated :
      String
      → Result String
      → Keystorage × m.World
      → (String × Option String) × (Keystorage × m.World)
  generated username (err e) s = (("", some e), s)
  generated username (ok key) (d, w) =
      let (r, w1) = encrypt c m key d.store.token w in
      let (e, s) = add_encrypted username key r (d, w1) in
      ((elim r [ ok x ↦ key | err x ↦ "" ], e), s)

  unfoldable pub generate_private :
      String → Keystorage × m.World → (String × Option String) × (Keystorage × m.World)
  generate_private username (d, w) = let (r, w1) = m.generate_key w in generated username r (d, w1)

  abbrev pub set_private_key : String → Keystorage → Keystorage
  set_private_key private d = record d { store = record d.store { private_key = private } }

  abbrev pub first_private : Option (KeyStorageKeyModel × Keystorage) → Option Keystorage
  first_private none = none
  first_private (some (k, d)) = some (set_private_key k.private d)

  abbrev account_private : Result KeyStorageKeyModel → Keystorage → Option Keystorage
  account_private (ok k) d = some (set_private_key k.private d)
  account_private (err e) d = first_private (get_first d)

  abbrev returns : Option String → Option Keystorage → Option (Option String × Keystorage)
  returns e none = none
  returns e (some d) = some (e, d)

  -- `none` is a panic. The result named `err` is nil at first and is what `return err` gives: the
  -- look-up sets another `err`, which is declared in the head of the `if`.
  unfoldable pub select_private_key : String → Keystorage → Option (Option String × Keystorage)
  select_private_key account d =
      let outer = none in
      let (r, d1) = get_by_account account d in returns outer (account_private r d1)

  abbrev pub get_selected_private_key : Keystorage → String
  get_selected_private_key d = d.store.private_key
