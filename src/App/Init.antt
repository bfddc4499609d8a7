-- ===== src/App/Init.antt =====
-- go-ooo/cmd/init.go, initNewKeystore: a new key store, from what the operator types.
use xfund_router.Common.{
  ℕ, zero, suc, String, ◌||◌, List, [], ◌∷◌, Option, none, some, if◌then◌else◌, str_eq,
}
use xfund_router.Utils.{has_hex_prefix, add_hex_prefix}
use xfund_router.Keystore.Machine.{Machine, Crypto}
use xfund_router.Keystore.Start.{Keystorage}
use xfund_router.Keystore.Token.{generate_token}
use xfund_router.Keystore.Accounts.{exists_by_username, add_existing, generate_private}

-- The results, and the password that was shown last.
pub record Initialised : Type 0 where
  pub error : Option String
  pub username : String
  pub shown : String

-- A line of the input, empty at its end.
abbrev pub line : List String → String
line [] = ""
line (l ∷ ls) = l

abbrev pub others : List String → List String
others [] = []
others (l ∷ ls) = ls

abbrev pub prefixed : String → String
prefixed key = if has_hex_prefix key then key else add_hex_prefix key

-- `address_error` is the error of `walletworker.AddressFromPrivateKeyString`.
module _ {Byte : Type 0} (m : Machine Byte) (c : Crypto Byte)
    (address_error : String → Option String) where
  abbrev pub Dialogue : Type 0
  Dialogue = List String × (Keystorage × m.World)

  -- The password is shown, and the address is the last error.
  abbrev finish : String → String → String → Dialogue → Initialised × Dialogue
  finish token username private_key s =
      (record { error = address_error private_key; username = username; shown = token }, s)

  abbrev stop : String → String → Dialogue → Initialised × Dialogue
  stop username e s = (record { error = some e; username = username; shown = "" }, s)

  abbrev pub imported :
      String
      → String
      → String
      → List String
      → Option String × (Keystorage × m.World)
      → Initialised × Dialogue
  imported token username private_key ls (some e, s) = stop username e (ls, s)
  imported token username private_key ls (none, s) = finish token username private_key (ls, s)

  abbrev import_key : String → String → Dialogue → Initialised × Dialogue
  import_key token username (ls, s) =
      let private_key = prefixed (line ls) in
      imported token username private_key (others ls) (add_existing m c username private_key s)

  abbrev make_key : String → String → Dialogue → Initialised × Dialogue
  make_key token username (ls, s) =
      let ((key, e), s1) = generate_private m c username s in
      elim e [
        | some x ↦ stop username x (ls, s1)
        | none ↦ finish token username (prefixed key) (ls, s1)
      ]

  abbrev go_on :
      Option (Initialised × Dialogue)
      → (Dialogue → Option (Initialised × Dialogue))
      → Option (Initialised × Dialogue)
  go_on none f = none
  go_on (some (r, s)) f = f s

  -- The answers after the account's name; `again` starts over.
  abbrev pub choose :
      (Dialogue → Option (Initialised × Dialogue))
      → String
      → String
      → Dialogue
      → Option (Initialised × Dialogue)
  choose again token username (ls, s) =
      if str_eq (line ls) "1"
      then some (import_key token username (others ls, s))
      else if str_eq (line ls) "2"
      then some (make_key token username (others ls, s))
      else go_on (again (others ls, s)) (λ t. some (finish token username "" t))

  -- A name that is taken or empty starts over, and then goes on with that name.
  abbrev pub answered :
      (Dialogue → Option (Initialised × Dialogue))
      → String × Option String
      → Dialogue
      → Option (Initialised × Dialogue)
  answered again (token, some e) (ls, s) = some (stop "" e (ls, s))
  answered again (token, none) (ls, s) =
      if exists_by_username m c (line ls) s.0 || str_eq (line ls) ""
      then go_on (again (others ls, s)) (choose again token (line ls))
      else choose again token (line ls) (others ls, s)

  -- `none` is out of fuel, which is for the rounds.
  unfoldable pub init_new_keystore : (fuel : ℕ) → Dialogue → Option (Initialised × Dialogue)
  init_new_keystore zero s = none
  init_new_keystore (suc fuel) (ls, s) =
      let (token, s1) = generate_token m c s in answered (init_new_keystore fuel) token (ls, s1)
