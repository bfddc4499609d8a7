-- ===== src/Keystore/Token.antt =====
-- go-ooo/keystore/keystore.go: the token that opens the store.
use Prim.Native.String.{◌++◌ as ◌<>◌}
use xfund_router.Common.{ℕ, ◌%◌, String, List, [], ◌∷◌, Option, none, some, Result, ok, err, get_or}
use xfund_router.Keystore.Machine.{Machine, Crypto}
use xfund_router.Keystore.Start.{Keystorage}
use xfund_router.Keystore.Accounts.{save}

module _ {Byte : Type 0} (m : Machine Byte) (c : Crypto Byte) where
  abbrev save_hash : Result String → Keystorage × m.World → Option String × (Keystorage × m.World)
  save_hash (err e) s = (some e, s)
  save_hash (ok hash) (d, w) =
      let d1 = record d { store = record d.store { hash = hash } } in
      let (e, w1) = save m c d1 w in (e, (d1, w1))

  unfoldable pub token_encrypt_and_save :
      Keystorage × m.World → Option String × (Keystorage × m.World)
  token_encrypt_and_save (d, w) =
      let (r, w1) = m.generate_from_password d.store.token w in save_hash r (d, w1)

  abbrev pub dictionary : List String
  dictionary =
      "0" ∷ "1" ∷ "2" ∷ "3" ∷ "4" ∷ "5" ∷ "6" ∷ "7" ∷ "8" ∷ "9" ∷ "a" ∷ "b" ∷ "c" ∷ "d" ∷ "e" ∷ "f"
      ∷ "g" ∷ "h" ∷ "i" ∷ "j" ∷ "k" ∷ "l" ∷ "m" ∷ "n" ∷ "o" ∷ "p" ∷ "q" ∷ "r" ∷ "s" ∷ "t" ∷ "u"
      ∷ "v" ∷ "w" ∷ "x" ∷ "y" ∷ "z" ∷ []

  -- The character at each byte modulo the number of characters.
  unfoldable pub spell : List ℕ → String
  spell [] = ""
  spell (v ∷ vs) = get_or dictionary (v % 36) "" <> spell vs

  unfoldable pub generate_random_bytes : ℕ → m.World → String × m.World
  generate_random_bytes str_size w = let (b, w1) = m.rand_read str_size w in (spell b, w1)

  unfoldable pub generate_token :
      Keystorage × m.World → (String × Option String) × (Keystorage × m.World)
  generate_token (d, w) =
      let (token, w1) = generate_random_bytes 32 w in
      let (e, s) =
        token_encrypt_and_save (record d { store = record d.store { token = token } }, w1) in
      ((token, e), s)

  abbrev keep_token : String → Option String → Keystorage → Option String × Keystorage
  keep_token token (some e) d = (some e, d)
  keep_token token none d = (none, record d { store = record d.store { token = token } })

  unfoldable pub check_token : String → Keystorage → Option String × Keystorage
  check_token token d = keep_token token (c.compare_hash d.store.hash token) d
