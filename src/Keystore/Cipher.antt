-- ===== src/Keystore/Cipher.antt =====
-- go-ooo/keystore/keystore.go: keys as encrypted texts.
use xfund_router.Common.{
  String, List, ◌++◌, Result, ok, err, ltb, if◌then◌else◌, length, take, drop,
}
use xfund_router.Keystore.Machine.{Machine, Crypto}

module _ {Byte : Type 0} (c : Crypto Byte) where
  unfoldable pub hash_to_32_bytes : String → List Byte
  hash_to_32_bytes input = c.sum256 input

  abbrev ciphered : Result c.Block → (c.Block → List Byte) → Result (List Byte)
  ciphered (err e) f = err e
  ciphered (ok block) f = ok (f block)

  unfoldable pub decrypt_aes : List Byte → List Byte → Result (List Byte)
  decrypt_aes key data_in =
      ciphered (c.new_cipher key) (λ block. c.cfb_decrypt block (take 16 data_in) (drop 16 data_in))

  abbrev text_in : Result (List Byte) → Result String
  text_in (err e) = err e
  text_in (ok decrypted) = ok (c.text_of decrypted)

  -- A text of fewer bytes than a block is refused.
  abbrev decrypt_bytes : Result (List Byte) → String → Result String
  decrypt_bytes (err e) key_string = err e
  decrypt_bytes (ok encrypted) key_string =
      if ltb (length encrypted) 16
      then err "cipherText too short"
      else text_in (decrypt_aes (hash_to_32_bytes key_string) encrypted)

  unfoldable pub decrypt : String → String → Result String
  decrypt crypto_text key_string = decrypt_bytes (c.decode crypto_text) key_string

  module _ (m : Machine Byte) where
    abbrev with_iv : c.Block → List Byte → Result (List Byte) → Result (List Byte)
    with_iv block data_in (err e) = err e
    with_iv block data_in (ok iv) = ok (iv ++ c.cfb_encrypt block iv data_in)

    abbrev encrypt_block : Result c.Block → List Byte → m.World → Result (List Byte) × m.World
    encrypt_block (err e) data_in w = (err e, w)
    encrypt_block (ok block) data_in w =
        let (iv, w1) = m.read_iv w in (with_iv block data_in iv, w1)

    unfoldable pub encrypt_aes : List Byte → List Byte → m.World → Result (List Byte) × m.World
    encrypt_aes key data_in w = encrypt_block (c.new_cipher key) data_in w

    abbrev encoded : Result (List Byte) → Result String
    encoded (err e) = err e
    encoded (ok encrypted) = ok (c.encode encrypted)

    unfoldable pub encrypt : String → String → m.World → Result String × m.World
    encrypt plain_text key_string w =
        let (r, w1) = encrypt_aes (hash_to_32_bytes key_string) (c.bytes_of plain_text) w in
        (encoded r, w1)
