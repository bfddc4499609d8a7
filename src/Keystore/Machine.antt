-- ===== src/Keystore/Machine.antt =====
-- go-ooo/keystore/model.go: the stored keys; and what the key store calls, which is not part of the
-- repository: the file system, random numbers, ciphers, bcrypt, base64 and JSON.
use xfund_router.Common.{
  ℕ, ◌≡◌, String, List, [], ◌++◌, map, Option, none, Result, ok, length, drop,
}

pub record KeyStorageKeyModel : Type 0 where
  pub account : String
  pub cipher_private : String
  pub private : String

pub record KeyStorageModel : Type 0 where
  pub key : List KeyStorageKeyModel
  pub hash : String
  pub token : String
  pub private_key : String

abbrev pub no_key : KeyStorageKeyModel
no_key = record { account = ""; cipher_private = ""; private = "" }

abbrev pub no_model : KeyStorageModel
no_model = record { key = []; hash = ""; token = ""; private_key = "" }

-- The fields with a `json` name.
abbrev pub stored_key : KeyStorageKeyModel → KeyStorageKeyModel
stored_key k = record k { private = "" }

abbrev pub stored : KeyStorageModel → KeyStorageModel
stored m = record { key = map stored_key m.key; hash = m.hash; token = ""; private_key = "" }

-- `os.Stat`: the file is there, or is not, or another error.
pub data Stat : Type 0 where
  there : Stat
  missing : Stat
  failed : String → Stat

-- The machine of the node, for a type of bytes: the content of the key store's file, the calls on it, `io.ReadFull` of the
-- 16 bytes of an initialisation vector, `math/rand` after `Seed`, `crypto.GenerateKey` as hexadecimal
-- text, and `bcrypt.GenerateFromPassword` with cost 8.
pub record Machine (Byte : Type 0) : Type 1 where
  pub World : Type 0
  pub file : World → List Byte
  pub stat : World → Stat
  pub open_file : World → Option String × World
  pub read_all : World → Result (List Byte) × World
  pub create : World → Option String × World
  pub write : List Byte → World → Option String × World
  pub write_at : List Byte → World → Option String × World
  pub read_iv : World → Result (List Byte) × World
  pub rand_read : ℕ → World → List ℕ × World
  pub generate_key : World → Result String × World
  pub generate_from_password : String → World → Result String × World

-- Pure calls: SHA-256, AES with CFB, base64, bytes of a text, `CompareHashAndPassword`, and JSON.
-- `unmarshal` gives the value that is filled in, beside the error.
pub record Crypto (Byte : Type 0) : Type 1 where
  pub Block : Type 0
  pub sum256 : String → List Byte
  pub new_cipher : List Byte → Result Block
  pub cfb_encrypt : Block → List Byte → List Byte → List Byte
  pub cfb_decrypt : Block → List Byte → List Byte → List Byte
  pub encode : List Byte → String
  pub decode : String → Result (List Byte)
  pub bytes_of : String → List Byte
  pub text_of : List Byte → String
  pub compare_hash : String → String → Option String
  pub marshal : KeyStorageModel → Result (List Byte)
  pub unmarshal : List Byte → KeyStorageModel × Option String

-- What the calls promise. A write at the start leaves what lies behind it; a file that has been
-- written is there.
pub record IsSound {Byte : Type 0} (m : Machine Byte) (c : Crypto Byte) : Type 0 where
  pub iv_length : (w : m.World) (iv : List Byte) → (m.read_iv w).0 ≡ ok iv → length iv ≡ 16
  pub iv_file : (w : m.World) → m.file (m.read_iv w).1 ≡ m.file w
  pub cfb :
      (b : c.Block) (iv data_in : List Byte)
      → c.cfb_decrypt b iv (c.cfb_encrypt b iv data_in) ≡ data_in
  pub base64 : (b : List Byte) → c.decode (c.encode b) ≡ ok b
  pub text : (s : String) → c.text_of (c.bytes_of s) ≡ s
  pub written :
      (b : List Byte) (w : m.World)
      → (m.write_at b w).0 ≡ none
      → m.file (m.write_at b w).1 ≡ b ++ drop (length b) (m.file w)
  pub bcrypt :
      (password h : String) (w : m.World)
      → (m.generate_from_password password w).0 ≡ ok h
      → c.compare_hash h password ≡ none
  pub bcrypt_file :
      (password : String) (w : m.World) → m.file (m.generate_from_password password w).1 ≡ m.file w
  pub read : (w : m.World) (b : List Byte) → (m.read_all w).0 ≡ ok b → b ≡ m.file w
  pub open_same : (w : m.World) → m.file (m.open_file w).1 ≡ m.file w
