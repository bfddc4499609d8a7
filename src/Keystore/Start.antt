-- ===== src/Keystore/Start.antt =====
-- go-ooo/keystore/keystore.go: the store of a file, opened or made.
use xfund_router.Common.{
  String, Bool, true, false, List, Option, none, some, Result, ok, err, if◌then◌else◌,
}
use xfund_router.Keystore.Machine.{KeyStorageModel, no_model, Stat, Machine, Crypto}

-- `opened`: the file is open.
pub record Keystorage : Type 0 where
  pub opened : Bool
  pub store : KeyStorageModel

module _ {Byte : Type 0} (m : Machine Byte) (c : Crypto Byte) where
  -- A value to go on with, or none, and the error; from a file that JSON does not read, the
  -- variant with a logger goes on with what was read.
  abbrev loaded : Bool → KeyStorageModel × Option String → Option Keystorage × Option String
  loaded logs (k, none) = (some (record { opened = true; store = k }), none)
  loaded logs (k, some e) =
      if logs then (some (record { opened = true; store = k }), none) else (none, some e)

  abbrev load : Bool → Result (List Byte) → Option Keystorage × Option String
  load logs (err e) = (none, some e)
  load logs (ok b) = loaded logs (c.unmarshal b)

  abbrev read_store : Bool → Option String → m.World → (Option Keystorage × Option String) × m.World
  read_store logs (some e) w = ((none, some e), w)
  read_store logs none w = let (r, w1) = m.read_all w in (load logs r, w1)

  abbrev empty_store : Bool → Keystorage
  empty_store opened = record { opened = opened; store = no_model }

  abbrev created_store : Option String → m.World → (Option Keystorage × Option String) × m.World
  created_store (some e) w = ((none, some "invalid argument"), w)
  created_store none w =
      let (e, w1) = m.write (c.bytes_of "{\"keys\":[]}") w in
      elim e [ none ↦ ((some (empty_store true), none), w1) | some e' ↦ ((none, some e'), w1) ]

  abbrev new_from : Bool → Stat → m.World → (Option Keystorage × Option String) × m.World
  new_from logs Stat.there w = let (e, w1) = m.open_file w in read_store logs e w1
  new_from logs Stat.missing w = let (e, w1) = m.create w in created_store e w1
  new_from logs (Stat.failed e) w = ((some (empty_store false), some e), w)

  unfoldable pub new_key_storage_no_logger : m.World → (Option Keystorage × Option String) × m.World
  new_key_storage_no_logger w = new_from false (m.stat w) w

  unfoldable pub new_key_storage : m.World → (Option Keystorage × Option String) × m.World
  new_key_storage w = new_from true (m.stat w) w
