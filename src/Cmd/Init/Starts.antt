-- ===== src/Cmd/Init/Starts.antt =====
-- go-ooo/cmd/init.go, then start.go: a node that was initialised starts.
use xfund_router.Common.{
  ℕ, ◌≡◌, String, false, List, [], ◌∷◌, Option, none, some, str_eq, if◌then◌else◌,
}
use xfund_router.Keystore.Machine.{Machine}
use xfund_router.Chain.Env.{Env}
use xfund_router.App.Server.{Server}
use xfund_router.Cmd.Init.{Value, Disk, Init}

abbrev pub default_of : String → List (String × Value) → Option Value
default_of k [] = none
default_of k ((k', v) ∷ l) = let rest = default_of k l in if str_eq k' k then some v else rest

-- What the calls promise where no variable of the environment overrides a setting: a configuration
-- that was written is there, and its values are read back; the key store's file stays as it is.
pub record KeepsConfig {Byte : Type 0} (m : Machine Byte) (disk : Disk m.World) : Type 0 where
  pub there :
      (l : List (String × Value)) (w w' : m.World)
      → disk.safe_write_config_as l w ≡ (none, w')
      → disk.config_missing w' ≡ false
  pub text :
      (l : List (String × Value)) (w w' : m.World) (k s : String)
      → disk.safe_write_config_as l w ≡ (none, w')
      → default_of k l ≡ some (Value.text s)
      → disk.get_string w' k ≡ s
  pub number :
      (l : List (String × Value)) (w w' : m.World) (k : String) (n : ℕ)
      → disk.safe_write_config_as l w ≡ (none, w')
      → default_of k l ≡ some (Value.number n)
      → disk.get_uint64 w' k ≡ n
  pub file :
      (l : List (String × Value)) (w w' : m.World)
      → disk.safe_write_config_as l w ≡ (none, w')
      → m.file w' ≡ m.file w
  pub stat :
      (l : List (String × Value)) (w w' : m.World)
      → disk.safe_write_config_as l w ≡ (none, w')
      → m.stat w' ≡ m.stat w
