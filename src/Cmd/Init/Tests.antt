-- ===== src/Cmd/Init/Tests.antt =====
-- A node that is made for the network `dev`, with a configuration in memory, and that starts.
use Prim.Native.Char.{Char}
use xfund_router.Common.{ℕ, String, Bool, true, false, List, Option, none, some}
use xfund_router.Common.Int.{pos}
use xfund_router.Keystore.Machine.{Machine, Stat}
use xfund_router.Keystore.Start.{Keystorage}
use xfund_router.Keystore.Tests.{to_list, machine}
use xfund_router.App.Server.{Server}
use xfund_router.App.Tests.{token, with_token}
use xfund_router.Cmd.Init.{Value, Disk, Init, defaults, network_of}
use xfund_router.Cmd.Init.Starts.{default_of}

abbrev Config : Type 0
Config = Option (List (String × Value))

abbrev World : Type 0
World = List Char × Config

abbrev beside : {A : Type 0} → (List Char → A × List Char) → World → A × World
beside f (w, config) = let (a, w1) = f w in (a, (w1, config))

-- The machine in memory, with a configuration that it leaves as it is.
abbrev host : Machine Char
host = record {
  World = World;
  file = λ w. w.0;
  stat = λ w. Stat.there;
  open_file = beside machine.open_file;
  read_all = beside machine.read_all;
  create = beside machine.create;
  write = λ b. beside (machine.write b);
  write_at = λ b. beside (machine.write_at b);
  read_iv = beside machine.read_iv;
  rand_read = λ n. beside (machine.rand_read n);
  generate_key = beside machine.generate_key;
  generate_from_password = λ p. beside (machine.generate_from_password p);
}

abbrev missing : Config → Bool
missing none = true
missing (some l) = false

abbrev safe_write : List (String × Value) → World → Option String × World
safe_write l (w, none) = (none, (w, some l))
safe_write l (w, some old) = (some "already exists", (w, some old))

abbrev text_in : Option Value → String
text_in (some (Value.text s)) = s
text_in _ = ""

abbrev number_in : Option Value → ℕ
number_in (some (Value.number n)) = n
number_in _ = 0

abbrev value_in : String → Config → Option Value
value_in k none = none
value_in k (some l) = default_of k l

abbrev disk : Disk World
disk = record {
  config_missing = λ w. missing w.1;
  home_missing = λ w. false;
  mkdir_all = λ w. (none, w);
  safe_write_config_as = safe_write;
  get_string = λ w k. text_in (value_in k w.1);
  get_int = λ w k. pos (number_in (value_in k w.1));
  get_uint64 = λ w k. number_in (value_in k w.1);
  password_file = λ w flag. none;
  trim_space = λ s. s;
}

abbrev config : Config
config = some (defaults (network_of "dev") "keystore.json" "ooo.db" "oracle")

abbrev made_store : Keystorage × World
made_store = (with_token, (to_list token, none))
