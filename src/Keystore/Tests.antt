-- ===== src/Keystore/Tests.antt =====
-- A file in memory, texts as bytes, and ciphers and hashes that hide nothing: the promises are kept.
use Prim.Native.Char.{Char}
use xfund_router.Common.{
  value_or, ◌≡◌, ◌⊎◌, refl, String, true, false, List, [], ◌∷◌, ◌++◌, none, some, ok, if◌then◌else◌,
  str_eq, eq_iff, length, drop, replicate, ap, subst, sym,
}
use xfund_router.OooApi.Endpoint.{split}
use xfund_router.OooApi.RoundTrip.{join}
use xfund_router.Keystore.Machine.{
  KeyStorageKeyModel, KeyStorageModel, Stat, Machine, Crypto, IsSound,
}
use xfund_router.Keystore.Cipher.{decrypt}
use xfund_router.Keystore.Start.{Keystorage}
use xfund_router.Keystore.Accounts.{
  exists_by_username, select_private_key, get_selected_private_key,
}
use xfund_router.Keystore.Selection.{select_private_key-absent}
use xfund_router.Keystore.Sealed.{ok_injective}

abbrev pub to_list : String → List Char
to_list String.[] = []
to_list (String.◌∷◌ c s) = c ∷ to_list s

abbrev pub of_list : List Char → String
of_list [] = ""
of_list (c ∷ cs) = String.◌∷◌ c (of_list cs)

to_list-of_list : (l : List Char) → to_list (of_list l) ≡ l
to_list-of_list [] = refl
to_list-of_list (c ∷ cs) = ap (λ l. c ∷ l) (to_list-of_list cs)

of_list-to_list : (s : String) → of_list (to_list s) ≡ s
of_list-to_list String.[] = refl
of_list-to_list (String.◌∷◌ c s) = ap (λ t. String.◌∷◌ c t) (of_list-to_list s)

abbrev pub machine : Machine Char
machine = record {
  World = List Char;
  file = λ w. w;
  stat = λ w. Stat.there;
  open_file = λ w. (none, w);
  read_all = λ w. (ok w, w);
  create = λ w. (none, []);
  write = λ b w. (none, b);
  write_at = λ b w. (none, b ++ drop (length b) w);
  read_iv = λ w. (ok (to_list "0123456789abcdef"), w);
  rand_read = λ n w. (replicate n 10, w);
  generate_key = λ w. (ok "0x01", w);
  generate_from_password = λ password w. (ok password, w);
}

-- The texts of a store, with dots between them.
abbrev pub texts : List KeyStorageKeyModel → List String
texts [] = []
texts (k ∷ ks) = k.account ∷ k.cipher_private ∷ texts ks

abbrev pub keys_in : List String → List KeyStorageKeyModel
keys_in (a ∷ c ∷ rest) = record { account = a; cipher_private = c; private = "" } ∷ keys_in rest
keys_in _ = []

abbrev pub store_in : List String → KeyStorageModel
store_in [] = record { key = []; hash = ""; token = ""; private_key = "" }
store_in (h ∷ rest) = record { key = keys_in rest; hash = h; token = ""; private_key = "" }

abbrev pub crypto : Crypto Char
crypto = record {
  Block = Unit;
  sum256 = to_list;
  new_cipher = λ key. ok tt;
  cfb_encrypt = λ b iv text. text;
  cfb_decrypt = λ b iv text. text;
  encode = of_list;
  decode = λ s. ok (to_list s);
  bytes_of = to_list;
  text_of = of_list;
  compare_hash = λ h password. if str_eq h password then none else some "mismatch";
  marshal = λ k. ok (to_list (join (k.hash ∷ texts k.key)));
  unmarshal = λ b. (store_in (split b'.' (of_list b)), none);
}

same_text : (s : String) → str_eq s s ≡ true
same_text s = (eq_iff s s).1 refl

read_iv_length : (w iv : List Char) → (machine.read_iv w).0 ≡ ok iv → length iv ≡ 16
read_iv_length w iv h = ap length (sym (ok_injective h))

hash_matches :
    (password h : String) (w : List Char)
    → (machine.generate_from_password password w).0 ≡ ok h
    → crypto.compare_hash h password ≡ none
hash_matches password h w made =
    subst (λ x. crypto.compare_hash x password ≡ none) (ok_injective made)
      (rw (same_text password) refl)

pub sound : IsSound machine crypto
sound = record {
  iv_length = read_iv_length;
  iv_file = λ w. refl;
  cfb = λ b iv text. refl;
  base64 = λ b. ap ok (to_list-of_list b);
  text = λ s. of_list-to_list s;
  written = λ b w h. refl;
  bcrypt = hash_matches;
  bcrypt_file = λ password w. refl;
  read = λ w b h. sym (ok_injective h);
  open_same = λ w. refl;
}

abbrev unlocked : Keystorage
unlocked = record {
  opened = true;
  store = record {
    key = record { account = "main"; cipher_private = "x"; private = "0x01" } ∷ [];
    hash = "token";
    token = "token";
    private_key = "";
  };
}

not_there : exists_by_username machine crypto "backup" unlocked ≡ false
unfolding exists_by_username
not_there = refl

select_private_key-absent_example :
    ((unlocked.store.key ≡ []) × (select_private_key machine crypto "backup" unlocked ≡ none))
    ⊎ ((k : KeyStorageKeyModel) × (ks : List KeyStorageKeyModel) × (unlocked.store.key ≡ k ∷ ks)
        × (str_eq k.account "backup" ≡ false)
        × (d : Keystorage) × (select_private_key machine crypto "backup" unlocked ≡ some (none, d))
        × (get_selected_private_key machine crypto d ≡ (
            if str_eq k.private ""
            then value_or "" (decrypt crypto k.cipher_private "token")
            else k.private)))
select_private_key-absent_example =
    select_private_key-absent machine crypto "backup" unlocked not_there
