-- ===== src/App/Tests.antt =====
-- A key store that is made, and unlocked by a start of the node, in memory.
use Prim.Native.Char.{Char}
use xfund_router.Common.{◌≡◌, refl, String, true, false, List, [], ◌∷◌, Option, none, some}
use xfund_router.Utils.{add_hex_prefix, has_hex_prefix}
use xfund_router.OooApi.Endpoint.{split}
use xfund_router.Keystore.Machine.{no_model, stored}
use xfund_router.Keystore.Start.{Keystorage, new_key_storage}
use xfund_router.Keystore.Cipher.{encrypt, encrypt_aes}
use xfund_router.Keystore.Token.{
  generate_token, generate_random_bytes, token_encrypt_and_save, spell,
}
use xfund_router.Keystore.Accounts.{add_existing, save, exists_by_username}
use xfund_router.Keystore.Tests.{to_list, machine, crypto, store_in}
use xfund_router.App.Init.{prefixed}

abbrev pub token : String
token = "aaaaaaaaaaaaaaaaaaaaaaaaaaaaaaaa"

abbrev pub empty_store : Keystorage
empty_store = record { opened = true; store = no_model }

abbrev pub with_token : Keystorage
with_token = record empty_store { store = record no_model { hash = token; token = token } }

abbrev pub with_oracle : Keystorage
with_oracle = record with_token {
  store = record with_token.store {
    key =
        record { account = "oracle"; cipher_private = "0123456789abcdef0xbeef"; private = "0xbeef" }
        ∷ [];
  };
}

abbrev pub contents : List Char
contents = to_list "aaaaaaaaaaaaaaaaaaaaaaaaaaaaaaaa.oracle.0123456789abcdef0xbeef"

abbrev pub reloaded : Keystorage
reloaded = record {
  opened = true;
  store = store_in (split b'.' "aaaaaaaaaaaaaaaaaaaaaaaaaaaaaaaa.oracle.0123456789abcdef0xbeef");
}

abbrev pub no_address_error : String → Option String
no_address_error key = none

pub token_made :
    generate_token machine crypto (empty_store, []) ≡ ((token, none), (with_token, to_list token))
unfolding generate_token generate_random_bytes token_encrypt_and_save spell save
token_made = refl

pub oracle_new : exists_by_username machine crypto "oracle" with_token ≡ false
unfolding exists_by_username
oracle_new = refl

pub oracle_added :
    add_existing machine crypto "oracle" (prefixed "beef") (with_token, to_list token)
    ≡ (none, (with_oracle, contents))
unfolding add_existing add_hex_prefix has_hex_prefix encrypt encrypt_aes save
oracle_added = refl

pub read_back : crypto.unmarshal contents ≡ (stored with_oracle.store, none)
unfolding split
read_back = refl

pub started : new_key_storage machine crypto contents ≡ ((some reloaded, none), contents)
unfolding new_key_storage split
started = refl
