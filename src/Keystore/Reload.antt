-- ===== src/Keystore/Reload.antt =====
-- go-ooo/keystore/keystore.go: a stored key, found again by a later start of the node.
use xfund_router.Common.{
  ℕ, zero, suc, ◌≤◌, ◌≡◌, ◌≢◌, refl, sym, ◌∙◌, ap, subst, String, Bool, true, false, List, [], ◌∷◌,
  ◌++◌, Option, none, some, ok, length, drop, append_nil, arith, Option-cases, Result-cases, inl,
  inr,
}
use xfund_router.Utils.{add_hex_prefix}
use xfund_router.Keystore.Machine.{
  KeyStorageKeyModel, KeyStorageModel, Stat, stored, Machine, Crypto, IsSound,
}
use xfund_router.Keystore.Cipher.{encrypt, decrypt}
use xfund_router.Keystore.Start.{Keystorage, new_key_storage}
use xfund_router.Keystore.Accounts.{
  account_of, decrypted, with_key, save_bytes, exists_by_username, get_by_account, save,
  add_existing, select_private_key, get_selected_private_key,
}
use xfund_router.Keystore.Token.{check_token}
use xfund_router.Keystore.Sealed.{decrypt-encrypt, encrypt-file}
use xfund_router.Keystore.Selection.{select-append}

drop_all : {A : Type 0} (n : ℕ) (xs : List A) → length xs ≤ n → drop n xs ≡ []
drop_all zero [] h = refl
drop_all zero (x ∷ xs) h = absurd (omega (arith, h))
drop_all (suc n) [] h = refl
drop_all (suc n) (x ∷ xs) h = drop_all n xs (omega (arith, h))

some_ne_none : {A : Type 0} {a : A} → some a ≢ none
some_ne_none h = absurd (cc)

abbrev store_or : KeyStorageModel → Option Keystorage → KeyStorageModel
store_or k none = k
store_or k (some d) = d.store

module _ {Byte : Type 0} (m : Machine Byte) (c : Crypto Byte) (law : IsSound m c) where
  save_bytes-file :
      (opened : Bool) (b : List Byte) (w : m.World)
      → (save_bytes m c opened (ok b) w).0 ≡ none
      → length (m.file w) ≤ length b
      → m.file (save_bytes m c opened (ok b) w).1 ≡ b
  save_bytes-file false b w saved le = cc
  save_bytes-file true b w saved le =
      law.written b w saved
      ∙ ap (λ x. b ++ x) (drop_all (length b) (m.file w) le)
      ∙ sym (append_nil b)

  -- A successful save leaves the stored fields in the file, if it was no longer than they are.
  save-load :
      (d : Keystorage) (w : m.World) (b : List Byte)
      → (save m c d w).0 ≡ none
      → c.marshal d.store ≡ ok b
      → length (m.file w) ≤ length b
      → m.file (save m c d w).1 ≡ b
  unfolding save
  save-load d w b saved json le = rw json (
      save_bytes-file d.opened b w (subst (λ r. (save_bytes m c d.opened r w).0 ≡ none) json saved)
        le)

  -- A start of the node that finds the file loads what JSON reads in it.
  new_key_storage-store :
      (w w' : m.World) (b : List Byte) (k : KeyStorageModel) (d : Keystorage)
      → m.stat w ≡ Stat.there
      → m.file w ≡ b
      → c.unmarshal b ≡ (k, none)
      → new_key_storage m c w ≡ ((some d, none), w')
      → d.store ≡ k
  unfolding new_key_storage
  new_key_storage-store w w' b k d there same json started =
      let w1 = (m.open_file w).1 in
      elim (Option-cases (m.open_file w).0) [
        | inr (e, p) ↦
            let failed : new_key_storage m c w ≡ ((none, some e), w1) = rw (there, p) refl in
            absurd (some_ne_none (ap (λ r. r.0.1) (sym failed ∙ started)))
        | inl p ↦ elim (Result-cases (m.read_all w1).0) [
          | inr (e, q) ↦
              let failed : new_key_storage m c w ≡ ((none, some e), (m.read_all w1).1) =
                rw (there, p, q) refl in
              absurd (some_ne_none (ap (λ r. r.0.1) (sym failed ∙ started)))
          | inl (bytes, q) ↦
              let read : c.unmarshal bytes ≡ (k, none) =
                ap c.unmarshal (law.read w1 bytes q ∙ law.open_same w ∙ same) ∙ json in
              let fresh : new_key_storage m c w
                  ≡ ((some (record { opened = true; store = k }), none), (m.read_all w1).1) =
                rw (there, p, q, read) refl in
              ap (λ r. store_or k r.0.0) (sym started ∙ fresh)
        ]
      ]

  -- The token opens the store, and the key of the account is then the private key.
  abbrev pub Unlocks : String → String → String → Keystorage → Type 0
  Unlocks username private token loaded =
      let (checked, d3) = check_token m c token loaded in
      (checked ≡ none)
      × (d4 : Keystorage) × (select_private_key m c (account_of username) d3 ≡ some (none, d4))
      × (get_selected_private_key m c d4 ≡ private)

  select_loaded :
      (username private text : String) (d : Keystorage) (opened : Bool)
      → exists_by_username m c (account_of username) d ≡ false
      → decrypt c text d.store.token ≡ ok private
      → c.compare_hash d.store.hash d.store.token ≡ none
      → Unlocks username private d.store.token
          (record { opened = opened; store = stored (with_key m c username private text d).store })
  unfolding check_token select_private_key get_by_account exists_by_username
  select_loaded username private text d opened absent plain matches =
      let k : KeyStorageKeyModel = record {
        account = account_of username;
        cipher_private = text;
        private = private;
      } in
      let (ks, found) =
        select-append (account_of username) (decrypted m c d.store.token) d.store.key k absent
          refl in
      rw (matches, found, plain) (refl, _, refl, refl)

  -- With calls of the system that keep their promises, a private key added for an account that has
  -- none yet, to a store whose hash its token matches and whose new contents are read back from
  -- JSON and are no shorter than the file was, is found by a later start of the node, at which the
  -- file is there with the same contents: the token opens the store that is loaded from the file,
  -- and selecting the account then selects that key, with its hexadecimal prefix.
  pub add_existing-reload :
      (username key : String) (d d' d2 : Keystorage) (w w' ws w2 : m.World) (b : List Byte)
      → exists_by_username m c (account_of username) d ≡ false
      → c.compare_hash d.store.hash d.store.token ≡ none
      → add_existing m c username key (d, w) ≡ (none, (d', w'))
      → c.marshal d'.store ≡ ok b
      → c.unmarshal b ≡ (stored d'.store, none)
      → length (m.file w) ≤ length b
      → m.file ws ≡ m.file w'
      → m.stat ws ≡ Stat.there
      → new_key_storage m c ws ≡ ((some d2, none), w2)
      → Unlocks username (add_hex_prefix key) d.store.token d2
  unfolding add_existing
  add_existing-reload username key d d' d2 w w' ws w2 b absent matches added json read le kept there
        started =
      let hex = add_hex_prefix key in
      let w1 = (encrypt c m hex d.store.token w).1 in
      elim (Result-cases (encrypt c m hex d.store.token w).0) [
        | inr (e, p) ↦
            let failed : add_existing m c username key (d, w) ≡ (some e, (d, w1)) = rw p refl in
            absurd (some_ne_none (ap (λ r. r.0) (sym failed ∙ added)))
        | inl (text, p) ↦
            let d1 = with_key m c username hex text d in
            let done : add_existing m c username key (d, w)
                ≡ ((save m c d1 w1).0, (d1, (save m c d1 w1).1)) =
              rw p refl in
            let same : ((save m c d1 w1).0, (d1, (save m c d1 w1).1)) ≡ (none, (d', w')) =
              sym done ∙ added in
            let json1 : c.marshal d1.store ≡ ok b = ap (λ r. c.marshal r.1.0.store) same ∙ json in
            let file : m.file w' ≡ b =
              ap (λ r. m.file r.1.1) (sym same)
              ∙ save-load d1 w1 b (ap (λ r. r.0) same) json1 (
                  subst (λ x. length x ≤ length b) (sym (encrypt-file m c law hex d.store.token w))
                    le) in
            let loaded : d2.store ≡ stored d1.store =
              new_key_storage-store ws w2 b (stored d1.store) d2 there (kept ∙ file)
                (read ∙ ap (λ r. (stored r.1.0.store, none)) (sym same)) started in
            subst
              (λ st. Unlocks username hex d.store.token (record { opened = d2.opened; store = st }))
              (sym loaded)
              (select_loaded username hex text d d2.opened absent
                (decrypt-encrypt m c law hex d.store.token text w p) matches)
      ]
