-- ===== src/App/Unlock.antt =====
-- go-ooo/cmd/init.go and go-ooo/app/app.go: the store that was initialised is unlocked by the next
-- start of the node.
use xfund_router.Common.{
  ℕ, suc, ◌≤◌, ◌≡◌, ◌≢◌, refl, sym, ◌∙◌, ap, subst, String, false, List, ◌∷◌, Option, none, some,
  ok, str_eq, length, Bool-cases, Result-cases, inl, inr, arith,
}
use xfund_router.Utils.{has_hex_prefix, add_hex_prefix}
use xfund_router.Utils.Hex.{add_hex_prefix_has, has_hex_prefix-add_hex_prefix}
use xfund_router.Keystore.Machine.{Stat, stored, Machine, Crypto, IsSound}
use xfund_router.Keystore.Start.{Keystorage, new_key_storage}
use xfund_router.Keystore.Token.{
  generate_token, generate_random_bytes, token_encrypt_and_save, check_token,
}
use xfund_router.Keystore.Accounts.{
  account_of, exists_by_username, add_existing, get_selected_private_key,
}
use xfund_router.Keystore.Selection.{select_private_key-token}
use xfund_router.Keystore.Reload.{Unlocks, add_existing-reload}
use xfund_router.App.{running, select_account, init_keystore}
use xfund_router.App.Init.{prefixed, answered, imported, init_new_keystore}

some_ne_none : {A : Type 0} {a : A} → some a ≢ none
some_ne_none h = absurd (cc)

prefixed-add_hex_prefix : (key : String) → add_hex_prefix (prefixed key) ≡ add_hex_prefix key
prefixed-add_hex_prefix key = elim (Bool-cases (has_hex_prefix key)) [
  | inl h ↦ rw h refl
  | inr h ↦ rw h (add_hex_prefix_has (add_hex_prefix key) (has_hex_prefix-add_hex_prefix key))
]

module _ {Byte : Type 0} (m : Machine Byte) (c : Crypto Byte) (law : IsSound m c) where
  -- A token that was generated fits the hash that was stored.
  generate_token-matches :
      (d d' : Keystorage) (w w' : m.World) (token : String)
      → generate_token m c (d, w) ≡ ((token, none), (d', w'))
      → (d'.store.token ≡ token) × (c.compare_hash d'.store.hash token ≡ none)
  unfolding generate_token token_encrypt_and_save
  generate_token-matches d d' w w' token made =
      let (t, w1) = generate_random_bytes m c 32 w in
      elim (Result-cases (m.generate_from_password t w1).0) [
        | inr (e, p) ↦
            let failed : (generate_token m c (d, w)).0.1 ≡ some e = rw p refl in
            absurd (some_ne_none (sym failed ∙ ap (λ r. r.0.1) made))
        | inl (h, p) ↦
            let kept : (generate_token m c (d, w)).1.0.store.token ≡ t = rw p refl in
            let hashed : (generate_token m c (d, w)).1.0.store.hash ≡ h = rw p refl in
            let same : t ≡ token = ap (λ r. r.0.0) made in
            let fits : c.compare_hash h t ≡ none = law.bcrypt t h w1 p in
            (
              ap (λ r. r.1.0.store.token) (sym made) ∙ kept ∙ same,
              subst (λ x. c.compare_hash d'.store.hash x ≡ none) same
                  (subst (λ x. c.compare_hash x t ≡ none)
                    (sym hashed ∙ ap (λ r. r.1.0.store.hash) made) fits),
            )
      ]

  check_token-sets :
      (token : String) (d : Keystorage)
      → (check_token m c token d).0 ≡ none
      → (check_token m c token d).1.store.token ≡ token
  unfolding check_token
  check_token-sets token d h = ground arith

  init_keystore-Unlocks :
      (password username private : String) (keys : List String) (d : Keystorage) (w w' : m.World)
      → str_eq password "" ≡ false
      → new_key_storage m c w ≡ ((some d, none), w')
      → Unlocks m c law username private password d
      → (d' : Keystorage) × (init_keystore m c password (account_of username) keys w
          ≡ (running d', w'))
        × (get_selected_private_key m c d' ≡ private)
        × (d'.store.token ≡ password)
  unfolding init_keystore
  init_keystore-Unlocks password username private keys d w w' given started
        (checked, d', chosen, same) =
      let d1 = (check_token m c password d).1 in
      let selected : select_account m c (account_of username) (some d1) ≡ running d' =
        rw (select_account, chosen) refl in
      (
        d',
        rw (started, given, checked) (ap (λ x. (x, w')) selected),
        same,
        select_private_key-token m c (account_of username) d1 d' chosen
            ∙ check_token-sets password d checked,
      )

  module _ (address_error : String → Option String) where
    -- The first round ends, if the account is new and its key is stored.
    init_new_keystore-imports :
        (fuel : ℕ) (username key token : String) (ls : List String) (s s1 s2 : Keystorage × m.World)
        → generate_token m c s ≡ ((token, none), s1)
        → exists_by_username m c username s1.0 ≡ false
        → str_eq username "" ≡ false
        → add_existing m c username (prefixed key) s1 ≡ (none, s2)
        → address_error (prefixed key) ≡ none
        → init_new_keystore m c address_error (suc fuel) (username ∷ "1" ∷ key ∷ ls, s)
          ≡ some (record { error = none; username = username; shown = token }, (ls, s2))
    unfolding init_new_keystore
    init_new_keystore-imports fuel username key token ls s s1 s2 made absent named added address =
        let again = init_new_keystore m c address_error fuel in
        let told : answered m c address_error again (token, none) (username ∷ "1" ∷ key ∷ ls, s1)
            ≡ some (record { error = none; username = username; shown = token }, (ls, s2)) =
          rw (absent, named)
            (ap (λ r. some (imported m c address_error token username (prefixed key) ls r)) added
              ∙ rw address refl) in
        ap (λ r. answered m c address_error again r.0 (username ∷ "1" ∷ key ∷ ls, r.1)) made ∙ told

    -- With calls of the system that keep their promises, if a token that is not empty is generated
    -- and its hash saved, the operator names an account that is new and imports a private key for
    -- it, the key is stored and its address is computed, then initNewKeystore ends without an
    -- error with the first round and shows that token; and if the contents of the store are read
    -- back from JSON, were no shorter than the file and the file is there with these contents and
    -- can be opened, then a start of the node with what was shown as its password and that account
    -- runs with that token and with the imported key, with its hexadecimal prefix, as the selected
    -- one.
    pub initialised_unlocks :
        (fuel : ℕ) (username key token : String) (ls keys : List String) (d d1 d2 d3 : Keystorage)
        (w w1 w2 ws w3 : m.World) (b : List Byte)
        → generate_token m c (d, w) ≡ ((token, none), (d1, w1))
        → exists_by_username m c username d1 ≡ false
        → str_eq username "" ≡ false
        → str_eq token "" ≡ false
        → add_existing m c username (prefixed key) (d1, w1) ≡ (none, (d2, w2))
        → address_error (prefixed key) ≡ none
        → c.marshal d2.store ≡ ok b
        → c.unmarshal b ≡ (stored d2.store, none)
        → length (m.file w1) ≤ length b
        → m.file ws ≡ m.file w2
        → m.stat ws ≡ Stat.there
        → new_key_storage m c ws ≡ ((some d3, none), w3)
        → (init_new_keystore m c address_error (suc fuel) (username ∷ "1" ∷ key ∷ ls, (d, w))
            ≡ some (record { error = none; username = username; shown = token }, (ls, (d2, w2))))
          × (d4 : Keystorage) × (init_keystore m c token username keys ws ≡ (running d4, w3))
          × (get_selected_private_key m c d4 ≡ add_hex_prefix key)
          × (d4.store.token ≡ token)
    initialised_unlocks fuel username key token ls keys d d1 d2 d3 w w1 w2 ws w3 b made absent named
          given added address json read le later there started =
        let (kept, fits) = generate_token-matches d d1 w w1 token made in
        let same : account_of username ≡ username = rw named refl in
        let unlocks : Unlocks m c law username (add_hex_prefix (prefixed key)) d1.store.token d3 =
          add_existing-reload m c law username (prefixed key) d1 d2 d3 w1 w2 ws w3 b
            (rw same absent) (rw kept fits) added json read le later there started in
        let (d4, runs, selected, opened) =
          init_keystore-Unlocks token username (add_hex_prefix (prefixed key)) keys d3 ws w3 given
            started
            (subst (λ x. Unlocks m c law username (add_hex_prefix (prefixed key)) x d3) kept
              unlocks) in
        (
          init_new_keystore-imports fuel username key token ls (d, w) (d1, w1) (d2, w2) made absent
              named added address,
          d4,
          subst (λ x. init_keystore m c token x keys ws ≡ (running d4, w3)) same runs,
          selected ∙ prefixed-add_hex_prefix key,
          opened,
        )
