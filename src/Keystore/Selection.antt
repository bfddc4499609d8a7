-- ===== src/Keystore/Selection.antt =====
-- go-ooo/keystore/keystore.go: the key that is selected for an account.
use xfund_router.Common.{
  value_or, subst, if◌then◌else◌, ◌∙◌, ◌≡◌, ◌⊎◌, refl, String, false, List, [], ◌∷◌, ◌++◌, map,
  none, some, str_eq, any, arith, Bool-cases, inl, inr, eq_iff,
}
use xfund_router.Keystore.Machine.{KeyStorageKeyModel, stored_key, Machine, Crypto}
use xfund_router.Keystore.Cipher.{decrypt}
use xfund_router.Keystore.Start.{Keystorage}
use xfund_router.Keystore.Accounts.{
  set_keys, select, decrypted, exists_by_username, get_by_account, select_private_key,
  get_selected_private_key, first_private, get_first, with_private, set_private_key,
}

-- The last key is the first one of its account, if no key before it has that account.
pub select-append :
    (account : String) (f : KeyStorageKeyModel → KeyStorageKeyModel) (ks : List KeyStorageKeyModel)
    (k : KeyStorageKeyModel)
    → any (λ x. str_eq x.account account) ks ≡ false
    → k.account ≡ account
    → (ks' : List KeyStorageKeyModel) × (select account f (map stored_key (ks ++ k ∷ []))
        ≡ some (f (stored_key k), ks'))
unfolding select
select-append account f [] k h e = (f (stored_key k) ∷ [], rw ((eq_iff k.account account).1 e) refl)
select-append account f (x ∷ ks) k h e = elim (Bool-cases (str_eq x.account account)) [
  | inl q ↦ absurd (ground (arith, h, q))
  | inr q ↦
      let (rest, found) = select-append account f ks k (ground (arith, h, q)) e in
      (stored_key x ∷ rest, rw (q, found) refl)
]

module _ {Byte : Type 0} (m : Machine Byte) (c : Crypto Byte) where
  first_selected :
      (keys : List KeyStorageKeyModel) (d : Keystorage)
      → d.store.key ≡ keys
      → ((d.store.key ≡ []) × (first_private m c (get_first m c d) ≡ none))
        ⊎ ((k : KeyStorageKeyModel) × (ks : List KeyStorageKeyModel) × (d.store.key ≡ k ∷ ks)
            × (d' : Keystorage) × (first_private m c (get_first m c d) ≡ some d')
            × (get_selected_private_key m c d' ≡ (with_private m c d.store.token k).private))
  unfolding get_first
  first_selected [] d e = inl (e, rw e refl)
  first_selected (k ∷ ks) d e =
      let k' = with_private m c d.store.token k in
      inr (k, ks, e, set_private_key m c k'.private (set_keys (k' ∷ ks) d), rw e refl, refl)

  other :
      (account : String) (k : KeyStorageKeyModel) (ks : List KeyStorageKeyModel) (d : Keystorage)
      → d.store.key ≡ k ∷ ks
      → exists_by_username m c account d ≡ false
      → str_eq k.account account ≡ false
  unfolding exists_by_username
  other account k ks d e absent =
      let none_of : any (λ x. str_eq x.account account) (k ∷ ks) ≡ false =
        subst (λ l. any (λ x. str_eq x.account account) l ≡ false) e absent in
      ground (arith, none_of)

  with_private-key :
      (k : KeyStorageKeyModel) (d : Keystorage)
      → (with_private m c d.store.token k).private ≡ (
          if str_eq k.private ""
          then value_or "" (decrypt c k.cipher_private d.store.token)
          else k.private)
  with_private-key k d = ground arith

  select_missing :
      (account : String) (f : KeyStorageKeyModel → KeyStorageKeyModel)
      (keys : List KeyStorageKeyModel)
      → any (λ k. str_eq k.account account) keys ≡ false
      → select account f keys ≡ none
  unfolding select
  select_missing account f [] h = refl
  select_missing account f (k ∷ ks) h = ground (arith, select_missing account f ks)

  -- Selecting keeps the token.
  pub select_private_key-token :
      (account : String) (d d' : Keystorage)
      → select_private_key m c account d ≡ some (none, d')
      → d'.store.token ≡ d.store.token
  unfolding select_private_key get_by_account get_first
  select_private_key-token account d d' h = ground arith

  -- Selecting an account that has no key returns no error: it selects the first key of the store,
  -- which is of another account, as it is known or else decrypted with the token, an empty text
  -- where that fails; and it panics where the store has no key.
  pub select_private_key-absent :
      (account : String) (d : Keystorage)
      → exists_by_username m c account d ≡ false
      → ((d.store.key ≡ []) × (select_private_key m c account d ≡ none))
        ⊎ ((k : KeyStorageKeyModel) × (ks : List KeyStorageKeyModel) × (d.store.key ≡ k ∷ ks)
            × (str_eq k.account account ≡ false)
            × (d' : Keystorage) × (select_private_key m c account d ≡ some (none, d'))
            × (get_selected_private_key m c d' ≡ (
                if str_eq k.private ""
                then value_or "" (decrypt c k.cipher_private d.store.token)
                else k.private)))
  unfolding select_private_key get_by_account exists_by_username
  select_private_key-absent account d absent =
      rw (select_missing account (decrypted m c d.store.token) d.store.key absent)
        (elim (first_selected d.store.key d refl) [
          | inl (e, h) ↦ inl (e, rw h refl)
          | inr (k, ks, e, d', h, same) ↦
              inr (
                k,
                ks,
                e,
                other account k ks d e absent,
                d',
                rw h refl,
                same ∙ with_private-key k d,
              )
        ])
