-- ===== src/Keystore/Sealed.antt =====
-- go-ooo/keystore/keystore.go, Encrypt and Decrypt: an encrypted text is decrypted.
use xfund_router.Common.{
  ◌≡◌, ◌≢◌, refl, sym, ◌∙◌, ap, subst, String, false, List, [], ◌∷◌, ◌++◌, ok, err, ltb, length,
  take, drop, length-append, arith, Result-cases, inl, inr,
}
use xfund_router.Keystore.Machine.{Machine, Crypto, IsSound}
use xfund_router.Keystore.Cipher.{encrypt, encrypt_aes, decrypt, decrypt_aes, hash_to_32_bytes}

take-append : {A : Type 0} (xs ys : List A) → take (length xs) (xs ++ ys) ≡ xs
take-append [] ys = refl
take-append (x ∷ xs) ys = ap (λ zs. x ∷ zs) (take-append xs ys)

drop-append : {A : Type 0} (xs ys : List A) → drop (length xs) (xs ++ ys) ≡ ys
drop-append [] ys = refl
drop-append (x ∷ xs) ys = drop-append xs ys

err_ne_ok : {A : Type 0} {e : String} {a : A} → err e ≢ ok a
err_ne_ok h = absurd (cc)

pub ok_injective : {A : Type 0} {a b : A} → ok a ≡ ok b → a ≡ b
ok_injective h = cc

module _ {Byte : Type 0} (m : Machine Byte) (c : Crypto Byte) (law : IsSound m c) where
  unsealed :
      (plain_text key_string : String) (iv : List Byte) (block : c.Block)
      → c.new_cipher (hash_to_32_bytes c key_string) ≡ ok block
      → length iv ≡ 16
      → decrypt c (c.encode (iv ++ c.cfb_encrypt block iv (c.bytes_of plain_text))) key_string
        ≡ ok plain_text
  unfolding decrypt decrypt_aes
  unsealed plain_text key_string iv block p len =
      let sealed = c.cfb_encrypt block iv (c.bytes_of plain_text) in
      let long : ltb (length (iv ++ sealed)) 16 ≡ false =
        ground (arith, length-append iv sealed, len) in
      let front : take 16 (iv ++ sealed) ≡ iv =
        subst (λ n. take n (iv ++ sealed) ≡ iv) len (take-append iv sealed) in
      let back : drop 16 (iv ++ sealed) ≡ sealed =
        subst (λ n. drop n (iv ++ sealed) ≡ sealed) len (drop-append iv sealed) in
      rw
        (
          law.base64 (iv ++ sealed),
          long,
          p,
          front,
          back,
          law.cfb block iv (c.bytes_of plain_text),
          law.text plain_text,
        )
        refl

  pub decrypt-encrypt :
      (plain_text key_string text : String) (w : m.World)
      → (encrypt c m plain_text key_string w).0 ≡ ok text
      → decrypt c text key_string ≡ ok plain_text
  unfolding encrypt encrypt_aes decrypt decrypt_aes
  decrypt-encrypt plain_text key_string text w h =
      let key = hash_to_32_bytes c key_string in
      let failed_cipher : (e : String)
          → c.new_cipher key ≡ err e
          → (encrypt c m plain_text key_string w).0 ≡ err e =
        λ e p. rw p refl in
      let failed_iv : (block : c.Block) (e : String)
          → c.new_cipher key ≡ ok block
          → (m.read_iv w).0 ≡ err e
          → (encrypt c m plain_text key_string w).0 ≡ err e =
        λ block e p q. rw (p, q) refl in
      elim (Result-cases (c.new_cipher (hash_to_32_bytes c key_string))) [
        | inr (e, p) ↦ absurd (err_ne_ok (sym (failed_cipher e p) ∙ h))
        | inl (block, p) ↦ elim (Result-cases (m.read_iv w).0) [
          | inr (e, q) ↦ absurd (err_ne_ok (sym (failed_iv block e p q) ∙ h))
          | inl (iv, q) ↦
              let sealed = c.cfb_encrypt block iv (c.bytes_of plain_text) in
              let same : ok (c.encode (iv ++ sealed)) ≡ ok text = sym (rw (p, q) refl) ∙ h in
              subst (λ t. decrypt c t key_string ≡ ok plain_text) (ok_injective same)
                (unsealed plain_text key_string iv block p (law.iv_length w iv q))
        ]
      ]

  pub encrypt-file :
      (plain_text key_string : String) (w : m.World)
      → m.file (encrypt c m plain_text key_string w).1 ≡ m.file w
  unfolding encrypt encrypt_aes
  encrypt-file plain_text key_string w =
      elim (Result-cases (c.new_cipher (hash_to_32_bytes c key_string))) [
        | inr (e, p) ↦ rw p refl
        | inl (block, p) ↦ rw p (law.iv_file w)
      ]
