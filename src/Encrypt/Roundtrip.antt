-- ===== src/Encrypt/Roundtrip.antt =====
-- Decryption after encryption, for a password and for a key.
use mathlib.Core.List.{append_assoc}
use mutiny_node.Prelude.{
  ℕ, ◌-◌, ◌<◌, ◌≡◌, sym, inl, inr, ◌++◌, some, arith, length, length-append, take, drop,
  take-append, drop-append, Option-cases,
}
use mutiny_node.Prelude.Text.{Text}
use mutiny_node.Error.{incorrect_password}
use mutiny_node.Exec.{ok, err}
use mutiny_node.Encrypt.{
  Bytes, Crypto, Cipher, encryption_key_from_pass, encrypt, open_sealed, decrypt_with_password,
  encrypt_with_key, decrypt_with_key,
}

-- A cut at a known length.
cut_take : (n : ℕ) (xs ys : Bytes) → length xs ≡ n → take n (xs ++ ys) ≡ xs
cut_take n xs ys h = rw (← h) (take-append xs ys)

cut_drop : (n : ℕ) (xs ys : Bytes) → length xs ≡ n → drop n (xs ++ ys) ≡ ys
cut_drop n xs ys h = rw (← h) (drop-append xs ys)

module _ ⦃c : Crypto⦄ (salt nonce : Bytes) (password : Text) {cipher : Cipher}
    (salt_len : length salt ≡ 16) (nonce_len : length nonce ≡ 12)
    (built : encryption_key_from_pass salt password ≡ ok cipher) where
  open_sealed-seal :
      (content : Text) (d : Bytes)
      → c.seal cipher.key nonce (c.as_bytes content) ≡ some d
      → open_sealed (salt ++ (nonce ++ d)) password ≡ ok content
  unfolding open_sealed encryption_key_from_pass
  open_sealed-seal content d h =
      let whole : salt ++ (nonce ++ d) ≡ (salt ++ nonce) ++ d = sym (append_assoc salt nonce d) in
      let len : length (salt ++ nonce) ≡ 28 = omega (arith, length-append salt nonce) in
      rw
        (
          whole,
          cut_take 28 (salt ++ nonce) d len,
          cut_drop 28 (salt ++ nonce) d len,
          cut_take 16 salt nonce salt_len,
          cut_drop 16 salt nonce salt_len,
        )
        (ground (
          arith,
          c.unseal-seal cipher.key nonce (c.as_bytes content) d h,
          c.from_utf8-as_bytes content,
        ))

  -- The salt of the cipher is the one that it was built with.
  salt-eq : cipher.salt ≡ salt
  unfolding encryption_key_from_pass
  salt-eq = ground arith

  -- What was encrypted under the cipher built from a password and a salt of 16 bytes, with a nonce of 12
  -- bytes, decrypts under that password.
  pub decrypt_with_password-encrypt :
      (content : Text) {sealed : Text}
      → encrypt nonce content cipher ≡ ok sealed
      → decrypt_with_password sealed password ≡ ok content
  unfolding encrypt decrypt_with_password
  decrypt_with_password-encrypt content {sealed} h =
      elim (Option-cases (c.seal cipher.key nonce (c.as_bytes content))) [
        | inl e ↦ ground arith
        | inr (d, e) ↦ ground (
          arith,
          salt-eq,
          open_sealed-seal content d e,
          c.base64_decode-base64_encode (salt ++ (nonce ++ d)),
          length-append salt (nonce ++ d),
          length-append nonce d,
        )
      ]

-- What was encrypted under a key with 16 random bytes decrypts under that key.
decrypt_with_key-encrypt_with_key :
    ⦃c : Crypto⦄ (iv encryption_key bytes : Bytes)
    → length iv ≡ 16
    → decrypt_with_key encryption_key (encrypt_with_key iv encryption_key bytes) ≡ ok bytes
unfolding encrypt_with_key decrypt_with_key
decrypt_with_key-encrypt_with_key ⦃c⦄ iv encryption_key bytes h =
    let sealed = c.cbc_encrypt encryption_key iv bytes in
    let n : length (sealed ++ iv) - 16 ≡ length sealed = omega (arith, length-append sealed iv) in
    rw (n, take-append sealed iv, drop-append sealed iv)
      (ground (arith, length-append sealed iv, c.cbc_decrypt-cbc_encrypt encryption_key iv bytes))

-- A text that is no base64, or decodes to less than the 28 bytes of a salt and a nonce, is an incorrect
-- password.
decrypt_with_password_short :
    ⦃c : Crypto⦄ (sealed password : Text)
    → ((b : Bytes) → c.base64_decode sealed ≡ some b → length b < 28)
    → decrypt_with_password sealed password ≡ err incorrect_password
unfolding decrypt_with_password
decrypt_with_password_short ⦃c⦄ sealed password h = elim (Option-cases (c.base64_decode sealed)) [
  | inl e ↦ ground arith
  | inr (b, e) ↦ ground (arith, h b e)
]
