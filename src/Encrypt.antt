-- ===== src/Encrypt.antt =====
-- mutiny-core/src/encrypt.rs. The ciphers, the password hash and the encodings are third-party
-- crates: they are the fields of `Crypto`, with the round trips that they document. Random bytes
-- (`getrandom`) are arguments.
pub mod Roundtrip
use mutiny_node.Prelude.{
  ℕ, ◌+◌, ◌-◌, ◌≡◌, Bool, List, ◌++◌, Option, none, some, ltb, if◌then◌else◌, length, take, drop,
}
use mutiny_node.Prelude.Text.{Text}
use mutiny_node.Error.{MutinyError, incorrect_password}
use mutiny_node.Exec.{Result, ok, err, and_then, ok_or}

abbrev pub Bytes : Type 0
Bytes = List ℕ

pub record Crypto : Type 0 where
  -- `Argon2::hash_password_into`
  pub hash_password : Bytes → Bytes → Option Bytes
  -- `Aes256Gcm` under a key: key, nonce, text
  pub seal : Bytes → Bytes → Bytes → Option Bytes
  pub unseal : Bytes → Bytes → Bytes → Option Bytes
  -- `Aes256CbcEnc` and `Aes256CbcDec` with PKCS 7 padding: key, iv, text
  pub cbc_encrypt : Bytes → Bytes → Bytes → Bytes
  pub cbc_decrypt : Bytes → Bytes → Bytes → Option Bytes
  pub base64_encode : Bytes → Text
  pub base64_decode : Text → Option Bytes
  pub as_bytes : Text → Bytes
  pub from_utf8 : Bytes → Option Text
  pub unseal-seal : (k n p d : Bytes) → seal k n p ≡ some d → unseal k n d ≡ some p
  pub cbc_decrypt-cbc_encrypt : (k i p : Bytes) → cbc_decrypt k i (cbc_encrypt k i p) ≡ some p
  pub base64_decode-base64_encode : (b : Bytes) → base64_decode (base64_encode b) ≡ some b
  pub from_utf8-as_bytes : (t : Text) → from_utf8 (as_bytes t) ≡ some t

-- An `Aes256Gcm` is given by the key that it was built from.
pub record Cipher : Type 0 where
  pub key : Bytes
  pub salt : Bytes

module _ ⦃c : Crypto⦄ where
  unfoldable pub get_encryption_key : Text → Bytes → Result Bytes
  get_encryption_key password salt =
      ok_or (c.hash_password (c.as_bytes password) salt) incorrect_password

  -- `salt` is what `getrandom` fills in.
  unfoldable pub encryption_key_from_pass : Bytes → Text → Result Cipher
  encryption_key_from_pass salt password =
      and_then (get_encryption_key password salt) λ key. ok (record { key = key; salt = salt })

  unfoldable pub encrypt : Bytes → Text → Cipher → Result Text
  encrypt nonce content cipher =
      and_then (ok_or (c.seal cipher.key nonce (c.as_bytes content)) incorrect_password)
        λ encrypted_data. ok (c.base64_encode (cipher.salt ++ (nonce ++ encrypted_data)))

  -- What follows the length check of `decrypt_with_password`.
  unfoldable pub open_sealed : Bytes → Text → Result Text
  open_sealed encrypted password =
      let rest = take (16 + 12) encrypted in
      let encrypted_bytes = drop (16 + 12) encrypted in
      let salt = take 16 rest in
      let nonce_bytes = drop 16 rest in
      and_then (get_encryption_key password salt) λ key.
        and_then (ok_or (c.unseal key nonce_bytes encrypted_bytes) incorrect_password)
          λ decrypted_data. ok_or (c.from_utf8 decrypted_data) incorrect_password

  unfoldable pub decrypt_with_password : Text → Text → Result Text
  decrypt_with_password encrypted password =
      and_then (ok_or (c.base64_decode encrypted) incorrect_password) λ bytes.
        if ltb (length bytes) (12 + 16) then err incorrect_password else open_sealed bytes password

  unfoldable pub encrypt_with_key : Bytes → Bytes → Bytes → Bytes
  encrypt_with_key iv encryption_key bytes = c.cbc_encrypt encryption_key iv bytes ++ iv

  unfoldable pub decrypt_with_key : Bytes → Bytes → Result Bytes
  decrypt_with_key encryption_key bytes =
      if ltb (length bytes) 16
      then err incorrect_password
      else (let iv = drop (length bytes - 16) bytes in
          let text = take (length bytes - 16) bytes in
          ok_or (c.cbc_decrypt encryption_key iv text) incorrect_password)
