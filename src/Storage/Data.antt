-- ===== src/Storage/Data.antt =====
-- What `set_data` writes, `get_data` reads: through the conversion and the encryption of the value.
use mutiny_node.Prelude.{
  ℕ, ◌≡◌, refl, ◌⊎◌, inl, inr, Option, none, some, arith, ◌==◌, ==_iff, ==_self, length, Bool-cases,
  if◌then◌else◌, true, ◌∷◌, ◌++◌, [],
}
use mutiny_node.Prelude.Text.{Text, text_eq}
use mutiny_node.Prelude.Map.{insert, get-insert}
use mutiny_node.Exec.{ok, ok_or, and_then-eq-ok, ok_or-eq-ok, Result-cases}
use mutiny_node.Encrypt.{Crypto, Cipher, Bytes, encrypt, encryption_key_from_pass}
use mutiny_node.Encrypt.Roundtrip.{decrypt_with_password-encrypt}
use mutiny_node.Storage.Values.{
  Json, Serde, needs_encryption, encrypt_value, decrypt_value, deserialize_error,
}
use mutiny_node.Storage.{
  World, Env, store_value, set_data, set_data_async, get_data, read_value, put_versioned,
}

-- The cipher is the one of the password, or there is neither.
pub data IsKeyed ⦃c : Crypto⦄ : Option Text → Option Cipher → Type 0 where
  plain : IsKeyed none none
  keyed :
      (pw : Text) (cipher : Cipher) (salt : Bytes)
      → length salt ≡ 16
      → encryption_key_from_pass salt pw ≡ ok cipher
      → IsKeyed (some pw) (some cipher)

to_value-cases : {V : Type 0} (r : Text ⊎ V) → ((t : Text) × (r ≡ inl t)) ⊎ ((v : V) × (r ≡ inr v))
to_value-cases (inl t) = inl (t, refl)
to_value-cases (inr v) = inr (v, refl)

module _ {V : Type 0} ⦃c : Crypto⦄ ⦃j : Json V⦄ where
  -- A value that was encrypted decrypts again, also where its key needs no encryption.
  pub decrypt_value-encrypt_value :
      (nonce : Bytes) (key : Text) (v : V) {x : V} {pw : Option Text} {cipher : Option Cipher}
      → length nonce ≡ 12
      → IsKeyed pw cipher
      → encrypt_value nonce key v cipher ≡ ok x
      → decrypt_value key x pw ≡ ok v
  unfolding encrypt_value decrypt_value
  decrypt_value-encrypt_value nonce key v n plain h = ground arith
  decrypt_value-encrypt_value nonce key v n (keyed pw cipher salt l built) h =
      elim (Bool-cases (needs_encryption key)) [
        | inr clear ↦ ground arith
        | inl secret ↦
            let (str, p, h') =
              and_then-eq-ok (ok_or (j.to_string v) deserialize_error) _ (rw secret at h) in
            let (ciphertext, q, r) = and_then-eq-ok (encrypt nonce str cipher) _ h' in
            ground (
              arith,
              j.as_string-string ciphertext,
              decrypt_with_password-encrypt salt nonce pw l n built str q,
              j.from_str-to_string v str (ok_or-eq-ok _ _ p),
            )
      ]

module _ {V : Type 0} ⦃c : Crypto⦄ ⦃j : Json V⦄ ⦃env : Env⦄ where
  -- A write that succeeds has put one encrypted value under its key.
  store_value-eq-ok :
      (key : Text) (v : V) (w : World V) {w' : World V}
      → store_value key v w ≡ (ok tt, w')
      → (x : V) × (encrypt_value (env.random_nonce w.draws) key v w.cipher ≡ ok x)
        × (w'.memory ≡ insert w.memory key x)
        × (w'.password ≡ w.password)
  unfolding store_value
  store_value-eq-ok key v w {w'} h =
      elim (Result-cases (encrypt_value (env.random_nonce w.draws) key v w.cipher)) [
        | inl (x, e) ↦ (x, e, ground arith, ground arith)
        | inr (_, e) ↦ absurd (ground arith)
      ]

  -- The upload leaves what a local write depends on.
  put_versioned-keeps :
      (key : Text) (v : V) (version : Option ℕ) (w : World V)
      → (put_versioned key v version w).storage ≡ w.storage
  put_versioned-keeps key v none w = refl
  put_versioned-keeps key v (some version) w = ground arith

  store_value-sent :
      (key : Text) (v : V) (w : World V)
      → ((store_value key v w).1.sent ≡ w.sent)
        × ((store_value key v w).1.vss_client ≡ w.vss_client)
  unfolding store_value
  store_value-sent key v w = ground arith

  module _ {A : Type 0} ⦃s : Serde V A⦄ where
    pub set_data-eq-ok :
        (key : Text) (a : A) (version : Option ℕ) (w : World V) {w' : World V}
        → set_data key a version w ≡ (ok tt, w')
        → (v : V) × (n : ℕ) × (x : V) × (s.to_value a ≡ inr v)
          × (encrypt_value (env.random_nonce n) key v w.cipher ≡ ok x)
          × (w'.memory ≡ insert w.memory key x)
          × (w'.password ≡ w.password)
    unfolding set_data
    set_data-eq-ok key a version w {w' = w'} h = elim (to_value-cases (s.to_value a)) [
      | inl (_, e) ↦ absurd (ground arith)
      | inr (v, e) ↦
          let w1 = put_versioned key v version w in
          let same : w1.storage ≡ w.storage = put_versioned-keeps key v version w in
          let (x, f, m, p) = store_value-eq-ok key v w1 {w' = w'} (ground arith) in
          (v, w1.draws, x, e, ground arith, ground arith, ground arith)
    ]

    -- If the cipher is that of the password, then after a `set_data` that succeeds, `get_data` of the key returns what was set, and `get_data` of
    -- every other key what it returned before.
    pub get_data-set_data :
        (key : Text) (a : A) (version : Option ℕ) (w : World V) {w' : World V}
        → IsKeyed w.password w.cipher
        → set_data key a version w ≡ (ok tt, w')
        → (k : Text)
        → (get_data {A = A} k w').0 ≡ (if key == k then ok (some a) else (get_data k w).0)
    unfolding get_data read_value
    get_data-set_data key a version w {w'} sealed h k =
        let (v, n, x, e, f, m, p) = set_data-eq-ok key a version w h in
        ground (
          arith,
          ==_iff key k,
          get-insert w.memory key x k,
          decrypt_value-encrypt_value (env.random_nonce n) key v (env.length-random_nonce n) sealed
              f,
          s.from_value-to_value a v e,
        )

    -- The same of a `set_data_async` whose upload succeeds as well, for its key.
    pub get_data-set_data_async :
        (key : Text) (a : A) (version : Option ℕ) (w : World V) {w' : World V}
        → IsKeyed w.password w.cipher
        → set_data_async key a version w ≡ (ok tt, w')
        → get_data {A = A} key w' ≡ (ok (some a), w')
    unfolding set_data_async get_data read_value
    get_data-set_data_async key a version w {w'} sealed h = elim (to_value-cases (s.to_value a)) [
      | inl (_, e) ↦ absurd (ground arith)
      | inr (v, e) ↦ elim (Result-cases (store_value key v w).0) [
        | inr (_, q) ↦ absurd (ground arith)
        | inl (_, q) ↦
            let w1 = (store_value key v w).1 in
            let (x, f, m, p) = store_value-eq-ok key v w {w' = w1} (ground arith) in
            let same = put_versioned-keeps key v version w1 in
            ground (
              arith,
              ==_self key,
              get-insert w.memory key x key,
              decrypt_value-encrypt_value (env.random_nonce w.draws) key v
                  (env.length-random_nonce w.draws) sealed f,
              s.from_value-to_value a v e,
            )
      ]
    ]

    -- With a server, a `set_data_async` with a version that succeeds has sent the value.
    pub set_data_async-sent :
        (key : Text) (a : A) (version : ℕ) (w : World V) {w' : World V}
        → w.vss_client ≡ true
        → set_data_async key a (some version) w ≡ (ok tt, w')
        → (v : V) × (s.from_value v ≡ some a)
          × (w'.sent ≡ w.sent ++ (record { key = key; value = v; version = version } ∷ []))
    unfolding set_data_async
    set_data_async-sent key a version w {w'} vss h = elim (to_value-cases (s.to_value a)) [
      | inl (_, e) ↦ absurd (ground arith)
      | inr (v, e) ↦ elim (Result-cases (store_value key v w).0) [
        | inr (_, q) ↦ absurd (ground arith)
        | inl (_, q) ↦
            let (kept, client) = store_value-sent key v w in
            (v, s.from_value-to_value a v e, ground arith)
      ]
    ]
