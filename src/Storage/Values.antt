-- ===== src/Storage/Values.antt =====
-- The values that are stored: their conversions and their encryption (`encrypt_value`,
-- `decrypt_value`), and the items of the remote queue and of the activity index.
use mutiny_node.Prelude.{ℕ, ◌≡◌, Bool, ◌||◌, Option, none, some, ◌⊎◌, inl, inr, ◌==◌, if◌then◌else◌}
use mutiny_node.Prelude.Text.{Text, codes, starts_with, text_eq}
use mutiny_node.Error.{MutinyError, MutinyStorageError, persistence_failed, read_error}
use mutiny_node.Exec.{Result, ok, err, and_then, ok_or}
use mutiny_node.Encrypt.{Crypto, Cipher, Bytes, encrypt, decrypt_with_password}

-- `serde_json` at the type of its own values.
pub record Json (V : Type 0) : Type 0 where
  -- `serde_json::to_string`, `serde_json::from_str`
  pub to_string : V → Option Text
  pub from_str : Text → Option V
  -- `Value::String`, and `from_value` at the type `String`
  pub string : Text → V
  pub as_string : V → Option Text
  pub from_str-to_string : (v : V) (t : Text) → to_string v ≡ some t → from_str t ≡ some v
  pub as_string-string : (t : Text) → as_string (string t) ≡ some t

-- The derived `Serialize` and `Deserialize` of a type. A failure to serialize has a message.
pub record Serde (V A : Type 0) : Type 0 where
  pub to_value : A → Text ⊎ V
  pub from_value : V → Option A
  pub from_value-to_value : (a : A) (v : V) → to_value a ≡ inr v → from_value v ≡ some a

-- `From<serde_json::Error> for MutinyError`
abbrev pub deserialize_error : MutinyError
deserialize_error = read_error (MutinyStorageError.other (codes "Failed to deserialize"))

unfoldable pub needs_encryption : Text → Bool
needs_encryption key = key == codes "mnemonic" || starts_with key (codes "manager")

module _ {V : Type 0} ⦃c : Crypto⦄ ⦃j : Json V⦄ where
  unfoldable pub encrypt_value : Bytes → Text → V → Option Cipher → Result V
  encrypt_value nonce key value none = ok value
  encrypt_value nonce key value (some cipher) =
      if needs_encryption key
      then (and_then (ok_or (j.to_string value) deserialize_error)
          λ str. and_then (encrypt nonce str cipher) λ ciphertext. ok (j.string ciphertext))
      else ok value

  unfoldable pub decrypt_value : Text → V → Option Text → Result V
  decrypt_value key value none = ok value
  decrypt_value key value (some pw) =
      if needs_encryption key
      then (and_then (ok_or (j.as_string value) deserialize_error) λ str.
          and_then (decrypt_with_password str pw)
            λ ciphertext. ok_or (j.from_str ciphertext) deserialize_error)
      else ok value

module _ {V A : Type 0} ⦃s : Serde V A⦄ where
  -- `serde_json::to_value(value).map_err(..)` of the methods that store.
  abbrev pub to_data : A → Result V
  to_data a = elim (s.to_value a) [
    | inl source ↦ err (persistence_failed (MutinyStorageError.serde_error source))
    | inr v ↦ ok v
  ]

  -- `serde_json::from_value(json)?`
  abbrev pub from_data : V → Result A
  from_data v = ok_or (s.from_value v) deserialize_error

pub record VssKeyValueItem (V : Type 0) : Type 0 where
  pub key : Text
  pub value : V
  pub version : ℕ

pub record DelayedKeyValueItem (V : Type 0) : Type 0 where
  pub key : Text
  pub value : V
  pub version : ℕ
  pub write_time : ℕ

-- `From<DelayedKeyValueItem> for VssKeyValueItem`
abbrev pub vss_item : {V : Type 0} → DelayedKeyValueItem V → VssKeyValueItem V
vss_item item = record { key = item.key; value = item.value; version = item.version }

pub record IndexItem : Type 0 where
  pub timestamp : Option ℕ
  pub key : Text
