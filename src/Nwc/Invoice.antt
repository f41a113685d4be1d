-- ===== src/Nwc/Invoice.antt =====
-- The third-party values that the wallet connect code handles, each as the text or the bytes that it
-- serializes to, with the functions of their crates that the code calls.
use mutiny_node.Prelude.{ℕ, ◌≡◌, Bool, Option, some}
use mutiny_node.Prelude.Text.{Text}
use mutiny_node.Encrypt.{Bytes}

-- `lightning_invoice::Bolt11Invoice`
abbrev pub Bolt11Invoice : Type 0
Bolt11Invoice = Text

-- `nostr::PublicKey`, `nostr::EventId`
abbrev pub PublicKey : Type 0
PublicKey = Bytes

abbrev pub EventId : Type 0
EventId = Bytes

pub record Bolt11 : Type 0 where
  -- `Bolt11Invoice::from_str` succeeds
  pub parses : Text → Bool
  pub amount_milli_satoshis : Bolt11Invoice → Option ℕ
  -- `payment_hash().into_32()`
  pub payment_hash : Bolt11Invoice → Bytes
  -- `would_expire` at a time in seconds
  pub would_expire : Bolt11Invoice → ℕ → Bool
  -- `recover_payee_pub_key().serialize()`
  pub payee : Bolt11Invoice → Bytes
  -- `to_lower_hex_string`, and `FromHex` for 32 bytes
  pub to_hex : Bytes → Text
  pub from_hex : Text → Option Bytes
  pub from_hex-to_hex :
      (i : Bolt11Invoice) → from_hex (to_hex (payment_hash i)) ≡ some (payment_hash i)
