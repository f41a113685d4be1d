-- ===== src/Activity.antt =====
-- What the wallet shows of its past: the payments, on-chain transactions and closed channels, from
-- mutiny-core/src/lib.rs, event.rs and nodemanager.rs. Hashes, keys and transactions are the texts or
-- bytes that stand for them.
pub mod Order
pub mod Index
pub mod Persist
pub mod Items
pub mod Invoices
pub mod Read
use mutiny_node.Prelude.{ℕ, Bool, List, Option}
use mutiny_node.Prelude.Text.{Text}
use mutiny_node.Encrypt.{Bytes}
use mutiny_node.Nwc.Invoice.{Bolt11Invoice}
use mutiny_node.Nwc.Node.{HtlcStatus, PrivacyLevel}

-- `bdk_chain::ConfirmationTime`
pub data ConfirmationTime : Type 0 where
  confirmed : (height time : ℕ) → ConfirmationTime
  unconfirmed : (last_seen : ℕ) → ConfirmationTime

pub record TransactionDetails : Type 0 where
  pub transaction : Option Text
  pub txid : Option Text
  pub internal_id : Text
  pub received : ℕ
  pub sent : ℕ
  pub fee : Option ℕ
  pub confirmation_time : ConfirmationTime
  pub labels : List Text

pub record PaymentInfo : Type 0 where
  pub preimage : Option Bytes
  pub secret : Option Bytes
  pub status : HtlcStatus
  -- a `MillisatAmount`
  pub amt_msat : Option ℕ
  pub fee_paid_msat : Option ℕ
  pub bolt11 : Option Bolt11Invoice
  pub payee_pubkey : Option Text
  pub privacy_level : PrivacyLevel
  pub last_update : ℕ

pub record ChannelClosure : Type 0 where
  pub user_channel_id : Option Bytes
  pub channel_id : Option Bytes
  pub node_id : Option Text
  pub reason : Text
  pub timestamp : ℕ
