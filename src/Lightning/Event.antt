-- ===== src/Lightning/Event.antt =====
-- The events that lightning reports, and the records of payments and channels that mutiny-core/src/event.rs
-- makes of them.
use mutiny_node.Prelude.{
  ℕ, Bool, true, false, List, [], ◌∷◌, ◌++◌, Option, none, some, nat_eq, unwrap_or,
}
use mutiny_node.Prelude.Text.{Text, codes, text_eq}
use mutiny_node.Encrypt.{Bytes}
use mutiny_node.Nwc.Node.{succeeded, failed, not_available}
use mutiny_node.Activity.{PaymentInfo, ChannelClosure}
use mutiny_node.Lightning.{
  ChannelOpenParams, SpendableOutputDescriptor, static_output, delayed_payment_output,
  static_payment_output, Encodings,
}

-- `lightning::events::PaymentPurpose`
pub data PaymentPurpose : Type 0 where
  invoice_payment : (payment_preimage : Option Bytes) (payment_secret : Bytes) → PaymentPurpose
  spontaneous_payment : Bytes → PaymentPurpose

-- `lightning::events::Event`, with the fields that the handler reads; `logged` is an event that is only
-- logged.
pub data Event : Type 0 where
  funding_generation_ready :
      (temporary_channel_id counterparty_node_id : Text) (channel_value_satoshis : ℕ)
      (output_script : Text) (user_channel_id : ℕ)
      → Event
  payment_claimable :
      (payment_hash : Bytes) (purpose : PaymentPurpose)
      (amount_msat counterparty_skimmed_fee_msat : ℕ)
      → Event
  payment_claimed :
      (receiver_node_id : Option Text) (payment_hash : Bytes) (purpose : PaymentPurpose)
      (amount_msat : ℕ)
      → Event
  payment_sent : (payment_preimage payment_hash : Bytes) (fee_paid_msat : Option ℕ) → Event
  open_channel_request : (temporary_channel_id counterparty_node_id : Text) → Event
  payment_failed : (payment_hash : Bytes) → Event
  pending_htlcs_forwardable : Event
  spendable_outputs : List SpendableOutputDescriptor → Event
  channel_closed :
      (channel_id : Bytes) (reason : Text) (user_channel_id : ℕ)
      (counterparty_node_id : Option Text)
      → Event
  channel_pending : (user_channel_id : ℕ) → Event
  bump_transaction : Text → Event
  logged : Event

abbrev pub force_closed_prefix : Text
force_closed_prefix = codes "Channel closed because counterparty force-closed with message: "

abbrev pub preimage_of : PaymentPurpose → Option Bytes
preimage_of (invoice_payment preimage secret) = preimage
preimage_of (spontaneous_payment preimage) = some preimage

abbrev pub secret_of : PaymentPurpose → Option Bytes
secret_of (invoice_payment preimage secret) = some secret
secret_of (spontaneous_payment preimage) = none

abbrev pub is_spendable : SpendableOutputDescriptor → Bool
is_spendable (static_output d) = false
is_spendable (delayed_payment_output d) = true
is_spendable (static_payment_output d) = true

-- The record of a payment that was received, from the one that is saved or a new one.
unfoldable pub claimed_info :
    Option Text → PaymentPurpose → ℕ → ℕ → Option PaymentInfo → PaymentInfo
claimed_info receiver purpose amount_msat now (some saved) = record saved {
  status = succeeded;
  preimage = preimage_of purpose;
  secret = secret_of purpose;
  amt_msat = some amount_msat;
  last_update = now;
}
claimed_info receiver purpose amount_msat now none = record {
  preimage = preimage_of purpose;
  secret = secret_of purpose;
  status = succeeded;
  amt_msat = some amount_msat;
  fee_paid_msat = none;
  bolt11 = none;
  payee_pubkey = receiver;
  privacy_level = not_available;
  last_update = now;
}

unfoldable pub sent_info : Bytes → Option ℕ → ℕ → PaymentInfo → PaymentInfo
sent_info payment_preimage fee_paid_msat now saved = record saved {
  status = succeeded;
  preimage = some payment_preimage;
  fee_paid_msat = fee_paid_msat;
  last_update = now;
}

unfoldable pub failed_info : ℕ → PaymentInfo → PaymentInfo
failed_info now saved = record saved { status = failed; last_update = now }

-- `ChannelClosure::new`
unfoldable pub new_closure : ⦃enc : Encodings⦄ → ℕ → Bytes → Option Text → Text → ℕ → ChannelClosure
new_closure ⦃enc⦄ user_channel_id channel_id node_id reason now = record {
  user_channel_id = some (enc.to_be_bytes user_channel_id);
  channel_id = some channel_id;
  node_id = node_id;
  reason = reason;
  timestamp = now;
}

abbrev pub funding_labels : Text → Option ChannelOpenParams → List Text
funding_labels counterparty_node_id none = (codes "LN Channel: " ++ counterparty_node_id) ∷ []
funding_labels counterparty_node_id (some params) =
    unwrap_or params.labels ((codes "LN Channel: " ++ counterparty_node_id) ∷ [])
