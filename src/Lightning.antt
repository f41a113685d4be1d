-- ===== src/Lightning.antt =====
-- What the events of lightning work on: mutiny-core/src/ldkstorage.rs, the records of channels that are
-- opened and closed and of the outputs that could not be spent. The lightning development kit and the
-- on-chain wallet are the instance `Ldk`, over a state `E` that the handler does not see.
pub mod Event
pub mod Actions
pub mod Events
pub mod Settled
pub mod Closed
pub mod Outputs
pub mod Proved
use mutiny_node.Prelude.{
  ℕ, suc, zero, ◌≡◌, Bool, List, [], ◌∷◌, ◌++◌, Option, none, some, map, unwrap_or, length,
}
use mutiny_node.Prelude.Text.{Text, codes, strip_prefix}
use mutiny_node.Error.{MutinyError}
use mutiny_node.Exec.{Result, ok, err, and_then, Exec, pure, lift, ◌>>=◌, ◌>>◌}
use mutiny_node.Encrypt.{Crypto, Bytes}
use mutiny_node.Storage.Values.{Json, Serde}
use mutiny_node.Storage.{World, Env, set_data, get_data, delete}
use mutiny_node.Wallet.{Machine}

abbrev pub channel_opening_params_prefix : Text
channel_opening_params_prefix = codes "chan_open_params/"

abbrev pub failed_spendable_output_descriptor_key : Text
failed_spendable_output_descriptor_key = codes "failed_spendable_outputs"

pub record ChannelOpenParams : Type 0 where
  -- an `f32`, as its bits; what is said of `Serde` is for finite ones
  pub sats_per_vbyte : ℕ
  pub absolute_fee : Option ℕ
  pub utxos : Option (List Text)
  pub labels : Option (List Text)
  pub opening_tx : Option Text
  pub failure_reason : Option Text

-- `lightning::sign::SpendableOutputDescriptor`, each with what it describes.
pub data SpendableOutputDescriptor : Type 0 where
  static_output delayed_payment_output static_payment_output : Text → SpendableOutputDescriptor

-- How the crates write ids and descriptors.
pub record Encodings : Type 0 where
  -- a number in decimal
  pub decimal : ℕ → Text
  -- `to_be_bytes` of a channel's id
  pub to_be_bytes : ℕ → Bytes
  -- `encode().to_lower_hex_string()`, and `Vec::from_hex` with `SpendableOutputDescriptor::read`
  pub to_hex : SpendableOutputDescriptor → Text
  pub from_hex : Text → Result SpendableOutputDescriptor
  pub from_hex-to_hex : (d : SpendableOutputDescriptor) → from_hex (to_hex d) ≡ ok d

pub record Ldk (V E : Type 0) : Type 0 where
  -- the channel manager
  pub claim_funds : Bytes → E → E
  pub accept_inbound_channel : Text → Text → ℕ → E → E
  pub accept_inbound_channel_from_trusted_peer_0conf : Text → Text → ℕ → E → E
  pub force_close_without_broadcasting_txn : Text → Text → E → E
  pub funding_transaction_generated : Text → Text → Text → Exec E Unit
  pub process_pending_htlc_forwards : E → E
  pub current_best_block_height : E → ℕ
  -- the liquidity provider, if one is configured
  pub has_lsp : Bool
  pub get_expected_skimmed_fee_msat : Bytes → ℕ → E → ℕ
  pub get_lsp_pubkey : E → Text × E
  -- the on-chain wallet; a partially signed transaction is a text
  pub create_signed_psbt_to_spk : Text → ℕ → Option ℕ → Exec E Text
  pub create_sweep_psbt_to_output : List Text → Text → ℕ → ℕ → Exec E Text
  pub label_psbt : Text → List Text → Machine V E → Machine V E
  pub extract_tx : Text → Text
  pub broadcast_transaction : Text → Exec E Unit
  -- fees, keys, and fee bumping
  pub get_normal_fee_rate : E → ℕ
  pub lock_time_from_height : ℕ → Option ℕ
  pub spend_spendable_outputs : List SpendableOutputDescriptor → ℕ → Option ℕ → Exec E Text
  pub bump_transaction : Text → E → E
  -- the n-th random `u32` and `u128`
  pub random_height : ℕ → ℕ
  pub random_channel_id : ℕ → ℕ

-- `get_key` of the node's persister
abbrev pub get_key : Text → Text → Text
get_key node_id key = key ++ (codes "_" ++ node_id)

unfoldable pub channel_open_params_key : ⦃enc : Encodings⦄ → ℕ → Text
channel_open_params_key ⦃enc⦄ id = channel_opening_params_prefix ++ enc.decimal id

-- The loop of `get_failed_spendable_outputs` over the texts that are stored.
unfoldable pub read_descriptors :
    ⦃enc : Encodings⦄ → List Text → Result (List SpendableOutputDescriptor)
read_descriptors [] = ok []
read_descriptors ⦃enc⦄ (desc ∷ strings) =
    and_then (enc.from_hex desc) (λ d. and_then (read_descriptors strings) (λ ds. ok (d ∷ ds)))

module _ {V : Type 0} ⦃c : Crypto⦄ ⦃j : Json V⦄ ⦃env : Env⦄ ⦃enc : Encodings⦄ where
  module _ ⦃params : Serde V ChannelOpenParams⦄ where
    unfoldable pub persist_channel_open_params : Text → ℕ → ChannelOpenParams → Exec (World V) Unit
    persist_channel_open_params node_id id params =
        set_data (get_key node_id (channel_open_params_key id)) params none

    unfoldable pub get_channel_open_params : Text → ℕ → Exec (World V) (Option ChannelOpenParams)
    get_channel_open_params node_id id = get_data (get_key node_id (channel_open_params_key id))

  unfoldable pub delete_channel_open_params : Text → ℕ → Exec (World V) Unit
  delete_channel_open_params node_id id = delete (get_key node_id (channel_open_params_key id) ∷ [])

  module _ ⦃strings : Serde V (List Text)⦄ where
    unfoldable pub persist_failed_spendable_outputs :
        Text → List SpendableOutputDescriptor → Exec (World V) Unit
    persist_failed_spendable_outputs node_id failed = do
      descriptors ← get_data (get_key node_id failed_spendable_output_descriptor_key)
      set_data (get_key node_id failed_spendable_output_descriptor_key)
          (unwrap_or descriptors [] ++ map enc.to_hex failed) none

    unfoldable pub set_failed_spendable_outputs :
        Text → List SpendableOutputDescriptor → Exec (World V) Unit
    set_failed_spendable_outputs node_id descriptors =
        set_data (get_key node_id failed_spendable_output_descriptor_key)
          (map enc.to_hex descriptors) none

    unfoldable pub get_failed_spendable_outputs :
        Text → Exec (World V) (List SpendableOutputDescriptor)
    get_failed_spendable_outputs node_id = do
      strings ← get_data (get_key node_id failed_spendable_output_descriptor_key)
      lift (read_descriptors (unwrap_or strings []))

  unfoldable pub clear_failed_spendable_outputs : Text → Exec (World V) Unit
  clear_failed_spendable_outputs node_id =
      delete (get_key node_id failed_spendable_output_descriptor_key ∷ [])
