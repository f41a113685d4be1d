-- ===== src/Error/Equality.antt =====
-- `PartialEq` of the error types, written out in error.rs variant by variant.
use mutiny_node.Prelude.{◌≡◌, ◌↔◌, Bool, true, false, [], arith}
use mutiny_node.Prelude.Text.{text_beq, text_beq_iff}
use mutiny_node.Error.{MutinyError, MutinyStorageError}

pub storage_error_beq : MutinyStorageError → MutinyStorageError → Bool
storage_error_beq (MutinyStorageError.serde_error _) (MutinyStorageError.serde_error _) = true
storage_error_beq MutinyStorageError.lock_error MutinyStorageError.lock_error = true
storage_error_beq MutinyStorageError.indexed_db_error MutinyStorageError.indexed_db_error = true
storage_error_beq (MutinyStorageError.other e) (MutinyStorageError.other e2) = text_beq e e2
storage_error_beq _ _ = false

pub error_beq : MutinyError → MutinyError → Bool
unfolding storage_error_beq
error_beq MutinyError.already_running MutinyError.already_running = true
error_beq MutinyError.not_running MutinyError.not_running = true
error_beq MutinyError.network_mismatch MutinyError.network_mismatch = true
error_beq MutinyError.not_found MutinyError.not_found = true
error_beq MutinyError.funding_tx_creation_failed MutinyError.funding_tx_creation_failed = true
error_beq MutinyError.connection_failed MutinyError.connection_failed = true
error_beq MutinyError.incorrect_network MutinyError.incorrect_network = true
error_beq MutinyError.non_unique_payment_hash MutinyError.non_unique_payment_hash = true
error_beq MutinyError.payment_timeout MutinyError.payment_timeout = true
error_beq MutinyError.invoice_invalid MutinyError.invoice_invalid = true
error_beq MutinyError.invoice_expired MutinyError.invoice_expired = true
error_beq MutinyError.invoice_creation_failed MutinyError.invoice_creation_failed = true
error_beq MutinyError.reserve_amount_error MutinyError.reserve_amount_error = true
error_beq MutinyError.insufficient_balance MutinyError.insufficient_balance = true
error_beq MutinyError.lnurl_failure MutinyError.lnurl_failure = true
error_beq MutinyError.lsp_generic_error MutinyError.lsp_generic_error = true
error_beq MutinyError.lsp_funding_error MutinyError.lsp_funding_error = true
error_beq MutinyError.lsp_amount_too_high_error MutinyError.lsp_amount_too_high_error = true
error_beq MutinyError.lsp_connection_error MutinyError.lsp_connection_error = true
error_beq MutinyError.subscription_client_not_configured
      MutinyError.subscription_client_not_configured =
    true
error_beq MutinyError.invalid_arguments_error MutinyError.invalid_arguments_error = true
error_beq MutinyError.routing_failed MutinyError.routing_failed = true
error_beq MutinyError.peer_info_parse_failed MutinyError.peer_info_parse_failed = true
error_beq MutinyError.channel_creation_failed MutinyError.channel_creation_failed = true
error_beq (MutinyError.channel_creation_failed_with_reason x)
      (MutinyError.channel_creation_failed_with_reason y) =
    text_beq x y
error_beq MutinyError.channel_closing_failed MutinyError.channel_closing_failed = true
error_beq (MutinyError.persistence_failed source) (MutinyError.persistence_failed source2) =
    storage_error_beq source source2
error_beq (MutinyError.read_error source) (MutinyError.read_error source2) =
    storage_error_beq source source2
error_beq MutinyError.ln_decode_error MutinyError.ln_decode_error = true
error_beq MutinyError.seed_generation_failed MutinyError.seed_generation_failed = true
error_beq MutinyError.invalid_mnemonic MutinyError.invalid_mnemonic = true
error_beq MutinyError.wallet_operation_failed MutinyError.wallet_operation_failed = true
error_beq MutinyError.wallet_signing_failed MutinyError.wallet_signing_failed = true
error_beq MutinyError.chain_access_failed MutinyError.chain_access_failed = true
error_beq MutinyError.wallet_sync_error MutinyError.wallet_sync_error = true
error_beq MutinyError.rapid_gossip_sync_error MutinyError.rapid_gossip_sync_error = true
error_beq MutinyError.dlc_manager_error MutinyError.dlc_manager_error = true
error_beq MutinyError.pubkey_invalid MutinyError.pubkey_invalid = true
error_beq MutinyError.incorrect_lnurl_function MutinyError.incorrect_lnurl_function = true
error_beq MutinyError.bad_amount_error MutinyError.bad_amount_error = true
error_beq MutinyError.bitcoin_price_error MutinyError.bitcoin_price_error = true
error_beq MutinyError.nostr_error MutinyError.nostr_error = true
error_beq MutinyError.incorrect_password MutinyError.incorrect_password = true
error_beq MutinyError.same_password MutinyError.same_password = true
error_beq MutinyError.cashu_mint_error MutinyError.cashu_mint_error = true
error_beq MutinyError.empty_mint_url_error MutinyError.empty_mint_url_error = true
error_beq MutinyError.token_already_spent MutinyError.token_already_spent = true
error_beq MutinyError.federation_required MutinyError.federation_required = true
error_beq MutinyError.federation_connection_failed MutinyError.federation_connection_failed = true
error_beq MutinyError.federation_tx_too_large MutinyError.federation_tx_too_large = true
error_beq (MutinyError.other x) (MutinyError.other y) = text_beq x y
error_beq _ _ = false

-- What a comparison sees of an error: the cause of a serde error is not compared.
abbrev erase_storage : MutinyStorageError → MutinyStorageError
erase_storage (MutinyStorageError.serde_error _) = MutinyStorageError.serde_error []
erase_storage e = e

abbrev pub erase : MutinyError → MutinyError
erase (MutinyError.persistence_failed source) =
    MutinyError.persistence_failed (erase_storage source)
erase (MutinyError.read_error source) = MutinyError.read_error (erase_storage source)
erase e = e

-- The five variants that have no arm in the `match`.
abbrev pub has_arm : MutinyError → Bool
has_arm MutinyError.lsp_invoice_required = false
has_arm MutinyError.nip07_extension = false
has_arm MutinyError.payjoin_create_request = false
has_arm MutinyError.payjoin_config_error = false
has_arm (MutinyError.payjoin_response _) = false
has_arm _ = true

storage_error_beq_iff :
    (a b : MutinyStorageError)
    → (storage_error_beq a b ≡ true) ↔ (erase_storage a ≡ erase_storage b)
unfolding storage_error_beq
storage_error_beq_iff (MutinyStorageError.other e) (MutinyStorageError.other e2) =
    ground (arith, text_beq_iff e e2)
storage_error_beq_iff _ _ = ground arith

-- Two errors compare equal exactly when they are the same error up to the cause of a serde error,
-- and the variant is one of those that `eq` has an arm for.
error_beq_iff :
    (a b : MutinyError) → (error_beq a b ≡ true) ↔ ((erase a ≡ erase b) × (has_arm a ≡ true))
unfolding error_beq
error_beq_iff (MutinyError.persistence_failed s) (MutinyError.persistence_failed t) =
    ground (arith, storage_error_beq_iff s t)
error_beq_iff (MutinyError.read_error s) (MutinyError.read_error t) =
    ground (arith, storage_error_beq_iff s t)
error_beq_iff (MutinyError.channel_creation_failed_with_reason s)
      (MutinyError.channel_creation_failed_with_reason t) =
    ground (arith, text_beq_iff s t)
error_beq_iff (MutinyError.other s) (MutinyError.other t) = ground (arith, text_beq_iff s t)
error_beq_iff _ _ = ground arith
