-- ===== src/Error.antt =====
-- The error types of mutiny-core/src/error.rs. Errors of third-party crates that a variant carries
-- (`anyhow::Error`, `serde_json::Error`, `ResponseError`) are kept as the text that they display.
pub mod Equality
use mutiny_node.Prelude.Text.{Text}

pub data MutinyStorageError : Type 0 where
  serde_error : Text → MutinyStorageError
  lock_error : MutinyStorageError
  indexed_db_error : MutinyStorageError
  other : Text → MutinyStorageError

pub data MutinyError : Type 0 where
  already_running : MutinyError
  not_running : MutinyError
  network_mismatch : MutinyError
  not_found : MutinyError
  funding_tx_creation_failed : MutinyError
  connection_failed : MutinyError
  incorrect_network : MutinyError
  non_unique_payment_hash : MutinyError
  payment_timeout : MutinyError
  invoice_invalid : MutinyError
  invoice_expired : MutinyError
  invoice_creation_failed : MutinyError
  reserve_amount_error : MutinyError
  insufficient_balance : MutinyError
  lnurl_failure : MutinyError
  lsp_generic_error : MutinyError
  lsp_funding_error : MutinyError
  lsp_amount_too_high_error : MutinyError
  lsp_connection_error : MutinyError
  lsp_invoice_required : MutinyError
  subscription_client_not_configured : MutinyError
  invalid_arguments_error : MutinyError
  routing_failed : MutinyError
  peer_info_parse_failed : MutinyError
  channel_creation_failed : MutinyError
  channel_creation_failed_with_reason : Text → MutinyError
  channel_closing_failed : MutinyError
  persistence_failed : MutinyStorageError → MutinyError
  read_error : MutinyStorageError → MutinyError
  ln_decode_error : MutinyError
  seed_generation_failed : MutinyError
  invalid_mnemonic : MutinyError
  wallet_operation_failed : MutinyError
  wallet_signing_failed : MutinyError
  chain_access_failed : MutinyError
  wallet_sync_error : MutinyError
  rapid_gossip_sync_error : MutinyError
  dlc_manager_error : MutinyError
  pubkey_invalid : MutinyError
  incorrect_lnurl_function : MutinyError
  bad_amount_error : MutinyError
  bitcoin_price_error : MutinyError
  nostr_error : MutinyError
  nip07_extension : MutinyError
  incorrect_password : MutinyError
  same_password : MutinyError
  payjoin_create_request : MutinyError
  payjoin_response : Text → MutinyError
  payjoin_config_error : MutinyError
  cashu_mint_error : MutinyError
  empty_mint_url_error : MutinyError
  token_already_spent : MutinyError
  federation_required : MutinyError
  federation_connection_failed : MutinyError
  federation_tx_too_large : MutinyError
  other : Text → MutinyError
