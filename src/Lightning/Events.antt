-- ===== src/Lightning/Events.antt =====
-- mutiny-core/src/event.rs: `EventHandler::handle_event`. A failure is only logged there, so each event
-- gives a machine; `none` stands for the panic of an `expect`.
use mutiny_node.Prelude.{ℕ, Bool, true, false, List, Option, none, some, nat_eq}
use mutiny_node.Prelude.Text.{Text, text_eq}
use mutiny_node.Exec.{Result, ok, err}
use mutiny_node.Encrypt.{Crypto, Bytes}
use mutiny_node.Storage.Values.{Json, Serde}
use mutiny_node.Storage.{Env, now_secs}
use mutiny_node.Wallet.{Machine, on_storage}
use mutiny_node.Activity.{PaymentInfo, ChannelClosure}
use mutiny_node.Activity.Persist.{
  Hex, persist_payment_info, read_payment_info, persist_channel_closure,
}
use mutiny_node.Labels.Keys.{remove_all}
use mutiny_node.Lightning.{
  ChannelOpenParams, SpendableOutputDescriptor, Encodings, Ldk, persist_channel_open_params,
  get_channel_open_params, delete_channel_open_params, persist_failed_spendable_outputs,
}
use mutiny_node.Lightning.Event.{
  PaymentPurpose, Event, force_closed_prefix, claimed_info, sent_info, failed_info, new_closure,
  funding_labels, funding_generation_ready, payment_claimable, payment_claimed, payment_sent,
  open_channel_request, payment_failed, pending_htlcs_forwardable, spendable_outputs,
  channel_closed, channel_pending, bump_transaction, logged,
}
use mutiny_node.Lightning.Actions.{
  logs, on_outside, change, payment_claimable_handler, open_channel_request_handler,
  handle_spendable_outputs, create_psbt,
}

module _ {V E : Type 0} ⦃ldk : Ldk V E⦄ where
  module _ ⦃c : Crypto⦄ ⦃j : Json V⦄ ⦃env : Env⦄ ⦃hex : Hex⦄ ⦃enc : Encodings⦄
      ⦃strings : Serde V (List Text)⦄ where
    unfoldable pub spendable_outputs_handler :
        Text → List SpendableOutputDescriptor → Machine V E → Machine V E
    spendable_outputs_handler node_id outputs s =
        let done = handle_spendable_outputs outputs s in
        elim done.0 [
          | ok _ ↦ done.1
          | err _ ↦ logs (on_storage (persist_failed_spendable_outputs node_id outputs)) done.1
        ]

    module _ ⦃payments : Serde V PaymentInfo⦄ where
      abbrev pub save : Bytes → PaymentInfo → Bool → Machine V E → Machine V E
      save payment_hash info inbound =
          logs (on_storage (persist_payment_info payment_hash info inbound))

      unfoldable pub payment_claimed_handler :
          Option Text → Bytes → PaymentPurpose → ℕ → Machine V E → Machine V E
      payment_claimed_handler receiver payment_hash purpose amount_msat s =
          save payment_hash
            (claimed_info receiver purpose amount_msat (now_secs s.world)
              (read_payment_info payment_hash true s.world))
            true s

      -- A record of a payment that was sent is changed only if it is there.
      abbrev pub settle : (ℕ → PaymentInfo → PaymentInfo) → Bytes → Machine V E → Machine V E
      settle f payment_hash s = elim (read_payment_info payment_hash false s.world) [
        | none ↦ s
        | some saved ↦ save payment_hash (f (now_secs s.world) saved) false s
      ]

    module _ ⦃params : Serde V ChannelOpenParams⦄ where
      abbrev pub opened : Text → ℕ → Text → Option ChannelOpenParams → Machine V E → Machine V E
      opened node_id user_channel_id tx none s = s
      opened node_id user_channel_id tx (some params) s =
          logs
            (on_storage (
              persist_channel_open_params node_id user_channel_id
                (record params { opening_tx = some tx })))
            s

      -- What follows once the transaction was created, or not.
      unfoldable pub fund :
          Text
          → Text
          → Text
          → ℕ
          → Option ChannelOpenParams
          → Result Text
          → Machine V E
          → Machine V E
      fund node_id temporary_channel_id counterparty_node_id user_channel_id params_opt (err e) s =
          change
            (ldk.force_close_without_broadcasting_txn temporary_channel_id counterparty_node_id) s
      fund node_id temporary_channel_id counterparty_node_id user_channel_id params_opt (ok psbt)
            s =
          let s1 = ldk.label_psbt psbt (funding_labels counterparty_node_id params_opt) s in
          let tx = ldk.extract_tx psbt in
          let done =
            on_outside
              (ldk.funding_transaction_generated temporary_channel_id counterparty_node_id tx) s1 in
          elim done.0 [
            | err _ ↦ done.1
            | ok _ ↦ opened node_id user_channel_id tx params_opt done.1
          ]

      unfoldable pub funding_generation_ready_handler :
          Text → Text → Text → ℕ → Text → ℕ → Machine V E → Option (Machine V E)
      funding_generation_ready_handler node_id temporary_channel_id counterparty_node_id value
            output_script user_channel_id s =
          elim (get_channel_open_params node_id user_channel_id s.world).0 [
            | err _ ↦ some s
            | ok params_opt ↦ elim (create_psbt params_opt output_script value) [
              | none ↦ none
              | some create ↦
                  let done = create s in
                  some (
                    fund node_id temporary_channel_id counterparty_node_id user_channel_id
                      params_opt done.0 done.1)
            ]
          ]

      module _ ⦃closures : Serde V ChannelClosure⦄ where
        abbrev pub closed : Text → Bytes → Text → ℕ → Option Text → Machine V E → Machine V E
        closed node_id channel_id reason user_channel_id counterparty s =
            logs
              (on_storage (
                persist_channel_closure node_id user_channel_id
                  (new_closure user_channel_id channel_id counterparty reason (now_secs s.world))))
              s

        unfoldable pub channel_closed_handler :
            Text → Bytes → Text → ℕ → Option Text → Machine V E → Machine V E
        channel_closed_handler node_id channel_id reason user_channel_id counterparty s =
            elim (get_channel_open_params node_id user_channel_id s.world).0 [
              | err _ ↦ closed node_id channel_id reason user_channel_id counterparty s
              | ok none ↦ closed node_id channel_id reason user_channel_id counterparty s
              | ok (some params) ↦
                  logs
                    (on_storage (
                      persist_channel_open_params node_id user_channel_id (record params {
                        failure_reason = some (remove_all force_closed_prefix reason);
                      })))
                    s
            ]

        unfoldable pub handle_event :
            ⦃payments : Serde V PaymentInfo⦄ → Text → Event → Machine V E → Option (Machine V E)
        handle_event node_id (funding_generation_ready temporary peer value script id) s =
            funding_generation_ready_handler node_id temporary peer value script id s
        handle_event node_id (payment_claimable payment_hash purpose amount_msat skimmed) s =
            some (payment_claimable_handler payment_hash purpose amount_msat skimmed s)
        handle_event node_id (payment_claimed receiver payment_hash purpose amount_msat) s =
            some (payment_claimed_handler receiver payment_hash purpose amount_msat s)
        handle_event node_id (payment_sent payment_preimage payment_hash fee_paid_msat) s =
            some (settle (sent_info payment_preimage fee_paid_msat) payment_hash s)
        handle_event node_id (open_channel_request temporary peer) s =
            some (open_channel_request_handler temporary peer s)
        handle_event node_id (payment_failed payment_hash) s =
            some (settle failed_info payment_hash s)
        handle_event node_id pending_htlcs_forwardable s =
            some (change ldk.process_pending_htlc_forwards s)
        handle_event node_id (spendable_outputs outputs) s =
            some (spendable_outputs_handler node_id outputs s)
        handle_event node_id (channel_closed channel_id reason id counterparty) s =
            some (channel_closed_handler node_id channel_id reason id counterparty s)
        handle_event node_id (channel_pending id) s =
            some (logs (on_storage (delete_channel_open_params node_id id)) s)
        handle_event node_id (bump_transaction event) s =
            some (change (ldk.bump_transaction event) s)
        handle_event node_id logged s = some s
