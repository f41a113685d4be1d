-- ===== src/Lightning/Actions.antt =====
-- mutiny-core/src/event.rs: what the handler asks of the development kit and of the on-chain wallet.
use mutiny_node.Prelude.{
  ℕ, ◌+◌, ◌-◌, ◌%◌, ◌^◌, Bool, true, false, List, [], ◌∷◌, Option, none, some, ◌==◌, nat_eq,
  if◌then◌else◌, ltb, retain,
}
use mutiny_node.Prelude.Text.{Text, text_eq}
use mutiny_node.Exec.{ok, Exec, ◌>>=◌}
use mutiny_node.Encrypt.{Bytes}
use mutiny_node.Wallet.{Machine}
use mutiny_node.Lightning.{ChannelOpenParams, SpendableOutputDescriptor, Ldk}
use mutiny_node.Lightning.Event.{PaymentPurpose, preimage_of, is_spendable}

-- What an event does to a machine, its failures being logged.
abbrev pub logs : {V E A : Type 0} → Exec (Machine V E) A → Machine V E → Machine V E
logs m s = (m s).1

abbrev pub on_outside : {V E A : Type 0} → Exec E A → Exec (Machine V E) A
on_outside m s = let done = m s.outside in (done.0, record s { outside = done.1 })

abbrev pub change : {V E : Type 0} → (E → E) → Machine V E → Machine V E
change f s = record s { outside = f s.outside }

abbrev pub after_draw : {V E : Type 0} → Machine V E → Machine V E
after_draw s = record s { world = record s.world { draws = s.world.draws + 1 } }

module _ {V E : Type 0} ⦃ldk : Ldk V E⦄ where
  unfoldable pub payment_claimable_handler :
      Bytes → PaymentPurpose → ℕ → ℕ → Machine V E → Machine V E
  payment_claimable_handler payment_hash purpose amount_msat skimmed s =
      let expected =
        if ldk.has_lsp
        then ldk.get_expected_skimmed_fee_msat payment_hash amount_msat s.outside
        else 0 in
      if ltb expected skimmed then s else elim (preimage_of purpose) [
        | none ↦ s
        | some payment_preimage ↦ change (ldk.claim_funds payment_preimage) s
      ]

  abbrev pub accept : Text → Text → ℕ → Bool → Machine V E → Machine V E
  accept temporary_channel_id counterparty_node_id id trusted =
      if trusted
      then change (
          ldk.accept_inbound_channel_from_trusted_peer_0conf temporary_channel_id
            counterparty_node_id id)
      else change (ldk.accept_inbound_channel temporary_channel_id counterparty_node_id id)

  unfoldable pub open_channel_request_handler : Text → Text → Machine V E → Machine V E
  open_channel_request_handler temporary_channel_id counterparty_node_id s =
      let id = ldk.random_channel_id s.world.draws in
      let s1 = after_draw s in
      elim ldk.has_lsp [
        | false ↦ accept temporary_channel_id counterparty_node_id id false s1
        | true ↦
            let (pubkey, o) = ldk.get_lsp_pubkey s1.outside in
            accept temporary_channel_id counterparty_node_id id (pubkey == counterparty_node_id)
              (record s1 { outside = o })
      ]

  -- The height for the lock time, "10% of the time" some way back, and the machine after the draws.
  unfoldable pub spending_height : Machine V E → ℕ × Machine V E
  spending_height s =
      let height = ldk.current_best_block_height s.outside in
      let rand = ldk.random_height s.world.draws in
      let s1 = after_draw s in
      if rand % 10 == 0
      then ((height + (2 ^ 32 - ldk.random_height s1.world.draws % 100)) % 2 ^ 32, after_draw s1)
      else (height, s1)

  unfoldable pub spend_outputs : List SpendableOutputDescriptor → Exec (Machine V E) Unit
  spend_outputs output_descriptors s =
      let tx_feerate = ldk.get_normal_fee_rate s.outside in
      let (height, s1) = spending_height s in
      (do
        spending_tx ← on_outside (
            ldk.spend_spendable_outputs output_descriptors tx_feerate
              (ldk.lock_time_from_height height))
        on_outside (ldk.broadcast_transaction spending_tx))
        s1

  -- "If there are no spendable outputs, we don't need to do anything"
  unfoldable pub spend_present : List SpendableOutputDescriptor → Exec (Machine V E) Unit
  spend_present [] s = (ok tt, s)
  spend_present (d ∷ ds) s = spend_outputs (d ∷ ds) s

  unfoldable pub handle_spendable_outputs : List SpendableOutputDescriptor → Exec (Machine V E) Unit
  handle_spendable_outputs outputs = spend_present (retain is_spendable outputs)

  -- "create_signed_psbt_to_spk" or, for chosen outputs, a sweep, whose fee has to be set.
  unfoldable pub create_psbt :
      Option ChannelOpenParams → Text → ℕ → Option (Exec (Machine V E) Text)
  create_psbt none output_script value =
      some (on_outside (ldk.create_signed_psbt_to_spk output_script value none))
  create_psbt (some params) output_script value = elim params.utxos [
    | none ↦ some (
        on_outside (ldk.create_signed_psbt_to_spk output_script value (some params.sats_per_vbyte)))
    | some utxos ↦ elim params.absolute_fee [
      | none ↦ none
      | some absolute_fee ↦
          some (on_outside (ldk.create_sweep_psbt_to_output utxos output_script value absolute_fee))
    ]
  ]
