-- ===== src/Examples/Outcome.antt =====
-- The theorems on the wait for a payment at concrete inputs.
use mutiny_node.Prelude.{◌≡◌, refl, true, false, [], ◌∷◌, none, some, is_some}
use mutiny_node.Prelude.Text.{codes}
use mutiny_node.Nwc.Node.{MutinyInvoice, HtlcStatus, PrivacyLevel}
use mutiny_node.Federation.{LnPayState, ln_status, process_pay_state_ln}
use mutiny_node.Federation.Outcome.{streamed, update_stream, process_ln_outcome, stream_loop}
use mutiny_node.Federation.Outcome.Ends.{
  IsProved, process_ln_outcome_ends, process_ln_outcome-IsProved,
}

abbrev started : MutinyInvoice
started = record {
  bolt11 = none;
  description = none;
  payment_hash = 9 ∷ [];
  preimage = none;
  payee_pubkey = none;
  amount_sats = some 5;
  expire = 0;
  status = HtlcStatus.in_flight;
  privacy_level = PrivacyLevel.not_available;
  fees_paid = none;
  inbound = false;
  labels = [];
  last_updated = 0;
}

-- The stream ends before a final update.
process_ln_outcome_ends_example :
    is_some (
      process_ln_outcome ln_status process_pay_state_ln true
        (update_stream (streamed (some LnPayState.funded) ∷ (streamed none ∷ (streamed none ∷ []))))
        started)
    ≡ false
process_ln_outcome_ends_example =
    process_ln_outcome_ends true
      (streamed (some LnPayState.funded) ∷ (streamed none ∷ (streamed none ∷ []))) started

process_ln_outcome-IsProved_example :
    IsProved (record started { preimage = some (codes "preimage"); status = HtlcStatus.succeeded })
unfolding process_ln_outcome stream_loop
process_ln_outcome-IsProved_example =
    process_ln_outcome-IsProved true
      (streamed (some LnPayState.funded)
        ∷ (streamed (some (LnPayState.success (codes "preimage"))) ∷ []))
      started
      {end = record started { preimage = some (codes "preimage"); status = HtlcStatus.succeeded }}
      (λ q. cc) refl
