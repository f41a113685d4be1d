-- ===== src/Federation/Outcome.antt =====
-- mutiny-core/src/federation.rs: `process_ln_outcome`, which waits for updates of a payment. Each round
-- of its loop waits for the stream of updates and for a sleep that starts anew; what comes first is an
-- event.
pub mod Ends
use mutiny_node.Prelude.{Bool, true, false, List, [], ◌∷◌, Option, none, some}
use mutiny_node.Nwc.Node.{HtlcStatus, MutinyInvoice, pending, in_flight, succeeded, failed}

pub data Event (U : Type 0) : Type 0 where
  -- `s.next()`, `none` after the end of the stream
  streamed : Option U → Event U
  -- the sleep is over, with the `stop` flag as it is then
  elapsed : Bool → Event U

-- `UpdateStreamOrOutcome`
pub data StreamOrOutcome (U : Type 0) : Type 0 where
  outcome : U → StreamOrOutcome U
  update_stream : List (Event U) → StreamOrOutcome U

-- `matches!(invoice.status, HTLCStatus::Succeeded | HTLCStatus::Failed)`
abbrev pub is_final : HtlcStatus → Bool
is_final pending = false
is_final in_flight = false
is_final succeeded = true
is_final failed = true

module _ {U : Type 0} (into : U → HtlcStatus) (process : U → MutinyInvoice → MutinyInvoice)
    (has_timeout : Bool) where
  -- The loop over the events so far; `none` while it goes on.
  unfoldable pub stream_loop : List (Event U) → MutinyInvoice → Option MutinyInvoice
  stream_loop [] invoice = none
  stream_loop (streamed none ∷ events) invoice = stream_loop events invoice
  stream_loop (streamed (some update) ∷ events) invoice =
      elim (is_final (process update invoice).status) [
        | true ↦ some (process update invoice)
        | false ↦ stream_loop events (process update invoice)
      ]
  stream_loop (elapsed stop ∷ events) invoice = elim has_timeout [
    | true ↦ some invoice
    | false ↦ elim stop [ true ↦ some invoice | false ↦ stream_loop events invoice ]
  ]

  unfoldable pub process_ln_outcome : StreamOrOutcome U → MutinyInvoice → Option MutinyInvoice
  process_ln_outcome (outcome o) invoice = some (record invoice { status = into o })
  process_ln_outcome (update_stream events) invoice = stream_loop events invoice
