-- ===== src/Federation.antt =====
-- mutiny-core/src/federation.rs: the states of a fedimint payment, as far as they are read, and what
-- they say of an invoice.
pub mod Outcome
use mutiny_node.Prelude.{Bool, true, false, Option, none, some}
use mutiny_node.Prelude.Text.{Text}
use mutiny_node.Nwc.Node.{HtlcStatus, MutinyInvoice, pending, in_flight, succeeded, failed}

-- The preimages are the texts that `to_lower_hex_string` and `to_string` give.
pub data LnReceiveState : Type 0 where
  created claimed waiting_for_payment canceled funded awaiting_funds : LnReceiveState

pub data InternalPayState : Type 0 where
  funding refund_success refund_error funding_failed unexpected_error : InternalPayState
  preimage : Text → InternalPayState

pub data LnPayState : Type 0 where
  created canceled funded waiting_for_refund awaiting_change refunded unexpected_error : LnPayState
  success : Text → LnPayState

-- The conversions into `HTLCStatus`.
abbrev pub receive_status : LnReceiveState → HtlcStatus
receive_status LnReceiveState.created = pending
receive_status LnReceiveState.claimed = succeeded
receive_status LnReceiveState.waiting_for_payment = pending
receive_status LnReceiveState.canceled = failed
receive_status LnReceiveState.funded = in_flight
receive_status LnReceiveState.awaiting_funds = in_flight

abbrev pub internal_status : InternalPayState → HtlcStatus
internal_status InternalPayState.funding = in_flight
internal_status (InternalPayState.preimage p) = succeeded
internal_status InternalPayState.refund_success = failed
internal_status InternalPayState.refund_error = failed
internal_status InternalPayState.funding_failed = failed
internal_status InternalPayState.unexpected_error = failed

abbrev pub ln_status : LnPayState → HtlcStatus
ln_status LnPayState.created = pending
ln_status LnPayState.canceled = failed
ln_status LnPayState.funded = in_flight
ln_status LnPayState.waiting_for_refund = in_flight
ln_status LnPayState.awaiting_change = in_flight
ln_status (LnPayState.success p) = succeeded
ln_status LnPayState.refunded = failed
ln_status LnPayState.unexpected_error = failed

abbrev pub internal_preimage : InternalPayState → Option Text
internal_preimage (InternalPayState.preimage p) = some p
internal_preimage _ = none

abbrev pub ln_preimage : LnPayState → Option Text
ln_preimage (LnPayState.success p) = some p
ln_preimage _ = none

abbrev pub process_pay_state_internal : InternalPayState → MutinyInvoice → MutinyInvoice
process_pay_state_internal state inv = record inv {
  preimage = internal_preimage state;
  status = internal_status state;
}

abbrev pub process_pay_state_ln : LnPayState → MutinyInvoice → MutinyInvoice
process_pay_state_ln state inv = record inv {
  preimage = ln_preimage state;
  status = ln_status state;
}

abbrev pub process_receive_state : LnReceiveState → MutinyInvoice → MutinyInvoice
process_receive_state state inv = record inv { status = receive_status state }
