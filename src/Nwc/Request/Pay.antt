-- ===== src/Nwc/Request/Pay.antt =====
-- `check_valid_nwc_invoice` and `handle_pay_invoice_request` of mutiny-core/src/nostr/nwc.rs, with a
-- function for each of the three spending conditions.
pub mod Budgeted
pub mod Spending
pub mod SingleUse
pub mod OneTime
use mutiny_node.Prelude.{
  ℕ, ◌+◌, ◌*◌, ◌/◌, ◌%◌, ◌^◌, Bool, true, false, not, ◌&&◌, ◌||◌, List, [], ◌∷◌, ◌++◌, Option, none,
  some, leb, ltb, if◌then◌else◌, retain, unwrap_or, is_some, length,
}
use mutiny_node.Prelude.Text.{Text, codes}
use mutiny_node.Error.{MutinyError, other}
use mutiny_node.Error
use mutiny_node.Exec.{Result, ok, err, Exec, pure, raise, lift, gets, ◌>>=◌, ◌>>◌, ok_or}
use mutiny_node.Encrypt.{Crypto, Bytes}
use mutiny_node.Storage.Values.{Json, Serde}
use mutiny_node.Storage.{World, Env, now_secs}
use mutiny_node.Nwc.Invoice.{Bolt11, Bolt11Invoice, PublicKey, EventId}
use mutiny_node.Nwc.Budget.{
  Calendar, TrackedPayment, BudgetedSpendingConditions, u64_mod, add_payment, remove_payment,
  sum_payments,
}
use mutiny_node.Nwc.Profile.{
  Method, SingleUseSpendingConditions, SpendingConditions, Profile, NostrWalletConnect,
}
use mutiny_node.Nwc.Manager.{Manager, on_world}
use mutiny_node.Nwc.Manager.Ops.{save_nwc_profile, delete_nwc_profile}
use mutiny_node.Nwc.Node.{
  InvoiceHandler, HtlcStatus, pending, in_flight, succeeded, failed, is_hodl_invoice, lookup_status,
  pay,
}
use mutiny_node.Nwc.Pending.{PendingNwcInvoice, save_pending_nwc_invoice}
use mutiny_node.Nwc.Request.{
  ErrorCode, ResponseResult, Response, ResponseEvent, PayInvoiceRequestParams, Event, Display,
  Session, error_response, result_response, on_manager, set_conditions, reply,
}

-- A checked invoice: the reason that it is refused for, or whether there is something to do.
pub data Checked : Type 0 where
  invalid : Text → Checked
  skip : Checked
  valid : Bolt11Invoice → Checked

abbrev pub settled_or_in_flight : Option HtlcStatus → Bool
settled_or_in_flight none = false
settled_or_in_flight (some succeeded) = true
settled_or_in_flight (some in_flight) = true
settled_or_in_flight (some _) = false

-- The label of the profile, or its name.
abbrev pub payment_label : Profile → Text
payment_label p = unwrap_or p.label p.name

module _ {V : Type 0} ⦃b : Bolt11⦄ ⦃node : InvoiceHandler⦄ where
  unfoldable pub check_valid_nwc_invoice : PayInvoiceRequestParams → Manager V → Checked
  check_valid_nwc_invoice params s =
      if not (b.parses params.invoice)
      then invalid (codes "Invalid invoice")
      else if b.would_expire params.invoice (now_secs s.world)
      then invalid (codes "Invoice expired")
      else if not (is_some (b.amount_milli_satoshis params.invoice))
      then (if is_some params.amount
          then invalid (codes "Paying 0 amount invoices is not supported yet")
          else invalid (codes "Invoice amount not set"))
      else if node.skip_hodl_invoices && is_hodl_invoice params.invoice
      then invalid (codes "Paying hodl invoices disabled")
      else if settled_or_in_flight (lookup_status (b.payment_hash params.invoice) s)
      then skip
      else valid params.invoice

  -- `pay_nwc_invoice`
  unfoldable pub pay_nwc_invoice :
      NostrWalletConnect → Bolt11Invoice → Manager V → Result Response × Manager V
  pay_nwc_invoice nwc invoice s =
      let (r, s') = pay invoice (payment_label nwc.profile ∷ []) s in
      (
        elim r [
          | ok preimage ↦
              ok (result_response Method.pay_invoice (ResponseResult.pay_invoice preimage))
          | err e ↦ err e
        ],
        s',
      )
