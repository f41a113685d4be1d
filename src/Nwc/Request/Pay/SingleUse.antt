-- ===== src/Nwc/Request/Pay/SingleUse.antt =====
-- The arm `SpendingConditions::SingleUse` of `handle_pay_invoice_request`.
use mutiny_node.Prelude.{
  ℕ, ◌*◌, ◌%◌, true, List, Option, none, some, ◌++◌, leb, if◌then◌else◌, unwrap_or,
}
use mutiny_node.Prelude.Text.{Text, codes}
use mutiny_node.Error.{other, payment_timeout}
use mutiny_node.Exec.{Result, ok, err, Exec, pure, ◌>>=◌, ◌>>◌}
use mutiny_node.Encrypt.{Crypto}
use mutiny_node.Storage.Values.{Json, Serde}
use mutiny_node.Storage.{Env}
use mutiny_node.Nwc.Invoice.{Bolt11, Bolt11Invoice}
use mutiny_node.Nwc.Budget.{Calendar, u64_mod}
use mutiny_node.Nwc.Profile.{Method, SingleUseSpendingConditions, SpendingConditions, Profile}
use mutiny_node.Nwc.Manager.Ops.{delete_nwc_profile}
use mutiny_node.Nwc.Node.{InvoiceHandler, HtlcStatus, succeeded, failed, lookup_status}
use mutiny_node.Nwc.Pending.{PendingNwcInvoice}
use mutiny_node.Nwc.Request.{
  ErrorCode, Response, ResponseEvent, Event, Display, Session, error_response, on_manager,
  set_conditions, reply,
}
use mutiny_node.Nwc.Request.Pay.Budgeted.{
  queue_for_approval, save_self, payment_failure, attempt_payment,
}

abbrev pub amount_too_high : ⦃d : Display⦄ → ℕ → Text
amount_too_high ⦃d⦄ msats =
    codes "Invoice amount too high: " ++ (d.display_number msats ++ codes " msats")

abbrev pub mark_delete : {V : Type 0} → Exec (Session V) (Unit {0})
mark_delete s = (ok tt, record s { needs_delete = true })

abbrev pub mark_save : {V : Type 0} → Exec (Session V) (Unit {0})
mark_save s = (ok tt, record s { needs_save = true })

module _ {V : Type 0} ⦃b : Bolt11⦄ ⦃node : InvoiceHandler⦄ where
  -- The status of the payment that was tried before, if there was one. A hash that does not parse is
  -- a panic.
  unfoldable pub previous_status :
      SingleUseSpendingConditions → Exec (Session V) (Option HtlcStatus)
  previous_status su s = elim su.payment_hash [
    | none ↦ (ok none, s)
    | some payment_hash ↦ elim (b.from_hex payment_hash) [
      | none ↦ (err (other (codes "invalid hash")), s)
      | some hash ↦ (ok (lookup_status hash s.manager), s)
    ]
  ]

module _ {V : Type 0} ⦃c : Crypto⦄ ⦃j : Json V⦄ ⦃env : Env⦄ ⦃b : Bolt11⦄ ⦃cal : Calendar⦄
    ⦃node : InvoiceHandler⦄ ⦃d : Display⦄ ⦃profiles : Serde V (List Profile)⦄
    ⦃stored : Serde V (List PendingNwcInvoice)⦄ where
  -- What follows the payment. A payment that timed out may still settle, so its hash is kept.
  unfoldable pub single_use_outcome :
      Event
      → Option Text
      → Bolt11Invoice
      → SingleUseSpendingConditions
      → Result Response
      → Exec (Session V) Response
  single_use_outcome event id invoice su (ok resp) = do mark_delete; pure resp
  single_use_outcome event id invoice su (err payment_timeout) = do
    set_conditions (
        SpendingConditions.single_use
          (record su { payment_hash = some (b.to_hex (b.payment_hash invoice)) }))
    mark_save
    pure (payment_failure ErrorCode.internal payment_timeout)
  single_use_outcome event id invoice su (err e) = do
    queue_for_approval event invoice id
    pure (payment_failure ErrorCode.insufficient_balance e)

  unfoldable pub pay_single_use :
      Event → Option Text → Bolt11Invoice → SingleUseSpendingConditions → Exec (Session V) Response
  pay_single_use event id invoice su =
      let msats = unwrap_or (b.amount_milli_satoshis invoice) 0 in
      if leb msats (su.amount_sats * 1_000 % u64_mod)
      then (do r ← attempt_payment invoice; single_use_outcome event id invoice su r)
      else pure (error_response Method.pay_invoice ErrorCode.quota_exceeded (amount_too_high msats))

  -- The `match` on the status of the previous payment.
  unfoldable pub single_use_content :
      Event
      → Option Text
      → Bolt11Invoice
      → SingleUseSpendingConditions
      → Option HtlcStatus
      → Exec (Session V) Response
  single_use_content event id invoice su none = pay_single_use event id invoice su
  single_use_content event id invoice su (some failed) = pay_single_use event id invoice su
  single_use_content event id invoice su (some succeeded) = do
    mark_delete
    pure (error_response Method.pay_invoice ErrorCode.quota_exceeded (codes "Already Claimed"))
  single_use_content event id invoice su (some _) = pure (
      error_response Method.pay_invoice ErrorCode.rate_limited
        (codes "Previous payment still in flight, cannot pay"))

  -- The profile is deleted, or else stored, as the flags say.
  unfoldable pub flush : Exec (Session V) Unit
  flush s =
      if s.needs_delete
      then on_manager (delete_nwc_profile s.self.profile.index) s
      else if s.needs_save
      then save_self s
      else (ok tt, s)

  unfoldable pub handle_single_use :
      Event
      → Option Text
      → Bolt11Invoice
      → SingleUseSpendingConditions
      → Exec (Session V) (Option ResponseEvent)
  handle_single_use event id invoice su = do
    prev_status ← previous_status su
    content ← single_use_content event id invoice su prev_status
    flush
    pure (some (reply event id content))
