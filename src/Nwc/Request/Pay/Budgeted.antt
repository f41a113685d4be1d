-- ===== src/Nwc/Request/Pay/Budgeted.antt =====
-- The arm `SpendingConditions::Budget` of `handle_pay_invoice_request`.
use mutiny_node.Prelude.{
  ℕ, ◌+◌, ◌/◌, ◌%◌, Bool, true, false, not, List, [], ◌∷◌, ◌++◌, Option, none, some, ltb,
  if◌then◌else◌, retain, unwrap_or,
}
use mutiny_node.Prelude.Text.{Text, codes}
use mutiny_node.Error.{
  MutinyError, other, payment_timeout, non_unique_payment_hash, insufficient_balance,
}
use mutiny_node.Exec.{Result, ok, err, Exec, pure, lift, gets, ◌>>=◌, ◌>>◌, ok_or, and_then}
use mutiny_node.Encrypt.{Crypto}
use mutiny_node.Storage.Values.{Json, Serde}
use mutiny_node.Storage.{Env, now_secs}
use mutiny_node.Nwc.Invoice.{Bolt11, Bolt11Invoice}
use mutiny_node.Nwc.Budget.{
  Calendar, TrackedPayment, BudgetedSpendingConditions, u64_mod, add_payment, remove_payment,
  sum_payments,
}
use mutiny_node.Nwc.Profile.{Method, SpendingConditions, Profile}
use mutiny_node.Nwc.Manager.{Manager, on_world}
use mutiny_node.Nwc.Manager.Ops.{save_nwc_profile}
use mutiny_node.Nwc.Node.{InvoiceHandler, HtlcStatus, failed, lookup_status}
use mutiny_node.Nwc.Pending.{PendingNwcInvoice, save_pending_nwc_invoice}
use mutiny_node.Nwc.Request.{
  ErrorCode, Response, ResponseEvent, Event, Display, Session, error_response, on_manager,
  set_conditions, reply,
}
use mutiny_node.Nwc.Request.Pay.{pay_nwc_invoice}

abbrev pub is_failed : Option HtlcStatus → Bool
is_failed none = false
is_failed (some failed) = true
is_failed (some _) = false

module _ ⦃b : Bolt11⦄ where
  -- The whole sats of an invoice.
  abbrev pub invoice_sats : Bolt11Invoice → ℕ
  invoice_sats invoice = unwrap_or (b.amount_milli_satoshis invoice) 0 / 1_000

  -- `single_max.is_some_and(|max| sats > max)`
  abbrev pub over_single_max : Option ℕ → ℕ → Bool
  over_single_max none sats = false
  over_single_max (some limit) sats = ltb limit sats

  -- `budget.sum_payments() + sats > budget.budget`, with the `u64` addition
  abbrev pub over_budget : ℕ → ℕ → ℕ → Bool
  over_budget spent sats budget = ltb budget ((spent + sats) % u64_mod)

  -- Every tracked hash parses, or the request ends with an error.
  unfoldable pub parse_hashes : List TrackedPayment → Result (Unit {0})
  parse_hashes [] = ok tt
  parse_hashes (p ∷ ps) =
      and_then (ok_or (b.from_hex p.hash) (other (codes "invalid hash"))) λ _. parse_hashes ps

  -- Is the payment known to have failed?
  abbrev pub has_failed : {V : Type 0} ⦃node : InvoiceHandler⦄ → Manager V → TrackedPayment → Bool
  has_failed s p = elim (b.from_hex p.hash) [
    | none ↦ false
    | some hash ↦ is_failed (lookup_status hash s)
  ]

-- The error of the budget check, and the conditions that it leaves in the local variable.
abbrev pub Verdict : Type 0
Verdict = Option Text × BudgetedSpendingConditions

module _ {V : Type 0} ⦃b : Bolt11⦄ ⦃cal : Calendar⦄ ⦃node : InvoiceHandler⦄ where
  -- The second look, at the payments that have not failed.
  unfoldable pub recheck_budget : ℕ → BudgetedSpendingConditions → Exec (Session V) Verdict
  unfolding parse_hashes
  recheck_budget sats budget = do
    lift (parse_hashes budget.payments)
    s ← gets (λ s. s.manager)
    let pruned = record budget { payments = retain (λ p. not (has_failed s p)) budget.payments }
    set_conditions (SpendingConditions.budget pruned)
    let (spent, cleaned) = sum_payments (now_secs s.world) pruned
    pure (
      if over_budget spent sats cleaned.budget then some (codes "Budget exceeded.") else none,
      cleaned,
    )

  unfoldable pub check_budget : ℕ → BudgetedSpendingConditions → Exec (Session V) Verdict
  check_budget sats budget s =
      if over_single_max budget.single_max sats
      then (ok (some (codes "Invoice amount too high."), budget), s)
      else (let (spent, cleaned) = sum_payments (now_secs s.manager.world) budget in
          if over_budget spent sats cleaned.budget
          then recheck_budget sats cleaned s
          else (ok (none, cleaned), s))

abbrev pub payment_failure : ⦃d : Display⦄ → ErrorCode → MutinyError → Response
payment_failure ⦃d⦄ code e =
    error_response Method.pay_invoice code (codes "Failed to pay invoice: " ++ d.display_error e)

module _ {V : Type 0} ⦃c : Crypto⦄ ⦃j : Json V⦄ ⦃env : Env⦄ ⦃b : Bolt11⦄ ⦃cal : Calendar⦄
    ⦃node : InvoiceHandler⦄ ⦃d : Display⦄ ⦃profiles : Serde V (List Profile)⦄
    ⦃stored : Serde V (List PendingNwcInvoice)⦄ where
  -- `self.save_pending_nwc_invoice`
  unfoldable pub queue_for_approval : Event → Bolt11Invoice → Option Text → Exec (Session V) Unit
  queue_for_approval event invoice id s =
      on_manager
        (on_world
          (save_pending_nwc_invoice (some s.self.profile.index) event.id event.pubkey invoice id))
        s

  -- `nostr_manager.save_nwc_profile(self.clone())`
  unfoldable pub save_self : Exec (Session V) Unit
  save_self s = on_manager (save_nwc_profile s.self) s

  -- The payment is taken back from the budget, and the profile stored.
  unfoldable pub take_back : Bolt11Invoice → BudgetedSpendingConditions → Exec (Session V) Unit
  unfolding save_self
  take_back invoice budget = do
    set_conditions (SpendingConditions.budget (remove_payment invoice budget))
    save_self

  -- The arms of the `match` on the error of the payment; none where no response is sent.
  unfoldable pub budget_payment_failed :
      Event
      → Option Text
      → Bolt11Invoice
      → BudgetedSpendingConditions
      → MutinyError
      → Exec (Session V) (Option Response)
  budget_payment_failed event id invoice budget payment_timeout = pure none
  budget_payment_failed event id invoice budget non_unique_payment_hash = do
    take_back invoice budget
    pure none
  budget_payment_failed event id invoice budget insufficient_balance = do
    take_back invoice budget
    queue_for_approval event invoice id
    pure (some (payment_failure ErrorCode.insufficient_balance insufficient_balance))
  budget_payment_failed event id invoice budget e = do
    take_back invoice budget
    queue_for_approval event invoice id
    pure (some (payment_failure ErrorCode.payment_failed e))

  -- What follows a payment.
  unfoldable pub budget_outcome :
      Event
      → Option Text
      → Bolt11Invoice
      → BudgetedSpendingConditions
      → Result Response
      → Exec (Session V) (Option Response)
  budget_outcome event id invoice budget (ok resp) = pure (some resp)
  budget_outcome event id invoice budget (err e) = budget_payment_failed event id invoice budget e

  -- The call itself, whose error is a value here.
  abbrev pub attempt_payment : Bolt11Invoice → Exec (Session V) (Result Response)
  attempt_payment invoice s =
      let (r, n) = pay_nwc_invoice s.self invoice s.manager in (ok r, record s { manager = n })

  -- The payment is added to the budget and stored before it is attempted.
  unfoldable pub pay_within_budget :
      Event
      → Option Text
      → Bolt11Invoice
      → BudgetedSpendingConditions
      → Exec (Session V) (Option Response)
  pay_within_budget event id invoice budget = do
    now ← gets (λ s. now_secs s.manager.world)
    let charged = add_payment now invoice budget
    set_conditions (SpendingConditions.budget charged)
    save_self
    r ← attempt_payment invoice
    budget_outcome event id invoice charged r

  unfoldable pub refuse_over_budget :
      Event → Option Text → Bolt11Invoice → Text → Exec (Session V) (Option Response)
  refuse_over_budget event id invoice message = do
    queue_for_approval event invoice id
    pure (some (error_response Method.pay_invoice ErrorCode.quota_exceeded message))

  abbrev pub budget_content :
      Event → Option Text → Bolt11Invoice → Verdict → Exec (Session V) (Option Response)
  budget_content event id invoice (some message, _) = refuse_over_budget event id invoice message
  budget_content event id invoice (none, budget) = pay_within_budget event id invoice budget

  unfoldable pub handle_budget :
      Event
      → Option Text
      → Bolt11Invoice
      → BudgetedSpendingConditions
      → Exec (Session V) (Option ResponseEvent)
  handle_budget event id invoice budget = do
    verdict ← check_budget (invoice_sats invoice) budget
    content ← budget_content event id invoice verdict
    pure (elim content [ none ↦ none | some response ↦ some (reply event id response) ])
