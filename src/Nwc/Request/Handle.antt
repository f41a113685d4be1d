-- ===== src/Nwc/Request/Handle.antt =====
-- `NostrWalletConnect::handle_nwc_request`, `handle_pay_invoice_request` and
-- `NostrManager::handle_nwc_request`: from an event to the response.
pub mod Gate
use mutiny_node.Prelude.{
  ℕ, Bool, true, false, not, ◌&&◌, List, [], ◌∷◌, Option, none, some, ◌++◌, ◌==◌, nat_eq,
  if◌then◌else◌, find, contains,
}
use mutiny_node.Prelude.Text.{Text, codes, text_beq}
use mutiny_node.Error.{MutinyError, other}
use mutiny_node.Exec.{Result, ok, err, Exec, pure, raise, lift, gets, ◌>>=◌, ◌>>◌, ok_or}
use mutiny_node.Encrypt.{Crypto, Bytes}
use mutiny_node.Storage.Values.{Json, Serde}
use mutiny_node.Storage.{Env}
use mutiny_node.Storage.Times.{set_nwc_sync_time}
use mutiny_node.Nwc.Invoice.{Bolt11, Bolt11Invoice, PublicKey}
use mutiny_node.Nwc.Budget.{Calendar}
use mutiny_node.Nwc.Profile.{
  Method, SpendingConditions, Profile, NostrWalletConnect, active, available_commands,
}
use mutiny_node.Nwc.Manager.{Manager, on_world}
use mutiny_node.Nwc.Node.{InvoiceHandler}
use mutiny_node.Nwc.Pending.{PendingNwcInvoice}
use mutiny_node.Nwc.Request.{
  ErrorCode, RequestParams, Request, PayInvoiceRequestParams, Response, ResponseEvent, Event,
  Display, Session, error_response, on_manager, reply,
}
use mutiny_node.Nwc.Request.Pay.{Checked, invalid, skip, valid, check_valid_nwc_invoice}
use mutiny_node.Nwc.Request.Pay.Budgeted.{queue_for_approval, save_self, handle_budget}
use mutiny_node.Nwc.Request.Pay.SingleUse.{flush, handle_single_use}
use mutiny_node.Nwc.Request.Reads.{
  InvoiceText, handle_get_balance_request, handle_get_info_request, handle_make_invoice_request,
  handle_lookup_invoice_request,
}

-- The derived equality of methods.
abbrev pub method_number : Method → ℕ
method_number Method.pay_invoice = 0
method_number Method.multi_pay_invoice = 1
method_number Method.pay_keysend = 2
method_number Method.multi_pay_keysend = 3
method_number Method.make_invoice = 4
method_number Method.lookup_invoice = 5
method_number Method.list_transactions = 6
method_number Method.get_balance = 7
method_number Method.get_info = 8

abbrev pub allows : List Method → Method → Bool
allows [] m = false
allows (x ∷ xs) m = if method_number x == method_number m then true else allows xs m

module _ {V : Type 0} ⦃c : Crypto⦄ ⦃j : Json V⦄ ⦃env : Env⦄ ⦃b : Bolt11⦄ ⦃cal : Calendar⦄
    ⦃node : InvoiceHandler⦄ ⦃d : Display⦄ ⦃t : InvoiceText⦄ ⦃profiles : Serde V (List Profile)⦄
    ⦃stored : Serde V (List PendingNwcInvoice)⦄ where
  -- The `match` on the spending conditions.
  unfoldable pub spend :
      Event
      → Option Text
      → Bolt11Invoice
      → SpendingConditions
      → Exec (Session V) (Option ResponseEvent)
  spend event id invoice (SpendingConditions.single_use su) = handle_single_use event id invoice su
  spend event id invoice SpendingConditions.require_approval = do
    queue_for_approval event invoice id
    s ← gets (λ s. s)
    if s.needs_save then save_self else pure tt
    pure none
  spend event id invoice (SpendingConditions.budget budget) = handle_budget event id invoice budget

  unfoldable pub pay_checked :
      Event → Option Text → Checked → Exec (Session V) (Option ResponseEvent)
  pay_checked event id (invalid message) =
      pure (some (reply event none (error_response Method.pay_invoice ErrorCode.other message)))
  pay_checked event id skip = pure none
  pay_checked event id (valid invoice) = do
    conditions ← gets (λ s. s.self.profile.spending_conditions)
    spend event id invoice conditions

  unfoldable pub handle_pay_invoice_request :
      Event → PayInvoiceRequestParams → Exec (Session V) (Option ResponseEvent)
  handle_pay_invoice_request event params s =
      pay_checked event params.id (check_valid_nwc_invoice params s.manager) s

  unfoldable pub dispatch : Event → RequestParams → Exec (Session V) (Option ResponseEvent)
  dispatch event (RequestParams.pay_invoice params) = handle_pay_invoice_request event params
  dispatch event (RequestParams.make_invoice amount) = handle_make_invoice_request event amount
  dispatch event (RequestParams.lookup_invoice hash bolt11) =
      handle_lookup_invoice_request event hash bolt11
  dispatch event RequestParams.get_balance = handle_get_balance_request event
  dispatch event RequestParams.get_info = handle_get_info_request event
  dispatch event RequestParams.other = raise (other (codes "Invalid request params"))

  -- The guards on the request; the early returns skip the flags.
  unfoldable pub answer : Event → Option Request → Exec (Session V) (Option ResponseEvent)
  answer event none s =
      pure
        (some (
          reply event none (
            error_response Method.pay_invoice ErrorCode.not_implemented
              (codes "Failed to parse request."))))
        s
  answer event (some req) s =
      if not (active s.self.profile)
      then pure
          (some (
            reply event none
              (error_response req.method ErrorCode.other (codes "Nostr profile inactive"))))
          s
      else if not (allows (available_commands s.self.profile) req.method)
      then pure
          (some (
            reply event none (
              error_response req.method ErrorCode.not_implemented
                (codes "Command is not supported."))))
          s
      else ((do result ← dispatch event req.params; flush; pure result) s)

  -- `handle_nwc_request` of the profile: other events, and those of other senders, are left.
  unfoldable pub handle_event : Event → Exec (Session V) (Option ResponseEvent)
  handle_event event s =
      if event.is_request && text_beq event.pubkey s.self.client_key.public_key
      then ((do request ← lift event.request; answer event request) s)
      else (ok none, s)

  abbrev pub start : NostrWalletConnect → Manager V → Session V
  start nwc m = record { self = nwc; needs_delete = false; needs_save = false; manager = m }

  abbrev pub with_session :
      NostrWalletConnect
      → Exec (Session V) (Option ResponseEvent)
      → Exec (Manager V) (Option ResponseEvent)
  with_session nwc run m = let (r, s) = run (start nwc m) in (r, s.manager)

  abbrev pub handle_found :
      Event → Option NostrWalletConnect → Exec (Manager V) (Option ResponseEvent)
  handle_found event none = pure none
  handle_found event (some nwc) = with_session nwc (handle_event event)

  -- `NostrManager::handle_nwc_request`: the profile is found by the p tag.
  unfoldable pub handle_nwc_request :
      ⦃times : Serde V ℕ⦄ → Event → Exec (Manager V) (Option ResponseEvent)
  handle_nwc_request event m =
      (do
        p_tag ← lift (ok_or event.p_tag (other (codes "No P tag found")))
        on_world (set_nwc_sync_time event.created_at)
        handle_found event (find (λ n. text_beq n.server_key.public_key p_tag) m.nwc))
        m
