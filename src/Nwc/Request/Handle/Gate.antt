-- ===== src/Nwc/Request/Handle/Gate.antt =====
-- Which requests are served.
use mutiny_node.Prelude.{
  ◌≡◌, ◌≢◌, refl, ap, ◌⊎◌, inl, inr, true, ◌&&◌, List, Option, none, some, arith, Bool-cases,
}
use mutiny_node.Prelude.Text.{Text, text_beq, text_beq_iff}
use mutiny_node.Exec.{ok, Result-cases}
use mutiny_node.Encrypt.{Crypto}
use mutiny_node.Storage.Values.{Json, Serde}
use mutiny_node.Storage.{Env}
use mutiny_node.Nwc.Invoice.{Bolt11, Bolt11Invoice}
use mutiny_node.Nwc.Budget.{Calendar}
use mutiny_node.Nwc.Profile.{SpendingConditions, Profile, active, available_commands}
use mutiny_node.Nwc.Node.{InvoiceHandler}
use mutiny_node.Nwc.Pending.{PendingNwcInvoice}
use mutiny_node.Nwc.Request.{
  Request, RequestParams, PayInvoiceRequestParams, Event, Display, Session, calls,
}
use mutiny_node.Nwc.Request.Pay.{Checked, invalid, skip, valid, check_valid_nwc_invoice}
use mutiny_node.Nwc.Request.Pay.Budgeted.{queue_for_approval}
use mutiny_node.Nwc.Request.Pay.Spending.{queue_for_approval-calls, save_self-calls}
use mutiny_node.Nwc.Request.Pay.OneTime.{flush-calls}
use mutiny_node.Nwc.Request.Reads.{
  InvoiceText, handle_get_balance_request, handle_get_info_request, handle_make_invoice_request,
  handle_lookup_invoice_request,
}
use mutiny_node.Nwc.Request.Handle.{
  allows, spend, pay_checked, handle_pay_invoice_request, dispatch, answer, handle_event,
}

module _ {V : Type 0} ⦃c : Crypto⦄ ⦃j : Json V⦄ ⦃env : Env⦄ ⦃b : Bolt11⦄ ⦃cal : Calendar⦄
    ⦃node : InvoiceHandler⦄ ⦃d : Display⦄ ⦃t : InvoiceText⦄ ⦃profiles : Serde V (List Profile)⦄
    ⦃stored : Serde V (List PendingNwcInvoice)⦄ where
  -- What an event must be for its request to be looked at.
  pub record IsServed (event : Event) (s : Session V) (req : Request) : Type 0 where
    pub kind : event.is_request ≡ true
    pub sender : event.pubkey ≡ s.self.client_key.public_key
    pub parsed : event.request ≡ ok (some req)
    pub is_active : active s.self.profile ≡ true
    pub allowed : allows (available_commands s.self.profile) req.method ≡ true

  -- An event is served only if it is a request, is signed by the client of the connection, decrypts
  -- and parses, and asks an active profile for a command that it allows. Any other event changes
  -- nothing: no payment is asked for, nothing is stored.
  pub handle_event-IsServed :
      (event : Event) (s : Session V)
      → ((handle_event event s).1 ≡ s) ⊎ ((req : Request) × IsServed event s req)
  unfolding handle_event answer
  handle_event-IsServed event s =
      elim (Bool-cases (event.is_request && text_beq event.pubkey s.self.client_key.public_key)) [
        | inr e ↦ inl (rw e refl)
        | inl e ↦ elim (Result-cases event.request) [
          | inr (_, p) ↦ inl (rw (e, p) refl)
          | inl (none, p) ↦ inl (rw (e, p) refl)
          | inl (some req, p) ↦ elim (Bool-cases (active s.self.profile)) [
            | inr q ↦ inl (rw (e, p, q) refl)
            | inl q ↦ elim (Bool-cases (allows (available_commands s.self.profile) req.method)) [
              | inr r ↦ inl (rw (e, p, q, r) refl)
              | inl r ↦ inr (
                req,
                record {
                  kind = ground arith;
                  sender = ground (arith, text_beq_iff event.pubkey s.self.client_key.public_key);
                  parsed = p;
                  is_active = q;
                  allowed = r;
                },
              )
            ]
          ]
        ]
      ]

  read-calls :
      (event : Event) (params : RequestParams) (s : Session V)
      → ((p : PayInvoiceRequestParams) → params ≢ RequestParams.pay_invoice p)
      → (dispatch event params s).1 ≡ s
  unfolding dispatch handle_get_balance_request handle_get_info_request handle_make_invoice_request
      handle_lookup_invoice_request
  read-calls event (RequestParams.pay_invoice p) s h = absurd (h p refl)
  read-calls event _ s h = ground arith

  approval-calls :
      (event : Event) (id : Option Text) (invoice : Bolt11Invoice) (s : Session V)
      → calls (spend event id invoice SpendingConditions.require_approval s).1 ≡ calls s
  unfolding spend
  approval-calls event id invoice s =
      let s1 = (queue_for_approval event invoice id s).1 in
      ground (arith, queue_for_approval-calls event invoice id s, save_self-calls s1)

  spend-calls :
      (event : Event) (id : Option Text) (invoice : Bolt11Invoice) (sc : SpendingConditions)
      (s : Session V)
      → sc ≡ SpendingConditions.require_approval
      → calls (spend event id invoice sc s).1 ≡ calls s
  spend-calls event id invoice sc s h = rw h (approval-calls event id invoice s)

  pay_checked-calls :
      (event : Event) (id : Option Text) (chk : Checked) (s : Session V)
      → s.self.profile.spending_conditions ≡ SpendingConditions.require_approval
      → calls (pay_checked event id chk s).1 ≡ calls s
  unfolding pay_checked
  pay_checked-calls event id (invalid message) s h = refl
  pay_checked-calls event id skip s h = refl
  pay_checked-calls event id (valid invoice) s h = spend-calls event id invoice _ s h

  dispatch-calls :
      (event : Event) (params : RequestParams) (s : Session V)
      → s.self.profile.spending_conditions ≡ SpendingConditions.require_approval
      → calls (dispatch event params s).1 ≡ calls s
  unfolding dispatch handle_pay_invoice_request
  dispatch-calls event (RequestParams.pay_invoice p) s h =
      pay_checked-calls event p.id (check_valid_nwc_invoice p s.manager) s h
  dispatch-calls event (RequestParams.make_invoice amount) s h =
      ap calls (read-calls event (RequestParams.make_invoice amount) s (λ p e. cc))
  dispatch-calls event params s h = ap calls (read-calls event params s (λ p e. cc))

  -- A profile that requires approval never asks the node for a payment.
  pub handle_event-require_approval :
      (event : Event) (s : Session V)
      → s.self.profile.spending_conditions ≡ SpendingConditions.require_approval
      → calls (handle_event event s).1 ≡ calls s
  unfolding handle_event answer
  handle_event-require_approval event s h = elim (handle_event-IsServed event s) [
    | inl e ↦ ap calls e
    | inr (req, served) ↦
        let s1 = (dispatch event req.params s).1 in
        ground (
          arith,
          served.kind,
          text_beq_iff event.pubkey s.self.client_key.public_key,
          served.sender,
          served.parsed,
          served.is_active,
          served.allowed,
          dispatch-calls event req.params s h,
          flush-calls s1,
        )
  ]
