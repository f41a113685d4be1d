-- ===== src/Nwc/Approve/Unreported.antt =====
-- A payment that was made, but whose response could not be sent.
use mutiny_node.Prelude.{
  ◌≡◌, List, [], ◌∷◌, ◌++◌, Option, some, inl, inr, arith, length, find, Option-cases, ap, ◌∙◌,
}
use mathlib.Core.List.{append_assoc}
use mutiny_node.Prelude.Text.{Text}
use mutiny_node.Error.{MutinyError}
use mutiny_node.Exec.{ok, err, Result-cases}
use mutiny_node.Encrypt.{Crypto, Bytes}
use mutiny_node.Storage.Values.{Json, Serde}
use mutiny_node.Storage.{Env}
use mutiny_node.Labels.{LabelItem, Contact}
use mutiny_node.Nwc.Invoice.{Bolt11}
use mutiny_node.Nwc.Profile.{Method, NostrWalletConnect}
use mutiny_node.Nwc.Manager.{Manager, PayCall, profiles_of}
use mutiny_node.Nwc.Node.{InvoiceHandler, pay}
use mutiny_node.Nwc.Pending.{
  PendingNwcInvoice, has_hash, profile_for, find_nwc_data, remove_pending_nwc_invoice,
  get_pending_nwc_invoices,
}
use mutiny_node.Nwc.Request.{Response, ResponseResult, result_response}
use mutiny_node.Nwc.Request.Pay.{pay_nwc_invoice, payment_label}
use mutiny_node.Nwc.Approve.Denied.{get_pending-state}
use mutiny_node.Nwc.Approve.{Relay, broadcast_nwc_response, approve_found, approve_invoice}

-- What the response says of a payment.
abbrev pub paid_response : Text → Response
paid_response preimage = result_response Method.pay_invoice (ResponseResult.pay_invoice preimage)

module _ {V : Type 0} ⦃c : Crypto⦄ ⦃j : Json V⦄ ⦃env : Env⦄ ⦃b : Bolt11⦄ ⦃relay : Relay V⦄
    ⦃stored : Serde V (List PendingNwcInvoice)⦄ ⦃node : InvoiceHandler⦄ ⦃items : Serde V LabelItem⦄
    ⦃contacts : Serde V Contact⦄ where
  -- The call that an approval makes for a profile.
  abbrev pub call_for : NostrWalletConnect → PendingNwcInvoice → Manager V → PayCall V
  call_for nwc inv s = record {
    invoice = inv.invoice;
    labels = payment_label nwc.profile ∷ [];
    profiles = profiles_of s.nwc;
    before = s.world;
  }

  abbrev pub called : NostrWalletConnect → PendingNwcInvoice → Manager V → Manager V
  called nwc inv s = record s { pay_calls = s.pay_calls ++ (call_for nwc inv s ∷ []) }

  -- The look-up reads the storage and the profiles only.
  find_nwc_data-called :
      (hash : Bytes) (nwc : NostrWalletConnect) (inv : PendingNwcInvoice) (s : Manager V)
      {r : Option NostrWalletConnect × PendingNwcInvoice}
      → find_nwc_data hash s ≡ (ok r, s)
      → find_nwc_data hash (called nwc inv s) ≡ (ok r, called nwc inv s)
  unfolding find_nwc_data
  find_nwc_data-called hash nwc inv s {r} f =
      let state = get_pending-state s.world in
      elim (Result-cases (get_pending_nwc_invoices s.world).0) [
        | inr (_, q) ↦ absurd (ground arith)
        | inl (l, q) ↦ elim (Option-cases (find (has_hash hash) l)) [
          | inl g ↦ absurd (ground arith)
          | inr (p, g) ↦ elim (Result-cases (profile_for p.index s.nwc)) [
            | inl (_, x) ↦ ground arith
            | inr (_, x) ↦ absurd (ground arith)
          ]
        ]
      ]

  -- An approval of an invoice of a profile asks the node exactly once to pay it, whatever comes of the
  -- payment and of the response.
  approve_invoice-pay_calls :
      (hash : Bytes) (nwc : NostrWalletConnect) (inv : PendingNwcInvoice) (s : Manager V)
      → find_nwc_data hash s ≡ (ok (some nwc, inv), s)
      → (approve_invoice hash s).1.pay_calls ≡ s.pay_calls ++ (call_for nwc inv s ∷ [])
  unfolding approve_invoice approve_found pay_nwc_invoice pay broadcast_nwc_response
  approve_invoice-pay_calls hash nwc inv s f =
      elim (Result-cases
        (node.pay_invoice (length s.pay_calls) inv.invoice (payment_label nwc.profile ∷ []))) [
          | inr (_, p) ↦ ground arith
          | inl (preimage, p) ↦
              elim (Result-cases
                (broadcast_nwc_response (paid_response preimage) nwc inv (called nwc inv s)).0) [
                  | inr (_, q) ↦ ground arith
                  | inl (_, q) ↦ elim (Result-cases (remove_pending_nwc_invoice hash s.world).0) [
                    | inr (_, x) ↦ ground arith
                    | inl (_, x) ↦ ground arith
                  ]
                ]
        ]

  -- If the payment of a pending invoice succeeds, but its response cannot be sent, then the approval
  -- fails with the payment made and the invoice still pending, since the storage is as before; and
  -- another approval asks the node to pay the same invoice again.
  pub approve_invoice_unreported :
      (hash : Bytes) (nwc : NostrWalletConnect) (inv : PendingNwcInvoice) (s : Manager V)
      {preimage : Text} {e : MutinyError}
      → find_nwc_data hash s ≡ (ok (some nwc, inv), s)
      → node.pay_invoice (length s.pay_calls) inv.invoice (payment_label nwc.profile ∷ [])
        ≡ ok preimage
      → broadcast_nwc_response (paid_response preimage) nwc inv (called nwc inv s)
        ≡ (err e, called nwc inv s)
      → (approve_invoice hash s ≡ (err e, called nwc inv s))
        × ((approve_invoice hash (approve_invoice hash s).1).1.pay_calls
            ≡ s.pay_calls ++ (call_for nwc inv s ∷ (call_for nwc inv s ∷ [])))
  unfolding approve_invoice approve_found pay_nwc_invoice pay broadcast_nwc_response
  approve_invoice_unreported hash nwc inv s {preimage} {e} f p q =
      let first : approve_invoice hash s ≡ (err e, called nwc inv s) = ground (arith, f, p, q) in
      let again =
        approve_invoice-pay_calls hash nwc inv (called nwc inv s)
          (find_nwc_data-called hash nwc inv s {r = (some nwc, inv)} f) in
      (
        first,
        ap (λ r. (approve_invoice hash r.1).1.pay_calls) first
            ∙ again
            ∙ append_assoc s.pay_calls (call_for nwc inv s ∷ []) (call_for nwc inv s ∷ []),
      )
