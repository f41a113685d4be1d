-- ===== src/Nwc/Approve.antt =====
-- The user's answer to an invoice that waits: `approve_invoice`, `deny_invoice` and
-- `deny_all_pending_nwc` of mutiny-core/src/nostr/mod.rs.
pub mod Denied
pub mod Unreported
use mutiny_node.Prelude.{List, [], ◌∷◌, Option, none, some}
use mutiny_node.Prelude.Text.{Text, codes}
use mutiny_node.Exec.{Result, Exec, pure, lift, ◌>>=◌, ◌>>◌}
use mutiny_node.Encrypt.{Crypto, Bytes}
use mutiny_node.Storage.Values.{Json, Serde}
use mutiny_node.Storage.{World, Env}
use mutiny_node.Labels.{LabelItem, Contact, is_text}
use mutiny_node.Labels.Read.{find_contact, get_contacts}
use mutiny_node.Nwc.Invoice.{Bolt11, EventId}
use mutiny_node.Nwc.Profile.{Method, NostrWalletConnect}
use mutiny_node.Nwc.Manager.{Manager, on_world}
use mutiny_node.Nwc.Node.{InvoiceHandler, pay}
use mutiny_node.Nwc.Pending.{
  PendingNwcInvoice, get_pending_nwc_invoices, find_nwc_data, remove_pending_nwc_invoice,
  drop_denied, drop_all,
}
use mutiny_node.Nwc.Request.{ErrorCode, Response, ResponseEvent, error_response}
use mutiny_node.Nwc.Request.Pay.{pay_nwc_invoice}

-- The nostr client: what comes of sending an event to a relay, or to all.
pub record Relay (V : Type 0) : Type 0 where
  pub send_event_to : Manager V → Text → ResponseEvent → Result EventId
  pub send_event : Manager V → ResponseEvent → Result EventId

abbrev pub rejected : Response
rejected = error_response Method.pay_invoice ErrorCode.other (codes "Rejected")

-- `map(|(id, _)| vec![id]).unwrap_or_default()`
abbrev pub contact_label : Option (Text × Contact) → List Text
contact_label none = []
contact_label (some (id, c)) = id ∷ []

module _ {V : Type 0} ⦃relay : Relay V⦄ where
  unfoldable pub broadcast_nwc_response :
      Response → NostrWalletConnect → PendingNwcInvoice → Exec (Manager V) EventId
  broadcast_nwc_response resp nwc inv s =
      let event : ResponseEvent = record {
        content = resp;
        p_tag = inv.pubkey;
        e_tag = inv.event_id;
        identifier = inv.identifier;
      } in
      (relay.send_event_to s nwc.profile.relay event, s)

  -- The event of `deny_all_pending_nwc`, which goes to every relay and has no identifier.
  unfoldable pub send_rejection :
      Option NostrWalletConnect → PendingNwcInvoice → Exec (Manager V) Unit
  send_rejection none inv = pure tt
  send_rejection (some nwc) inv = do
    let event : ResponseEvent = record {
      content = rejected;
      p_tag = inv.pubkey;
      e_tag = inv.event_id;
      identifier = none;
    }
    (λ s. (relay.send_event s event, s))
    pure tt

module _ {V : Type 0} ⦃c : Crypto⦄ ⦃j : Json V⦄ ⦃env : Env⦄ ⦃b : Bolt11⦄ ⦃relay : Relay V⦄
    ⦃stored : Serde V (List PendingNwcInvoice)⦄ where
  module _ ⦃node : InvoiceHandler⦄ ⦃items : Serde V LabelItem⦄ ⦃contacts : Serde V Contact⦄ where
    unfoldable pub approve_found :
        Option NostrWalletConnect → PendingNwcInvoice → Exec (Manager V) (Option EventId)
    approve_found (some nwc) inv = do
      resp ← pay_nwc_invoice nwc inv.invoice
      id ← broadcast_nwc_response resp nwc inv
      pure (some id)
    approve_found none inv = do
      all ← on_world get_contacts
      pay inv.invoice (contact_label (find_contact (λ c. is_text c.npub inv.pubkey) all))
      pure none

    unfoldable pub approve_invoice : Bytes → Exec (Manager V) (Option EventId)
    approve_invoice hash = do
      (nwc, inv) ← find_nwc_data hash
      event_id ← approve_found nwc inv
      on_world (remove_pending_nwc_invoice hash)
      pure event_id

  unfoldable pub reject_found :
      Option NostrWalletConnect → PendingNwcInvoice → Exec (Manager V) Unit
  reject_found none inv = pure tt
  reject_found (some nwc) inv = do broadcast_nwc_response rejected nwc inv; pure tt

  unfoldable pub deny_invoice : Bytes → Exec (Manager V) Unit
  deny_invoice hash = do
    (nwc, inv) ← find_nwc_data hash
    reject_found nwc inv
    on_world (drop_denied hash)

  -- One round of the loop of `deny_all_pending_nwc`.
  unfoldable pub reject_one : PendingNwcInvoice → Exec (Manager V) Unit
  reject_one invoice = do
    (nwc, inv) ← find_nwc_data (b.payment_hash invoice.invoice)
    send_rejection nwc inv

  unfoldable pub reject_all : List PendingNwcInvoice → Exec (Manager V) Unit
  unfolding reject_one
  reject_all [] = pure tt
  reject_all (invoice ∷ invoices) = do reject_one invoice; reject_all invoices

  unfoldable pub deny_all_pending_nwc : Exec (Manager V) Unit
  deny_all_pending_nwc = do
    invoices ← on_world get_pending_nwc_invoices
    reject_all invoices
    on_world drop_all
