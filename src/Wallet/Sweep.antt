-- ===== src/Wallet/Sweep.antt =====
-- mutiny-core/src/lib.rs: `sweep_federation_balance_to_invoice`.
pub mod Single
use mutiny_node.Prelude.{ℕ, ◌+◌, ◌/◌, ◌%◌, ◌^◌, List, [], ◌∷◌, Option, none, some, unwrap_or}
use mutiny_node.Prelude.Text.{Text, codes, text_eq}
use mutiny_node.Prelude.Map.{Map, get}
use mutiny_node.Error.{MutinyError, bad_amount_error, not_found}
use mutiny_node.Exec.{Result, ok, err, Exec, pure, raise, lift, ◌>>=◌, ◌>>◌, ok_or}
use mutiny_node.Encrypt.{Crypto}
use mutiny_node.Storage.Values.{Json, Serde}
use mutiny_node.Storage.{Env}
use mutiny_node.Labels.{LabelItem, Contact}
use mutiny_node.Labels.Store.{invoice, set_target_labels}
use mutiny_node.Nwc.Invoice.{Bolt11, Bolt11Invoice}
use mutiny_node.Nwc.Node.{MutinyInvoice}
use mutiny_node.Nwc.Request.Reads.{InvoiceText}
use mutiny_node.Activity.{PaymentInfo}
use mutiny_node.Activity.Invoices.{InvoiceMore}
use mutiny_node.Activity.Persist.{Hex}
use mutiny_node.Activity.Read.{Parsers, Ledger, get_invoice_by_hash}
use mutiny_node.Wallet.{
  Wallet, FederationId, FederationClient, federation, Clients, on_machine, on_world,
  list_federation_ids,
}
use mutiny_node.Wallet.Pay.{ask}

pub record FedimintSweepResult : Type 0 where
  pub amount : ℕ
  pub fees : Option ℕ

abbrev pub swap_label : Text
swap_label = codes "SWAP"

-- `from_federation_id.unwrap_or(federation_ids[0])`, once there is a federation.
abbrev pub chosen : Option FederationId → List FederationId → Result FederationId
chosen from [] = err not_found
chosen from (id ∷ ids) = ok (unwrap_or from id)

-- The fees of what is found, and 0 where there is nothing or it fails.
abbrev pub fees_of : Result MutinyInvoice → ℕ
fees_of (ok i) = unwrap_or i.fees_paid 0
fees_of (err e) = 0

module _ {V E : Type 0} ⦃clients : Clients V E⦄ ⦃c : Crypto⦄ ⦃j : Json V⦄ ⦃env : Env⦄ ⦃hex : Hex⦄
    ⦃parsers : Parsers⦄ ⦃ledger : Ledger V⦄ ⦃b : Bolt11⦄ ⦃text : InvoiceText⦄ ⦃more : InvoiceMore⦄
    ⦃payments : Serde V PaymentInfo⦄ ⦃maps : Serde V (Map Text (List Text))⦄
    ⦃items : Serde V LabelItem⦄ ⦃contacts : Serde V Contact⦄ where
  -- `get_invoice(..).await.ok()`: a failure leaves the rest to go on.
  unfoldable pub incoming_fee : Bolt11Invoice → Exec (Wallet V E) ℕ
  incoming_fee inv s =
      let done = on_world (get_invoice_by_hash (b.payment_hash inv)) s in
      (ok (fees_of done.0), done.1)

  -- From the client on.
  unfoldable pub sweep_from :
      FederationId → Bolt11Invoice → ℕ → Exec (Wallet V E) FedimintSweepResult
  sweep_from id inv msat = do
    on_world (set_target_labels invoice inv (swap_label ∷ []))
    pay_result ←
        ask (federation id) inv (swap_label ∷ []) (clients.pay_invoice id inv (swap_label ∷ []))
    incoming ← incoming_fee inv
    pure (record {
      amount = msat / 1000;
      fees = some ((unwrap_or pay_result.fees_paid 0 + incoming) % 2 ^ 64);
    })

  unfoldable pub sweep_federation_balance_to_invoice :
      Option FederationId → Bolt11Invoice → Exec (Wallet V E) FedimintSweepResult
  sweep_federation_balance_to_invoice from inv s =
      (do
        msat ← lift (ok_or (b.amount_milli_satoshis inv) bad_amount_error)
        id ← lift (chosen from (list_federation_ids s))
        client ← lift (ok_or (get s.federations id) not_found)
        sweep_from id inv msat)
        s
