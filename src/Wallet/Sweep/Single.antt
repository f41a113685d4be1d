-- ===== src/Wallet/Sweep/Single.antt =====
-- Who pays for a sweep, and what it reports.
use mutiny_node.Prelude.{ℕ, ◌/◌, ◌≡◌, refl, List, [], ◌∷◌, ◌++◌, Option, some, inl, inr, arith}
use mutiny_node.Prelude.Text.{Text, text_eq}
use mutiny_node.Prelude.Map.{Map, get}
use mutiny_node.Error.{bad_amount_error, not_found}
use mutiny_node.Exec.{ok, ok_or, ok_or-eq-ok, Result-cases}
use mutiny_node.Encrypt.{Crypto}
use mutiny_node.Storage.Values.{Json, Serde}
use mutiny_node.Storage.{Env}
use mutiny_node.Labels.{LabelItem, Contact}
use mutiny_node.Labels.Store.{invoice, set_target_labels}
use mutiny_node.Nwc.Invoice.{Bolt11, Bolt11Invoice}
use mutiny_node.Nwc.Node.{MutinyInvoice}
use mutiny_node.Nwc.Request.Reads.{InvoiceText}
use mutiny_node.Activity.{PaymentInfo}
use mutiny_node.Activity.Invoices.{InvoiceMore}
use mutiny_node.Activity.Persist.{Hex}
use mutiny_node.Activity.Read.{Parsers, Ledger}
use mutiny_node.Wallet.{
  Wallet, Attempt, FederationId, FederationClient, federation, Clients, on_world,
  list_federation_ids,
}
use mutiny_node.Wallet.Pay.{ask}
use mutiny_node.Wallet.Sweep.{
  FedimintSweepResult, chosen, swap_label, incoming_fee, sweep_from,
  sweep_federation_balance_to_invoice,
}

module _ {V E : Type 0} ⦃clients : Clients V E⦄ ⦃c : Crypto⦄ ⦃j : Json V⦄ ⦃env : Env⦄ ⦃hex : Hex⦄
    ⦃parsers : Parsers⦄ ⦃ledger : Ledger V⦄ ⦃b : Bolt11⦄ ⦃text : InvoiceText⦄ ⦃more : InvoiceMore⦄
    ⦃payments : Serde V PaymentInfo⦄ ⦃maps : Serde V (Map Text (List Text))⦄
    ⦃items : Serde V LabelItem⦄ ⦃contacts : Serde V Contact⦄ where
  -- A sweep that succeeds is of an invoice with an amount, which it reports in sats, and asked once for
  -- a payment: the federation that was chosen, or the first of the list, which has a client and
  -- answered with success.
  pub sweep_federation_once :
      (from : Option FederationId) (inv : Bolt11Invoice) (s : Wallet V E) {r : FedimintSweepResult}
      {s' : Wallet V E}
      → sweep_federation_balance_to_invoice from inv s ≡ (ok r, s')
      → (msat : ℕ) × (b.amount_milli_satoshis inv ≡ some msat)
        × (r.amount ≡ msat / 1000)
        × (a : Attempt V E) × (s'.asked ≡ s.asked ++ (a ∷ []))
        × (id : FederationId) × (a.payer ≡ federation id)
        × (chosen from (list_federation_ids s) ≡ ok id)
        × (client : FederationClient) × (get s.federations id ≡ some client)
        × (paid : MutinyInvoice) × (a.answer ≡ ok paid)
        × (a.invoice ≡ inv)
  unfolding sweep_federation_balance_to_invoice sweep_from ask incoming_fee
  sweep_federation_once from inv s {r} {s'} h =
      elim (Result-cases (ok_or (b.amount_milli_satoshis inv) bad_amount_error)) [
        | inr (_, q) ↦ absurd (ground arith)
        | inl (msat, q) ↦ elim (Result-cases (chosen from (list_federation_ids s))) [
          | inr (_, k) ↦ absurd (ground arith)
          | inl (id, k) ↦ elim (Result-cases (ok_or (get s.federations id) not_found)) [
            | inr (_, g) ↦ absurd (ground arith)
            | inl (client, g) ↦
                let t = on_world (set_target_labels invoice inv (swap_label ∷ [])) s in
                elim (Result-cases t.0) [
                  | inr (_, l) ↦ absurd (ground arith)
                  | inl (_, l) ↦
                      let call = clients.pay_invoice id inv (swap_label ∷ []) t.1.machine in
                      elim (Result-cases call.0) [
                        | inr (_, p) ↦ absurd (ground arith)
                        | inl (paid, p) ↦
                            let a : Attempt V E = record {
                              payer = federation id;
                              invoice = inv;
                              labels = swap_label ∷ [];
                              before = t.1.machine;
                              answer = call.0;
                            } in
                            (
                              msat,
                              ok_or-eq-ok (b.amount_milli_satoshis inv) bad_amount_error q,
                              ground arith,
                              a,
                              ground arith,
                              id,
                              refl,
                              k,
                              client,
                              ok_or-eq-ok (get s.federations id) not_found g,
                              paid,
                              p,
                              refl,
                            )
                      ]
                ]
          ]
        ]
      ]
