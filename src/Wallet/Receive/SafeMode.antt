-- ===== src/Wallet/Receive/SafeMode.antt =====
-- What a payment request holds when the wallet runs in safe mode.
use mutiny_node.Prelude.{ℕ, ◌≡◌, refl, true, List, Option, none, some, inl, inr, arith}
use mutiny_node.Prelude.Text.{Text}
use mutiny_node.Prelude.Map.{Map}
use mutiny_node.Exec.{ok, Result-cases}
use mutiny_node.Encrypt.{Crypto}
use mutiny_node.Storage.Values.{Json, Serde}
use mutiny_node.Storage.{Env}
use mutiny_node.Labels.{LabelItem, Contact}
use mutiny_node.Nwc.Invoice.{Bolt11}
use mutiny_node.Nwc.Request.Reads.{InvoiceText}
use mutiny_node.Activity.Invoices.{InvoiceMore}
use mutiny_node.Wallet.{Wallet, Clients, NodeManager}
use mutiny_node.Wallet.Receive.{
  MutinyBip21RawMaterials, AmountText, btc_of, create_address, bip21_invoice, create_bip21,
}

module _ {V E : Type 0} ⦃clients : Clients V E⦄ ⦃node : NodeManager V E⦄ ⦃c : Crypto⦄ ⦃j : Json V⦄
    ⦃env : Env⦄ ⦃maps : Serde V (Map Text (List Text))⦄ ⦃items : Serde V LabelItem⦄
    ⦃contacts : Serde V Contact⦄ ⦃b : Bolt11⦄ ⦃text : InvoiceText⦄ ⦃more : InvoiceMore⦄
    ⦃a : AmountText⦄ where
  bip21_invoice_safe :
      (amount : Option ℕ) (labels : List Text) (s : Wallet V E)
      → s.safe_mode ≡ true
      → bip21_invoice amount labels s ≡ (ok none, s)
  unfolding bip21_invoice
  bip21_invoice_safe none labels s h = refl
  bip21_invoice_safe (some amount) labels s h = rw (h, bip21_invoice) refl

  -- In safe mode a payment request that is made holds no lightning invoice, and to make it is to make
  -- its address and nothing else.
  pub create_bip21_safe :
      (amount : Option ℕ) (labels : List Text) (s : Wallet V E) {m : MutinyBip21RawMaterials}
      {s' : Wallet V E}
      → s.safe_mode ≡ true
      → create_bip21 amount labels s ≡ (ok m, s')
      → (m.invoice ≡ none)
        × (create_address labels s ≡ (ok m.address, s'))
        × (m.btc_amount ≡ btc_of amount)
        × (m.labels ≡ labels)
  unfolding create_bip21
  create_bip21_safe amount labels s {m} {s'} safe h =
      let q = bip21_invoice_safe amount labels s safe in
      elim (Result-cases (create_address labels s).0) [
        | inr (_, r) ↦ absurd (ground arith)
        | inl (addr, r) ↦ ground arith
      ]
