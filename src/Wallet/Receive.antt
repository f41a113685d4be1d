-- ===== src/Wallet/Receive.antt =====
-- mutiny-core/src/lib.rs: `create_lightning_invoice`, `create_address`, `create_bip21` and
-- `decode_invoice`. Only the first federation is asked, then the nodes.
pub mod SafeMode
use mutiny_node.Prelude.{
  ℕ, Bool, ◌||◌, List, [], ◌∷◌, Option, none, some, ◌==◌, if◌then◌else◌, unwrap_or,
}
use mutiny_node.Prelude.Text.{Text, text_eq}
use mutiny_node.Prelude.Map.{Map, get}
use mutiny_node.Error.{
  MutinyError, wallet_operation_failed, invoice_creation_failed, incorrect_network,
}
use mutiny_node.Exec.{Result, ok, err, Exec, pure, raise, lift, ◌>>=◌, ◌>>◌, ok_or}
use mutiny_node.Encrypt.{Crypto}
use mutiny_node.Storage.Values.{Json, Serde}
use mutiny_node.Storage.{Env}
use mutiny_node.Labels.{LabelItem, Contact}
use mutiny_node.Labels.Store.{address, invoice, set_target_labels}
use mutiny_node.Nwc.Invoice.{Bolt11, Bolt11Invoice}
use mutiny_node.Nwc.Node.{MutinyInvoice}
use mutiny_node.Nwc.Request.Reads.{InvoiceText}
use mutiny_node.Activity.Invoices.{InvoiceMore, from_bolt11}
use mutiny_node.Wallet.{
  Wallet, Machine, FederationId, FederationClient, Clients, NodeManager, InvoiceNetwork, on_machine,
  on_world, list_federation_ids,
}

pub record MutinyBip21RawMaterials : Type 0 where
  pub address : Text
  pub invoice : Option Bolt11Invoice
  pub btc_amount : Option Text
  pub labels : List Text

-- `bitcoin::Amount::from_sat(amount).to_btc().to_string()`
pub record AmountText : Type 0 where
  pub btc : ℕ → Text

abbrev pub btc_of : ⦃a : AmountText⦄ → Option ℕ → Option Text
btc_of none = none
btc_of ⦃a⦄ (some amount) = some (a.btc amount)

-- `federation_ids[0]`, if it is there, and its client.
abbrev pub first_client :
    {V E : Type 0} → List FederationId → Wallet V E → Option (FederationId × FederationClient)
first_client [] s = none
first_client (id ∷ ids) s = elim (get s.federations id) [
  | none ↦ none
  | some client ↦ some (id, client)
]

module _ ⦃b : Bolt11⦄ ⦃text : InvoiceText⦄ ⦃more : InvoiceMore⦄ ⦃n : InvoiceNetwork⦄ where
  -- `MutinyWallet::decode_invoice`
  unfoldable pub decode_invoice :
      {V E : Type 0} → Bolt11Invoice → Option Text → Wallet V E → Result MutinyInvoice
  decode_invoice inv network s =
      if n.network inv == unwrap_or network s.network
      then ok (from_bolt11 inv)
      else err incorrect_network

module _ {V E : Type 0} ⦃clients : Clients V E⦄ ⦃node : NodeManager V E⦄ where
  -- "Fallback to node_manager"
  unfoldable pub node_invoice : ℕ → List Text → Exec (Wallet V E) MutinyInvoice
  node_invoice amount labels = do
    (inv, fee) ← on_machine (node.create_invoice amount labels)
    pure inv

  abbrev pub address_or_failed : Result Text × Wallet V E → Result Text × Wallet V E
  address_or_failed (ok addr, s) = (ok addr, s)
  address_or_failed (err e, s) = (err wallet_operation_failed, s)

  unfoldable pub node_address : List Text → Exec (Wallet V E) Text
  node_address labels s = address_or_failed (on_machine (node.get_new_address labels) s)

  module _ ⦃c : Crypto⦄ ⦃j : Json V⦄ ⦃env : Env⦄ ⦃maps : Serde V (Map Text (List Text))⦄
      ⦃items : Serde V LabelItem⦄ ⦃contacts : Serde V Contact⦄ where
    unfoldable pub after_address : List Text → Result Text → Exec (Wallet V E) Text
    after_address labels (ok addr) = do on_world (set_target_labels address addr labels); pure addr
    after_address labels (err e) = node_address labels

    unfoldable pub address_from :
        List Text → Option (FederationId × FederationClient) → Exec (Wallet V E) Text
    address_from labels none s = node_address labels s
    address_from labels (some (id, client)) s =
        let done = on_machine (clients.get_new_address id labels) s in
        after_address labels done.0 done.1

    unfoldable pub create_address : List Text → Exec (Wallet V E) Text
    create_address labels s = address_from labels (first_client (list_federation_ids s) s) s

    module _ ⦃b : Bolt11⦄ ⦃text : InvoiceText⦄ ⦃more : InvoiceMore⦄ where
      -- What the federation's answer makes of the call.
      unfoldable pub after_invoice :
          ℕ → List Text → Result Bolt11Invoice → Exec (Wallet V E) MutinyInvoice
      after_invoice amount labels (ok inv) = do
        on_world (set_target_labels invoice inv labels)
        pure (from_bolt11 inv)
      after_invoice amount labels (err e) = node_invoice amount labels

      unfoldable pub invoice_from :
          ℕ → List Text → Option (FederationId × FederationClient) → Exec (Wallet V E) MutinyInvoice
      invoice_from amount labels none s = node_invoice amount labels s
      invoice_from amount labels (some (id, client)) s =
          let done = on_machine (clients.get_invoice id amount labels) s in
          after_invoice amount labels done.0 done.1

      unfoldable pub create_lightning_invoice : ℕ → List Text → Exec (Wallet V E) MutinyInvoice
      create_lightning_invoice amount labels s =
          invoice_from amount labels (first_client (list_federation_ids s) s) s

      unfoldable pub bip21_invoice : Option ℕ → List Text → Exec (Wallet V E) (Option Bolt11Invoice)
      bip21_invoice none labels s = (ok none, s)
      bip21_invoice (some amount) labels s =
          if s.safe_mode
          then (ok none, s)
          else (do
            inv ← create_lightning_invoice amount labels
            bolt11 ← lift (ok_or inv.bolt11 invoice_creation_failed)
            pure (some bolt11))
              s

      unfoldable pub create_bip21 :
          ⦃a : AmountText⦄ → Option ℕ → List Text → Exec (Wallet V E) MutinyBip21RawMaterials
      create_bip21 amount labels = do
        inv ← bip21_invoice amount labels
        addr ← λ s. address_or_failed (create_address labels s)
        pure (record { address = addr; invoice = inv; btc_amount = btc_of amount; labels = labels })
