-- ===== src/Activity/Invoices/Kept.antt =====
-- What is left of an invoice that is stored as a payment.
use mutiny_node.Prelude.{◌≡◌, Bool, List, Option, some, arith}
use mutiny_node.Prelude.Text.{Text}
use mutiny_node.Exec.{ok}
use mutiny_node.Encrypt.{Crypto, Bytes}
use mutiny_node.Storage.Values.{Json, Serde}
use mutiny_node.Storage.{World, Env}
use mutiny_node.Storage.Data.{IsKeyed}
use mutiny_node.Nwc.Invoice.{Bolt11}
use mutiny_node.Nwc.Node.{MutinyInvoice}
use mutiny_node.Nwc.Request.Reads.{InvoiceText}
use mutiny_node.Activity.{PaymentInfo}
use mutiny_node.Activity.Persist.{
  Hex, payment_key, index_status, persist_payment_info, read_payment_info,
}
use mutiny_node.Activity.Persist.Laws.{set_data-change_index}
use mutiny_node.Activity.Invoices.{
  InvoiceMore, invoice_of, payment_info_of, encode_preimage, amount_back, FeeFits, IsPreimage,
  invoice_of-payment_info_of,
}

module _ {V : Type 0} ⦃c : Crypto⦄ ⦃j : Json V⦄ ⦃env : Env⦄ ⦃hex : Hex⦄ ⦃b : Bolt11⦄
    ⦃text : InvoiceText⦄ ⦃more : InvoiceMore⦄ ⦃payments : Serde V PaymentInfo⦄ where
  -- If the cipher is that of the password, the fee in millisatoshis fits a `u64`, and the preimage, if there
  -- is one, is printed as 32 bytes are, then an invoice that was stored as a payment with success is read
  -- with its preimage, fee, status and time, and the labels given. Its amount is that of its Bolt11
  -- invoice if this has one; otherwise it is a thousandth of what it was.
  pub invoice_kept :
      (i : MutinyInvoice) (preimage : Option Bytes) (payment_hash : Bytes) (inbound : Bool)
      (labels : List Text) (w : World V) {p : PaymentInfo} {w' : World V}
      → IsKeyed w.password w.cipher
      → IsPreimage preimage
      → i.preimage ≡ encode_preimage preimage
      → FeeFits i.fees_paid
      → payment_info_of i ≡ some p
      → persist_payment_info payment_hash p inbound w ≡ (ok tt, w')
      → (q : PaymentInfo) × (read_payment_info payment_hash inbound w' ≡ some q)
        × (let back = invoice_of q payment_hash inbound labels in
            (back.amount_sats ≡ amount_back i.bolt11 i.amount_sats)
            × (back.preimage ≡ i.preimage)
            × (back.fees_paid ≡ i.fees_paid)
            × (back.status ≡ i.status)
            × (back.last_updated ≡ i.last_updated)
            × (back.labels ≡ labels))
  unfolding persist_payment_info read_payment_info
  invoice_kept i preimage payment_hash inbound labels w {p} {w'} k l printed fits e h =
      let key = payment_key inbound payment_hash in
      let (read, _) =
        set_data-change_index key p (index_status key p.last_update p.status) w {w' = w'} k h in
      let back =
        invoice_of-payment_info_of i preimage {p = p} payment_hash inbound labels l printed fits
          e in
      (p, ground (arith, read), back)
