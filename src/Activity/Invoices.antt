-- ===== src/Activity/Invoices.antt =====
-- mutiny-core/src/lib.rs: the conversions between a Bolt11 invoice, a `MutinyInvoice` and the
-- `PaymentInfo` that is stored. `none` is a panic.
pub mod Kept
use mutiny_node.Prelude.{
  length, sym, ℕ, ◌+◌, ◌*◌, ◌/◌, ◌%◌, ◌^◌, ◌<◌, ◌≡◌, ◌∙◌, ap, refl, ◌⊎◌, inl, inr, Bool, true, List,
  [], ◌∷◌, Option, none, some, arith, ◌==◌, nat_eq, if◌then◌else◌, Option-cases,
}
use mutiny_node.Prelude.Text.{Text}
use mutiny_node.Encrypt.{Bytes}
use mutiny_node.Nwc.Invoice.{Bolt11, Bolt11Invoice}
use mutiny_node.Nwc.Node.{MutinyInvoice, not_available, pending}
use mutiny_node.Nwc.Request.Reads.{InvoiceText}
use mutiny_node.Activity.{PaymentInfo}

-- The rest of what an invoice says, and hexadecimal texts of 32 bytes.
pub record InvoiceMore : Type 0 where
  -- `expiry_time().as_secs()`
  pub expiry_time : Bolt11Invoice → ℕ
  pub payee_pub_key : Bolt11Invoice → Option Text
  -- `to_lower_hex_string`, and `FromHex` for 32 bytes
  pub hex : Bytes → Text
  pub from_hex : Text → Option Bytes
  pub from_hex-hex : (b : Bytes) → length b ≡ 32 → from_hex (hex b) ≡ some b

abbrev pub not_empty_text : Text ⊎ Text → Option Text
not_empty_text (inl []) = none
not_empty_text (inl (x ∷ xs)) = some (x ∷ xs)
not_empty_text (inr hash) = none

abbrev pub div_thousand : Option ℕ → Option ℕ
div_thousand none = none
div_thousand (some m) = some (m / 1000)

-- `f * 1_000` on a `u64`
abbrev pub times_thousand : Option ℕ → Option ℕ
times_thousand none = none
times_thousand (some f) = some (f * 1000 % 2 ^ 64)

-- The amount of an invoice, or that of the record where the invoice has none.
abbrev pub amount_or : Option ℕ → Option ℕ → Option ℕ
amount_or none amt_msat = div_thousand amt_msat
amount_or (some inv_amt) amt_msat =
    if inv_amt == 0 then div_thousand amt_msat else some (inv_amt / 1000)

module _ ⦃b : Bolt11⦄ ⦃text : InvoiceText⦄ ⦃more : InvoiceMore⦄ where
  -- `From<Bolt11Invoice> for MutinyInvoice`
  unfoldable pub from_bolt11 : Bolt11Invoice → MutinyInvoice
  from_bolt11 value = record {
    bolt11 = some value;
    description = not_empty_text (text.description value);
    payment_hash = b.payment_hash value;
    preimage = none;
    payee_pubkey = more.payee_pub_key value;
    amount_sats = div_thousand (b.amount_milli_satoshis value);
    expire = (text.duration_since_epoch value + more.expiry_time value) % 2 ^ 64;
    status = pending;
    privacy_level = not_available;
    fees_paid = none;
    inbound = true;
    labels = [];
    last_updated = text.duration_since_epoch value;
  }

  abbrev pub decode_preimage : Option Text → Option (Option Bytes)
  decode_preimage none = some none
  decode_preimage (some t) = elim (more.from_hex t) [ none ↦ none | some p ↦ some (some p) ]

  abbrev pub encode_preimage : Option Bytes → Option Text
  encode_preimage none = none
  encode_preimage (some p) = some (more.hex p)

  -- `From<MutinyInvoice> for PaymentInfo`
  unfoldable pub payment_info_of : MutinyInvoice → Option PaymentInfo
  payment_info_of invoice = elim (decode_preimage invoice.preimage) [
    | none ↦ none
    | some preimage ↦ some (record {
      preimage = preimage;
      secret = none;
      status = invoice.status;
      amt_msat = invoice.amount_sats;
      fee_paid_msat = times_thousand invoice.fees_paid;
      bolt11 = invoice.bolt11;
      payee_pubkey = invoice.payee_pubkey;
      privacy_level = invoice.privacy_level;
      last_update = invoice.last_updated;
    })
  ]

  -- The two cases of `MutinyInvoice::from`.
  abbrev pub without_bolt11 : PaymentInfo → Bytes → Bool → List Text → MutinyInvoice
  without_bolt11 i payment_hash inbound labels = record {
    bolt11 = none;
    description = none;
    payment_hash = payment_hash;
    preimage = encode_preimage i.preimage;
    payee_pubkey = i.payee_pubkey;
    amount_sats = div_thousand i.amt_msat;
    expire = i.last_update;
    status = i.status;
    privacy_level = i.privacy_level;
    fees_paid = div_thousand i.fee_paid_msat;
    inbound = inbound;
    labels = labels;
    last_updated = i.last_update;
  }

  abbrev pub with_bolt11 : Bolt11Invoice → PaymentInfo → Bool → List Text → MutinyInvoice
  unfolding from_bolt11
  with_bolt11 invoice i inbound labels = record (from_bolt11 invoice) {
    inbound = inbound;
    last_updated = i.last_update;
    status = i.status;
    labels = labels;
    amount_sats = amount_or (b.amount_milli_satoshis invoice) i.amt_msat;
    payee_pubkey = i.payee_pubkey;
    preimage = encode_preimage i.preimage;
    fees_paid = div_thousand i.fee_paid_msat;
    privacy_level = i.privacy_level;
  }

  abbrev pub invoice_for :
      Option Bolt11Invoice → PaymentInfo → Bytes → Bool → List Text → MutinyInvoice
  invoice_for (some invoice) i payment_hash inbound labels = with_bolt11 invoice i inbound labels
  invoice_for none i payment_hash inbound labels = without_bolt11 i payment_hash inbound labels

  -- `MutinyInvoice::from`
  unfoldable pub invoice_of : PaymentInfo → Bytes → Bool → List Text → MutinyInvoice
  invoice_of i payment_hash inbound labels = invoice_for i.bolt11 i payment_hash inbound labels

  -- The amount that an invoice has after it was stored and read.
  abbrev pub amount_back : Option Bolt11Invoice → Option ℕ → Option ℕ
  amount_back none amount_sats = div_thousand amount_sats
  amount_back (some invoice) amount_sats = amount_or (b.amount_milli_satoshis invoice) amount_sats

  -- Bytes as long as a preimage.
  abbrev pub IsPreimage : Option Bytes → Type 0
  IsPreimage none = Unit
  IsPreimage (some p) = length p ≡ 32

  decode_preimage-encode :
      (p : Option Bytes) → IsPreimage p → decode_preimage (encode_preimage p) ≡ some p
  decode_preimage-encode none h = refl
  decode_preimage-encode (some p) h = rw (more.from_hex-hex p h) refl

  -- A fee in sats whose amount in millisatoshis fits a `u64`.
  abbrev pub FeeFits : Option ℕ → Type 0
  FeeFits none = Unit
  FeeFits (some f) = f * 1000 < 2 ^ 64

  div-times : (f : Option ℕ) → FeeFits f → div_thousand (times_thousand f) ≡ f
  div-times none h = refl
  div-times (some f) h =
      let fits : f * 1000 < 18446744073709551616 = h in
      let same : f * 1000 % 2 ^ 64 / 1000 ≡ f = omega (arith, fits) in ap some same

  invoice_for-back :
      (bolt11 : Option Bolt11Invoice) (p : PaymentInfo) (payment_hash : Bytes) (inbound : Bool)
      (labels : List Text)
      → let back = invoice_for bolt11 p payment_hash inbound labels in
        (back.amount_sats ≡ amount_back bolt11 p.amt_msat)
        × (back.preimage ≡ encode_preimage p.preimage)
        × (back.fees_paid ≡ div_thousand p.fee_paid_msat)
        × (back.status ≡ p.status)
        × (back.last_updated ≡ p.last_update)
        × (back.labels ≡ labels)
  unfolding from_bolt11
  invoice_for-back none p payment_hash inbound labels = (refl, refl, refl, refl, refl, refl)
  invoice_for-back (some invoice) p payment_hash inbound labels =
      (refl, refl, refl, refl, refl, refl)

  -- The payment that an invoice is converted to, converted back.
  pub invoice_of-payment_info_of :
      (i : MutinyInvoice) (preimage : Option Bytes) {p : PaymentInfo} (payment_hash : Bytes)
      (inbound : Bool) (labels : List Text)
      → IsPreimage preimage
      → i.preimage ≡ encode_preimage preimage
      → FeeFits i.fees_paid
      → payment_info_of i ≡ some p
      → let back = invoice_of p payment_hash inbound labels in
        (back.amount_sats ≡ amount_back i.bolt11 i.amount_sats)
        × (back.preimage ≡ i.preimage)
        × (back.fees_paid ≡ i.fees_paid)
        × (back.status ≡ i.status)
        × (back.last_updated ≡ i.last_updated)
        × (back.labels ≡ labels)
  unfolding payment_info_of invoice_of
  invoice_of-payment_info_of i preimage {p} payment_hash inbound labels l printed fits e =
      let stored : PaymentInfo = record {
        preimage = preimage;
        secret = none;
        status = i.status;
        amt_msat = i.amount_sats;
        fee_paid_msat = times_thousand i.fees_paid;
        bolt11 = i.bolt11;
        payee_pubkey = i.payee_pubkey;
        privacy_level = i.privacy_level;
        last_update = i.last_updated;
      } in
      let decoded : decode_preimage i.preimage ≡ some preimage =
        rw printed (decode_preimage-encode preimage l) in
      let same : p ≡ stored = ground arith in
      let (amount, image, fees, status, time, given) =
        invoice_for-back i.bolt11 stored payment_hash inbound labels in
      rw same (amount, image ∙ sym printed, fees ∙ div-times i.fees_paid fits, status, time, given)
