-- ===== src/Nwc/Node.antt =====
-- The node that pays: the trait `InvoiceHandler` of mutiny-core/src/lib.rs, whose implementation talks
-- to lightning and to federations. Its answers are the fields below; each may depend on how many
-- payments were asked for before.
use mutiny_node.Prelude.{ℕ, Bool, List, [], ◌∷◌, ◌++◌, Option, none, some, length, contains}
use mutiny_node.Prelude.Text.{Text, codes, text_eq}
use mutiny_node.Exec.{Result}
use mutiny_node.Encrypt.{Bytes}
use mutiny_node.Nwc.Invoice.{Bolt11, Bolt11Invoice}
use mutiny_node.Nwc.Manager.{Manager, profiles_of}

-- mutiny-core/src/event.rs
pub data HtlcStatus : Type 0 where
  pending in_flight succeeded failed : HtlcStatus

pub data PrivacyLevel : Type 0 where
  public_payment private_payment anonymous not_available : PrivacyLevel

pub record MutinyInvoice : Type 0 where
  pub bolt11 : Option Bolt11Invoice
  pub description : Option Text
  pub payment_hash : Bytes
  pub preimage : Option Text
  pub payee_pubkey : Option Text
  pub amount_sats : Option ℕ
  pub expire : ℕ
  pub status : HtlcStatus
  pub privacy_level : PrivacyLevel
  pub fees_paid : Option ℕ
  pub inbound : Bool
  pub labels : List Text
  pub last_updated : ℕ

pub record InvoiceHandler : Type 0 where
  pub skip_hodl_invoices : Bool
  pub lookup_payment : ℕ → Bytes → Option MutinyInvoice
  -- the preimage of the payment; the code panics on a success that has none
  pub pay_invoice : ℕ → Bolt11Invoice → List Text → Result Text
  pub create_invoice : ℕ → List Text → Result Bolt11Invoice
  -- network, height and hash of the best block
  pub get_network : Text
  pub get_best_block : Result (ℕ × Text)

abbrev pub status_of : Option MutinyInvoice → Option HtlcStatus
status_of none = none
status_of (some i) = some i.status

-- utils.rs
abbrev pub hodl_invoice_nodes : List Text
hodl_invoice_nodes =
    codes "0279be667ef9dcbbac55a06295ce870b07029bfcdb2dce28d959f2815b16f81798"
    ∷ codes "031b301307574bbe9b9ac7b79cbe1700e31e544513eae0b5d7497483083f99e581"
    ∷ codes "02187352cc4b1856b9604e0a79e1bc9b301be7e0c14acbbb8c29f7051d507127d7"
    ∷ codes "0282eb467bc073833a039940392592bf10cf338a830ba4e392c1667d7697654c7e"
    ∷ codes "037ff12b6a4e4bcb4b944b6d20af08cdff61b3461c1dff0d00a88697414d891bc7"
    ∷ []

module _ ⦃b : Bolt11⦄ where
  unfoldable pub is_hodl_invoice : Bolt11Invoice → Bool
  is_hodl_invoice invoice = contains hodl_invoice_nodes (b.to_hex (b.payee invoice))

module _ {V : Type 0} ⦃node : InvoiceHandler⦄ where
  -- `node.lookup_payment(&hash).await.map(|i| i.status)`
  abbrev pub lookup_status : Bytes → Manager V → Option HtlcStatus
  lookup_status hash s = status_of (node.lookup_payment (length s.pay_calls) hash)

  -- `node.pay_invoice(invoice, None, labels)`
  unfoldable pub pay : Bolt11Invoice → List Text → Manager V → Result Text × Manager V
  pay invoice labels s = (
    node.pay_invoice (length s.pay_calls) invoice labels,
    record s {
      pay_calls =
          s.pay_calls
          ++ (record {
            invoice = invoice;
            labels = labels;
            profiles = profiles_of s.nwc;
            before = s.world;
          }
              ∷ []);
    },
  )
