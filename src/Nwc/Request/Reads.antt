-- ===== src/Nwc/Request/Reads.antt =====
-- The requests that move no money: `handle_get_info_request`, `handle_get_balance_request`,
-- `handle_make_invoice_request` and `handle_lookup_invoice_request`.
use mathlib.Core.Option
use mutiny_node.Prelude.{
  ℕ, ◌*◌, ◌/◌, ◌%◌, [], ◌∷◌, Option, none, some, ◌++◌, ◌⊎◌, inl, inr, if◌then◌else◌, unwrap_or,
  length,
}
use mutiny_node.Prelude.Text.{Text, codes}
use mutiny_node.Error.{other}
use mutiny_node.Exec.{Result, ok, err, Exec, pure, lift, gets, ◌>>=◌, ok_or}
use mutiny_node.Encrypt.{Bytes}
use mutiny_node.Storage.{now_secs}
use mutiny_node.Nwc.Invoice.{Bolt11, Bolt11Invoice}
use mutiny_node.Nwc.Budget.{Calendar, u64_mod, budget_remaining}
use mutiny_node.Nwc.Profile.{Method, SpendingConditions, available_commands}
use mutiny_node.Nwc.Node.{InvoiceHandler, MutinyInvoice, HtlcStatus, succeeded}
use mutiny_node.Nwc.Request.{
  ErrorCode, ResponseResult, TransactionType, LookupInvoiceResponseResult, Response, ResponseEvent,
  Event, Display, Session, error_response, result_response, reply,
}
use mutiny_node.Nwc.Request.Pay.{payment_label}

-- The rest of a `Bolt11Invoice` that a lookup shows: its time in seconds, and its description or the
-- hash of it.
pub record InvoiceText : Type 0 where
  pub duration_since_epoch : Bolt11Invoice → ℕ
  pub description : Bolt11Invoice → Text ⊎ Text

-- What is left of the conditions' money, in sats.
unfoldable pub balance_sats : ⦃cal : Calendar⦄ → ℕ → SpendingConditions → ℕ
balance_sats now (SpendingConditions.single_use su) = elim su.payment_hash [
  | some _ ↦ 0
  | none ↦ su.amount_sats
]
balance_sats now (SpendingConditions.budget c) = budget_remaining now c
balance_sats now SpendingConditions.require_approval = 0

-- `map(|a| a * 1_000).unwrap_or(0)` on a `u64`
abbrev pub to_msats : Option ℕ → ℕ
to_msats none = 0
to_msats (some a) = a * 1_000 % u64_mod

-- A value that is shown only once the payment has succeeded.
abbrev pub if_settled {ℓ} : {A : Type ℓ} → HtlcStatus → Option A → Option A
if_settled succeeded a = a
if_settled _ a = none

module _ ⦃b : Bolt11⦄ ⦃t : InvoiceText⦄ where
  -- The description, if the invoice has it in full, and its hash otherwise.
  abbrev pub described : Option Bolt11Invoice → Option Text × Option Text
  described none = (none, none)
  described (some i) = elim (t.description i) [
    | inl text ↦ (some text, none)
    | inr hash ↦ (none, some hash)
  ]

  unfoldable pub lookup_result : MutinyInvoice → LookupInvoiceResponseResult
  lookup_result i = record {
    transaction_type =
        some (if i.inbound then TransactionType.incoming else TransactionType.outgoing);
    invoice = i.bolt11;
    description = (described i.bolt11).0;
    description_hash = (described i.bolt11).1;
    preimage = if_settled i.status i.preimage;
    payment_hash = b.to_hex i.payment_hash;
    amount = to_msats i.amount_sats;
    fees_paid = to_msats i.fees_paid;
    created_at = unwrap_or (Option.map t.duration_since_epoch i.bolt11) i.last_updated;
    expires_at = i.expire;
    settled_at = if_settled i.status (some i.last_updated);
  }

  abbrev pub lookup_content : Option MutinyInvoice → Response
  lookup_content none =
      error_response Method.lookup_invoice ErrorCode.not_found (codes "Invoice not found")
  lookup_content (some i) =
      result_response Method.lookup_invoice (ResponseResult.lookup_invoice (lookup_result i))

-- The hash that is asked for, given as such or by an invoice.
unfoldable pub requested_hash : ⦃b : Bolt11⦄ → Option Text → Option Text → Result Bytes
requested_hash ⦃b⦄ (some hash) bolt11 =
    ok_or (b.from_hex hash) (other (codes "Failed to parse payment_hash"))
requested_hash ⦃b⦄ none (some bolt11) =
    if b.parses bolt11 then ok (b.payment_hash bolt11) else err (other (codes "invalid invoice"))
requested_hash ⦃b⦄ none none = err (other (codes "No payment_hash or bolt11 provided"))

module _ {V : Type 0} ⦃b : Bolt11⦄ ⦃cal : Calendar⦄ ⦃node : InvoiceHandler⦄ ⦃d : Display⦄
    ⦃t : InvoiceText⦄ where
  unfoldable pub handle_get_balance_request : Event → Exec (Session V) (Option ResponseEvent)
  unfolding balance_sats
  handle_get_balance_request event s =
      let sats = balance_sats (now_secs s.manager.world) s.self.profile.spending_conditions in
      (
        ok (
            some (
              reply event none (
                result_response Method.get_balance
                  (ResponseResult.get_balance (sats * 1_000 % u64_mod))))),
        s,
      )

  unfoldable pub handle_get_info_request : Event → Exec (Session V) (Option ResponseEvent)
  handle_get_info_request event s =
      (do
        (height, hash) ← lift node.get_best_block
        pure (
            some (
              reply event none (
                result_response Method.get_info (
                  ResponseResult.get_info (record {
                    alias = codes "Mutiny";
                    color = codes "000000";
                    pubkey =
                        codes "02cae09cf2c8842ace44068a5bf3117a494ebbf69a99e79712483c36f97cdb7b54";
                    network = node.get_network;
                    block_height = height;
                    block_hash = hash;
                    methods = available_commands s.self.profile;
                  }))))))
        s

  unfoldable pub handle_make_invoice_request : Event → ℕ → Exec (Session V) (Option ResponseEvent)
  handle_make_invoice_request event amount s =
      let content : Response =
        elim (node.create_invoice (amount / 1_000) (payment_label s.self.profile ∷ [])) [
          | err e ↦
              error_response Method.make_invoice ErrorCode.other
                (codes "Failed to create invoice: " ++ d.display_error e)
          | ok bolt11 ↦
              result_response Method.make_invoice
                (ResponseResult.make_invoice bolt11 (b.to_hex (b.payment_hash bolt11)))
        ] in
      (ok (some (reply event none content)), s)

  unfoldable pub handle_lookup_invoice_request :
      Event → Option Text → Option Text → Exec (Session V) (Option ResponseEvent)
  unfolding requested_hash lookup_result
  handle_lookup_invoice_request event payment_hash bolt11 = do
    hash ← lift (requested_hash payment_hash bolt11)
    calls ← gets (λ s. length s.manager.pay_calls)
    pure (some (reply event none (lookup_content (node.lookup_payment calls hash))))
