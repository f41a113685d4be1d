-- ===== src/Activity/Read.antt =====
-- mutiny-core/src/lib.rs: `get_activity` and what it reads; storage.rs: `get_invoice_by_hash` and
-- `list_payment_info`.
pub mod Labelled
pub mod Page
use mutiny_node.Prelude.{
  ℕ, zero, suc, ◌+◌, ◌-◌, ◌≡◌, Bool, true, false, ◌&&◌, List, [], ◌∷◌, ◌++◌, Option, none, some,
  ◌==◌, nat_eq, if◌then◌else◌, ltb, min, length, take, drop, unwrap_or,
}
use mutiny_node.Prelude.Text.{Text, codes, starts_with, strip_prefix, text_eq}
use mutiny_node.Prelude.Map.{Map, get}
use mutiny_node.Error.{MutinyError, other, invalid_arguments_error}
use mutiny_node.Exec.{Result, ok, err, and_then, Exec, pure, raise, lift, ◌>>=◌, ◌>>◌}
use mutiny_node.Encrypt.{Crypto, Bytes}
use mutiny_node.Storage.Values.{Json, Serde, IndexItem}
use mutiny_node.Storage.{World, Env, get_data, scan}
use mutiny_node.Labels.{LabelItem, Contact}
use mutiny_node.Labels.Store.{invoice, get_target_labels}
use mutiny_node.Nwc.Invoice.{Bolt11, Bolt11Invoice}
use mutiny_node.Nwc.Node.{MutinyInvoice}
use mutiny_node.Nwc.Request.Reads.{InvoiceText}
use mutiny_node.Activity.{TransactionDetails, PaymentInfo, ChannelClosure}
use mutiny_node.Activity.Items.{ActivityItem, on_chain, lightning, channel_closed}
use mutiny_node.Activity.Invoices.{InvoiceMore, invoice_of}
use mutiny_node.Activity.Persist.{
  Hex, prefix_of, onchain_prefix, transaction_details_prefix_key, channel_closure_prefix,
  payment_inbound_prefix_key, payment_outbound_prefix_key, get_payment_info,
  get_transaction_details,
}

-- The crates' parsers of hashes and ids.
pub record Parsers : Type 0 where
  pub hash_from_hex : Text → Result Bytes
  pub channel_from_hex : Text → Result Bytes
  pub txid_from_str : Text → Result Text

-- `node_manager.get_transaction`
pub record Ledger (V : Type 0) : Type 0 where
  pub get_transaction : Text → World V → Result (Option TransactionDetails)

-- `str::trim_start_matches` for a prefix that is not empty; the fuel is the length of the text.
abbrev pub trim_start_loop : ℕ → Text → Text → Text
trim_start_loop zero prefix s = s
trim_start_loop (suc fuel) prefix s = elim (strip_prefix prefix s) [
  | none ↦ s
  | some rest ↦ trim_start_loop fuel prefix rest
]

abbrev pub trim_start_matches : Text → Text → Text
trim_start_matches prefix s = trim_start_loop (length s) prefix s

-- `.splitn(2, '_').collect::<Vec<&str>>()[0]`: what comes before the first underscore.
abbrev pub before_underscore : Text → Text
before_underscore [] = []
before_underscore (c ∷ s) = if c == 95 then [] else c ∷ before_underscore s

unfoldable pub get_payment_hash_from_key : Text → Text → Text
get_payment_hash_from_key key prefix = before_underscore (trim_start_matches prefix key)

-- The bounds of `get_activity`; `top` is `usize::MAX`.
abbrev pub bounds : ℕ → ℕ → Option ℕ → Option ℕ → ℕ × ℕ
bounds top len none none = (0, len)
bounds top len (some offset) (some limit) = (offset, min (min (offset + limit) top) len)
bounds top len (some offset) none = (offset, len)
bounds top len none (some limit) = (0, limit)

-- "handle out of bounds", and `vec[start..end]`, or nothing if the start lies after the end.
unfoldable pub cut {ℓ} : {A : Type ℓ} → ℕ → ℕ → List A → Option (List A)
cut start' end' vec =
    let start = min start' (length vec) in
    let end = min end' (length vec) in
    if ltb end start then none else some (take (end - start) (drop start vec))

unfoldable pub page {ℓ} : {A : Type ℓ} → ℕ → Option ℕ → Option ℕ → List A → Option (List A)
page top offset limit vec = let at = bounds top (length vec) offset limit in cut at.0 at.1 vec

-- "make sure it is a relevant transaction"
abbrev pub relevant : Option TransactionDetails → List ActivityItem
relevant none = []
relevant (some t) = if (t.sent == 0) && (t.received == 0) then [] else on_chain t ∷ []

abbrev pub shown : Option MutinyInvoice → List ActivityItem
shown none = []
shown (some i) = lightning i ∷ []

-- The labels of a payment's invoice.
abbrev pub labels_for : Map Bolt11Invoice (List Text) → Option Bolt11Invoice → List Text
labels_for labels_map none = []
labels_for labels_map (some i) = unwrap_or (get labels_map i) []

-- The id that an older record lacks is taken from its key.
abbrev pub with_channel_id :
    ⦃parsers : Parsers⦄ → Text → Option Bytes → ChannelClosure → Result ChannelClosure
with_channel_id key (some id) closure = ok closure
with_channel_id ⦃parsers⦄ key none closure =
    and_then
      (parsers.channel_from_hex (before_underscore (trim_start_matches channel_closure_prefix key)))
      (λ id. ok (record closure { user_channel_id = some id }))

module _ {V : Type 0} ⦃c : Crypto⦄ ⦃j : Json V⦄ ⦃env : Env⦄ ⦃hex : Hex⦄ ⦃parsers : Parsers⦄
    ⦃ledger : Ledger V⦄ ⦃b : Bolt11⦄ ⦃text : InvoiceText⦄ ⦃more : InvoiceMore⦄
    ⦃payments : Serde V PaymentInfo⦄ where
  unfoldable pub found_invoice :
      Text
      → Bool
      → Map Bolt11Invoice (List Text)
      → Option PaymentInfo
      → Exec (World V) (Option MutinyInvoice)
  found_invoice key inbound labels_map none = pure none
  found_invoice key inbound labels_map (some info) = do
    hash ← lift (parsers.hash_from_hex (get_payment_hash_from_key key (prefix_of inbound)))
    pure (some (invoice_of info hash inbound (labels_for labels_map info.bolt11)))

  unfoldable pub get_invoice_internal :
      Text → Bool → Map Bolt11Invoice (List Text) → Exec (World V) (Option MutinyInvoice)
  get_invoice_internal key inbound labels_map = do
    info ← get_data key
    found_invoice key inbound labels_map info

  module _ ⦃maps : Serde V (Map Text (List Text))⦄ ⦃items : Serde V LabelItem⦄
      ⦃contacts : Serde V Contact⦄ where
    unfoldable pub get_invoice_by_hash : Bytes → Exec (World V) MutinyInvoice
    get_invoice_by_hash hash = do
      (payment_info, inbound) ← get_payment_info hash
      labels_map ← get_target_labels invoice
      pure (invoice_of payment_info hash inbound (labels_for labels_map payment_info.bolt11))

    module _ ⦃transactions : Serde V TransactionDetails⦄ ⦃closures : Serde V ChannelClosure⦄ where
      unfoldable pub closure_activity :
          Text → Option ChannelClosure → Exec (World V) (List ActivityItem)
      closure_activity key none = pure []
      closure_activity key (some closure) = do
        closed ← lift (with_channel_id key closure.user_channel_id closure)
        pure (channel_closed closed ∷ [])

      unfoldable pub invoice_activity :
          Text → Bool → Map Bolt11Invoice (List Text) → Exec (World V) (List ActivityItem)
      invoice_activity key inbound labels_map = do
        i ← get_invoice_internal key inbound labels_map
        pure (shown i)

      unfoldable pub closed_activity : Text → Exec (World V) (List ActivityItem)
      closed_activity key = do closure ← get_data key; closure_activity key closure

      unfoldable pub onchain_activity : Text → Exec (World V) (List ActivityItem)
      onchain_activity key = do
        txid ← lift (parsers.txid_from_str (trim_start_matches onchain_prefix key))
        details ← (λ w. (ledger.get_transaction txid w, w))
        pure (relevant details)

      unfoldable pub details_activity : Text → Exec (World V) (List ActivityItem)
      details_activity key = do
        internal_id ←
            lift (parsers.txid_from_str (trim_start_matches transaction_details_prefix_key key))
        details ← (λ w. (ok (get_transaction_details internal_id w), w))
        pure (relevant details)

      -- What one item of the index adds to the list.
      unfoldable pub item_activity :
          Map Bolt11Invoice (List Text) → Text → Exec (World V) (List ActivityItem)
      item_activity labels_map key w =
          if starts_with key payment_inbound_prefix_key
          then invoice_activity key true labels_map w
          else if starts_with key payment_outbound_prefix_key
          then invoice_activity key false labels_map w
          else if starts_with key channel_closure_prefix
          then closed_activity key w
          else if starts_with key onchain_prefix
          then onchain_activity key w
          else if starts_with key transaction_details_prefix_key
          then details_activity key w
          else (ok [], w)

      unfoldable pub activities :
          Map Bolt11Invoice (List Text) → List IndexItem → Exec (World V) (List ActivityItem)
      unfolding item_activity
      activities labels_map [] = pure []
      activities labels_map (item ∷ index) = do
        here ← item_activity labels_map item.key
        rest ← activities labels_map index
        pure (here ++ rest)

      unfoldable pub listed : Option (List IndexItem) → Exec (World V) (List ActivityItem)
      listed none = pure []
      listed (some index) = do labels_map ← get_target_labels invoice; activities labels_map index

      unfoldable pub get_activity : ℕ → Option ℕ → Option ℕ → Exec (World V) (List ActivityItem)
      get_activity top limit offset w = listed (page top offset limit w.activity_index) w
