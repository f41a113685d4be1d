-- ===== src/Activity/Read/Labelled.antt =====
-- mutiny-core/src/lib.rs: `get_label_activity`.
use mutiny_node.Prelude.{
  ◌≡◌, refl, inl, inr, Bool, true, false, List, [], ◌∷◌, ◌++◌, Option, none, some, All, arith, map,
  contains, retain, if◌then◌else◌, Bool-cases,
}
use mutiny_node.Prelude.Text.{Text, starts_with, text_eq}
use mutiny_node.Prelude.Map.{Map}
use mutiny_node.Exec.{Result, ok, err, Exec, pure, lift, ◌>>=◌, Result-cases}
use mutiny_node.Encrypt.{Crypto, Bytes}
use mutiny_node.Storage.Values.{Json, Serde, IndexItem}
use mutiny_node.Storage.{World, Env, get_data}
use mutiny_node.Labels.{LabelItem, Contact}
use mutiny_node.Labels.Store.{invoice, get_label, get_target_labels}
use mutiny_node.Nwc.Invoice.{Bolt11, Bolt11Invoice}
use mutiny_node.Nwc.Request.Reads.{InvoiceText}
use mutiny_node.Activity.{TransactionDetails, PaymentInfo, ChannelClosure}
use mutiny_node.Activity.Items.{ActivityItem}
use mutiny_node.Activity.Invoices.{InvoiceMore}
use mutiny_node.Activity.Persist.{
  Hex, prefix_of, payment_inbound_prefix_key, payment_outbound_prefix_key,
}
use mutiny_node.Activity.Read.{
  Parsers, Ledger, get_payment_hash_from_key, invoice_activity, item_activity, activities,
}

-- `sha256::Hash::from_str`
pub record HashText : Type 0 where
  pub sha256_from_str : Text → Result Bytes

-- The hash in the key of a payment.
abbrev pub hash_in : ⦃h : HashText⦄ → Text → Bool → Result Bytes
hash_in ⦃h⦄ key inbound = h.sha256_from_str (get_payment_hash_from_key key (prefix_of inbound))

-- Whether a hash was read, and is among those.
abbrev pub is_among : List Bytes → Result Bytes → Bool
is_among payment_hashes (ok hash) = contains payment_hashes hash
is_among payment_hashes (err e) = false

-- Whether an item is of a payment with one of the hashes.
abbrev pub is_of : ⦃h : HashText⦄ → List Bytes → IndexItem → Bool
is_of payment_hashes item =
    if starts_with item.key payment_inbound_prefix_key
    then is_among payment_hashes (hash_in item.key true)
    else if starts_with item.key payment_outbound_prefix_key
    then is_among payment_hashes (hash_in item.key false)
    else false

-- The hash can be read if the item is of a payment.
abbrev pub IsReadable : ⦃h : HashText⦄ → IndexItem → Type 0
IsReadable item =
    (inbound : Bool)
    → starts_with item.key (prefix_of inbound) ≡ true
    → (hash : Bytes) × (hash_in item.key inbound ≡ ok hash)

module _ {V : Type 0} ⦃c : Crypto⦄ ⦃j : Json V⦄ ⦃env : Env⦄ ⦃hex : Hex⦄ ⦃parsers : Parsers⦄
    ⦃ledger : Ledger V⦄ ⦃b : Bolt11⦄ ⦃text : InvoiceText⦄ ⦃more : InvoiceMore⦄
    ⦃payments : Serde V PaymentInfo⦄ ⦃maps : Serde V (Map Text (List Text))⦄
    ⦃items : Serde V LabelItem⦄ ⦃contacts : Serde V Contact⦄
    ⦃transactions : Serde V TransactionDetails⦄ ⦃closures : Serde V ChannelClosure⦄
    ⦃h : HashText⦄ where
  unfoldable pub of_hash :
      List Bytes
      → Map Bolt11Invoice (List Text)
      → Text
      → Bool
      → Bytes
      → Exec (World V) (List ActivityItem)
  of_hash payment_hashes labels_map key inbound hash w =
      if contains payment_hashes hash then invoice_activity key inbound labels_map w else (ok [], w)

  unfoldable pub label_item_activity :
      List Bytes → Map Bolt11Invoice (List Text) → Text → Exec (World V) (List ActivityItem)
  label_item_activity payment_hashes labels_map key w =
      if starts_with key payment_inbound_prefix_key
      then (do hash ← lift (hash_in key true); of_hash payment_hashes labels_map key true hash) w
      else if starts_with key payment_outbound_prefix_key
      then (do hash ← lift (hash_in key false); of_hash payment_hashes labels_map key false hash) w
      else (ok [], w)

  unfoldable pub label_activities :
      List Bytes
      → Map Bolt11Invoice (List Text)
      → List IndexItem
      → Exec (World V) (List ActivityItem)
  label_activities payment_hashes labels_map [] = pure []
  label_activities payment_hashes labels_map (item ∷ index) = do
    here ← label_item_activity payment_hashes labels_map item.key
    rest ← label_activities payment_hashes labels_map index
    pure (here ++ rest)

  unfoldable pub for_label : Option LabelItem → Exec (World V) (List ActivityItem)
  for_label none w = (ok [], w)
  for_label (some label_item) w =
      (do
        labels_map ← get_target_labels invoice
        label_activities (map b.payment_hash label_item.invoices) labels_map w.activity_index)
        w

  unfoldable pub get_label_activity : Text → Exec (World V) (List ActivityItem)
  get_label_activity label = do label_item ← get_label label; for_label label_item

  label_item_activity_lem :
      (hashes : List Bytes) (labels_map : Map Bolt11Invoice (List Text)) (item : IndexItem)
      (w : World V)
      → IsReadable item
      → label_item_activity hashes labels_map item.key w
        ≡ (if is_of hashes item then item_activity labels_map item.key w else (ok [], w))
  unfolding label_item_activity of_hash item_activity
  label_item_activity_lem hashes labels_map item w r =
      elim (Bool-cases (starts_with item.key payment_inbound_prefix_key)) [
        | inl p ↦ let (hash, q) = r true p in ground arith
        | inr p ↦ elim (Bool-cases (starts_with item.key payment_outbound_prefix_key)) [
          | inl q ↦ let (hash, s) = r false q in ground arith
          | inr q ↦ ground arith
        ]
      ]

  label_activities_lem :
      (hashes : List Bytes) (labels_map : Map Bolt11Invoice (List Text)) (index : List IndexItem)
      (w : World V)
      → All IsReadable index
      → label_activities hashes labels_map index w
        ≡ activities labels_map (retain (is_of hashes) index) w
  unfolding label_activities activities
  label_activities_lem hashes labels_map [] w r = refl
  label_activities_lem hashes labels_map (item ∷ index) w (r, rs) =
      let here = label_item_activity_lem hashes labels_map item w r in
      elim (Bool-cases (is_of hashes item)) [
        | inl p ↦
            let ih =
              label_activities_lem hashes labels_map index (item_activity labels_map item.key w).1
                rs in
            ground arith
        | inr p ↦
            let ih = label_activities_lem hashes labels_map index w rs in
            elim (Result-cases (label_activities hashes labels_map index w).0) [
              | inl (all, q) ↦ ground arith
              | inr (e, q) ↦ ground arith
            ]
      ]

  -- If there is an item of the label, and the key of every payment in the activity index has a hash that
  -- can be read, then the activity of the label is what the whole list would be, in its order and with its
  -- errors, if the index had only the payments of the invoices that the item lists.
  pub get_label_activity_lem :
      (label : Text) (label_item : LabelItem) (w : World V)
      → get_label label w ≡ (ok (some label_item), w)
      → All IsReadable w.activity_index
      → get_label_activity label w
        ≡ (do
          labels_map ← get_target_labels invoice
          activities labels_map
              (retain (is_of (map b.payment_hash label_item.invoices)) w.activity_index))
            w
  unfolding get_label_activity for_label get_target_labels get_data
  get_label_activity_lem label label_item w e r =
      let hashes = map b.payment_hash label_item.invoices in
      elim (Result-cases (get_target_labels invoice w).0) [
        | inl (m, q) ↦ let all = label_activities_lem hashes m w.activity_index w r in ground arith
        | inr (_, q) ↦ ground arith
      ]
