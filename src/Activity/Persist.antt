-- ===== src/Activity/Persist.antt =====
-- mutiny-core/src/storage.rs: the records of payments and of transactions, each kept with its item in the
-- activity index; ldkstorage.rs: `persist_channel_closure`; lib.rs: how the index is filled when the
-- wallet starts. The lock of the index is always free: its guards end with each call.
pub mod Laws
pub mod Restart
use mutiny_node.Prelude.{
  ℕ, ◌≡◌, Bool, true, false, not, ◌||◌, List, [], ◌∷◌, ◌++◌, Option, none, some, ◌==◌,
  if◌then◌else◌, map, retain,
}
use mutiny_node.Prelude.Text.{Text, codes, text_eq}
use mutiny_node.Prelude.Map.{Map}
use mutiny_node.Error.{not_found}
use mutiny_node.Exec.{Result, ok, err, Exec, pure, raise, lift, ◌>>=◌, ◌>>◌}
use mutiny_node.Encrypt.{Crypto, Bytes}
use mutiny_node.Storage.Values.{Json, Serde, IndexItem}
use mutiny_node.Storage.{World, Env, set_data, get_data, scan, delete}
use mutiny_node.Nwc.Node.{HtlcStatus, pending, in_flight, succeeded, failed}
use mutiny_node.Activity.{
  ConfirmationTime, confirmed, unconfirmed, TransactionDetails, PaymentInfo, ChannelClosure,
}
use mutiny_node.Activity.Index.{insert, remove, extend}

abbrev pub payment_inbound_prefix_key : Text
payment_inbound_prefix_key = codes "payment_inbound/"

abbrev pub payment_outbound_prefix_key : Text
payment_outbound_prefix_key = codes "payment_outbound/"

abbrev pub transaction_details_prefix_key : Text
transaction_details_prefix_key = codes "transaction_details/"

abbrev pub onchain_prefix : Text
onchain_prefix = codes "onchain_tx/"

abbrev pub channel_closure_prefix : Text
channel_closure_prefix = codes "channel_closure/"

-- The crates' texts of hashes and ids.
pub record Hex : Type 0 where
  -- `as_hex` of a hash
  pub as_hex : Bytes → Text
  pub as_hex_injective : (a b : Bytes) → as_hex a ≡ as_hex b → a ≡ b
  -- `to_raw_hash().to_hex()` of a transaction's id
  pub raw_hex : Text → Text
  -- `to_be_bytes().to_lower_hex_string()` of a channel's id
  pub id_hex : ℕ → Text

-- An item for what has not come to an end yet, and one for what has.
abbrev pub pending_item : Text → IndexItem
pending_item key = record { timestamp = none; key = key }

abbrev pub timed_item : ℕ → Text → IndexItem
timed_item time key = record { timestamp = some time; key = key }

abbrev pub prefix_of : Bool → Text
prefix_of inbound = if inbound then payment_inbound_prefix_key else payment_outbound_prefix_key

unfoldable pub payment_key : ⦃hex : Hex⦄ → Bool → Bytes → Text
payment_key ⦃hex⦄ inbound payment_hash = prefix_of inbound ++ hex.as_hex payment_hash

unfoldable pub transaction_details_key : ⦃hex : Hex⦄ → Text → Text
transaction_details_key ⦃hex⦄ internal_id =
    transaction_details_prefix_key ++ hex.raw_hex internal_id

-- `get_key` appends the node's id.
abbrev pub closure_key : ⦃hex : Hex⦄ → Text → ℕ → Text
closure_key ⦃hex⦄ node_id user_channel_id =
    (channel_closure_prefix ++ hex.id_hex user_channel_id) ++ (codes "_" ++ node_id)

-- "insert into activity index"
unfoldable pub index_status : Text → ℕ → HtlcStatus → List IndexItem → List IndexItem
index_status key last_update in_flight index = insert index (pending_item key)
index_status key last_update succeeded index =
    insert (remove index (pending_item key)) (timed_item last_update key)
index_status key last_update failed index = remove index (pending_item key)
index_status key last_update pending index = index

unfoldable pub index_transaction : Text → ConfirmationTime → List IndexItem → List IndexItem
index_transaction key (confirmed height time) index =
    insert (remove index (pending_item key)) (timed_item time key)
index_transaction key (unconfirmed last_seen) index = insert index (pending_item key)

abbrev pub time_of : ConfirmationTime → Option ℕ
time_of (confirmed height time) = some time
time_of (unconfirmed last_seen) = none

-- `matches!(p.status, HTLCStatus::Succeeded | HTLCStatus::InFlight)`
abbrev pub is_listed : HtlcStatus → Bool
is_listed pending = false
is_listed in_flight = true
is_listed succeeded = true
is_listed failed = false

-- "filter" and "map" over the payments that a scan found.
unfoldable pub payment_items : Map Text PaymentInfo → List IndexItem
payment_items [] = []
payment_items ((k, v) ∷ m) =
    let rest = payment_items m in
    if is_listed v.status then timed_item v.last_update k ∷ rest else rest

abbrev pub transaction_items : Map Text TransactionDetails → List IndexItem
transaction_items m = map (λ e. record { timestamp = time_of e.1.confirmation_time; key = e.0 }) m

abbrev pub closure_items : Map Text ChannelClosure → List IndexItem
closure_items m = map (λ e. timed_item e.1.timestamp e.0) m

abbrev pub onchain_items : List TransactionDetails → List IndexItem
onchain_items txs =
    map
      (λ t. record {
        timestamp = time_of t.confirmation_time;
        key = onchain_prefix ++ t.internal_id;
      })
      txs

-- What a read gives, a failure being nothing.
abbrev pub found {ℓ} : {A : Type ℓ} → Result (Option A) → Option A
found (ok o) = o
found (err _) = none

-- `map.into_values().next()`, if the scan succeeds.
abbrev pub first_value {ℓ} : {A : Type ℓ} → Result (Map Text A) → Option A
first_value (ok ((k, v) ∷ m)) = some v
first_value (ok []) = none
first_value (err _) = none

module _ {V : Type 0} where
  abbrev pub change_index : (List IndexItem → List IndexItem) → Exec (World V) Unit
  change_index f w =
      (ok tt, record w { storage = record w.storage { activity_index = f w.activity_index } })

module _ {V : Type 0} ⦃c : Crypto⦄ ⦃j : Json V⦄ ⦃env : Env⦄ ⦃hex : Hex⦄ where
  module _ ⦃payments : Serde V PaymentInfo⦄ where
    unfoldable pub persist_payment_info : Bytes → PaymentInfo → Bool → Exec (World V) Unit
    persist_payment_info payment_hash payment_info inbound = do
      set_data (payment_key inbound payment_hash) payment_info none
      change_index (
          index_status (payment_key inbound payment_hash) payment_info.last_update
            payment_info.status)

    -- A payment of the new format, or else the first one of the old, whose key goes on.
    unfoldable pub read_payment_info : Bytes → Bool → World V → Option PaymentInfo
    read_payment_info payment_hash inbound w =
        elim (found (get_data (payment_key inbound payment_hash) w).0) [
          | some v ↦ some v
          | none ↦ first_value (scan (payment_key inbound payment_hash) w).0
        ]

    -- "try inbound first"
    unfoldable pub get_payment_info : Bytes → Exec (World V) (PaymentInfo × Bool)
    get_payment_info payment_hash w = elim (read_payment_info payment_hash true w) [
      | some info ↦ (ok (info, true), w)
      | none ↦ elim (read_payment_info payment_hash false w) [
        | some info ↦ (ok (info, false), w)
        | none ↦ (err not_found, w)
      ]
    ]

  module _ ⦃transactions : Serde V TransactionDetails⦄ where
    unfoldable pub persist_transaction_details : TransactionDetails → Exec (World V) Unit
    persist_transaction_details details = do
      set_data (transaction_details_key details.internal_id) details none
      change_index (
          index_transaction (transaction_details_key details.internal_id) details.confirmation_time)

    unfoldable pub get_transaction_details : Text → World V → Option TransactionDetails
    get_transaction_details internal_id w =
        found (get_data (transaction_details_key internal_id) w).0

  unfoldable pub delete_transaction_details : Text → Exec (World V) Unit
  delete_transaction_details txid = do
    delete (transaction_details_key txid ∷ [])
    change_index (λ index. remove index (pending_item (transaction_details_key txid)))

  module _ ⦃closures : Serde V ChannelClosure⦄ where
    unfoldable pub persist_channel_closure : Text → ℕ → ChannelClosure → Exec (World V) Unit
    persist_channel_closure node_id user_channel_id closure = do
      set_data (closure_key node_id user_channel_id) closure none
      change_index (λ index.
          insert (retain (λ i. not (i.key == closure_key node_id user_channel_id)) index)
            (timed_item closure.timestamp (closure_key node_id user_channel_id)))

  -- "populate the activity index", with the transactions that the on-chain wallet lists.
  unfoldable pub populate :
      ⦃payments : Serde V PaymentInfo⦄
      → ⦃transactions : Serde V TransactionDetails⦄ → ⦃closures : Serde V ChannelClosure⦄
      → List TransactionDetails
      → Exec (World V) Unit
  populate txs = do
    details ← scan {A = TransactionDetails} transaction_details_prefix_key
    closed ← scan {A = ChannelClosure} channel_closure_prefix
    inbound ← scan {A = PaymentInfo} payment_inbound_prefix_key
    outbound ← scan {A = PaymentInfo} payment_outbound_prefix_key
    change_index (λ index. extend index (
        onchain_items txs
        ++ (transaction_items details
            ++ (closure_items closed ++ (payment_items inbound ++ payment_items outbound)))))
