-- ===== src/Activity/Persist/Laws.antt =====
-- The activity index after each of the writes.
use mutiny_node.Prelude.{
  ℕ, ◌≡◌, refl, Bool, true, not, ◌||◌, ◌&&◌, List, none, some, inl, inr, arith, ◌==◌, contains,
}
use mutiny_node.Prelude.Text.{Text, text_eq}
use mutiny_node.Exec.{ok, ◌>>◌, Result-cases}
use mutiny_node.Encrypt.{Crypto, Bytes}
use mutiny_node.Storage.Values.{Json, Serde, IndexItem}
use mutiny_node.Storage.{World, Env, set_data, get_data, store_value}
use mutiny_node.Storage.Data.{IsKeyed}
use mutiny_node.Storage.Written.{Agree, set_data-Written, get_data-Agree}
use mutiny_node.Nwc.Node.{HtlcStatus, pending, in_flight, succeeded, failed}
use mutiny_node.Activity.{ConfirmationTime, confirmed, unconfirmed, TransactionDetails, PaymentInfo}
use mutiny_node.Activity.Index.{
  insert, remove, item_eq, IsSorted, insert-IsSorted, remove-IsSorted, contains-insert,
  contains-remove,
}
use mutiny_node.Activity.Persist.{
  Hex, pending_item, timed_item, payment_key, transaction_details_key, change_index, index_status,
  index_transaction, persist_payment_info, persist_transaction_details,
}

-- Which items a set holds after a payment was written: one that is in flight is pending, one that
-- succeeded is timed and no longer pending, one that failed is no longer pending.
abbrev pub holds_payment : Text → ℕ → HtlcStatus → IndexItem → Bool → Bool
holds_payment key last_update pending item before = before
holds_payment key last_update in_flight item before = pending_item key == item || before
holds_payment key last_update succeeded item before =
    timed_item last_update key == item || (not (pending_item key == item) && before)
holds_payment key last_update failed item before = not (pending_item key == item) && before

holds_payment-timed :
    (key : Text) (last_update : ℕ) (status : HtlcStatus) (t : ℕ) (k : Text)
    → holds_payment key last_update status (timed_item t k) true ≡ true
holds_payment-timed key last_update pending t k = refl
holds_payment-timed key last_update in_flight t k = refl
holds_payment-timed key last_update succeeded t k = ground arith
holds_payment-timed key last_update failed t k = refl

abbrev pub holds_transaction : Text → ConfirmationTime → IndexItem → Bool → Bool
holds_transaction key (confirmed height time) item before =
    timed_item time key == item || (not (pending_item key == item) && before)
holds_transaction key (unconfirmed last_seen) item before = pending_item key == item || before

module _ (key : Text) (time : ℕ) (index : List IndexItem) (item : IndexItem)
    (s : IsSorted index) where
  contains-index_status :
      (status : HtlcStatus)
      → contains (index_status key time status index) item
        ≡ holds_payment key time status item (contains index item)
  unfolding index_status
  contains-index_status pending = refl
  contains-index_status in_flight = contains-insert index (pending_item key) item
  contains-index_status succeeded = ground (
    arith,
    contains-insert (remove index (pending_item key)) (timed_item time key) item,
    contains-remove index (pending_item key) item s,
  )
  contains-index_status failed = contains-remove index (pending_item key) item s

  contains-index_transaction :
      (when : ConfirmationTime)
      → contains (index_transaction key when index) item
        ≡ holds_transaction key when item (contains index item)
  unfolding index_transaction
  contains-index_transaction (confirmed height t) = ground (
    arith,
    contains-insert (remove index (pending_item key)) (timed_item t key) item,
    contains-remove index (pending_item key) item s,
  )
  contains-index_transaction (unconfirmed last_seen) = contains-insert index (pending_item key) item

module _ (key : Text) (time : ℕ) (index : List IndexItem) (s : IsSorted index) where
  settled-IsSorted :
      (t : ℕ) → IsSorted (insert (remove index (pending_item key)) (timed_item t key))
  settled-IsSorted t =
      insert-IsSorted (remove index (pending_item key)) (timed_item t key)
        (remove-IsSorted index (pending_item key) s)

  index_status-IsSorted : (status : HtlcStatus) → IsSorted (index_status key time status index)
  unfolding index_status
  index_status-IsSorted pending = s
  index_status-IsSorted in_flight = insert-IsSorted index (pending_item key) s
  index_status-IsSorted succeeded = settled-IsSorted time
  index_status-IsSorted failed = remove-IsSorted index (pending_item key) s

  index_transaction-IsSorted :
      (when : ConfirmationTime) → IsSorted (index_transaction key when index)
  unfolding index_transaction
  index_transaction-IsSorted (confirmed height t) = settled-IsSorted t
  index_transaction-IsSorted (unconfirmed last_seen) = insert-IsSorted index (pending_item key) s

module _ {V : Type 0} ⦃c : Crypto⦄ ⦃j : Json V⦄ ⦃env : Env⦄ ⦃hex : Hex⦄ where
  -- A record is written, and then the index changed.
  module _ {A : Type 0} ⦃serde : Serde V A⦄ where
    pub set_data-activity_index :
        (key : Text) (a : A) (w : World V)
        → (set_data key a none w).1.activity_index ≡ w.activity_index
    unfolding set_data store_value
    set_data-activity_index key a w = ground arith

    pub set_data-change_index :
        (key : Text) (a : A) (f : List IndexItem → List IndexItem) (w : World V) {w' : World V}
        → IsKeyed w.password w.cipher
        → (set_data key a none >> change_index f) w ≡ (ok tt, w')
        → (get_data {A = A} key w' ≡ (ok (some a), w')) × (w'.activity_index ≡ f w.activity_index)
    set_data-change_index key a f w {w'} k e =
        let r = set_data key a none w in
        let same = set_data-activity_index key a w in
        elim (Result-cases r.0) [
          | inr (_, q) ↦ absurd (ground arith)
          | inl (_, q) ↦
              let d = set_data-Written key a none w {w' = r.1} k (ground arith) in
              let agree : Agree key r.1 w' = record {
                memory = ground arith;
                password = ground arith;
              } in
              (get_data-Agree {A = A} key {r = some a} agree d.read, ground arith)
        ]

  module _ ⦃payments : Serde V PaymentInfo⦄ where
    -- If the cipher is that of the password and the index is sorted without repetitions, then after a
    -- payment was persisted with success it is read back, the index is still sorted, and it holds what
    -- it held before, but for the items of the payment: pending in flight, timed after success, and
    -- not pending after success or failure.
    pub persist_payment_info_lem :
        (payment_hash : Bytes) (info : PaymentInfo) (inbound : Bool) (w : World V) {w' : World V}
        (item : IndexItem)
        → IsKeyed w.password w.cipher
        → IsSorted w.activity_index
        → persist_payment_info payment_hash info inbound w ≡ (ok tt, w')
        → (get_data (payment_key inbound payment_hash) w' ≡ (ok (some info), w'))
          × IsSorted w'.activity_index
          × (contains w'.activity_index item
              ≡ holds_payment
                  (payment_key inbound payment_hash)
                  info.last_update
                  info.status
                  item
                  (contains w.activity_index item))
    unfolding persist_payment_info
    persist_payment_info_lem payment_hash info inbound w {w'} item k s e =
        let key = payment_key inbound payment_hash in
        let (read, after) =
          set_data-change_index key info (index_status key info.last_update info.status) w {w' = w'}
            k e in
        (
          read,
          rw after (index_status-IsSorted key info.last_update w.activity_index s info.status),
          rw after (contains-index_status key info.last_update w.activity_index item s info.status),
        )

    -- An entry of a payment with a time is never taken out by a write of a payment: not if the time has
    -- changed, and not if the payment has failed.
    pub persist_payment_info-timed :
        (payment_hash : Bytes) (info : PaymentInfo) (inbound : Bool) (w : World V) {w' : World V}
        (t : ℕ) (key : Text)
        → IsKeyed w.password w.cipher
        → IsSorted w.activity_index
        → persist_payment_info payment_hash info inbound w ≡ (ok tt, w')
        → contains w.activity_index (timed_item t key) ≡ true
        → contains w'.activity_index (timed_item t key) ≡ true
    persist_payment_info-timed payment_hash info inbound w {w'} t key k s e h =
        let (_, _, all) =
          persist_payment_info_lem payment_hash info inbound w {w' = w'} (timed_item t key) k s e in
        ground (
          arith,
          holds_payment-timed (payment_key inbound payment_hash) info.last_update info.status t key,
        )

  module _ ⦃transactions : Serde V TransactionDetails⦄ where
    -- If the cipher is that of the password and the index is sorted without repetitions, then after the
    -- details of a transaction were persisted with success they are read back, the index is still
    -- sorted, and it holds what it held before, but for the items of the transaction: pending if
    -- unconfirmed, timed and not pending if confirmed.
    pub persist_transaction_details_lem :
        (details : TransactionDetails) (w : World V) {w' : World V} (item : IndexItem)
        → IsKeyed w.password w.cipher
        → IsSorted w.activity_index
        → persist_transaction_details details w ≡ (ok tt, w')
        → (get_data (transaction_details_key details.internal_id) w' ≡ (ok (some details), w'))
          × IsSorted w'.activity_index
          × (contains w'.activity_index item
              ≡ holds_transaction
                  (transaction_details_key details.internal_id)
                  details.confirmation_time
                  item
                  (contains w.activity_index item))
    unfolding persist_transaction_details
    persist_transaction_details_lem details w {w'} item k s e =
        let key = transaction_details_key details.internal_id in
        let (read, after) =
          set_data-change_index key details (index_transaction key details.confirmation_time) w
            {w' = w'} k e in
        (
          read,
          rw after (index_transaction-IsSorted key 0 w.activity_index s details.confirmation_time),
          rw after
              (contains-index_transaction key 0 w.activity_index item s details.confirmation_time),
        )
