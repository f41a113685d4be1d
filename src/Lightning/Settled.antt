-- ===== src/Lightning/Settled.antt =====
-- The payments of lightning: which record an event of a payment leaves.
use mutiny_node.Prelude.{ℕ, ◌≡◌, false, List, Option, some, arith, contains}
use mutiny_node.Prelude.Text.{Text, text_eq}
use mutiny_node.Exec.{ok}
use mutiny_node.Encrypt.{Crypto, Bytes}
use mutiny_node.Storage.Values.{Json, Serde, IndexItem}
use mutiny_node.Storage.{World, Env, get_data, now_secs}
use mutiny_node.Storage.Data.{IsKeyed}
use mutiny_node.Wallet.{Machine}
use mutiny_node.Nwc.Node.{succeeded, failed}
use mutiny_node.Activity.{PaymentInfo, ChannelClosure}
use mutiny_node.Activity.Index.{IsSorted, item_eq}
use mutiny_node.Activity.Persist.{Hex, payment_key, persist_payment_info, read_payment_info}
use mutiny_node.Activity.Persist.Laws.{holds_payment, persist_payment_info_lem}
use mutiny_node.Lightning.{ChannelOpenParams, Encodings, Ldk}
use mutiny_node.Lightning.Event.{Event, payment_sent, payment_failed, sent_info, failed_info}
use mutiny_node.Lightning.Events.{handle_event}

-- What becomes of the record of a payment that was sent, at an event of it.
pub data Settling (now : ℕ) : Event → Bytes → (PaymentInfo → PaymentInfo) → Type 0 where
  sent :
      (payment_preimage payment_hash : Bytes) (fee_paid_msat : Option ℕ)
      → Settling now (payment_sent payment_preimage payment_hash fee_paid_msat) payment_hash (λ i.
        record i {
          status = succeeded;
          preimage = some payment_preimage;
          fee_paid_msat = fee_paid_msat;
          last_update = now;
        })
  gave_up :
      (payment_hash : Bytes)
      → Settling now
          (payment_failed payment_hash)
          payment_hash
          (λ i. record i { status = failed; last_update = now })

module _ {V E : Type 0} ⦃c : Crypto⦄ ⦃j : Json V⦄ ⦃env : Env⦄ ⦃hex : Hex⦄ ⦃enc : Encodings⦄
    ⦃ldk : Ldk V E⦄ ⦃strings : Serde V (List Text)⦄ ⦃params : Serde V ChannelOpenParams⦄
    ⦃closures : Serde V ChannelClosure⦄ ⦃payments : Serde V PaymentInfo⦄ where
  -- If the cipher is that of the password, the index is sorted without repetitions, a sent payment has a
  -- record, and the new one can be written, then after the event that it was paid or has failed the
  -- record is read back with that outcome and the time of the event, all else as it was, the index holds
  -- the payment as its outcome says, and nothing but the storage has changed.
  pub handle_event-settled :
      (node_id : Text) (e : Event) (payment_hash : Bytes) (m : Machine V E) {w' : World V}
      {f : PaymentInfo → PaymentInfo} {saved : PaymentInfo} (item : IndexItem)
      → IsKeyed m.world.password m.world.cipher
      → IsSorted m.world.activity_index
      → Settling (now_secs m.world) e payment_hash f
      → read_payment_info payment_hash false m.world ≡ some saved
      → persist_payment_info payment_hash (f saved) false m.world ≡ (ok tt, w')
      → (handle_event node_id e m ≡ some (record m { world = w' }))
        × (get_data (payment_key false payment_hash) w' ≡ (ok (some (f saved)), w'))
        × (contains w'.activity_index item
            ≡ holds_payment
                (payment_key false payment_hash)
                (f saved).last_update
                (f saved).status
                item
                (contains m.world.activity_index item))
  unfolding handle_event sent_info failed_info
  handle_event-settled node_id e payment_hash m {w'} {saved = saved} item k s (sent preimage _ fee)
        r q =
      let i = record saved {
        status = succeeded;
        preimage = some preimage;
        fee_paid_msat = fee;
        last_update = now_secs m.world;
      } in
      let (read, _, all) =
        persist_payment_info_lem payment_hash i false m.world {w' = w'} item k s q in
      (ground arith, read, all)
  handle_event-settled node_id e payment_hash m {w'} {saved = saved} item k s (gave_up _) r q =
      let i = record saved { status = failed; last_update = now_secs m.world } in
      let (read, _, all) =
        persist_payment_info_lem payment_hash i false m.world {w' = w'} item k s q in
      (ground arith, read, all)
