-- ===== src/Lightning/Closed.antt =====
-- Which channels are listed as closed.
use mutiny_node.Prelude.{ℕ, ◌≡◌, not, List, Option, none, some, arith, retain, ◌==◌, ==_self}
use mutiny_node.Prelude.Text.{Text, text_eq}
use mutiny_node.Prelude.Map.{get, get-remove}
use mutiny_node.Exec.{ok}
use mutiny_node.Encrypt.{Crypto, Bytes}
use mutiny_node.Storage.Values.{Json, Serde}
use mutiny_node.Storage.{World, Env, get_data, delete, read_value, now_secs}
use mutiny_node.Storage.Data.{IsKeyed}
use mutiny_node.Storage.Written.{set_data-Written}
use mutiny_node.Wallet.{Machine}
use mutiny_node.Activity.{PaymentInfo, ChannelClosure}
use mutiny_node.Activity.Index.{insert}
use mutiny_node.Activity.Persist.{Hex, closure_key, timed_item, persist_channel_closure}
use mutiny_node.Activity.Persist.Laws.{set_data-activity_index, set_data-change_index}
use mutiny_node.Labels.Keys.{remove_all}
use mutiny_node.Lightning.{
  ChannelOpenParams, Encodings, Ldk, get_key, channel_open_params_key, get_channel_open_params,
  persist_channel_open_params, delete_channel_open_params,
}
use mutiny_node.Lightning.Event.{channel_closed, channel_pending, force_closed_prefix, new_closure}
use mutiny_node.Lightning.Events.{handle_event, channel_closed_handler}

module _ {V E : Type 0} ⦃c : Crypto⦄ ⦃j : Json V⦄ ⦃env : Env⦄ ⦃hex : Hex⦄ ⦃enc : Encodings⦄
    ⦃ldk : Ldk V E⦄ ⦃strings : Serde V (List Text)⦄ ⦃params : Serde V ChannelOpenParams⦄
    ⦃closures : Serde V ChannelClosure⦄ ⦃payments : Serde V PaymentInfo⦄ where
  -- If the cipher is that of the password, a channel got pending and is closed later, and the closure can
  -- be written, then it is read back with its reason and the time of the event, and the activity index
  -- has it at that time, in place of any item of its key. Between the two events nothing happens.
  pub channel_closed_listed :
      (node_id : Text) (id : ℕ) (channel_id : Bytes) (reason : Text) (counterparty : Option Text)
      (m : Machine V E) {m1 : Machine V E} {w' : World V}
      → IsKeyed m1.world.password m1.world.cipher
      → handle_event node_id (channel_pending id) m ≡ some m1
      → persist_channel_closure node_id id
          (new_closure id channel_id counterparty reason (now_secs m1.world))
          m1.world
        ≡ (ok tt, w')
      → (handle_event node_id (channel_closed channel_id reason id counterparty) m1
          ≡ some (record m1 { world = w' }))
        × (get_data {A = ChannelClosure} (closure_key node_id id) w' ≡ (
          ok (
              some (record {
                user_channel_id = some (enc.to_be_bytes id);
                channel_id = some channel_id;
                node_id = counterparty;
                reason = reason;
                timestamp = now_secs m.world;
              })),
          w',
        ))
        × (w'.activity_index
            ≡ insert
                (retain (λ i. not (i.key == closure_key node_id id)) m.world.activity_index)
                (timed_item (now_secs m.world) (closure_key node_id id)))
  unfolding handle_event channel_closed_handler get_channel_open_params get_data read_value
      delete_channel_open_params delete persist_channel_closure new_closure
  channel_closed_listed node_id id channel_id reason counterparty m {m1} {w'} k h p =
      let key = get_key node_id (channel_open_params_key id) in
      let closure : ChannelClosure = record {
        user_channel_id = some (enc.to_be_bytes id);
        channel_id = some channel_id;
        node_id = counterparty;
        reason = reason;
        timestamp = now_secs m1.world;
      } in
      let (read, after) =
        set_data-change_index (closure_key node_id id) closure _ m1.world {w' = w'} k p in
      let gone : get m1.world.memory key ≡ none =
        ground (arith, get-remove m.world.memory key key, ==_self key) in
      let clock : m1.world.now_ms ≡ m.world.now_ms = ground arith in
      let index : m1.world.activity_index ≡ m.world.activity_index = ground arith in
      (ground arith, ground (arith, read), ground (arith, after))

  -- If the cipher is that of the password, a channel that is being opened is closed before it got pending,
  -- and its parameters can be written, then they are read back with the reason, without the words of the
  -- development kit, as their failure, and the activity index stays as it is.
  pub channel_closed_unlisted :
      (node_id : Text) (id : ℕ) (channel_id : Bytes) (reason : Text) (counterparty : Option Text)
      (m : Machine V E) {p : ChannelOpenParams} {w' : World V}
      → IsKeyed m.world.password m.world.cipher
      → get_channel_open_params node_id id m.world ≡ (ok (some p), m.world)
      → persist_channel_open_params node_id id
          (record p { failure_reason = some (remove_all force_closed_prefix reason) })
          m.world
        ≡ (ok tt, w')
      → (handle_event node_id (channel_closed channel_id reason id counterparty) m
          ≡ some (record m { world = w' }))
        × (get_channel_open_params node_id id w' ≡ (
          ok (some (record p { failure_reason = some (remove_all force_closed_prefix reason) })),
          w',
        ))
        × (w'.activity_index ≡ m.world.activity_index)
  unfolding handle_event channel_closed_handler get_channel_open_params persist_channel_open_params
  channel_closed_unlisted node_id id channel_id reason counterparty m {p} {w'} k g h =
      let key = get_key node_id (channel_open_params_key id) in
      let new = record p { failure_reason = some (remove_all force_closed_prefix reason) } in
      let d = set_data-Written key new none m.world {w' = w'} k h in
      let same = set_data-activity_index key new m.world in (ground arith, d.read, ground arith)
