-- ===== src/Examples/Lightning.antt =====
-- The theorems on the events of lightning at concrete inputs.
use mutiny_node.Prelude.{
  ℕ, map, ◌+◌, ◌≡◌, refl, true, false, not, List, [], ◌∷◌, ◌++◌, Option, none, some, arith,
  contains, retain, ◌==◌,
}
use mutiny_node.Prelude.Text.{Text, codes, text_eq}
use mutiny_node.Prelude.Map.{get}
use mutiny_node.Error.{not_found}
use mutiny_node.Exec.{ok, err}
use mutiny_node.Storage.{World, get_data, set_data, read_value, now_secs, delete}
use mutiny_node.Storage.Values.{encrypt_value, decrypt_value}
use mutiny_node.Storage.Data.{plain}
use mutiny_node.Wallet.{Machine}
use mutiny_node.Nwc.Node.{in_flight, succeeded, not_available}
use mutiny_node.Activity.{PaymentInfo, ChannelClosure}
use mutiny_node.Activity.Index.{insert, item_eq}
use mutiny_node.Activity.Persist.{
  index_status, payment_key, closure_key, timed_item, persist_payment_info, read_payment_info,
  persist_channel_closure,
}
use mutiny_node.Lightning.{
  Encodings, Ldk, SpendableOutputDescriptor, delayed_payment_output, read_descriptors,
  persist_failed_spendable_outputs, get_failed_spendable_outputs, get_key,
}
use mutiny_node.Lightning.Event.{payment_sent, channel_closed, spendable_outputs, new_closure}
use mutiny_node.Lightning.Actions.{
  handle_spendable_outputs, spend_present, spend_outputs, spending_height,
}
use mutiny_node.Lightning.Events.{handle_event}
use mutiny_node.Lightning.Settled.{Settling, handle_event-settled}
use mutiny_node.Lightning.Closed.{channel_closed_listed}
use mutiny_node.Lightning.Outputs.{spendable_outputs_kept}
use mutiny_node.Lightning.Proved.{
  PaymentHashes, AllProved, IsOfPayment, persist_payment_info-AllProved, handle_event-AllProved,
}
use mutiny_node.Examples.Instances.{
  Value, plain_crypto, value_json, payment_serde, closure_serde, open_params_serde, texts_serde,
  test_env, test_hex, empty_world,
}

abbrev payload : SpendableOutputDescriptor → Text
payload (SpendableOutputDescriptor.static_output t) = 0 ∷ t
payload (SpendableOutputDescriptor.delayed_payment_output t) = 1 ∷ t
payload (SpendableOutputDescriptor.static_payment_output t) = 2 ∷ t

abbrev parsed : Text → SpendableOutputDescriptor
parsed (ℕ.zero ∷ t) = SpendableOutputDescriptor.static_output t
parsed (ℕ.suc ℕ.zero ∷ t) = SpendableOutputDescriptor.delayed_payment_output t
parsed (ℕ.suc (ℕ.suc n) ∷ t) = SpendableOutputDescriptor.static_payment_output t
parsed [] = SpendableOutputDescriptor.static_output []

parsed-payload : (d : SpendableOutputDescriptor) → parsed (payload d) ≡ d
parsed-payload (SpendableOutputDescriptor.static_output t) = refl
parsed-payload (SpendableOutputDescriptor.delayed_payment_output t) = refl
parsed-payload (SpendableOutputDescriptor.static_payment_output t) = refl

instance abbrev test_encodings : Encodings
test_encodings = record {
  decimal = λ n. n ∷ [];
  to_be_bytes = λ n. n ∷ [];
  to_hex = payload;
  from_hex = λ t. ok (parsed t);
  from_hex-to_hex = λ d. rw (parsed-payload d) refl;
}

-- A development kit that counts what is asked of it, and cannot spend any output.
instance abbrev test_ldk : Ldk Value ℕ
test_ldk = record {
  claim_funds = λ p n. ℕ.suc n;
  accept_inbound_channel = λ t p i n. ℕ.suc n;
  accept_inbound_channel_from_trusted_peer_0conf = λ t p i n. ℕ.suc n;
  force_close_without_broadcasting_txn = λ t p n. ℕ.suc n;
  funding_transaction_generated = λ t p x n. (ok tt, ℕ.suc n);
  process_pending_htlc_forwards = λ n. n;
  current_best_block_height = λ n. 100;
  has_lsp = false;
  get_expected_skimmed_fee_msat = λ h a n. 0;
  get_lsp_pubkey = λ n. ([], n);
  create_signed_psbt_to_spk = λ s v f n. (ok [], n);
  create_sweep_psbt_to_output = λ u s v f n. (ok [], n);
  label_psbt = λ p l m. m;
  extract_tx = λ p. p;
  broadcast_transaction = λ t n. (ok tt, n);
  get_normal_fee_rate = λ n. 1;
  lock_time_from_height = some;
  spend_spendable_outputs = λ d f l n. (err not_found, n);
  bump_transaction = λ t n. n;
  random_height = λ n. 1;
  random_channel_id = λ n. n;
}

abbrev sent_payment : PaymentInfo
sent_payment = record {
  preimage = none;
  secret = none;
  status = in_flight;
  amt_msat = some 5000;
  fee_paid_msat = none;
  bolt11 = none;
  payee_pubkey = none;
  privacy_level = not_available;
  last_update = 0;
}

abbrev paying : Machine Value ℕ
paying = record {
  world = (persist_payment_info (9 ∷ []) sent_payment false empty_world).1;
  outside = 0;
}

abbrev resting : Machine Value ℕ
resting = record { world = empty_world; outside = 0 }

abbrev paid_payment : PaymentInfo
paid_payment = record sent_payment {
  status = succeeded;
  preimage = some (7 ∷ []);
  fee_paid_msat = some 3;
  last_update = now_secs empty_world;
}

abbrev paid_world : World Value
paid_world = (persist_payment_info (9 ∷ []) paid_payment false paying.world).1

handle_event-settled_example :
    (handle_event (codes "n") (payment_sent (7 ∷ []) (9 ∷ []) (some 3)) paying
      ≡ some (record paying { world = paid_world }))
    × (get_data (payment_key false (9 ∷ [])) paid_world ≡ (ok (some paid_payment), paid_world))
    × (contains paid_world.activity_index
          (timed_item (now_secs empty_world) (payment_key false (9 ∷ [])))
        ≡ true)
unfolding persist_payment_info set_data encrypt_value payment_key read_payment_info get_data
    read_value get decrypt_value index_status insert mutiny_node.Prelude.Map.insert
handle_event-settled_example =
    handle_event-settled (codes "n") (payment_sent (7 ∷ []) (9 ∷ []) (some 3)) (9 ∷ []) paying
      {w' = paid_world} {saved = sent_payment}
      (timed_item (now_secs empty_world) (payment_key false (9 ∷ []))) plain (tt, tt)
      (Settling.sent (7 ∷ []) (9 ∷ []) (some 3)) refl refl

-- The hash of a preimage, for a test: each byte plus two.
instance abbrev test_hashes : PaymentHashes
test_hashes = record { sha256 = λ p. map (λ x. x + 2) p }

nothing_sent-AllProved : AllProved empty_world
unfolding get_data read_value get
nothing_sent-AllProved h = tt

-- One payment has succeeded, another is in flight.
abbrev one_paid : World Value
one_paid = (persist_payment_info (9 ∷ []) paid_payment false empty_world).1

abbrev two_sent : Machine Value ℕ
two_sent = record {
  world = (persist_payment_info (10 ∷ []) sent_payment false one_paid).1;
  outside = 0;
}

two_sent-AllProved : AllProved two_sent.world
unfolding persist_payment_info set_data encrypt_value
two_sent-AllProved =
    persist_payment_info-AllProved (10 ∷ []) sent_payment one_paid plain
      (λ h. absurd (ground arith))
      (persist_payment_info-AllProved (9 ∷ []) paid_payment empty_world plain
        (λ h. (7 ∷ [], refl, refl)) nothing_sent-AllProved)

handle_event-AllProved_example :
    (m' : Machine Value ℕ) × (handle_event
        (codes "n")
        (payment_sent (8 ∷ []) (10 ∷ []) (some 3))
        two_sent
      ≡ some m')
    × AllProved m'.world
unfolding persist_payment_info set_data encrypt_value
handle_event-AllProved_example =
    handle_event-AllProved (codes "n") (payment_sent (8 ∷ []) (10 ∷ []) (some 3)) two_sent
      (IsOfPayment.sent (8 ∷ []) (10 ∷ []) (some 3) refl) plain two_sent-AllProved

abbrev closed_world : World Value
closed_world =
    (persist_channel_closure (codes "n") 5
      (new_closure 5 (6 ∷ []) none (codes "bye") (now_secs empty_world)) empty_world).1

channel_closed_listed_example :
    (handle_event (codes "n") (channel_closed (6 ∷ []) (codes "bye") 5 none) resting
      ≡ some (record resting { world = closed_world }))
    × (get_data {A = ChannelClosure} (closure_key (codes "n") 5) closed_world ≡ (
      ok (
          some (record {
            user_channel_id = some (5 ∷ []);
            channel_id = some (6 ∷ []);
            node_id = none;
            reason = codes "bye";
            timestamp = now_secs empty_world;
          })),
      closed_world,
    ))
    × (closed_world.activity_index
        ≡ insert
            (retain (λ i. not (i.key == closure_key (codes "n") 5)) [])
            (timed_item (now_secs empty_world) (closure_key (codes "n") 5)))
unfolding persist_channel_closure set_data encrypt_value handle_event delete
    mutiny_node.Lightning.delete_channel_open_params mutiny_node.Prelude.Map.remove
channel_closed_listed_example =
    channel_closed_listed (codes "n") 5 (6 ∷ []) (codes "bye") none resting {m1 = resting}
      {w' = closed_world} plain refl refl

abbrev an_output : SpendableOutputDescriptor
an_output = SpendableOutputDescriptor.delayed_payment_output (codes "out")

abbrev unspent : Machine Value ℕ
unspent = (handle_spendable_outputs (an_output ∷ []) resting).1

abbrev stored_world : World Value
stored_world = (persist_failed_spendable_outputs (codes "n") (an_output ∷ []) unspent.world).1

spendable_outputs_kept_example :
    (handle_event (codes "n") (spendable_outputs (an_output ∷ [])) resting
      ≡ some (record unspent { world = stored_world }))
    × (get_failed_spendable_outputs (codes "n") stored_world
        ≡ (ok ([] ++ (an_output ∷ [])), stored_world))
unfolding get_failed_spendable_outputs get_data read_value get read_descriptors
    handle_spendable_outputs spend_present spend_outputs spending_height
    persist_failed_spendable_outputs set_data encrypt_value
spendable_outputs_kept_example =
    spendable_outputs_kept (codes "n") (an_output ∷ []) [] resting {m1 = unspent}
      {w' = stored_world} {e = not_found} plain refl refl refl
