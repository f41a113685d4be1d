-- ===== src/Examples/Activity.antt =====
-- The theorems on the activity at concrete inputs.
use mutiny_node.Prelude.{◌≡◌, refl, true, [], ◌∷◌, none, some, arith, replicate, contains}
use mutiny_node.Prelude.Text.{codes}
use mutiny_node.Prelude.Map.{get, insert}
use mutiny_node.Exec.{ok}
use mutiny_node.Storage.{World, get_data, set_data, scan, read_value}
use mutiny_node.Storage.Values.{encrypt_value, decrypt_value}
use mutiny_node.Storage.Data.{plain}
use mutiny_node.Nwc.Node.{MutinyInvoice, in_flight, succeeded, failed, not_available}
use mutiny_node.Activity.{PaymentInfo, TransactionDetails, confirmed}
use mutiny_node.Activity.Index.{IsSorted, item_eq}
use mutiny_node.Activity.Invoices.{invoice_of, payment_info_of}
use mutiny_node.Activity.Invoices.Kept.{invoice_kept}
use mutiny_node.Encrypt.{Bytes}
use mutiny_node.Activity.Persist.{
  payment_key, timed_item, pending_item, persist_payment_info, read_payment_info, populate,
}
use mutiny_node.Activity.Persist.Laws.{persist_payment_info_lem}
use mutiny_node.Activity.Persist.Restart.{populate_then_persist}
use mutiny_node.Examples.Instances.{
  Value, plain_crypto, value_json, payment_serde, details_serde, closure_serde, test_env, test_hex,
  test_bolt11, test_invoice_text, test_more, test_orders, empty_world,
}

abbrev a_transaction : TransactionDetails
a_transaction = record {
  transaction = none;
  txid = none;
  internal_id = codes "id";
  received = 5;
  sent = 0;
  fee = none;
  confirmation_time = confirmed 1 1;
  labels = [];
}

abbrev an_invoice : MutinyInvoice
an_invoice = record {
  bolt11 = none;
  description = none;
  payment_hash = 9 ∷ [];
  preimage = some (codes "aa");
  payee_pubkey = none;
  amount_sats = some 5000;
  expire = 0;
  status = succeeded;
  privacy_level = not_available;
  fees_paid = some 3;
  inbound = true;
  labels = [];
  last_updated = 100;
}

abbrev a_payment : PaymentInfo
a_payment = record {
  preimage = some (codes "aa");
  secret = none;
  status = in_flight;
  amt_msat = some 5000;
  fee_paid_msat = some 3000;
  bolt11 = none;
  payee_pubkey = none;
  privacy_level = not_available;
  last_update = 100;
}

-- 5000 sats come back as 5.
abbrev an_image : Bytes
an_image = replicate 32 7

abbrev kept_payment : PaymentInfo
kept_payment = record a_payment { preimage = some an_image; status = succeeded }

abbrev kept_world : World Value
kept_world = (persist_payment_info (9 ∷ []) kept_payment true empty_world).1

invoice_kept_example :
    (q : PaymentInfo) × (read_payment_info (9 ∷ []) true kept_world ≡ some q)
    × (let back = invoice_of q (9 ∷ []) true [] in
        (back.amount_sats ≡ some 5)
        × (back.preimage ≡ some an_image)
        × (back.fees_paid ≡ some 3)
        × (back.status ≡ succeeded)
        × (back.last_updated ≡ 100)
        × (back.labels ≡ []))
unfolding payment_info_of persist_payment_info set_data encrypt_value
invoice_kept_example =
    invoice_kept (record an_invoice { preimage = some an_image }) (some an_image) (9 ∷ []) true []
      empty_world {p = kept_payment} {w' = kept_world} plain refl refl (omega arith) refl refl

abbrev in_flight_world : World Value
in_flight_world = (persist_payment_info (9 ∷ []) a_payment true empty_world).1

persist_payment_info_lem_example :
    (get_data (payment_key true (9 ∷ [])) in_flight_world ≡ (ok (some a_payment), in_flight_world))
    × IsSorted in_flight_world.activity_index
    × (contains in_flight_world.activity_index (pending_item (payment_key true (9 ∷ []))) ≡ true)
unfolding persist_payment_info set_data encrypt_value payment_key
persist_payment_info_lem_example =
    persist_payment_info_lem (9 ∷ []) a_payment true empty_world {w' = in_flight_world}
      (pending_item (payment_key true (9 ∷ []))) plain tt refl

-- The wallet starts again with an empty index; then the payment fails.
abbrev restarted : World Value
restarted =
    (populate [] (record in_flight_world {
      storage = record in_flight_world.storage { activity_index = [] };
    })).1

abbrev failed_world : World Value
failed_world =
    (persist_payment_info (9 ∷ []) (record a_payment { status = failed; last_update = 200 }) true
      restarted).1

populate_then_persist_example :
    contains failed_world.activity_index (timed_item 100 (payment_key true (9 ∷ []))) ≡ true
unfolding persist_payment_info set_data encrypt_value scan insert payment_key read_value get
    decrypt_value populate
populate_then_persist_example =
    populate_then_persist []
      (record in_flight_world { storage = record in_flight_world.storage { activity_index = [] } })
      {w1 = restarted} {w' = failed_world} (9 ∷ []) true a_payment
      (record a_payment { status = failed; last_update = 200 })
      {m = (payment_key true (9 ∷ []), a_payment) ∷ []} plain tt refl refl refl refl refl
