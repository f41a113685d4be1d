-- ===== src/Examples/Labelled.antt =====
-- The activity of a label at a concrete input.
use mutiny_node.Prelude.{◌≡◌, refl, true, [], ◌∷◌, none, some, map, retain}
use mutiny_node.Prelude.Text.{codes}
use mutiny_node.Prelude.Map.{get, insert}
use mutiny_node.Exec.{ok, ◌>>=◌}
use mutiny_node.Storage.{World, get_data, set_data, read_value}
use mutiny_node.Storage.Values.{encrypt_value, decrypt_value}
use mutiny_node.Labels.{LabelItem}
use mutiny_node.Labels.Keys.{get_label_item_key}
use mutiny_node.Labels.Store.{invoice, get_label, get_target_labels}
use mutiny_node.Nwc.Node.{succeeded, not_available}
use mutiny_node.Activity.{PaymentInfo}
use mutiny_node.Activity.Persist.{index_status, payment_key, persist_payment_info}
use mutiny_node.Activity.Read.{activities}
use mutiny_node.Activity.Read.Labelled.{HashText, is_of, get_label_activity, get_label_activity_lem}
use mutiny_node.Examples.Instances.{
  Value, plain_crypto, value_json, payment_serde, details_serde, closure_serde, label_map_serde,
  item_serde, contact_serde, test_env, test_hex, test_bolt11, test_invoice_text, test_more,
  test_parsers, test_ledger, empty_world,
}

instance abbrev test_hash_text : HashText
test_hash_text = record { sha256_from_str = λ t. ok t }

abbrev shop_payment : PaymentInfo
shop_payment = record {
  preimage = some (7 ∷ []);
  secret = none;
  status = succeeded;
  amt_msat = some 5000;
  fee_paid_msat = none;
  bolt11 = none;
  payee_pubkey = none;
  privacy_level = not_available;
  last_update = 1;
}

abbrev shop_item : LabelItem
shop_item = record { addresses = []; invoices = (5000 ∷ (9 ∷ [])) ∷ []; last_used_time = 1 }

abbrev shop_world : World Value
shop_world =
    (set_data (get_label_item_key (codes "shop")) shop_item none
      (persist_payment_info (9 ∷ []) shop_payment true empty_world).1).1

get_label_activity_lem_example :
    get_label_activity (codes "shop") shop_world
    ≡ (do
      labels_map ← get_target_labels invoice
      activities labels_map (
          retain
            (is_of (map test_bolt11.payment_hash shop_item.invoices))
            shop_world.activity_index))
        shop_world
unfolding get_label get_data read_value get decrypt_value set_data encrypt_value insert
    persist_payment_info payment_key index_status mutiny_node.Activity.Index.insert
    mutiny_node.Activity.Index.remove
get_label_activity_lem_example =
    get_label_activity_lem (codes "shop") shop_item shop_world refl ((λ inbound h. (_, refl)), tt)
