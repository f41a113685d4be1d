-- ===== src/Examples/Pending.antt =====
-- The theorems on the invoices that wait for an approval, at concrete inputs.
use mutiny_node.Prelude.{◌≡◌, refl, [], ◌∷◌, none, some}
use mutiny_node.Prelude.Map.{get, insert}
use mutiny_node.Exec.{ok}
use mutiny_node.Storage.{World, set_data, read_value, get_data}
use mutiny_node.Storage.Values.{encrypt_value, decrypt_value}
use mutiny_node.Storage.Data.{plain}
use mutiny_node.Nwc.Pending.{
  PendingNwcInvoice, get_pending_nwc_invoices, save_pending_nwc_invoice, remove_pending_nwc_invoice,
}
use mutiny_node.Nwc.Pending.Stored.{get_pending-save_pending, get_pending-remove_pending}
use mutiny_node.Examples.Instances.{
  Value, plain_crypto, value_json, number_serde, pending_serde, test_env, test_bolt11, test_node,
  empty_world,
}

abbrev waiting : PendingNwcInvoice
waiting = record {
  index = some 1000;
  invoice = 5_000 ∷ 9 ∷ 0 ∷ [];
  event_id = 7 ∷ [];
  pubkey = 1 ∷ [];
  identifier = none;
}

abbrev saved : World Value
saved =
    (save_pending_nwc_invoice (some 1000) (7 ∷ []) (1 ∷ []) (5_000 ∷ 9 ∷ 0 ∷ []) none empty_world).1

abbrev removed : World Value
removed = (remove_pending_nwc_invoice (9 ∷ []) saved).1

get_pending-save_pending_example : get_pending_nwc_invoices saved ≡ (ok (waiting ∷ []), saved)
unfolding save_pending_nwc_invoice get_pending_nwc_invoices get_data read_value get set_data
    encrypt_value insert decrypt_value
get_pending-save_pending_example =
    get_pending-save_pending (some 1000) (7 ∷ []) (1 ∷ []) (5_000 ∷ 9 ∷ 0 ∷ []) none empty_world
      {l = []} {w' = saved} plain refl refl

get_pending-remove_pending_example : get_pending_nwc_invoices removed ≡ (ok [], removed)
unfolding save_pending_nwc_invoice get_pending_nwc_invoices remove_pending_nwc_invoice get_data
    read_value get set_data encrypt_value insert decrypt_value
get_pending-remove_pending_example =
    get_pending-remove_pending (9 ∷ []) saved {l = waiting ∷ []} {w' = removed} plain refl refl
