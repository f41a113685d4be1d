-- ===== src/Examples/Lock.antt =====
-- The theorems on the device lock at concrete inputs.
use mutiny_node.Prelude.{◌≡◌, refl, true, [], ◌∷◌, some, arith, ◌+◌}
use mutiny_node.Prelude.Text.{codes}
use mutiny_node.Prelude.Map.{get}
use mutiny_node.Error.{already_running}
use mutiny_node.Exec.{ok, err}
use mutiny_node.Storage.{World, set, store_value, set_data_async, get_data, read_value}
use mutiny_node.Storage.Values.{encrypt_value, decrypt_value}
use mutiny_node.Storage.Data.{plain}
use mutiny_node.Storage.Lock.{
  get_device_id, get_device_lock, set_device_lock, write_lock, device_id_key, device_lock_key,
}
use mutiny_node.Storage.Lock.Exclusion.{set_device_lock_holds}
use mutiny_node.Examples.Instances.{
  Value, string, plain_crypto, value_json, text_serde, lock_serde, test_env, empty_world,
}

-- A storage of the device "phone".
abbrev phone : World Value
phone = record empty_world {
  storage = record empty_world.storage { memory = (device_id_key, string (codes "phone")) ∷ [] };
}

abbrev with_server : World Value
with_server = record phone { storage = record phone.storage { vss_client = true } }

abbrev taken : World Value
taken = (set_device_lock with_server).1

-- The other device, half a minute later, and with what the phone sent.
abbrev laptop : World Value
laptop = record empty_world {
  storage = record empty_world.storage { memory = (device_id_key, string (codes "laptop")) ∷ [] };
  now_ms = empty_world.now_ms + 30_000;
}

set_device_lock_holds_example :
    (get_device_lock taken
      ≡ (ok (some (record { time = 1_700_000_000; device = codes "phone" })), taken))
    × ((v : Value) × (taken.sent
          ≡ record { key = device_lock_key; value = v; version = 1_700_000_000 } ∷ [])
        × (set_device_lock (set ((device_lock_key, v) ∷ []) laptop).1
            ≡ (err already_running, (set ((device_lock_key, v) ∷ []) laptop).1)))
unfolding get_device_id get_data read_value get decrypt_value set_device_lock get_device_lock
    write_lock set_data_async store_value encrypt_value
set_device_lock_holds_example =
    set_device_lock_holds (codes "phone") with_server {w' = taken} (codes "laptop") laptop plain
      refl refl (omega arith) refl (λ e. ground arith) refl (omega arith)
