-- ===== src/Storage/Lock.antt =====
-- The device lock: mutiny-core/src/storage.rs. A device that finds no fresh lock of another one writes
-- its own, which is also uploaded. The times of a lock are `u32`.
pub mod Exclusion
use mutiny_node.Prelude.{
  ℕ, ◌-◌, ◌*◌, ◌%◌, ◌^◌, Bool, true, false, not, ◌&&◌, Option, none, some, ◌==◌, ltb, suc,
  if◌then◌else◌,
}
use mutiny_node.Prelude.Text.{Text, codes, text_eq}
use mutiny_node.Error.{already_running}
use mutiny_node.Exec.{Exec, ok, pure, raise, gets, ◌>>=◌, ◌>>◌}
use mutiny_node.Encrypt.{Crypto}
use mutiny_node.Storage.Values.{Json, Serde}
use mutiny_node.Storage.{World, Env, now_secs, draw, set_data, set_data_async, get_data}

pub record DeviceLock : Type 0 where
  pub time : ℕ
  pub device : Text

-- lib.rs
abbrev pub device_lock_interval_secs : ℕ
device_lock_interval_secs = 30

abbrev pub device_id_key : Text
device_id_key = codes "device_id"

abbrev pub device_lock_key : Text
device_lock_key = codes "device_lock"

-- Both subtractions saturate.
unfoldable pub remaining_secs : ℕ → DeviceLock → ℕ
remaining_secs now lock = device_lock_interval_secs * 2 - (now - lock.time)

unfoldable pub is_last_locker : Text → DeviceLock → Bool
is_last_locker id lock = lock.device == id

unfoldable pub is_locked : ℕ → Text → DeviceLock → Bool
is_locked now id lock =
    ltb (now - lock.time) (device_lock_interval_secs * 2) && not (lock.device == id)

module _ {V : Type 0} ⦃c : Crypto⦄ ⦃j : Json V⦄ ⦃env : Env⦄ ⦃texts : Serde V Text⦄
    ⦃locks : Serde V DeviceLock⦄ where
  -- The id of the device is a random one, made when it is first asked for.
  unfoldable pub get_device_id : Exec (World V) Text
  get_device_id = do
    found ← get_data device_id_key
    elim found [
      | some id ↦ pure id
      | none ↦ (do
        n ← gets (λ w. w.draws)
        let new_id = env.new_uuid n
        λ w. set_data device_id_key new_id none (draw w)
        pure new_id)
    ]

  unfoldable pub get_device_lock : Exec (World V) (Option DeviceLock)
  get_device_lock = get_data device_lock_key

  -- The lock that a device writes at a time.
  unfoldable pub write_lock : Text → Exec (World V) Unit
  write_lock device w =
      let time = now_secs w % 2 ^ 32 in
      set_data_async {A = DeviceLock} device_lock_key (record { time = time; device = device })
        (some time) w

  unfoldable pub set_device_lock : Exec (World V) Unit
  set_device_lock = do
    device ← get_device_id
    lock ← get_device_lock
    now ← gets now_secs
    elim lock [
      | none ↦ write_lock device
      | some lock ↦ if is_locked now device lock then raise already_running else write_lock device
    ]
