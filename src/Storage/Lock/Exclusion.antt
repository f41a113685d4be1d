-- ===== src/Storage/Lock/Exclusion.antt =====
-- A fresh device lock keeps other devices out.
use mutiny_node.Prelude.{
  ℕ, Option-cases, [], ◌∷◌, ◌++◌, ◌+◌, ◌^◌, ◌<◌, ◌≡◌, ◌≢◌, ◌↔◌, inl, inr, true, false, some, arith,
  ==_iff,
}
use mutiny_node.Prelude.Text.{Text, text_eq}
use mutiny_node.Prelude.Map.{get-insert}
use mutiny_node.Error.{already_running}
use mutiny_node.Exec.{ok, err, Result-cases}
use mutiny_node.Encrypt.{Crypto}
use mutiny_node.Storage.Values.{Json, Serde, needs_encryption, decrypt_value}
use mutiny_node.Storage.{World, Env, now_secs, set, set_data_async, get_data, read_value}
use mutiny_node.Storage.Data.{IsKeyed, get_data-set_data_async, set_data_async-sent}
use mutiny_node.Storage.Lock.{
  DeviceLock, device_lock_key, remaining_secs, is_last_locker, is_locked, device_id_key,
  get_device_id, get_device_lock, write_lock, set_device_lock,
}

-- A lock locks a device out exactly while it has seconds left and is not that device's own.
is_locked-iff-remaining_secs :
    (now : ℕ) (id : Text) (lock : DeviceLock)
    → (is_locked now id lock ≡ true)
      ↔ ((0 < remaining_secs now lock) × (is_last_locker id lock ≡ false))
unfolding is_locked remaining_secs is_last_locker
is_locked-iff-remaining_secs now id lock = ground arith

module _ {V : Type 0} ⦃c : Crypto⦄ ⦃j : Json V⦄ ⦃env : Env⦄ ⦃texts : Serde V Text⦄
    ⦃locks : Serde V DeviceLock⦄ where
  -- A device that reads a lock of another one that has seconds left is refused.
  set_device_lock_excluded :
      (device : Text) (lock : DeviceLock) (w : World V)
      → get_device_id w ≡ (ok device, w)
      → get_device_lock w ≡ (ok (some lock), w)
      → lock.device ≢ device
      → 0 < remaining_secs (now_secs w) lock
      → set_device_lock w ≡ (err already_running, w)
  unfolding set_device_lock is_locked remaining_secs
  set_device_lock_excluded device lock w d l other fresh = ground (arith, ==_iff lock.device device)

  received_lock_fresh :
      (u : World V) (v : V) (lock : DeviceLock)
      → now_secs u < lock.time + 60
      → 0 < remaining_secs (now_secs (set ((device_lock_key, v) ∷ []) u).1) lock
  unfolding remaining_secs set
  received_lock_fresh u v lock h = omega arith

  -- A device with an id that was sent the lock of another one reads it.
  received_lock :
      (u : World V) (v : V) {other : Text} {lock : DeviceLock}
      → get_data {A = Text} device_id_key u ≡ (ok (some other), u)
      → locks.from_value v ≡ some lock
      → let r = (set ((device_lock_key, v) ∷ []) u).1 in
        (get_device_id r ≡ (ok other, r)) × (get_device_lock r ≡ (ok (some lock), r))
  unfolding get_device_id get_device_lock get_data read_value set decrypt_value needs_encryption
  received_lock u v d h = (
    ground (arith, get-insert u.memory device_lock_key v device_id_key),
    elim (Option-cases u.password) [
      | inl p ↦ ground (arith, get-insert u.memory device_lock_key v device_lock_key)
      | inr (pw, p) ↦ ground (arith, get-insert u.memory device_lock_key v device_lock_key)
    ],
  )

  -- If the cipher is that of the password, a server is configured, the device has an id, and the time fits a
  -- `u32`, then a `set_device_lock` that succeeds leaves the device's own lock of that time to be read, and
  -- has sent it to the server with the time as its version. If another device, less than 60 seconds
  -- later, has stored what was sent, its `set_device_lock` fails with `AlreadyRunning` and changes nothing.
  pub set_device_lock_holds :
      (device : Text) (w : World V) {w' : World V} (other : Text) (u : World V)
      → IsKeyed w.password w.cipher
      → w.vss_client ≡ true
      → get_device_id w ≡ (ok device, w)
      → now_secs w < 2 ^ 32
      → set_device_lock w ≡ (ok tt, w')
      → device ≢ other
      → get_data {A = Text} device_id_key u ≡ (ok (some other), u)
      → now_secs u < now_secs w + 60
      → (get_device_lock w' ≡ (ok (some (record { time = now_secs w; device = device })), w'))
        × ((v : V) × (w'.sent
              ≡ w.sent ++ (record { key = device_lock_key; value = v; version = now_secs w } ∷ []))
            × (set_device_lock (set ((device_lock_key, v) ∷ []) u).1
                ≡ (err already_running, (set ((device_lock_key, v) ∷ []) u).1)))
  unfolding set_device_lock write_lock get_device_lock is_locked get_data
  set_device_lock_holds device w {w'} other u sealed vss d small h apart theirs soon =
      let lock : DeviceLock = record { time = now_secs w; device = device } in
      elim (Result-cases (get_device_lock w).0) [
        | inr (_, q) ↦ absurd (ground arith)
        | inl (_, q) ↦
            let written : set_data_async {A = DeviceLock} device_lock_key lock (some (now_secs w)) w
                ≡ (ok tt, w') =
              ground arith in
            let (v, back, sent) =
              set_data_async-sent device_lock_key lock (now_secs w) w {w' = w'} vss written in
            let (id, read) = received_lock u v {other = other} {lock = lock} theirs back in
            (
              get_data-set_data_async device_lock_key lock (some (now_secs w)) w {w' = w'} sealed
                  written,
              (
                v,
                sent,
                set_device_lock_excluded other lock (set ((device_lock_key, v) ∷ []) u).1 id read
                    apart (received_lock_fresh u v lock soon),
              ),
            )
      ]
