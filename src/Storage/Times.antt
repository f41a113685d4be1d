-- ===== src/Storage/Times.antt =====
-- The flags and the sync times that the storage keeps: mutiny-core/src/storage.rs.
pub mod Forward
use mutiny_node.Prelude.{ℕ, Bool, Option, none, ltb, if◌then◌else◌, unwrap_or}
use mutiny_node.Prelude.Text.{Text, codes, text_eq}
use mutiny_node.Exec.{Exec, pure, ◌>>=◌}
use mutiny_node.Encrypt.{Crypto}
use mutiny_node.Storage.Values.{Json, Serde}
use mutiny_node.Storage.{World, Env, set_data, get_data}

abbrev pub first_sync_key : Text
first_sync_key = codes "first_sync"

abbrev pub dm_sync_key : Bool → Text
dm_sync_key is_hermes =
    if is_hermes then codes "last_hermes_sync_time" else codes "last_dm_sync_time"

abbrev pub last_nwc_sync_time_key : Text
last_nwc_sync_time_key = codes "last_nwc_sync_time"

module _ {V : Type 0} ⦃c : Crypto⦄ ⦃j : Json V⦄ ⦃env : Env⦄ ⦃times : Serde V ℕ⦄ where
  -- The write of a sync time, which only goes forward.
  unfoldable pub advance_time : Text → ℕ → Exec (World V) Unit
  advance_time key time = do
    current ← get_data key
    if ltb (unwrap_or current 0) time then set_data key time none else pure tt

  unfoldable pub get_dm_sync_time : Bool → Exec (World V) (Option ℕ)
  get_dm_sync_time is_hermes = get_data (dm_sync_key is_hermes)

  unfoldable pub set_dm_sync_time : ℕ → Bool → Exec (World V) Unit
  unfolding advance_time
  set_dm_sync_time time is_hermes = advance_time (dm_sync_key is_hermes) time

  unfoldable pub get_nwc_sync_time : Exec (World V) (Option ℕ)
  get_nwc_sync_time = get_data last_nwc_sync_time_key

  unfoldable pub set_nwc_sync_time : ℕ → Exec (World V) Unit
  unfolding advance_time
  set_nwc_sync_time time = advance_time last_nwc_sync_time_key time
