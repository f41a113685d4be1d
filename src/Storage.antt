-- ===== src/Storage.antt =====
-- mutiny-core/src/storage.rs: `MemoryStorage`, and the methods that the trait `MutinyStorage` defines
-- on top of an implementation, at that implementation. Its locks are taken with `try_read` and
-- `try_write` and released within each call; calls are not nested, so they are always free.
--
-- `V` is `serde_json::Value`. What the crates give is the instances: `Json V` for texts of JSON,
-- `Serde V A` for the derived conversions of a type `A`, `Crypto`, and `Env` for what the outside
-- decides (random ids and bytes, the answers of the VSS server).
pub mod Values
pub mod Data
pub mod Written
pub mod Times
pub mod Lock
pub mod Delayed
pub mod Password
use mutiny_node.Prelude.{
  ℕ, suc, ◌+◌, ◌/◌, ◌≡◌, Bool, true, false, ◌&&◌, ◌||◌, List, [], ◌∷◌, ◌++◌, Option, none, some,
  inl, inr, ◌==◌, if◌then◌else◌, length, retain, unwrap_or,
}
use mutiny_node.Prelude.Text.{Text, codes, starts_with, text_eq}
use mutiny_node.Prelude.Map.{Map, get, insert, remove}
use mutiny_node.Error.{MutinyError, MutinyStorageError, persistence_failed, read_error}
use mutiny_node.Exec.{Result, ok, err, and_then, Exec, pure, lift, ◌>>=◌, ◌>>◌}
use mutiny_node.Encrypt.{Crypto, Cipher, Bytes}
use Values.{
  Json, Serde, encrypt_value, decrypt_value, to_data, from_data, VssKeyValueItem,
  DelayedKeyValueItem, IndexItem,
}

pub record MemoryStorage (V : Type 0) : Type 0 where
  pub password : Option Text
  pub cipher : Option Cipher
  pub memory : Map Text V
  -- is a `MutinyVssClient` configured?
  pub vss_client : Bool
  pub delayed_keys : Map Text (DelayedKeyValueItem V)
  pub activity_index : List IndexItem

-- The storage and what stands around it.
pub record World (V : Type 0) : Type 0 where
  pub storage : MemoryStorage V
  pub open storage use *
  -- the clock, in milliseconds since the epoch
  pub now_ms : ℕ
  -- how many random values were drawn
  pub draws : ℕ
  -- the objects handed to `put_objects` of the VSS client, oldest first
  pub sent : List (VssKeyValueItem V)

pub record Env : Type 0 where
  -- `Uuid::new_v4().to_string()`, the n-th draw
  pub new_uuid : ℕ → Text
  -- `getrandom` into the buffer of a nonce or a salt, the n-th draw
  pub random_nonce : ℕ → Bytes
  pub random_salt : ℕ → Bytes
  -- `get_random_bip32_child_index()`, the n-th draw
  pub random_child : ℕ → ℕ
  pub length-random_nonce : (n : ℕ) → length (random_nonce n) ≡ 12
  pub length-random_salt : (n : ℕ) → length (random_salt n) ≡ 16
  -- what the server answers to the n-th `put_objects`
  pub put_result : ℕ → Result (Unit {0})

-- `now().as_secs()`
abbrev pub now_secs : {V : Type 0} → World V → ℕ
now_secs w = w.now_ms / 1000

module _ {V : Type 0} where
  unfoldable pub set_items : List (Text × V) → World V → World V
  set_items [] w = w
  set_items ((k, v) ∷ items) w =
      set_items items (record w { storage = record w.storage { memory = insert w.memory k v } })

  -- `MemoryStorage::set`
  unfoldable pub set : List (Text × V) → Exec (World V) Unit
  unfolding set_items
  set items w = (ok tt, set_items items w)

  -- `MemoryStorage::get` at the type `Value`
  abbrev pub get_value : Text → World V → Option V
  get_value key w = get w.memory key

  unfoldable pub delete_keys : List Text → World V → World V
  delete_keys [] w = w
  delete_keys (k ∷ keys) w =
      delete_keys keys (record w { storage = record w.storage { memory = remove w.memory k } })

  -- `MemoryStorage::delete`
  unfoldable pub delete : List Text → Exec (World V) Unit
  unfolding delete_keys
  delete keys w = (ok tt, delete_keys keys w)

  -- The keys of the map that pass the filter of `scan_keys`, with no suffix asked for.
  abbrev pub keys_with : Text → Map Text V → List Text
  keys_with prefix [] = []
  keys_with prefix ((k, v) ∷ m) =
      if starts_with k prefix then k ∷ keys_with prefix m else keys_with prefix m

  -- `MemoryStorage::scan_keys`
  abbrev pub scan_keys : Text → World V → List Text
  scan_keys prefix w = keys_with prefix w.memory

  unfoldable pub change_password : Option Text → Option Cipher → World V → World V
  change_password new new_cipher w = record w {
    storage = record w.storage { password = new; cipher = new_cipher };
  }

  -- The call of `put_objects` with one object.
  abbrev pub put_object : VssKeyValueItem V → World V → World V
  put_object item w = record w { sent = w.sent ++ (item ∷ []) }

  -- The key-value pair leaves the machine only if a client is there and a version is given.
  abbrev pub put_versioned : Text → V → Option ℕ → World V → World V
  put_versioned key value none w = w
  put_versioned key value (some version) w =
      if w.vss_client
      then put_object (record { key = key; value = value; version = version }) w
      else w

  abbrev pub draw : World V → World V
  draw w = record w { draws = suc w.draws }

-- The server's answer to the upload that `set_data_async` makes, if it makes one.
abbrev pub put_answer : {V : Type 0} ⦃env : Env⦄ → Option ℕ → World V → Result (Unit {0})
put_answer none w = ok tt
put_answer ⦃env⦄ (some version) w = if w.vss_client then env.put_result (length w.sent) else ok tt

module _ {V : Type 0} ⦃c : Crypto⦄ ⦃j : Json V⦄ ⦃env : Env⦄ where
  -- `encrypt_value` and `set` of `set_data`: the nonce is the next draw.
  unfoldable pub store_value : Text → V → Exec (World V) Unit
  unfolding set
  store_value key value w =
      (do
        json ← lift (encrypt_value (env.random_nonce w.draws) key value w.cipher)
        set ((key, json) ∷ []))
        (draw w)

  module _ {A : Type 0} ⦃s : Serde V A⦄ where
    -- The upload is spawned, so its failure is only logged.
    unfoldable pub set_data : Text → A → Option ℕ → Exec (World V) Unit
    unfolding store_value
    set_data key value version = do
      data' ← lift (to_data value)
      λ w. store_value key data' (put_versioned key data' version w)

    -- `set_data_async`: the local write, then the upload, whose failure is the caller's.
    unfoldable pub set_data_async : Text → A → Option ℕ → Exec (World V) Unit
    unfolding store_value
    set_data_async key value version = do
      data' ← lift (to_data value)
      store_value key data'
      λ w. (put_answer version w, put_versioned key data' version w)

    unfoldable pub read_value : Text → Option Text → Option V → Result (Option A)
    read_value key password none = ok none
    read_value key password (some value) =
        and_then (decrypt_value key value password)
          λ json. and_then (from_data json) λ x. ok (some x)

    -- `get_data`
    unfoldable pub get_data : Text → Exec (World V) (Option A)
    get_data key w = (read_value key w.password (get_value key w), w)

    -- The loop of `scan` over the keys found.
    unfoldable pub scan_loop : List Text → Map Text A → Exec (World V) (Map Text A)
    unfolding get_data
    scan_loop [] m = pure m
    scan_loop (key ∷ keys) m = do
      kv ← get_data key
      scan_loop keys (elim kv [ none ↦ m | some v ↦ insert m key v ])

    -- `scan` with no suffix
    unfoldable pub scan : Text → Exec (World V) (Map Text A)
    unfolding scan_loop
    scan prefix w = scan_loop (scan_keys prefix w) [] w
