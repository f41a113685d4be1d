-- ===== src/Storage/Delayed.antt =====
-- Writes whose upload waits: `set_data_async_queue_remote` of mutiny-core/src/storage.rs. The write is
-- made at once, the upload by a task that sleeps first and gives up if a later write of the key has
-- been queued in the meantime. Tasks wake in any order, at or after the end of their sleep; an upload is one step.
pub mod Quiescence
pub mod Drain
use mutiny_node.Prelude.{
  ℕ, ◌+◌, ◌≤◌, ◌≡◌, Bool, List, [], ◌∷◌, ◌++◌, Option, none, some, ◌==◌, nat_eq, if◌then◌else◌,
}
use mutiny_node.Prelude.Text.{Text, text_eq}
use mutiny_node.Prelude.Map.{Map, get, insert}
use mutiny_node.Exec.{Result, ok, err, Exec, pure, lift, ◌>>=◌, ◌>>◌}
use mutiny_node.Encrypt.{Crypto}
use mutiny_node.Storage.Values.{Json, Serde, to_data, DelayedKeyValueItem, vss_item}
use mutiny_node.Storage.{World, Env, store_value, put_object}

abbrev pub delayed_write_ms : ℕ
delayed_write_ms = 50

-- A spawned task: what it may upload, and when its sleep ends.
pub record Task (V : Type 0) : Type 0 where
  pub original_item : DelayedKeyValueItem V
  pub due : ℕ

pub record Remote (V : Type 0) : Type 0 where
  pub world : World V
  pub tasks : List (Task V)

module _ {V : Type 0} where
  -- The item is the one of its key, and a task is spawned for it.
  unfoldable pub queue : Text → V → ℕ → Remote V → Remote V
  queue key value version r =
      if r.world.vss_client
      then (let item : DelayedKeyValueItem V = record {
        key = key;
        value = value;
        version = version;
        write_time = r.world.now_ms;
      } in
          record {
            world = record r.world {
              storage = record r.world.storage {
                delayed_keys = insert r.world.delayed_keys key item;
              };
            };
            tasks =
                r.tasks
                ++ (record { original_item = item; due = r.world.now_ms + delayed_write_ms } ∷ []);
          })
      else r

  -- What the task does when it wakes.
  unfoldable pub wake : DelayedKeyValueItem V → World V → World V
  wake item w = elim (get w.delayed_keys item.key) [
    | none ↦ w
    | some key_to_check ↦
        if key_to_check.write_time == item.write_time then put_object (vss_item item) w else w
  ]

module _ {V : Type 0} ⦃c : Crypto⦄ ⦃j : Json V⦄ ⦃env : Env⦄ where
  -- After the conversion to JSON: "save locally first", then the queue.
  unfoldable pub queue_value : Text → V → ℕ → Exec (Remote V) Unit
  queue_value key value version r =
      let (done, w) = store_value key value r.world in
      let r' : Remote V = record r { world = w } in
      elim done [ err e ↦ (err e, r') | ok _ ↦ (ok tt, queue key value version r') ]

  unfoldable pub set_data_async_queue_remote :
      {A : Type 0} ⦃s : Serde V A⦄ → Text → A → ℕ → Exec (Remote V) Unit
  set_data_async_queue_remote key value version = do
    data' ← lift (to_data value)
    queue_value key data' version

  -- What can happen next: a write, with success or not, the passing of time, or the end of a sleep.
  pub data Step (r : Remote V) : Remote V → Type 0 where
    write :
        (key : Text) (value : V) (version : ℕ) {done : Result (Unit {0})} {r' : Remote V}
        → queue_value key value version r ≡ (done, r')
        → Step r r'
    tick : (ms : ℕ) → Step r (record r { world = record r.world { now_ms = r.world.now_ms + ms } })
    run :
        (before after : List (Task V)) (t : Task V)
        → r.tasks ≡ before ++ (t ∷ after)
        → t.due ≤ r.world.now_ms
        → Step r (record { world = wake t.original_item r.world; tasks = before ++ after })

  pub data Reach (r : Remote V) : Remote V → Type 0 where
    here : Reach r r
    next : {s t : Remote V} → Reach r s → Step s t → Reach r t
