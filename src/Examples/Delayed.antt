-- ===== src/Examples/Delayed.antt =====
-- The theorems on the delayed uploads at concrete inputs.
use mutiny_node.Prelude.{◌≡◌, refl, [], true, arith}
use mutiny_node.Prelude.Text.{codes, text_eq}
use mutiny_node.Prelude.Map.{get, insert}
use mutiny_node.Storage.{store_value}
use mutiny_node.Storage.Values.{DelayedKeyValueItem, vss_item, encrypt_value, needs_encryption}
use mutiny_node.Storage.Delayed.{
  Remote, write, tick, run, Reach, here, next, queue_value, queue, wake,
}
use mutiny_node.Storage.Delayed.Quiescence.{IsTracked, WasSent, Reach-WasSent}
use mutiny_node.Storage.Delayed.Drain.{queue_value_uploads}
use mutiny_node.Examples.Instances.{Value, string, plain_crypto, value_json, test_env, locked_world}

-- A storage with a server.
abbrev idle : Remote Value
idle = record {
  world = record locked_world { storage = record locked_world.storage { vss_client = true } };
  tasks = [];
}

idle-IsTracked : IsTracked idle
unfolding get
idle-IsTracked = record {
  key_of = λ k item h. absurd (ground arith);
  covered = λ k item h. absurd (ground arith);
}

abbrev queued : Remote Value
queued = (queue_value (codes "graph") (string (codes "a")) 3 idle).1

-- What the task uploads.
abbrev graph_item : DelayedKeyValueItem Value
graph_item = record {
  key = codes "graph";
  value = string (codes "a");
  version = 3;
  write_time = 1_700_000_000_000;
}

abbrev later : Remote Value
later = record queued { world = record queued.world { now_ms = 1_700_000_000_050 } }

abbrev done : Remote Value
done = record { world = wake graph_item later.world; tasks = [] }

queued-done : Reach idle done
unfolding queue_value store_value encrypt_value needs_encryption queue
queued-done =
    next (next (next here (write (codes "graph") (string (codes "a")) 3 refl)) (tick 50)) (
      run [] [] (record { original_item = graph_item; due = 1_700_000_000_050 }) refl (omega arith))

Reach-WasSent_example : WasSent (vss_item graph_item) done.world.sent
unfolding queue_value store_value encrypt_value needs_encryption queue wake get insert
Reach-WasSent_example =
    Reach-WasSent (codes "graph") graph_item idle-IsTracked queued-done refl refl

queue_value_uploads_example :
    (s : Remote Value) × Reach queued s
    × (s.tasks ≡ [])
    × WasSent (record { key = codes "graph"; value = string (codes "a"); version = 3 }) s.world.sent
unfolding queue_value store_value encrypt_value needs_encryption
queue_value_uploads_example =
    queue_value_uploads (codes "graph") (string (codes "a")) 3 idle {r' = queued} idle-IsTracked
      refl refl
