-- ===== src/Storage/Delayed/Drain.antt =====
-- The tasks can always run to the end, and then the write that came last was handed to the server.
use mutiny_node.Prelude.{
  ℕ, ◌+◌, ◌≡◌, refl, ap, subst, ◌∙◌, inl, inr, true, List, [], ◌∷◌, some, arith, ==_self,
}
use mutiny_node.Prelude.Text.{Text, text_eq}
use mutiny_node.Prelude.Map.{get, get-insert}
use mutiny_node.Exec.{ok, Result-cases}
use mutiny_node.Encrypt.{Crypto}
use mutiny_node.Storage.Values.{Json, DelayedKeyValueItem, vss_item}
use mutiny_node.Storage.{World, Env, store_value}
use mutiny_node.Storage.Delayed.{
  Task, Remote, queue, wake, queue_value, tick, run, Reach, here, next,
}
use mutiny_node.Storage.Delayed.Quiescence.{
  IsTracked, WasSent, wake-delayed_keys, queue_value-IsTracked, store_value-keeps, Reach-WasSent,
}

module _ {V : Type 0} ⦃c : Crypto⦄ ⦃j : Json V⦄ ⦃env : Env⦄ where
  -- A state that is reached with no task left and the same items queued.
  pub record Drained (r : Remote V) : Type 0 where
    pub end : Remote V
    pub reach : Reach r end
    pub no_tasks : end.tasks ≡ []
    pub same : end.world.delayed_keys ≡ r.world.delayed_keys

  abbrev later : ℕ → Remote V → Remote V
  later ms r = record r { world = record r.world { now_ms = r.world.now_ms + ms } }

  Reach-trans : {r s t : Remote V} → Reach r s → Reach s t → Reach r t
  Reach-trans a here = a
  Reach-trans a (next b st) = next (Reach-trans a b) st

  -- Time passes until the first task's sleep is over, and it runs.
  run_first : (t : Task V) (ts : List (Task V)) (w : World V) → Remote V
  run_first t ts w = record {
    world = wake t.original_item (record w { now_ms = w.now_ms + t.due });
    tasks = ts;
  }

  Reach-run_first :
      (t : Task V) (ts : List (Task V)) (w : World V)
      → Reach (record { world = w; tasks = t ∷ ts }) (run_first t ts w)
  unfolding run_first
  Reach-run_first t ts w = next (next here (tick t.due)) (run [] ts t refl (omega arith))

  pub drain : (ts : List (Task V)) (w : World V) → Drained (record { world = w; tasks = ts })
  unfolding run_first
  drain [] w = record {
    end = record { world = w; tasks = [] };
    reach = here;
    no_tasks = refl;
    same = refl;
  }
  drain (t ∷ ts) w =
      let w1 = wake t.original_item (record w { now_ms = w.now_ms + t.due }) in
      let rest = drain ts w1 in
      record {
        end = rest.end;
        reach = Reach-trans (Reach-run_first t ts w) rest.reach;
        no_tasks = rest.no_tasks;
        same =
            rest.same ∙ wake-delayed_keys t.original_item (record w { now_ms = w.now_ms + t.due });
      }

  queued_item :
      (key : Text) (value : V) (version : ℕ) (r : Remote V) {r' : Remote V}
      → r.world.vss_client ≡ true
      → queue_value key value version r ≡ (ok tt, r')
      → (item : DelayedKeyValueItem V) × (get r'.world.delayed_keys key ≡ some item)
        × (vss_item item ≡ record { key = key; value = value; version = version })
  unfolding queue_value queue
  queued_item key value version r {r'} on e =
      let keeps = store_value-keeps key value r.world in
      let w = (store_value key value r.world).1 in
      let item : DelayedKeyValueItem V = record {
        key = key;
        value = value;
        version = version;
        write_time = w.now_ms;
      } in
      elim (Result-cases (store_value key value r.world).0) [
        | inr (_, q) ↦ absurd (ground arith)
        | inl (_, q) ↦
            (item, ground (arith, get-insert w.delayed_keys key item key, ==_self key), refl)
      ]

  -- If a server is configured and the last items are tracked, then after a delayed write that succeeds
  -- there is a way for time to pass and the tasks to run, after which none is left and the server has
  -- been sent the value with its key and version.
  pub queue_value_uploads :
      (key : Text) (value : V) (version : ℕ) (r : Remote V) {r' : Remote V}
      → IsTracked r
      → r.world.vss_client ≡ true
      → queue_value key value version r ≡ (ok tt, r')
      → (s : Remote V) × Reach r' s
        × (s.tasks ≡ [])
        × WasSent (record { key = key; value = value; version = version }) s.world.sent
  queue_value_uploads key value version r {r'} inv on e =
      let d = drain r'.tasks r'.world in
      let (item, h, v) = queued_item key value version r {r' = r'} on e in
      let inv1 : IsTracked r' =
        subst IsTracked (ap (λ p. p.1) e) (queue_value-IsTracked key value version r inv) in
      (
        d.end,
        d.reach,
        d.no_tasks,
        subst (λ x. WasSent x d.end.world.sent) v
            (Reach-WasSent key item inv1 d.reach d.no_tasks (rw d.same h)),
      )
