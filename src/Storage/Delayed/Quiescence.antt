-- ===== src/Storage/Delayed/Quiescence.antt =====
-- Once no task is left, the last write of every key has been uploaded.
use mutiny_node.Prelude.{
  ℕ, ◌+◌, ◌≡◌, refl, sym, ap, subst, ◌⊎◌, inl, inr, Bool, true, false, List, [], ◌∷◌, ◌++◌, some,
  arith, ◌==◌, ==_iff, ==_self, nat_eq, if◌then◌else◌, Bool-cases, Option-cases,
}
use mutiny_node.Prelude.Text.{Text, text_eq}
use mutiny_node.Prelude.Map.{get, get-insert}
use mutiny_node.Exec.{Result-cases}
use mutiny_node.Encrypt.{Crypto}
use mutiny_node.Storage.Values.{Json, DelayedKeyValueItem, VssKeyValueItem, vss_item}
use mutiny_node.Storage.{World, Env, store_value}
use mutiny_node.Storage.Delayed.{
  delayed_write_ms, Task, Remote, queue, wake, queue_value, Step, write, tick, run, Reach, here,
  next,
}

module _ {V : Type 0} where
  abbrev pub HasTask : DelayedKeyValueItem V → List (Task V) → Type 0
  HasTask item [] = ⊥
  HasTask item (t ∷ ts) = (t.original_item ≡ item) ⊎ HasTask item ts

  abbrev pub WasSent : VssKeyValueItem V → List (VssKeyValueItem V) → Type 0
  WasSent x [] = ⊥
  WasSent x (y ∷ ys) = (y ≡ x) ⊎ WasSent x ys

  HasTask-append_right :
      (item : DelayedKeyValueItem V) (xs ys : List (Task V))
      → HasTask item ys
      → HasTask item (xs ++ ys)
  HasTask-append_right item [] ys h = h
  HasTask-append_right item (x ∷ xs) ys h = inr (HasTask-append_right item xs ys h)

  HasTask-append_left :
      (item : DelayedKeyValueItem V) (xs ys : List (Task V))
      → HasTask item xs
      → HasTask item (xs ++ ys)
  HasTask-append_left item [] ys h = elim h [ ]
  HasTask-append_left item (x ∷ xs) ys (inl e) = inl e
  HasTask-append_left item (x ∷ xs) ys (inr h) = inr (HasTask-append_left item xs ys h)

  WasSent-push :
      (x y : VssKeyValueItem V) (xs : List (VssKeyValueItem V))
      → WasSent x xs
      → WasSent x (xs ++ (y ∷ []))
  WasSent-push x y [] h = elim h [ ]
  WasSent-push x y (z ∷ xs) (inl e) = inl e
  WasSent-push x y (z ∷ xs) (inr h) = inr (WasSent-push x y xs h)

  WasSent-push_self :
      (x : VssKeyValueItem V) (xs : List (VssKeyValueItem V)) → WasSent x (xs ++ (x ∷ []))
  WasSent-push_self x [] = inl refl
  WasSent-push_self x (z ∷ xs) = inr (WasSent-push_self x xs)

  -- A task taken out of the list: it was the one, or another that is still there.
  HasTask-remove :
      (item : DelayedKeyValueItem V) (before after : List (Task V)) (t : Task V)
      → HasTask item (before ++ (t ∷ after))
      → (t.original_item ≡ item) ⊎ HasTask item (before ++ after)
  HasTask-remove item [] after t (inl e) = inl e
  HasTask-remove item [] after t (inr h) = inr h
  HasTask-remove item (b ∷ before) after t (inl e) = inr (inl e)
  HasTask-remove item (b ∷ before) after t (inr h) = elim (HasTask-remove item before after t h) [
    | inl e ↦ inl e
    | inr k ↦ inr (inr k)
  ]

  -- The last item queued for a key has a task, or was uploaded.
  pub record IsTracked (r : Remote V) : Type 0 where
    pub key_of :
        (k : Text) (item : DelayedKeyValueItem V)
        → get r.world.delayed_keys k ≡ some item
        → item.key ≡ k
    pub covered :
        (k : Text) (item : DelayedKeyValueItem V)
        → get r.world.delayed_keys k ≡ some item
        → HasTask item r.tasks ⊎ WasSent (vss_item item) r.world.sent

  pub wake-delayed_keys :
      (item : DelayedKeyValueItem V) (w : World V) → (wake item w).delayed_keys ≡ w.delayed_keys
  unfolding wake
  wake-delayed_keys item w = ground arith

  wake-WasSent :
      (item : DelayedKeyValueItem V) (w : World V) (x : VssKeyValueItem V)
      → WasSent x w.sent
      → WasSent x (wake item w).sent
  unfolding wake
  wake-WasSent item w x h = elim (Option-cases (get w.delayed_keys item.key)) [
    | inl e ↦ rw (e, wake) h
    | inr (cur, e) ↦ elim (Bool-cases (cur.write_time == item.write_time)) [
      | inl q ↦ rw (e, wake, q) (WasSent-push x (vss_item item) w.sent h)
      | inr q ↦ rw (e, wake, q) h
    ]
  ]

  -- A task whose item is the last of its key uploads it.
  wake-WasSent_self :
      (item : DelayedKeyValueItem V) (w : World V)
      → get w.delayed_keys item.key ≡ some item
      → WasSent (vss_item item) (wake item w).sent
  unfolding wake
  wake-WasSent_self item w e =
      rw (e, wake, ==_self item.write_time) (WasSent-push_self (vss_item item) w.sent)

  run-IsTracked :
      (r : Remote V) (before after : List (Task V)) (t : Task V)
      → r.tasks ≡ before ++ (t ∷ after)
      → IsTracked r
      → IsTracked (record { world = wake t.original_item r.world; tasks = before ++ after })
  run-IsTracked r before after t e inv =
      let same = wake-delayed_keys t.original_item r.world in
      record {
        key_of = λ k item h. inv.key_of k item (rw (← same) h);
        covered = λ k item h.
            let h0 : get r.world.delayed_keys k ≡ some item = rw (← same) h in
            elim (inv.covered k item h0) [
              | inr sent ↦ inr (wake-WasSent t.original_item r.world (vss_item item) sent)
              | inl waits ↦
                  elim (HasTask-remove item before after t (subst (HasTask item) e waits)) [
                    | inr still ↦ inl still
                    | inl mine ↦
                        let at_key : get r.world.delayed_keys item.key ≡ some item =
                          subst (λ x. get r.world.delayed_keys x ≡ some item)
                            (sym (inv.key_of k item h0)) h0 in
                        inr (rw mine (wake-WasSent_self item r.world at_key))
                  ]
            ];
      }

  -- Both branches of a test are tracked.
  either : (b : Bool) {r s : Remote V} → IsTracked r → IsTracked s → IsTracked (if b then r else s)
  either true x y = x
  either false x y = y

  queue-IsTracked :
      (key : Text) (value : V) (version : ℕ) (r : Remote V)
      → IsTracked r
      → IsTracked (queue key value version r)
  unfolding queue
  queue-IsTracked key value version r inv =
      let item : DelayedKeyValueItem V = record {
        key = key;
        value = value;
        version = version;
        write_time = r.world.now_ms;
      } in
      let new : Task V = record { original_item = item; due = r.world.now_ms + delayed_write_ms } in
      either r.world.vss_client
        (record {
          key_of = λ k it h. elim (Bool-cases (key == k)) [
            | inl q ↦ ground (arith, get-insert r.world.delayed_keys key item k, ==_iff key k)
            | inr q ↦ inv.key_of k it (ground (arith, get-insert r.world.delayed_keys key item k))
          ];
          covered = λ k it h. elim (Bool-cases (key == k)) [
            | inl q ↦
                let same : item ≡ it = ground (arith, get-insert r.world.delayed_keys key item k) in
                inl (HasTask-append_right it r.tasks (new ∷ []) (inl same))
            | inr q ↦
                elim (inv.covered k it
                  (ground (arith, get-insert r.world.delayed_keys key item k))) [
                    | inl waits ↦ inl (HasTask-append_left it r.tasks (new ∷ []) waits)
                    | inr sent ↦ inr sent
                  ]
          ];
        })
        inv

  IsTracked-same :
      (r s : Remote V)
      → s.tasks ≡ r.tasks
      → s.world.delayed_keys ≡ r.world.delayed_keys
      → s.world.sent ≡ r.world.sent
      → IsTracked r
      → IsTracked s
  IsTracked-same r s t d n inv = record {
    key_of = λ k item h. inv.key_of k item (rw (← d) h);
    covered = λ k item h. rw (t, n) (inv.covered k item (rw (← d) h));
  }

module _ {V : Type 0} ⦃c : Crypto⦄ ⦃j : Json V⦄ ⦃env : Env⦄ where
  pub store_value-keeps :
      (key : Text) (value : V) (w : World V)
      → ((store_value key value w).1.delayed_keys ≡ w.delayed_keys)
        × ((store_value key value w).1.sent ≡ w.sent)
        × ((store_value key value w).1.vss_client ≡ w.vss_client)
  unfolding store_value
  store_value-keeps key value w = ground arith

  pub queue_value-IsTracked :
      (key : Text) (value : V) (version : ℕ) (r : Remote V)
      → IsTracked r
      → IsTracked (queue_value key value version r).1
  unfolding queue_value
  queue_value-IsTracked key value version r inv =
      let w = (store_value key value r.world).1 in
      let keeps = store_value-keeps key value r.world in
      let r1 : Remote V = record r { world = w } in
      let inv1 = IsTracked-same r r1 refl keeps.0 keeps.1 inv in
      elim (Result-cases (store_value key value r.world).0) [
        | inl (_, e) ↦ rw (queue_value, e) (queue-IsTracked key value version r1 inv1)
        | inr (_, e) ↦ rw (queue_value, e) inv1
      ]

  Step-IsTracked : {r s : Remote V} → Step r s → IsTracked r → IsTracked s
  Step-IsTracked {r} (write key value version {r' = r'} e) inv =
      subst IsTracked (ap (λ p. p.1) e) (queue_value-IsTracked key value version r inv)
  Step-IsTracked {r} (tick ms) inv =
      IsTracked-same r (record r { world = record r.world { now_ms = r.world.now_ms + ms } }) refl
        refl refl inv
  Step-IsTracked {r} (run before after t e due) inv = run-IsTracked r before after t e inv

  pub Reach-IsTracked : {r s : Remote V} → Reach r s → IsTracked r → IsTracked s
  Reach-IsTracked here inv = inv
  Reach-IsTracked (next q st) inv = Step-IsTracked st (Reach-IsTracked q inv)

  no_task : (item : DelayedKeyValueItem V) (ts : List (Task V)) → ts ≡ [] → HasTask item ts → ⊥
  no_task item [] e h = h
  no_task item (t ∷ ts) e h = cc

  -- If the last items are tracked at first, as they are in a new storage, then in whatever state the
  -- steps lead to, once no task is left, the last item queued for a key has been uploaded.
  pub Reach-WasSent :
      {r s : Remote V} (k : Text) (item : DelayedKeyValueItem V)
      → IsTracked r
      → Reach r s
      → s.tasks ≡ []
      → get s.world.delayed_keys k ≡ some item
      → WasSent (vss_item item) s.world.sent
  Reach-WasSent {r} {s} k item inv reach e h = elim ((Reach-IsTracked reach inv).covered k item h) [
    | inr sent ↦ sent
    | inl waits ↦ absurd (no_task item s.tasks e waits)
  ]
