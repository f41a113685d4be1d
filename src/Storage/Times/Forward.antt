-- ===== src/Storage/Times/Forward.antt =====
-- The sync times of the storage only go forward.
use mutiny_node.Prelude.{
  ℕ, ◌≡◌, ◌≢◌, refl, inl, inr, Option, none, some, arith, max, ltb, unwrap_or, ==_iff, Bool-cases,
}
use mutiny_node.Prelude.Text.{Text, text_eq}
use mutiny_node.Exec.{ok}
use mutiny_node.Encrypt.{Crypto}
use mutiny_node.Storage.Values.{Json, Serde}
use mutiny_node.Storage.{World, Env, set_data, get_data}
use mutiny_node.Storage.Data.{IsKeyed, get_data-set_data}
use mutiny_node.Storage.Times.{last_nwc_sync_time_key, get_nwc_sync_time, set_nwc_sync_time}

module _ {V : Type 0} ⦃c : Crypto⦄ ⦃j : Json V⦄ ⦃env : Env⦄ ⦃times : Serde V ℕ⦄ where
  -- If the cipher is that of the password and a sync time, or none, is read before, then after a
  -- `set_nwc_sync_time` that succeeds the time read is the later of the two, an absent one being 0, and
  -- every other time that is kept reads as before.
  set_nwc_sync_time-max :
      (time : ℕ) (w : World V) {current : Option ℕ} {w' : World V}
      → IsKeyed w.password w.cipher
      → get_nwc_sync_time w ≡ (ok current, w)
      → set_nwc_sync_time time w ≡ (ok tt, w')
      → (later : Option ℕ) × (get_nwc_sync_time w' ≡ (ok later, w'))
        × (unwrap_or later 0 ≡ max (unwrap_or current 0) time)
        × ((k : Text)
            → k ≢ last_nwc_sync_time_key
            → (get_data {A = ℕ} k w').0 ≡ (get_data {A = ℕ} k w).0)
  unfolding get_nwc_sync_time set_nwc_sync_time get_data
  set_nwc_sync_time-max time w {current} {w'} sealed h e =
      elim (Bool-cases (ltb (unwrap_or current 0) time)) [
        | inr old ↦
            let same : w' ≡ w = ground arith in rw same (current, h, ground arith, λ k n. refl)
        | inl new ↦
            let written : set_data last_nwc_sync_time_key time none w ≡ (ok tt, w') =
              ground arith in
            let read =
              get_data-set_data last_nwc_sync_time_key time none w {w' = w'} sealed written in
            (
              some time,
              ground (
                arith,
                read last_nwc_sync_time_key,
                ==_iff last_nwc_sync_time_key last_nwc_sync_time_key,
              ),
              ground arith,
              λ k n. ground (arith, read k, ==_iff last_nwc_sync_time_key k),
            )
      ]
