-- ===== src/Nwc/Manager/Ops.antt =====
-- The methods of `NostrManager` that change the profiles: mutiny-core/src/nostr/mod.rs.
use mutiny_node.Prelude.{
  ℕ, not, ◌||◌, List, [], ◌∷◌, ◌++◌, Option, none, some, ◌==◌, nat_eq, if◌then◌else◌, retain, find,
}
use mutiny_node.Prelude.Text.{Text}
use mutiny_node.Error.{not_found}
use mutiny_node.Exec.{Exec, pure, lift, ◌>>=◌, ◌>>◌, ok_or}
use mutiny_node.Encrypt.{Crypto}
use mutiny_node.Storage.Values.{Json, Serde}
use mutiny_node.Storage.{Env, set_data}
use mutiny_node.Nwc.Budget.{BudgetPeriod}
use mutiny_node.Nwc.Profile.{
  Method, SpendingConditions, NwcProfileTag, Profile, NostrWalletConnect, KeyRing, NwcProfile, Uris,
  active, new_wallet_connect, nwc_profile,
}
use mutiny_node.Nwc.Manager.{
  Manager, ProfileType, nwc_storage_key, default_relay, has_index, profiles_of, on_world, put_nwc,
  update_first, with_profile, sort_by_index, get_next_nwc_index, set_budget, disable,
}

-- The profile that `create_new_nwc_profile_internal` writes out.
abbrev pub new_profile :
    Text → ℕ → Option ℕ → SpendingConditions → NwcProfileTag → List Method → Profile
new_profile name index child_key_index conditions tag commands = record {
  name = name;
  index = index;
  client_key = none;
  relay = default_relay;
  enabled = none;
  archived = none;
  spending_conditions = conditions;
  commands = some commands;
  child_key_index = child_key_index;
  tag = tag;
  label = none;
}

module _ {V : Type 0} ⦃c : Crypto⦄ ⦃j : Json V⦄ ⦃env : Env⦄
    ⦃profiles : Serde V (List Profile)⦄ where
  -- "save to storage", at the end of every method that changes a profile
  unfoldable pub save_profiles : Exec (Manager V) Unit
  save_profiles s = on_world (set_data nwc_storage_key (profiles_of s.nwc) none) s

  unfoldable pub remove_inactive_profiles : Exec (Manager V) Unit
  remove_inactive_profiles s =
      (do put_nwc (retain (λ x. active x.profile || x.profile.index == 0) s.nwc); save_profiles) s

  unfoldable pub edit_nwc_profile : ⦃u : Uris⦄ → NwcProfile → Exec (Manager V) NwcProfile
  edit_nwc_profile profile s =
      (do
        found ← lift (ok_or (find (has_index profile.index) s.nwc) not_found)
        put_nwc (update_first (has_index profile.index) (with_profile profile.inner) s.nwc)
        save_profiles
        pure (nwc_profile (with_profile profile.inner found)))
        s

  unfoldable pub set_nwc_profile_budget :
      ⦃u : Uris⦄ → ℕ → ℕ → BudgetPeriod → Option ℕ → Exec (Manager V) NwcProfile
  set_nwc_profile_budget index sats period single_max s =
      (do
        found ← lift (ok_or (find (has_index index) s.nwc) not_found)
        put_nwc (update_first (has_index index) (set_budget sats period single_max) s.nwc)
        save_profiles
        pure (nwc_profile (set_budget sats period single_max found)))
        s

  unfoldable pub get_nwc_profile : ⦃u : Uris⦄ → ℕ → Exec (Manager V) NwcProfile
  get_nwc_profile index s =
      (do found ← lift (ok_or (find (has_index index) s.nwc) not_found); pure (nwc_profile found)) s

  unfoldable pub create_new_nwc_profile_internal :
      ⦃u : Uris⦄ ⦃ring : KeyRing⦄
      → ProfileType
      → SpendingConditions
      → NwcProfileTag
      → List Method
      → Exec (Manager V) NwcProfile
  unfolding get_next_nwc_index
  create_new_nwc_profile_internal profile_type conditions tag commands s =
      let (name, index, child_key_index) =
        get_next_nwc_index profile_type s.nwc (env.random_child s.world.draws) in
      (do
        nwc ←
            lift
              (new_wallet_connect (new_profile name index child_key_index conditions tag commands))
        put_nwc (sort_by_index (s.nwc ++ (nwc ∷ [])))
        save_profiles
        pure (nwc_profile nwc))
        s

  -- `save_nwc_profile`: the first profile of the index, if there is one, is replaced.
  unfoldable pub save_nwc_profile : NostrWalletConnect → Exec (Manager V) Unit
  save_nwc_profile n s =
      (do
        put_nwc (update_first (has_index n.profile.index) (with_profile n.profile) s.nwc)
        save_profiles)
        s

  unfoldable pub disable_mutiny_plus_profile : Exec (Manager V) Unit
  disable_mutiny_plus_profile s =
      (do
        found ← lift (ok_or (find (has_index 0) s.nwc) not_found)
        put_nwc (update_first (has_index 0) disable s.nwc)
        save_profiles)
        s

  unfoldable pub delete_nwc_profile : ℕ → Exec (Manager V) Unit
  delete_nwc_profile index s =
      if index == 0
      then disable_mutiny_plus_profile s
      else ((do put_nwc (retain (λ x. not (has_index index x)) s.nwc); save_profiles) s)
