-- ===== src/Nwc/Manager/Auth.antt =====
-- mutiny-core/src/nostr/mod.rs: `nostr_wallet_auth`, the profile of a nostr wallet auth request;
-- mutiny-core/src/nostr/nip49.rs: the parts of the request that it reads.
pub mod Distinct
use mutiny_node.Prelude.{ℕ, List, [], ◌∷◌, ◌++◌, Option, none, some}
use mutiny_node.Prelude.Text.{Text}
use mutiny_node.Error.{invalid_arguments_error}
use mutiny_node.Exec.{Result, ok, err, Exec, pure, lift, ◌>>=◌, ◌>>◌}
use mutiny_node.Encrypt.{Crypto}
use mutiny_node.Storage.Values.{Json, Serde}
use mutiny_node.Storage.{World, Env}
use mutiny_node.Labels.{LabelItem, Contact, is_text}
use mutiny_node.Labels.Read.{find_contact, id_of, get_contacts}
use mutiny_node.Nwc.Invoice.{PublicKey}
use mutiny_node.Nwc.Budget.{BudgetPeriod, BudgetedSpendingConditions}
use mutiny_node.Nwc.Profile.{
  Method, SpendingConditions, NwcProfileTag, Profile, NostrWalletConnect, KeyRing, NwcProfile, Uris,
  new_wallet_connect, nwc_profile,
}
use mutiny_node.Nwc.Manager.{
  Manager, ProfileType, default_relay, on_world, put_nwc, sort_by_index, get_next_nwc_index,
}
use mutiny_node.Nwc.Manager.Ops.{save_profiles}

pub data Nip49BudgetPeriod : Type 0 where
  daily weekly monthly yearly : Nip49BudgetPeriod

pub record Nip49Budget : Type 0 where
  pub time_period : Nip49BudgetPeriod
  pub amount : ℕ

pub record Nip49Uri : Type 0 where
  pub public_key : PublicKey
  pub relay_url : Text
  pub secret : Text
  pub required_commands : List Method
  pub optional_commands : List Method
  pub budget : Option Nip49Budget
  pub identity : Option PublicKey

abbrev pub period_of : Nip49BudgetPeriod → BudgetPeriod
period_of daily = BudgetPeriod.day
period_of weekly = BudgetPeriod.week
period_of monthly = BudgetPeriod.month
period_of yearly = BudgetPeriod.year

-- "make sure we don't have 2 budgets"
unfoldable pub auth_conditions :
    Option Nip49Budget → Option BudgetedSpendingConditions → Result SpendingConditions
auth_conditions none none = ok SpendingConditions.require_approval
auth_conditions none (some budget) = ok (SpendingConditions.budget budget)
auth_conditions (some uri_budget) (some budget) = err invalid_arguments_error
auth_conditions (some uri_budget) none = ok (
    SpendingConditions.budget (record {
      budget = uri_budget.amount;
      single_max = none;
      payments = [];
      period = period_of uri_budget.time_period;
    }))

abbrev pub auth_profile :
    Text
    → ℕ
    → Option ℕ
    → PublicKey
    → SpendingConditions
    → List Method
    → NwcProfileTag
    → Option Text
    → Profile
auth_profile name index child_key_index public_key conditions commands tag label = record {
  name = name;
  index = index;
  client_key = some public_key;
  relay = default_relay;
  enabled = none;
  archived = none;
  spending_conditions = conditions;
  commands = some commands;
  child_key_index = child_key_index;
  tag = tag;
  label = label;
}

module _ {V : Type 0} ⦃c : Crypto⦄ ⦃j : Json V⦄ ⦃env : Env⦄ ⦃profiles : Serde V (List Profile)⦄
    ⦃items : Serde V LabelItem⦄ ⦃contacts : Serde V Contact⦄ where
  -- The contact of the identity, if there is one.
  unfoldable pub identity_label : Option PublicKey → Exec (World V) (Option Text)
  identity_label none = pure none
  identity_label (some identity) = do
    all ← get_contacts
    pure (id_of (find_contact (λ c. is_text c.npub identity) all))

  -- The new connection is put into the list in its order, and the list saved.
  unfoldable pub push_profile : ⦃u : Uris⦄ → NostrWalletConnect → Exec (Manager V) NwcProfile
  push_profile nwc s =
      (do put_nwc (sort_by_index (s.nwc ++ (nwc ∷ []))); save_profiles; pure (nwc_profile nwc)) s

  unfoldable pub nostr_wallet_auth :
      ⦃u : Uris⦄ ⦃ring : KeyRing⦄
      → ProfileType
      → Nip49Uri
      → Option BudgetedSpendingConditions
      → NwcProfileTag
      → List Method
      → Exec (Manager V) NwcProfile
  unfolding get_next_nwc_index
  nostr_wallet_auth profile_type uri budget tag commands s =
      let next = get_next_nwc_index profile_type s.nwc (env.random_child s.world.draws) in
      (do
        conditions ← lift (auth_conditions uri.budget budget)
        label ← on_world (identity_label uri.identity)
        nwc ← lift (
            new_wallet_connect
              (auth_profile next.0 next.1 next.2 uri.public_key conditions commands tag label))
        push_profile nwc)
        s
