-- ===== src/Examples/Approve.antt =====
-- The theorems on approvals, denials and auth requests at concrete inputs.
use mutiny_node.Prelude.{
  ◌≤◌, ◌≡◌, refl, [], ◌∷◌, none, some, true, arith, ℕ, find, if◌then◌else◌, ◌==◌, nat_eq,
}
use mutiny_node.Prelude.Text.{codes}
use mutiny_node.Prelude.Map.{get, insert}
use mutiny_node.Error.{not_found}
use mutiny_node.Exec.{ok, err}
use mutiny_node.Storage.{set_data, read_value, get_data}
use mutiny_node.Storage.Values.{encrypt_value, decrypt_value}
use mutiny_node.Nwc.Manager.{Manager, ProfileType, has_index, default_relay}
use mutiny_node.Nwc.Profile.{
  Method, NwcProfile, NostrWalletConnect, SpendingConditions, NwcProfileTag, new_wallet_connect,
  nwc_profile, get_nwc_uri,
}
use mutiny_node.Nwc.Pending.{
  PendingNwcInvoice, get_pending_nwc_invoices, save_pending_nwc_invoice, find_nwc_data,
}
use mutiny_node.Storage.Data.{plain}
use mutiny_node.Nwc.Budget.{BudgetPeriod, BudgetedSpendingConditions}
use mutiny_node.Nwc.Manager.Profiles.{HasDistinctIndexes, LacksIndex, IsStored}
use mutiny_node.Nwc.Manager.Auth.{
  Nip49Uri, Nip49BudgetPeriod, auth_conditions, push_profile, identity_label, nostr_wallet_auth,
}
use mutiny_node.Nwc.Manager.Ops.{save_profiles}
use mutiny_node.Nwc.Manager.Auth.Distinct.{nostr_wallet_auth-HasDistinctIndexes}
use mutiny_node.Nwc.Approve.{Relay, approve_invoice, broadcast_nwc_response}
use mutiny_node.Nwc.Approve.Unreported.{called, call_for, approve_invoice_unreported}
use mutiny_node.Examples.Instances.{
  Value, plain_crypto, value_json, pending_serde, item_serde, contact_serde, test_env, test_bolt11,
  test_node, test_keys, test_uris, profiles_serde, empty_world,
}

-- A client that reaches no relay.
instance abbrev offline : Relay Value
offline = record {
  send_event_to = λ s relay event. err not_found;
  send_event = λ s event. err not_found;
}

abbrev waiting : PendingNwcInvoice
waiting = record {
  index = some 1000;
  invoice = 5_000 ∷ 9 ∷ 0 ∷ [];
  event_id = 7 ∷ [];
  pubkey = 1 ∷ [];
  identifier = none;
}

abbrev without_profile : Manager Value
without_profile = record {
  nwc = [];
  world =
      (save_pending_nwc_invoice (some 1000) (7 ∷ []) (1 ∷ []) (5_000 ∷ 9 ∷ 0 ∷ []) none
        empty_world).1;
  pay_calls = [];
}

abbrev shop : NostrWalletConnect
shop = record {
  client_key = record { public_key = 1 ∷ []; secret_key = some (3 ∷ []) };
  server_key = record { public_key = 2 ∷ []; secret_key = some (4 ∷ []) };
  profile = record {
    name = codes "shop";
    index = 1000;
    client_key = none;
    relay = codes "wss://relay";
    enabled = some true;
    archived = none;
    spending_conditions = SpendingConditions.require_approval;
    commands = none;
    child_key_index = none;
    tag = NwcProfileTag.general;
    label = none;
  };
}

abbrev with_shop : Manager Value
with_shop = record without_profile { nwc = shop ∷ [] }

approve_invoice_unreported_example :
    (approve_invoice (9 ∷ []) with_shop ≡ (err not_found, called shop waiting with_shop))
    × ((approve_invoice (9 ∷ []) (approve_invoice (9 ∷ []) with_shop).1).1.pay_calls
        ≡ call_for shop waiting with_shop ∷ (call_for shop waiting with_shop ∷ []))
unfolding save_pending_nwc_invoice get_pending_nwc_invoices get_data read_value get set_data
    encrypt_value insert decrypt_value find_nwc_data broadcast_nwc_response
approve_invoice_unreported_example =
    approve_invoice_unreported (9 ∷ []) shop waiting with_shop {preimage = codes "preimage"}
      {e = not_found} refl refl refl

-- An app asks for ten sats a day.
abbrev an_uri : Nip49Uri
an_uri = record {
  public_key = 5 ∷ [];
  relay_url = codes "wss://app";
  secret = codes "s";
  required_commands = Method.pay_invoice ∷ [];
  optional_commands = [];
  budget = some (record { time_period = Nip49BudgetPeriod.daily; amount = 10 });
  identity = none;
}

abbrev daily_budget : BudgetedSpendingConditions
daily_budget = record { budget = 10; single_max = none; payments = []; period = BudgetPeriod.day }

abbrev app_profile : NwcProfile
app_profile = record {
  inner = record {
    name = codes "app";
    index = 1001;
    client_key = some (5 ∷ []);
    relay = default_relay;
    enabled = none;
    archived = none;
    spending_conditions = SpendingConditions.budget daily_budget;
    commands = some (Method.pay_invoice ∷ []);
    child_key_index = some 0;
    tag = NwcProfileTag.general;
    label = none;
  };
  nwc_uri = none;
}

abbrev one_profile : Manager Value
one_profile = record { nwc = shop ∷ []; world = empty_world; pay_calls = [] }

abbrev authorised : Manager Value
authorised =
    (nostr_wallet_auth (ProfileType.normal (codes "app")) an_uri none NwcProfileTag.general
      (Method.pay_invoice ∷ []) one_profile).1

nostr_wallet_auth-HasDistinctIndexes_example :
    HasDistinctIndexes authorised.nwc
    × IsStored authorised
    × (1000 ≤ 1001)
    × LacksIndex 1001 (shop ∷ [])
    × (app_profile.client_key ≡ some (5 ∷ []))
    × (auth_conditions an_uri.budget none ≡ ok app_profile.spending_conditions)
    × ((nwc : NostrWalletConnect) × (nwc.profile ≡ app_profile.inner)
        × ((i : ℕ)
            → find (has_index i) authorised.nwc
              ≡ (if 1001 == i then some nwc else find (has_index i) (shop ∷ []))))
unfolding nostr_wallet_auth auth_conditions identity_label new_wallet_connect push_profile
    save_profiles set_data encrypt_value nwc_profile get_nwc_uri
nostr_wallet_auth-HasDistinctIndexes_example =
    nostr_wallet_auth-HasDistinctIndexes (codes "app") an_uri none NwcProfileTag.general
      (Method.pay_invoice ∷ []) one_profile {p = app_profile} {m' = authorised} plain
      (omega arith, tt) (tt, tt) refl
