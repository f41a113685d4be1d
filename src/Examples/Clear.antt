-- ===== src/Examples/Clear.antt =====
-- The theorems on the clearing of used single use profiles at concrete inputs.
use mutiny_node.Prelude.{ℕ, ◌≡◌, [], ◌∷◌, none, some, true}
use mutiny_node.Prelude.Text.{codes}
use mutiny_node.Exec.{ok, err, ◌>>◌}
use mutiny_node.Error.{not_found}
use mutiny_node.Nwc.Manager.{Manager, put_nwc, default_relay}
use mutiny_node.Nwc.Manager.Ops.{save_profiles}
use mutiny_node.Nwc.Profile.{NostrWalletConnect, SpendingConditions, NwcProfileTag}
use mutiny_node.Nwc.Node.{InvoiceHandler, HtlcStatus, PrivacyLevel}
use mutiny_node.Nwc.Clear.{is_spent, clear_successful_single_use_profiles}
use mutiny_node.Nwc.Clear.Removed.{clear_successful_single_use_profiles_lem}
use mutiny_node.Examples.Instances.{
  Value, plain_crypto, value_json, test_env, test_bolt11, profiles_serde, empty_world,
}

-- A node to which every payment has succeeded.
instance abbrev paid_node : InvoiceHandler
paid_node = record {
  skip_hodl_invoices = true;
  lookup_payment = λ n h. some (record {
    bolt11 = none;
    description = none;
    payment_hash = h;
    preimage = none;
    payee_pubkey = none;
    amount_sats = none;
    expire = 0;
    status = HtlcStatus.succeeded;
    privacy_level = PrivacyLevel.anonymous;
    fees_paid = none;
    inbound = true;
    labels = [];
    last_updated = 0;
  });
  pay_invoice = λ n i l. err not_found;
  create_invoice = λ a l. err not_found;
  get_network = codes "regtest";
  get_best_block = ok (100, codes "hash");
}

-- A gift, used for the payment of the hash if there is one.
abbrev gift : ℕ → SpendingConditions → NostrWalletConnect
gift index conditions = record {
  client_key = record { public_key = 1 ∷ []; secret_key = some (3 ∷ []) };
  server_key = record { public_key = 2 ∷ []; secret_key = some (4 ∷ []) };
  profile = record {
    name = codes "gift";
    index = index;
    client_key = none;
    relay = default_relay;
    enabled = some true;
    archived = none;
    spending_conditions = conditions;
    commands = none;
    child_key_index = none;
    tag = NwcProfileTag.gift;
    label = none;
  };
}

abbrev first : NostrWalletConnect
first = gift 1000 SpendingConditions.require_approval

abbrev used : NostrWalletConnect
used =
    gift 1001
      (SpendingConditions.single_use (record { payment_hash = some (9 ∷ []); amount_sats = 5 }))

abbrev unused : NostrWalletConnect
unused = gift 1002 (SpendingConditions.single_use (record { payment_hash = none; amount_sats = 5 }))

abbrev three_profiles : Manager Value
three_profiles = record {
  nwc = first ∷ (used ∷ (unused ∷ []));
  world = empty_world;
  pay_calls = [];
}

abbrev first_deleted : Manager Value
first_deleted = record { nwc = used ∷ (unused ∷ []); world = empty_world; pay_calls = [] }

clear_successful_single_use_profiles_example :
    clear_successful_single_use_profiles three_profiles
    ≡ some ((do put_nwc (first ∷ (unused ∷ [])); save_profiles) three_profiles)
unfolding is_spent
clear_successful_single_use_profiles_example =
    clear_successful_single_use_profiles_lem three_profiles
