-- ===== src/Examples/Nwc.antt =====
-- The theorems on wallet connect profiles and requests at concrete inputs.
use mutiny_node.Prelude.{
  ℕ, ◌≤◌, ◌≡◌, refl, ◌⊎◌, true, false, [], ◌∷◌, Option, none, some, arith, find,
}
use mutiny_node.Prelude.Text.{Text, codes}
use mutiny_node.Exec.{Result, ok}
use mutiny_node.Storage.{World, set_data}
use mutiny_node.Storage.Values.{encrypt_value}
use mutiny_node.Storage.Data.{plain}
use mutiny_node.Nwc.Budget.{BudgetPeriod, BudgetedSpendingConditions, sum_payments}
use mutiny_node.Nwc.Profile.{
  Method, SingleUseSpendingConditions, SpendingConditions, NwcProfileTag, Profile,
  NostrWalletConnect, NwcProfile, new_wallet_connect, nwc_profile, get_nwc_uri,
}
use mutiny_node.Nwc.Manager.{Manager, ProfileType, has_index, default_relay}
use mutiny_node.Nwc.Manager.Ops.{save_profiles, create_new_nwc_profile_internal, delete_nwc_profile}
use mutiny_node.Nwc.Manager.Profiles.{
  HasDistinctIndexes, LacksIndex, IsStored, create_HasDistinctIndexes,
}
use mutiny_node.Nwc.Request.{
  Request, RequestParams, Event, Session, ResponseResult, ResponseEvent, result_response, calls,
}
use mutiny_node.Nwc.Node.{pay}
use mutiny_node.Nwc.Request.Pay.{pay_nwc_invoice}
use mutiny_node.Nwc.Request.Pay.Budgeted.{check_budget, handle_budget}
use mutiny_node.Nwc.Request.Pay.SingleUse.{
  handle_single_use, single_use_content, pay_single_use, single_use_outcome, flush, previous_status,
}
use mutiny_node.Nwc.Request.Pay.Spending.{
  Within, AreStored, charged_call, check_budget-Within, handle_budget-calls,
}
use mutiny_node.Nwc.Request.Pay.OneTime.{
  single_call, handle_single_use-calls, handle_single_use_deletes,
}
use mutiny_node.Nwc.Request.Handle.{handle_event}
use mutiny_node.Nwc.Request.Handle.Gate.{
  IsServed, handle_event-IsServed, handle_event-require_approval,
}
use mutiny_node.Examples.Instances.{
  Value, plain_crypto, value_json, text_serde, profiles_serde, pending_serde, test_env, test_bolt11,
  test_calendar, test_node, test_display, test_invoice_text, test_keys, test_uris, empty_world,
}

abbrev an_invoice : Text
an_invoice = 5_000 ∷ 9 ∷ 0 ∷ []

abbrev a_budget : BudgetedSpendingConditions
a_budget = record { budget = 100; single_max = some 50; payments = []; period = BudgetPeriod.day }

abbrev single_use : SingleUseSpendingConditions
single_use = record { payment_hash = none; amount_sats = 10 }

abbrev a_profile : ℕ → SpendingConditions → Profile
a_profile i sc = record {
  name = codes "shop";
  index = i;
  client_key = none;
  relay = codes "wss://relay";
  enabled = some true;
  archived = none;
  spending_conditions = sc;
  commands = none;
  child_key_index = none;
  tag = NwcProfileTag.general;
  label = none;
}

abbrev connection : SpendingConditions → NostrWalletConnect
connection sc = record {
  client_key = record { public_key = 1 ∷ []; secret_key = some (3 ∷ []) };
  server_key = record { public_key = 2 ∷ []; secret_key = some (4 ∷ []) };
  profile = a_profile 1000 sc;
}

abbrev manager : SpendingConditions → Manager Value
manager sc = record { nwc = connection sc ∷ []; world = empty_world; pay_calls = [] }

abbrev session : SpendingConditions → Session Value
session sc = record {
  self = connection sc;
  needs_delete = false;
  needs_save = false;
  manager = manager sc;
}

abbrev a_request : Request
a_request = record {
  method = Method.pay_invoice;
  params = RequestParams.pay_invoice (record { id = none; invoice = an_invoice; amount = none });
}

abbrev an_event : Event
an_event = record {
  is_request = true;
  pubkey = 1 ∷ [];
  id = 7 ∷ [];
  created_at = 1_700_000_000;
  p_tag = some (2 ∷ []);
  request = ok (some a_request);
}

abbrev by_budget : Session Value
by_budget = session (SpendingConditions.budget a_budget)

abbrev by_single_use : Session Value
by_single_use = session (SpendingConditions.single_use single_use)

abbrev by_approval : Session Value
by_approval = session SpendingConditions.require_approval

handle_budget-calls_example :
    (calls (handle_budget an_event none an_invoice a_budget by_budget).1 ≡ [])
    ⊎ ((cleaned : BudgetedSpendingConditions) × Within by_budget.manager 5 a_budget cleaned
        × (before : World Value) × (calls
              (handle_budget an_event none an_invoice a_budget by_budget).1
            ≡ charged_call an_invoice cleaned by_budget before ∷ [])
        × AreStored (charged_call an_invoice cleaned by_budget before))
handle_budget-calls_example = handle_budget-calls an_event none an_invoice a_budget by_budget plain

check_budget-Within_example : Within by_budget.manager 5 a_budget a_budget
unfolding check_budget sum_payments
check_budget-Within_example =
    check_budget-Within 5 a_budget by_budget {s' = by_budget} {cleaned = a_budget} refl

handle_single_use-calls_example :
    calls (handle_single_use an_event none an_invoice single_use by_single_use).1
    ≡ single_call an_invoice by_single_use ∷ []
unfolding previous_status
handle_single_use-calls_example =
    handle_single_use-calls an_event none an_invoice single_use by_single_use none refl

abbrev after_single_use : Result (Option ResponseEvent) × Session Value
after_single_use = handle_single_use an_event none an_invoice single_use by_single_use

handle_event-IsServed_example :
    ((handle_event an_event by_budget).1 ≡ by_budget)
    ⊎ ((req : Request) × IsServed an_event by_budget req)
handle_event-IsServed_example = handle_event-IsServed an_event by_budget

handle_event-require_approval_example : calls (handle_event an_event by_approval).1 ≡ []
handle_event-require_approval_example = handle_event-require_approval an_event by_approval refl

abbrev paid_response : ResponseEvent
paid_response = record {
  content = result_response Method.pay_invoice (ResponseResult.pay_invoice (codes "preimage"));
  p_tag = 1 ∷ [];
  e_tag = 7 ∷ [];
  identifier = none;
}

handle_single_use_deletes_example :
    (find (has_index 1000) after_single_use.1.manager.nwc ≡ none)
    × IsStored after_single_use.1.manager
unfolding handle_single_use previous_status single_use_content pay_single_use single_use_outcome
    pay_nwc_invoice pay flush delete_nwc_profile save_profiles set_data encrypt_value
handle_single_use_deletes_example =
    handle_single_use_deletes an_event none an_invoice single_use by_single_use
      {response = paid_response} {s' = after_single_use.1}
      {paid = ResponseResult.pay_invoice (codes "preimage")} plain (λ e. omega arith) refl refl

abbrev created : Result NwcProfile × Manager Value
created =
    create_new_nwc_profile_internal (ProfileType.normal (codes "shop"))
      SpendingConditions.require_approval NwcProfileTag.general []
      (manager SpendingConditions.require_approval)

abbrev created_profile : NwcProfile
created_profile = record {
  inner = record (a_profile 1001 SpendingConditions.require_approval) {
    relay = default_relay;
    enabled = none;
    child_key_index = some 0;
    commands = some [];
  };
  nwc_uri = some default_relay;
}

create_HasDistinctIndexes_example :
    HasDistinctIndexes created.1.nwc
    × (1000 ≤ 1001)
    × LacksIndex 1001 (connection SpendingConditions.require_approval ∷ [])
    × IsStored created.1
unfolding create_new_nwc_profile_internal new_wallet_connect save_profiles set_data encrypt_value
    nwc_profile get_nwc_uri
create_HasDistinctIndexes_example =
    create_HasDistinctIndexes (codes "shop") SpendingConditions.require_approval
      NwcProfileTag.general [] (manager SpendingConditions.require_approval) {p = created_profile}
      {m' = created.1} plain (omega arith, tt) (tt, tt) refl
