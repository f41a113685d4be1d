-- ===== src/Examples/Federations.antt =====
-- The theorems on the list of federations at concrete inputs.
use mutiny_node.Prelude.{ℕ, ◌≡◌, refl, false, true, [], ◌∷◌, none, some}
use mutiny_node.Prelude.Text.{codes, text_eq}
use mutiny_node.Prelude.Map.{get, insert, remove}
use mutiny_node.Error.{not_found}
use mutiny_node.Exec.{ok, err}
use mutiny_node.Storage.{Env, set_data_async}
use mutiny_node.Storage.Data.{plain}
use mutiny_node.Storage.Values.{encrypt_value}
use mutiny_node.Wallet.{Wallet, FederationClient, Clients}
use mutiny_node.Wallet.Federations.{
  Services, insert_federations, add_federation, move_hermes, leave_hermes, create_new_federation,
  drop_federation, remove_federation,
}
use mutiny_node.Wallet.Federations.Listed.{
  IsListStored, remove_federation_stuck, remove_federation-create,
}
use mutiny_node.Examples.Instances.{
  Value, plain_crypto, value_json, federation_list_serde, refusing, empty_world,
}

instance abbrev refusing_env : Env
refusing_env = refusing

-- A new client has the id `new`; there is no lightning address.
instance abbrev test_services : Services Value ℕ
test_services = record {
  new_client = λ uuid code m. (ok (codes "new"), m);
  has_hermes = false;
  change_federation_info = λ code o. (ok tt, o);
  disable_zaps = λ o. (ok tt, o);
}

-- Every federation holds what is outside.
instance abbrev test_clients : Clients Value ℕ
test_clients = record {
  balance_msats = λ id o. o;
  pay_invoice = λ id inv l m. (err not_found, m);
  get_invoice = λ id amount l m. (err not_found, m);
  get_new_address = λ id l m. (err not_found, m);
}

abbrev a_federation : FederationClient
a_federation = record {
  federation_id = codes "fed";
  uuid = codes "uuid";
  invite_code = codes "code";
}

abbrev local : Wallet Value ℕ
local = record {
  network = codes "regtest";
  safe_mode = false;
  federations = (codes "fed", a_federation) ∷ [];
  federation_storage = record { federations = (codes "uuid", codes "code") ∷ []; version = 1 };
  machine = record { world = empty_world; outside = 9_000 };
  asked = [];
  removals = [];
}

-- The same with a remote storage.
abbrev remote : Wallet Value ℕ
remote = record local {
  machine = record local.machine {
    world = record empty_world { storage = record empty_world.storage { vss_client = true } };
  };
}

remove_federation_stuck_example :
    ((remove_federation (codes "fed") remote).0 ≡ err not_found)
    × (get (remove_federation (codes "fed") remote).1.federations (codes "fed") ≡ some a_federation)
    × (remove_federation (codes "fed") (remove_federation (codes "fed") remote).1
        ≡ (err not_found, (remove_federation (codes "fed") remote).1))
unfolding get insert_federations set_data_async encrypt_value
remove_federation_stuck_example =
    remove_federation_stuck (codes "fed") a_federation remote {code = codes "code"} {e = not_found}
      refl refl refl

abbrev added : FederationClient
added = record {
  federation_id = codes "new";
  uuid = refusing_env.new_uuid 0;
  invite_code = codes "other";
}

abbrev both : Wallet Value ℕ
both = (create_new_federation (codes "other") local).1

remove_federation-create_example :
    (get (remove_federation (codes "new") both).1.federations (codes "fed") ≡ some a_federation)
    × (get (remove_federation (codes "new") both).1.federation_storage.federations (codes "fed")
        ≡ none)
    × IsListStored (remove_federation (codes "new") both).1
unfolding get create_new_federation add_federation insert_federations set_data_async encrypt_value
    move_hermes remove_federation insert drop_federation leave_hermes remove
remove_federation-create_example =
    remove_federation-create (codes "other") local {client = added} {s1 = both}
      {s2 = (remove_federation (codes "new") both).1} (codes "fed") refl refl plain refl refl
