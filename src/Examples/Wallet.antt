-- ===== src/Examples/Wallet.antt =====
-- The theorems on payments and sweeps at concrete inputs.
use mutiny_node.Prelude.{ℕ, ◌/◌, ◌≡◌, refl, false, List, [], ◌∷◌, ◌++◌, none, some}
use mutiny_node.Prelude.Text.{Text, codes, text_eq}
use mutiny_node.Prelude.Map.{get, insert}
use mutiny_node.Error.{routing_failed}
use mutiny_node.Exec.{Result, ok, err}
use mutiny_node.Storage.{set_data, read_value, get_data, scan, scan_loop}
use mutiny_node.Storage.Values.{encrypt_value}
use mutiny_node.Storage.Data.{plain}
use mutiny_node.Labels.Store.{
  invoice, set_target_labels, get_target_labels, add_labels, get_label, update_contact,
}
use mutiny_node.Nwc.Invoice.{Bolt11Invoice}
use mutiny_node.Nwc.Node.{MutinyInvoice, HtlcStatus, PrivacyLevel}
use mutiny_node.Activity.Read.{get_invoice_by_hash}
use mutiny_node.Activity.Persist.{payment_key, get_payment_info, read_payment_info}
use mutiny_node.Wallet.{
  Wallet, FederationClient, Payer, Attempt, Clients, NodeManager, InvoiceNetwork,
  list_federation_ids,
}
use mutiny_node.Wallet.Pay.{
  check_invoice, pay_invoice, try_federations, try_federation, try_client, after_federation, ask,
  finish, pay_with_nodes,
}
use mutiny_node.Wallet.Pay.Once.{labelled, pay_invoice_labelled}
use mutiny_node.Wallet.Pay.AsksOn.{pay_invoice_asks_on}
use mutiny_node.Wallet.Sweep.{chosen, sweep_from, incoming_fee, sweep_federation_balance_to_invoice}
use mutiny_node.Wallet.Sweep.Single.{sweep_federation_once}
use mutiny_node.Examples.Instances.{
  Value, plain_crypto, value_json, label_map_serde, item_serde, contact_serde, payment_serde,
  test_env, test_bolt11, test_hex, test_invoice_text, test_more, empty_world, test_parsers,
  test_ledger,
}

-- What is outside the wallet: the balance of its federation, whether the federation finds a route, and
-- the balances of its channels.
record Outside : Type 0 where
  msats : ℕ
  answer : Result MutinyInvoice
  channels : List ℕ

abbrev an_invoice : Bolt11Invoice
an_invoice = 5_000 ∷ 9 ∷ 0 ∷ []

abbrev paid_invoice : MutinyInvoice
paid_invoice = record {
  bolt11 = some an_invoice;
  description = none;
  payment_hash = 9 ∷ [];
  preimage = some (codes "preimage");
  payee_pubkey = none;
  amount_sats = some 5;
  expire = 0;
  status = HtlcStatus.succeeded;
  privacy_level = PrivacyLevel.not_available;
  fees_paid = some 1;
  inbound = false;
  labels = [];
  last_updated = 0;
}

instance abbrev test_clients : Clients Value Outside
test_clients = record {
  balance_msats = λ id o. o.msats;
  pay_invoice = λ id inv l m. (m.outside.answer, m);
  get_invoice = λ id amount l m. (ok an_invoice, m);
  get_new_address = λ id l m. (ok (codes "address"), m);
}

instance abbrev test_nodes : NodeManager Value Outside
test_nodes = record {
  channel_balances = λ o. o.channels;
  pay_invoice = λ inv amount l m. (ok paid_invoice, m);
  create_invoice = λ amount l m. (ok (paid_invoice, 0), m);
  get_new_address = λ l m. (ok (codes "address"), m);
  get_balance =
      λ m. (ok (record { confirmed = 0; unconfirmed = 0; lightning = 7; force_close = 0 }), m);
}

instance abbrev one_network : InvoiceNetwork
one_network = record { network = λ i. codes "regtest" }

abbrev a_federation : FederationClient
a_federation = record {
  federation_id = codes "fed";
  uuid = codes "uuid";
  invite_code = codes "code";
}

abbrev wallet_with : Outside → Wallet Value Outside
wallet_with o = record {
  network = codes "regtest";
  safe_mode = false;
  federations = (codes "fed", a_federation) ∷ [];
  federation_storage = record { federations = (codes "uuid", codes "code") ∷ []; version = 1 };
  machine = record { world = empty_world; outside = o };
  asked = [];
  removals = [];
}

-- The federation has the balance, and finds no route; there is a channel.
abbrev no_route : Wallet Value Outside
no_route =
    wallet_with (record { msats = 9_000; answer = err routing_failed; channels = 8_000 ∷ [] })

abbrev rich : Wallet Value Outside
rich = wallet_with (record { msats = 9_000; answer = ok paid_invoice; channels = [] })

abbrev tried : Payer → Result MutinyInvoice → Attempt Value Outside
tried payer answer = record {
  payer = payer;
  invoice = an_invoice;
  labels = [];
  before = labelled an_invoice [] no_route;
  answer = answer;
}

pay_invoice_labelled_example :
    get_target_labels invoice (labelled an_invoice [] no_route).world
    ≡ (ok (insert [] an_invoice []), (labelled an_invoice [] no_route).world)
unfolding get_target_labels get_data read_value get pay_invoice check_invoice set_target_labels
    set_data encrypt_value add_labels try_federations try_federation try_client after_federation ask
    finish pay_with_nodes
pay_invoice_labelled_example =
    pay_invoice_labelled an_invoice none [] no_route {m = []}
      (tried (Payer.federation (codes "fed")) (err routing_failed))
      (tried Payer.nodes (ok paid_invoice) ∷ []) plain refl refl

pay_invoice_asks_on_example :
    (a a' : Attempt Value Outside) × ((pay_invoice an_invoice none [] no_route).1.asked
      ≡ [] ++ (a ∷ (a' ∷ [])))
    × (a.payer ≡ Payer.federation (codes "fed"))
    × (a'.payer ≡ Payer.nodes)
    × (a'.invoice ≡ an_invoice)
unfolding check_invoice set_target_labels get_target_labels get_data read_value get set_data
    encrypt_value add_labels
pay_invoice_asks_on_example =
    pay_invoice_asks_on an_invoice none [] no_route a_federation {msat = 5_000} {e = routing_failed}
      refl refl refl refl refl (λ q. cc) refl

sweep_federation_once_example :
    (msat : ℕ) × (some 5_000 ≡ some msat)
    × (5 ≡ msat / 1000)
    × (a : Attempt Value Outside) × ((sweep_federation_balance_to_invoice none an_invoice
          rich).1.asked
        ≡ [] ++ (a ∷ []))
    × (id : Text) × (a.payer ≡ Payer.federation id)
    × (chosen none (list_federation_ids rich) ≡ ok id)
    × (client : FederationClient) × (get rich.federations id ≡ some client)
    × (paid : MutinyInvoice) × (a.answer ≡ ok paid)
    × (a.invoice ≡ an_invoice)
unfolding sweep_federation_balance_to_invoice get sweep_from set_target_labels get_target_labels
    get_data read_value set_data encrypt_value add_labels insert ask incoming_fee
    get_invoice_by_hash get_payment_info read_payment_info payment_key scan scan_loop get_label
    update_contact
sweep_federation_once_example =
    sweep_federation_once none an_invoice rich {r = record { amount = 5; fees = some 1 }}
      {s' = (sweep_federation_balance_to_invoice none an_invoice rich).1} refl
