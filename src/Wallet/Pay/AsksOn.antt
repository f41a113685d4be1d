-- ===== src/Wallet/Pay/AsksOn.antt =====
-- What `pay_invoice` does after a federation that fails, for whatever reason.
use mutiny_node.Prelude.{
  ℕ, ◌/◌, ◌≡◌, ◌≢◌, ==_self, refl, ◌∙◌, true, List, [], ◌∷◌, ◌++◌, Option, none, some, arith, leb,
  ltb, append_assoc,
}
use mutiny_node.Prelude.Text.{Text, text_eq}
use mutiny_node.Prelude.Map.{Map, get}
use mutiny_node.Error.{MutinyError, payment_timeout}
use mutiny_node.Exec.{ok, err, Result-cases}
use mutiny_node.Encrypt.{Crypto}
use mutiny_node.Storage.Values.{Json, Serde}
use mutiny_node.Storage.{Env}
use mutiny_node.Labels.{LabelItem, Contact}
use mutiny_node.Labels.Store.{invoice, set_target_labels}
use mutiny_node.Nwc.Invoice.{Bolt11, Bolt11Invoice}
use mutiny_node.Wallet.{
  Wallet, FederationClient, federation, federation, nodes, Attempt, on_world, Clients, NodeManager,
  InvoiceNetwork, get_balance, list_federation_ids,
}
use mutiny_node.Wallet.Pay.{
  go_on, check_invoice, ask, after_federation, try_client, try_federation, try_federations,
  pay_with_nodes, finish, pay_invoice, sum_u64,
}
use mutiny_node.Wallet.Pay.Once.{ask_nodes, labelled}

module _ {V E : Type 0} where
  module _ ⦃b : Bolt11⦄ ⦃clients : Clients V E⦄ ⦃node : NodeManager V E⦄ where
    pay_with_nodes-rich :
        (inv : Bolt11Invoice) (amt_sats : Option ℕ) (labels : List Text) (last : Option MutinyError)
        (s : Wallet V E)
        → ltb 0 (sum_u64 (node.channel_balances s.machine.outside)) ≡ true
        → (pay_with_nodes inv amt_sats labels last s).1.asked
          ≡ s.asked ++ (ask_nodes inv amt_sats labels s ∷ [])
    unfolding pay_with_nodes ask
    pay_with_nodes-rich inv amt_sats labels last s rich =
        rw (rich, pay_with_nodes)
          (ground (arith, Result-cases (node.pay_invoice inv amt_sats labels s.machine).0))

    after_federation_go_on :
        (inv : Bolt11Invoice) (e : MutinyError) (s : Wallet V E)
        → e ≢ payment_timeout
        → after_federation inv (err e) s ≡ (ok (go_on (some e)), s)
    unfolding after_federation
    after_federation_go_on inv payment_timeout s h = absurd (h refl)
    after_federation_go_on inv e s h = refl

    try_federations_go_on :
        (inv : Bolt11Invoice) (labels : List Text) (msat : ℕ) (client : FederationClient)
        (s : Wallet V E) {e : MutinyError}
        → s.federations ≡ (client.federation_id, client) ∷ []
        → leb (msat / 1000) (get_balance client.federation_id s.machine) ≡ true
        → (clients.pay_invoice client.federation_id inv labels s.machine).0 ≡ err e
        → e ≢ payment_timeout
        → try_federations inv labels msat (list_federation_ids s) none s ≡ (
          ok (go_on (some e)),
          record s {
            machine = (clients.pay_invoice client.federation_id inv labels s.machine).1;
            asked =
                s.asked
                ++ (record {
                  payer = federation client.federation_id;
                  invoice = inv;
                  labels = labels;
                  before = s.machine;
                  answer = err e;
                }
                    ∷ []);
          },
        )
    unfolding try_federations try_federation try_client ask get
    try_federations_go_on inv labels msat client s {e} f rich answer final =
        let u : Wallet V E = record s {
          federations = (client.federation_id, client) ∷ [];
          machine = (clients.pay_invoice client.federation_id inv labels s.machine).1;
          asked =
              s.asked
              ++ (record {
                payer = federation client.federation_id;
                invoice = inv;
                labels = labels;
                before = s.machine;
                answer = err e;
              }
                  ∷ []);
        } in
        rw
          (
            f,
            try_federations,
            try_federation,
            ==_self client.federation_id,
            rich,
            try_client,
            ask,
            answer,
            after_federation_go_on inv e u final,
          )
          refl

    module _ ⦃c : Crypto⦄ ⦃j : Json V⦄ ⦃env : Env⦄ ⦃maps : Serde V (Map Text (List Text))⦄
        ⦃items : Serde V LabelItem⦄ ⦃contacts : Serde V Contact⦄ ⦃n : InvoiceNetwork⦄ where
      -- If the one federation has the balance and answers with an error that is no timeout, whatever made
      -- it answer so, then the nodes are asked to pay the same invoice, if they have any balance.
      pub pay_invoice_asks_on :
          (inv : Bolt11Invoice) (amt_sats : Option ℕ) (labels : List Text) (s : Wallet V E)
          (client : FederationClient) {msat : ℕ} {e : MutinyError}
          → s.federations ≡ (client.federation_id, client) ∷ []
          → check_invoice inv amt_sats s ≡ ok msat
          → (set_target_labels invoice inv labels s.machine.world).0 ≡ ok tt
          → leb (msat / 1000) (get_balance client.federation_id (labelled inv labels s)) ≡ true
          → (clients.pay_invoice client.federation_id inv labels (labelled inv labels s)).0 ≡ err e
          → e ≢ payment_timeout
          → ltb 0 (
              sum_u64 (
                node.channel_balances
                  (clients.pay_invoice client.federation_id inv labels
                    (labelled inv labels s)).1.outside))
            ≡ true
          → (a a' : Attempt V E) × ((pay_invoice inv amt_sats labels s).1.asked
              ≡ s.asked ++ (a ∷ (a' ∷ [])))
            × (a.payer ≡ federation client.federation_id)
            × (a'.payer ≡ nodes)
            × (a'.invoice ≡ inv)
      unfolding pay_invoice finish
      pay_invoice_asks_on inv amt_sats labels s client {msat} {e} f check done rich answer final
            balance =
          let t = (on_world (set_target_labels invoice inv labels) s).1 in
          let id = client.federation_id in
          let a : Attempt V E = record {
            payer = federation id;
            invoice = inv;
            labels = labels;
            before = t.machine;
            answer = err e;
          } in
          let u : Wallet V E = record t {
            machine = (clients.pay_invoice id inv labels t.machine).1;
            asked = s.asked ++ (a ∷ []);
          } in
          let searched = try_federations_go_on inv labels msat client t f rich answer final in
          (
            a,
            ask_nodes inv amt_sats labels u,
            rw (check, done, searched, pay_invoice)
                (pay_with_nodes-rich inv amt_sats labels (some e) u balance
                  ∙ append_assoc s.asked (a ∷ []) (ask_nodes inv amt_sats labels u ∷ [])),
            refl,
            refl,
            refl,
          )
