-- ===== src/Wallet/Pay.antt =====
-- mutiny-core/src/lib.rs: `MutinyWallet::pay_invoice`. Federations are tried in the order in which the
-- map gives them, then the nodes.
pub mod Search
pub mod Once
pub mod AsksOn
use mutiny_node.Prelude.{
  ℕ, ◌+◌, ◌*◌, ◌/◌, ◌%◌, ◌^◌, Bool, true, false, not, List, [], ◌∷◌, ◌++◌, Option, none, some, ◌==◌,
  if◌then◌else◌, leb, ltb, unwrap_or,
}
use mutiny_node.Prelude.Text.{Text, text_eq}
use mutiny_node.Prelude.Map.{Map, get}
use mutiny_node.Error.{
  MutinyError, incorrect_network, invoice_expired, invoice_invalid, payment_timeout,
  insufficient_balance,
}
use mutiny_node.Exec.{Result, ok, err, Exec, pure, raise, lift, ◌>>=◌, ◌>>◌, ok_or}
use mutiny_node.Encrypt.{Crypto, Bytes}
use mutiny_node.Storage.Values.{Json, Serde}
use mutiny_node.Storage.{Env, now_secs}
use mutiny_node.Labels.{LabelItem, Contact}
use mutiny_node.Labels.Store.{invoice, set_target_labels}
use mutiny_node.Nwc.Invoice.{Bolt11, Bolt11Invoice}
use mutiny_node.Nwc.Node.{MutinyInvoice}
use mutiny_node.Activity.Invoices.{times_thousand}
use mutiny_node.Wallet.{
  Wallet, Machine, FederationId, Payer, federation, nodes, Attempt, Clients, NodeManager,
  InvoiceNetwork, on_machine, on_world, list_federation_ids, get_balance,
}

-- What one round of the loop over the federations comes to.
pub data Round : Type 0 where
  paid : MutinyInvoice → Round
  go_on : Option MutinyError → Round

-- "we need one to make the payment"
abbrev pub send_msat : ⦃b : Bolt11⦄ → Bolt11Invoice → Option ℕ → Option ℕ
send_msat ⦃b⦄ inv amt_sats = elim (b.amount_milli_satoshis inv) [
  | none ↦ times_thousand amt_sats
  | some msat ↦ some msat
]

-- The checks that come before anything is written.
unfoldable pub check_invoice :
    {V E : Type 0} ⦃b : Bolt11⦄ ⦃n : InvoiceNetwork⦄
    → Bolt11Invoice
    → Option ℕ
    → Wallet V E
    → Result ℕ
check_invoice ⦃b⦄ ⦃n⦄ inv amt_sats s =
    if not (n.network inv == s.network)
    then err incorrect_network
    else if b.would_expire inv (now_secs s.machine.world)
    then err invoice_expired
    else ok_or (send_msat inv amt_sats) invoice_invalid

-- `.sum_u64::<u64>()`
abbrev pub sum_u64 : List ℕ → ℕ
sum_u64 [] = 0
sum_u64 (x ∷ xs) = (x + sum_u64 xs) % 2 ^ 64

module _ {V E : Type 0} where
  abbrev pub spawn_removal : ⦃b : Bolt11⦄ → Bolt11Invoice → Exec (Wallet V E) Unit
  spawn_removal ⦃b⦄ inv s = (ok tt, record s { removals = s.removals ++ (b.payment_hash inv ∷ []) })

  -- The call of a payer.
  unfoldable pub ask :
      Payer
      → Bolt11Invoice
      → List Text
      → Exec (Machine V E) MutinyInvoice
      → Wallet V E
      → Result MutinyInvoice × Wallet V E
  ask payer inv labels m s =
      let done = m s.machine in
      (
        done.0,
        record s {
          machine = done.1;
          asked =
              s.asked
              ++ (record {
                payer = payer;
                invoice = inv;
                labels = labels;
                before = s.machine;
                answer = done.0;
              }
                  ∷ []);
        },
      )

  -- "Err(e) => match e": only a timeout ends the loop.
  unfoldable pub after_federation :
      ⦃b : Bolt11⦄ → Bolt11Invoice → Result MutinyInvoice → Exec (Wallet V E) Round
  after_federation inv (ok r) = do spawn_removal inv; pure (paid r)
  after_federation inv (err payment_timeout) = raise payment_timeout
  after_federation inv (err e) = pure (go_on (some e))

  -- The loop goes on with the next federation, or ends.
  abbrev pub then_next :
      Result Round × Wallet V E
      → (Option MutinyError → Exec (Wallet V E) Round)
      → Result Round × Wallet V E
  then_next (ok (paid r), s) next = (ok (paid r), s)
  then_next (ok (go_on e), s) next = next e s
  then_next (err e, s) next = (err e, s)

  module _ ⦃b : Bolt11⦄ ⦃clients : Clients V E⦄ where
    unfoldable pub try_client : Bolt11Invoice → List Text → FederationId → Exec (Wallet V E) Round
    try_client inv labels id s =
        let done = ask (federation id) inv labels (clients.pay_invoice id inv labels) s in
        after_federation inv done.0 done.1

    -- "Check if the federation has enough balance"
    unfoldable pub try_federation :
        Bolt11Invoice → List Text → ℕ → FederationId → Option MutinyError → Exec (Wallet V E) Round
    try_federation inv labels msat id last s = elim (get s.federations id) [
      | none ↦ (ok (go_on last), s)
      | some client ↦
          if leb (msat / 1000) (get_balance id s.machine)
          then try_client inv labels id s
          else (ok (go_on last), s)
    ]

    unfoldable pub try_federations :
        Bolt11Invoice
        → List Text
        → ℕ
        → List FederationId
        → Option MutinyError
        → Exec (Wallet V E) Round
    try_federations inv labels msat [] last s = (ok (go_on last), s)
    try_federations inv labels msat (id ∷ ids) last s =
        then_next (try_federation inv labels msat id last s) (try_federations inv labels msat ids)

    module _ ⦃node : NodeManager V E⦄ where
      -- "If any balance at all, then fallback to node manager for payment."
      unfoldable pub pay_with_nodes :
          Bolt11Invoice
          → Option ℕ
          → List Text
          → Option MutinyError
          → Exec (Wallet V E) MutinyInvoice
      pay_with_nodes inv amt_sats labels last s =
          if ltb 0 (sum_u64 (node.channel_balances s.machine.outside))
          then (do
            res ← ask nodes inv labels (node.pay_invoice inv amt_sats labels)
            spawn_removal inv
            pure res)
              s
          else (err (unwrap_or last insufficient_balance), s)

      unfoldable pub finish :
          Bolt11Invoice → Option ℕ → List Text → Round → Exec (Wallet V E) MutinyInvoice
      finish inv amt_sats labels (paid r) = pure r
      finish inv amt_sats labels (go_on last) = pay_with_nodes inv amt_sats labels last

      module _ ⦃c : Crypto⦄ ⦃j : Json V⦄ ⦃env : Env⦄ ⦃maps : Serde V (Map Text (List Text))⦄
          ⦃items : Serde V LabelItem⦄ ⦃contacts : Serde V Contact⦄ ⦃n : InvoiceNetwork⦄ where
        unfoldable pub pay_invoice :
            Bolt11Invoice → Option ℕ → List Text → Exec (Wallet V E) MutinyInvoice
        pay_invoice inv amt_sats labels s =
            (do
              msat ← lift (check_invoice inv amt_sats s)
              on_world (set_target_labels invoice inv labels)
              round ← λ t. try_federations inv labels msat (list_federation_ids t) none t
              finish inv amt_sats labels round)
              s
