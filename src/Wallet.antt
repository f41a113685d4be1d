-- ===== src/Wallet.antt =====
-- mutiny-core/src/lib.rs: `MutinyWallet`, as far as it chooses who pays, who receives and what is
-- owned. The federations and the nodes that it drives talk to fedimint and to lightning: what they do
-- is the instances `Clients` and `NodeManager`, over a state `E` that the wallet does not see.
pub mod Pay
pub mod Federations
pub mod Receive
pub mod Sweep
use mutiny_node.Prelude.{ℕ, ◌/◌, Bool, List, [], ◌∷◌, ◌++◌, Option, map}
use mutiny_node.Prelude.Text.{Text}
use mutiny_node.Prelude.Map.{Map}
use mutiny_node.Exec.{Result, ok, Exec}
use mutiny_node.Encrypt.{Bytes}
use mutiny_node.Storage.{World}
use mutiny_node.Nwc.Invoice.{Bolt11Invoice}
use mutiny_node.Nwc.Node.{MutinyInvoice}

-- `fedimint_core::config::FederationId`, as its text
abbrev pub FederationId : Type 0
FederationId = Text

-- What the wallet reads of a `FederationClient`.
pub record FederationClient : Type 0 where
  pub federation_id : FederationId
  pub uuid : Text
  pub invite_code : Text

-- mutiny-core/src/federation.rs: what is stored, the invite code of each federation under its uuid
pub record FederationStorage : Type 0 where
  pub federations : Map Text Text
  pub version : ℕ

-- The storage, and what the federations, the nodes and the chain are like.
pub record Machine (V E : Type 0) : Type 0 where
  pub world : World V
  pub outside : E

-- Who may be asked to pay.
pub data Payer : Type 0 where
  federation : FederationId → Payer
  nodes : Payer

-- A call that asks for a payment: the machine at the call, and the answer.
pub record Attempt (V E : Type 0) : Type 0 where
  pub payer : Payer
  pub invoice : Bolt11Invoice
  pub labels : List Text
  pub before : Machine V E
  pub answer : Result MutinyInvoice

pub record Wallet (V E : Type 0) : Type 0 where
  pub network : Text
  pub safe_mode : Bool
  pub federations : Map FederationId FederationClient
  pub federation_storage : FederationStorage
  pub machine : Machine V E
  -- the payments that were asked for, oldest first
  pub asked : List (Attempt V E)
  -- the spawned tasks `remove_pending_nwc_invoice`, each by its payment hash
  pub removals : List Bytes

-- `FederationClient` of mutiny-core/src/federation.rs; its balance in millisats.
pub record Clients (V E : Type 0) : Type 0 where
  pub balance_msats : FederationId → E → ℕ
  pub pay_invoice : FederationId → Bolt11Invoice → List Text → Exec (Machine V E) MutinyInvoice
  -- the invoice alone: the rest of the answer is `Bolt11Invoice::into`
  pub get_invoice : FederationId → ℕ → List Text → Exec (Machine V E) Bolt11Invoice
  pub get_new_address : FederationId → List Text → Exec (Machine V E) Text

pub record NodeBalance : Type 0 where
  pub confirmed : ℕ
  pub unconfirmed : ℕ
  pub lightning : ℕ
  pub force_close : ℕ

-- `NodeManager` of mutiny-core/src/nodemanager.rs.
pub record NodeManager (V E : Type 0) : Type 0 where
  -- `balance_msat` of each channel of each node
  pub channel_balances : E → List ℕ
  pub pay_invoice : Bolt11Invoice → Option ℕ → List Text → Exec (Machine V E) MutinyInvoice
  -- the invoice, and the fee for receiving it
  pub create_invoice : ℕ → List Text → Exec (Machine V E) (MutinyInvoice × ℕ)
  pub get_new_address : List Text → Exec (Machine V E) Text
  pub get_balance : Exec (Machine V E) NodeBalance

-- `Bolt11Invoice::network`
pub record InvoiceNetwork : Type 0 where
  pub network : Bolt11Invoice → Text

module _ {V E : Type 0} where
  abbrev pub on_machine : {A : Type 0} → Exec (Machine V E) A → Exec (Wallet V E) A
  on_machine m s = let done = m s.machine in (done.0, record s { machine = done.1 })

  -- An action on the storage, in the machine, and in the wallet.
  abbrev pub on_storage : {A : Type 0} → Exec (World V) A → Exec (Machine V E) A
  on_storage m s = let done = m s.world in (done.0, record s { world = done.1 })

  abbrev pub on_world : {A : Type 0} → Exec (World V) A → Exec (Wallet V E) A
  on_world m = on_machine (on_storage m)

  abbrev pub list_federation_ids : Wallet V E → List FederationId
  list_federation_ids s = map (λ e. e.1.federation_id) s.federations

  -- `FederationClient::get_balance`, in sats
  abbrev pub get_balance : ⦃clients : Clients V E⦄ → FederationId → Machine V E → ℕ
  get_balance ⦃clients⦄ id m = clients.balance_msats id m.outside / 1000
