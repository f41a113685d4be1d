-- ===== src/Wallet/Federations.antt =====
-- mutiny-core/src/lib.rs: the list of federations, `create_new_federation`, `remove_federation` and
-- `get_total_federation_balance`; storage.rs: how the list is stored. The client of a federation is
-- built, and the lightning address moved to it, by the instances.
pub mod Listed
pub mod Totals
use mutiny_node.Prelude.{
  ℕ, ◌+◌, ◌%◌, ◌^◌, Bool, false, ◌||◌, List, [], ◌∷◌, Option, none, some, ◌==◌, if◌then◌else◌,
}
use mutiny_node.Prelude.Text.{Text, codes, text_eq}
use mutiny_node.Prelude.Map.{Map, get, insert, remove}
use mutiny_node.Error.{MutinyError, not_found, invalid_arguments_error}
use mutiny_node.Exec.{Result, ok, err, Exec, pure, raise, lift, ◌>>=◌, ◌>>◌, ok_or}
use mutiny_node.Encrypt.{Crypto}
use mutiny_node.Storage.Values.{Json, Serde}
use mutiny_node.Storage.{Env, draw, set_data_async}
use mutiny_node.Wallet.{
  Wallet, Machine, FederationId, FederationClient, FederationStorage, Clients, NodeManager,
  NodeBalance, on_machine, on_world, list_federation_ids, get_balance,
}

abbrev pub federations_key : Text
federations_key = codes "federations"

-- `FederationClient::new` with a uuid and an invite code, and `HermesClient`, if there is one, whose two
-- methods send requests to its server and leave the storage alone.
pub record Services (V E : Type 0) : Type 0 where
  pub new_client : Text → Text → Exec (Machine V E) FederationId
  pub has_hermes : Bool
  pub change_federation_info : Text → Exec E Unit
  pub disable_zaps : Exec E Unit

abbrev pub has_code : Text → Map Text Text → Bool
has_code code [] = false
has_code code ((uuid, c) ∷ m) = c == code || has_code code m

-- "Create and save a new federation", in the list that is stored; the version is a `u32`.
abbrev pub with_federation : Text → Text → FederationStorage → FederationStorage
with_federation uuid code f = record {
  federations = insert f.federations uuid code;
  version = (f.version + 1) % 2 ^ 32;
}

abbrev pub without_federation : Text → FederationStorage → FederationStorage
without_federation uuid f = record {
  federations = remove f.federations uuid;
  version = (f.version + 1) % 2 ^ 32;
}

module _ {V E : Type 0} where
  abbrev pub put_list : FederationStorage → Exec (Wallet V E) Unit
  put_list f s = (ok tt, record s { federation_storage = f })

  abbrev pub put_clients : Map FederationId FederationClient → Exec (Wallet V E) Unit
  put_clients m s = (ok tt, record s { federations = m })

  -- A failure is only logged.
  abbrev pub logged : Exec E Unit → Exec (Wallet V E) Unit
  logged m s =
      (ok tt, record s { machine = record s.machine { outside = (m s.machine.outside).1 } })

  unfoldable pub get_total_loop :
      ⦃clients : Clients V E⦄ → List FederationId → ℕ → Exec (Wallet V E) ℕ
  get_total_loop [] total s = (ok total, s)
  get_total_loop (id ∷ ids) total s = elim (get s.federations id) [
    | none ↦ (err not_found, s)
    | some client ↦ get_total_loop ids ((total + get_balance id s.machine) % 2 ^ 64) s
  ]

  unfoldable pub get_total_federation_balance : ⦃clients : Clients V E⦄ → Exec (Wallet V E) ℕ
  get_total_federation_balance s = get_total_loop (list_federation_ids s) 0 s

  module _ ⦃services : Services V E⦄ where
    -- "change the federation with hermes, if available"
    unfoldable pub move_hermes : Text → Exec (Wallet V E) Unit
    move_hermes code s =
        if services.has_hermes then logged (services.change_federation_info code) s else (ok tt, s)

    -- "update hermes to change the federation": to the first that is left.
    unfoldable pub leave_hermes : Map FederationId FederationClient → Exec (Wallet V E) Unit
    leave_hermes [] s = if services.has_hermes then logged services.disable_zaps s else (ok tt, s)
    leave_hermes ((id, client) ∷ m) s = move_hermes client.invite_code s

    module _ ⦃c : Crypto⦄ ⦃j : Json V⦄ ⦃env : Env⦄ ⦃stored : Serde V FederationStorage⦄ where
      -- `insert_federations` of the list in memory
      unfoldable pub insert_federations : Exec (Wallet V E) Unit
      insert_federations s =
          on_world
            (set_data_async federations_key s.federation_storage
              (some s.federation_storage.version))
            s

      -- The client, its entry in the stored list, and its place among the clients.
      unfoldable pub add_federation : Text → Text → Exec (Wallet V E) FederationClient
      add_federation uuid code = do
        id ← on_machine (services.new_client uuid code)
        λ s. put_list (with_federation uuid code s.federation_storage) s
        insert_federations
        λ s.
            put_clients
              (insert s.federations id
                (record { federation_id = id; uuid = uuid; invite_code = code }))
              s
        move_hermes code
        pure (record { federation_id = id; uuid = uuid; invite_code = code })

      unfoldable pub create_new_federation : Text → Exec (Wallet V E) FederationClient
      create_new_federation code s =
          if has_code code s.federation_storage.federations
          then (err invalid_arguments_error, s)
          else add_federation (env.new_uuid s.machine.world.draws) code
              (record s { machine = record s.machine { world = draw s.machine.world } })

      unfoldable pub drop_federation : FederationId → FederationClient → Exec (Wallet V E) Unit
      drop_federation id client s = elim (get s.federation_storage.federations client.uuid) [
        | none ↦ (err not_found, s)
        | some code ↦
            (do
              put_list (without_federation client.uuid s.federation_storage)
              insert_federations
              λ t. put_clients (remove t.federations id) t
              λ t. leave_hermes t.federations t)
              s
      ]

      unfoldable pub remove_federation : FederationId → Exec (Wallet V E) Unit
      remove_federation id s = elim (get s.federations id) [
        | none ↦ (err not_found, s)
        | some client ↦ drop_federation id client s
      ]

-- `MutinyBalance::new`
pub record MutinyBalance : Type 0 where
  pub confirmed : ℕ
  pub unconfirmed : ℕ
  pub lightning : ℕ
  pub federation : ℕ
  pub force_close : ℕ

abbrev pub new_balance : NodeBalance → ℕ → MutinyBalance
new_balance ln federation_balance = record {
  confirmed = ln.confirmed;
  unconfirmed = ln.unconfirmed;
  lightning = ln.lightning;
  federation = federation_balance;
  force_close = ln.force_close;
}

module _ {V E : Type 0} ⦃clients : Clients V E⦄ ⦃node : NodeManager V E⦄ where
  -- `MutinyWallet::get_balance`
  unfoldable pub get_wallet_balance : Exec (Wallet V E) MutinyBalance
  get_wallet_balance = do
    ln_balance ← on_machine node.get_balance
    federation_balance ← get_total_federation_balance
    pure (new_balance ln_balance federation_balance)
