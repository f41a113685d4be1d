-- ===== src/Wallet/Federations/Listed.antt =====
-- What the list of federations holds after one is added or removed, and after a removal that failed.
use mutiny_node.Prelude.{
  ap, ◌≡◌, refl, true, [], ◌∷◌, none, some, inl, inr, arith, ==_iff, ==_self, Bool-cases,
  Option-cases,
}
use mutiny_node.Prelude.Text.{Text, text_eq}
use mutiny_node.Prelude.Map.{Map, get, insert, remove, get-insert, get-remove}
use mutiny_node.Error.{MutinyError, not_found, invalid_arguments_error}
use mutiny_node.Exec.{ok, err, Result-cases}
use mutiny_node.Encrypt.{Crypto}
use mutiny_node.Storage.Values.{Json, Serde}
use mutiny_node.Storage.{Env, draw, get_data, set_data_async}
use mutiny_node.Storage.Data.{IsKeyed, get_data-set_data_async}
use mutiny_node.Wallet.{Wallet, FederationId, FederationClient, FederationStorage}
use mutiny_node.Wallet.Federations.{
  Services, federations_key, has_code, with_federation, without_federation, move_hermes,
  leave_hermes, insert_federations, add_federation, create_new_federation, drop_federation,
  remove_federation,
}

has_code-insert : (m : Map Text Text) (uuid code : Text) → has_code code (insert m uuid code) ≡ true
unfolding insert
has_code-insert [] uuid code = ground (arith, ==_self code)
has_code-insert ((k, c) ∷ m) uuid code = ground (arith, ==_self code, has_code-insert m uuid code)

module _ {V E : Type 0} ⦃services : Services V E⦄ ⦃c : Crypto⦄ ⦃j : Json V⦄ ⦃env : Env⦄
    ⦃stored : Serde V FederationStorage⦄ where
  insert_federations-keeps :
      (s : Wallet V E)
      → ((insert_federations s).1.federations ≡ s.federations)
        × ((insert_federations s).1.federation_storage ≡ s.federation_storage)
  unfolding insert_federations
  insert_federations-keeps s = (refl, refl)

  move_hermes-keeps :
      (code : Text) (s : Wallet V E)
      → ((move_hermes code s).1.federations ≡ s.federations)
        × ((move_hermes code s).1.federation_storage ≡ s.federation_storage)
        × ((move_hermes code s).0 ≡ ok tt)
        × ((move_hermes code s).1.machine.world ≡ s.machine.world)
  unfolding move_hermes
  move_hermes-keeps code s = ground arith

  leave_hermes-keeps :
      (m : Map FederationId FederationClient) (s : Wallet V E)
      → ((leave_hermes m s).1.federations ≡ s.federations)
        × ((leave_hermes m s).1.federation_storage ≡ s.federation_storage)
        × ((leave_hermes m s).0 ≡ ok tt)
        × ((leave_hermes m s).1.machine.world ≡ s.machine.world)
  unfolding leave_hermes
  leave_hermes-keeps [] s = ground arith
  leave_hermes-keeps ((id, client) ∷ m) s = move_hermes-keeps client.invite_code s

  -- What a federation that was added leaves: its client, and its code in the list.
  record Added (code : Text) (s s' : Wallet V E) (client : FederationClient) : Type 0 where
    clients : s'.federations ≡ insert s.federations client.federation_id client
    list : s'.federation_storage ≡ with_federation client.uuid code s.federation_storage

  create_new_federation-Added :
      (code : Text) (s : Wallet V E) {client : FederationClient} {s' : Wallet V E}
      → create_new_federation code s ≡ (ok client, s')
      → Added code s s' client
  unfolding create_new_federation add_federation
  create_new_federation-Added code s {client} {s'} h =
      let uuid = env.new_uuid s.machine.world.draws in
      let m = record s.machine { world = draw s.machine.world } in
      elim (Bool-cases (has_code code s.federation_storage.federations)) [
        | inl q ↦ absurd (ground arith)
        | inr q ↦ elim (Result-cases (services.new_client uuid code m).0) [
          | inr (_, r) ↦ absurd (ground arith)
          | inl (id, r) ↦
              let t : Wallet V E = record s {
                machine = (services.new_client uuid code m).1;
                federation_storage = with_federation uuid code s.federation_storage;
              } in
              let u = (insert_federations t).1 in
              let (same, list) = insert_federations-keeps t in
              elim (Result-cases (insert_federations t).0) [
                | inr (_, f) ↦ absurd (ground arith)
                | inl (_, f) ↦
                    let new : FederationClient = record {
                      federation_id = id;
                      uuid = uuid;
                      invite_code = code;
                    } in
                    let v : Wallet V E = record u { federations = insert u.federations id new } in
                    let (clients, stored_list, moved, _) = move_hermes-keeps code v in
                    let end : s' ≡ (move_hermes code v).1 = ground arith in
                    let made : client ≡ new = ground arith in
                    record {
                      clients = rw (end, made) (ground arith);
                      list = rw (end, made) (ground arith);
                    }
              ]
        ]
      ]

  -- The list that is stored is the one in memory.
  abbrev pub IsListStored : Wallet V E → Type 0
  IsListStored s =
      (get_data {A = FederationStorage} federations_key s.machine.world).0
      ≡ ok (some s.federation_storage)

  insert_federations-IsListStored :
      (s : Wallet V E)
      → IsKeyed s.machine.world.password s.machine.world.cipher
      → (insert_federations s).0 ≡ ok tt
      → IsListStored (insert_federations s).1
  unfolding insert_federations
  insert_federations-IsListStored s k e =
      let f = s.federation_storage in
      let w = (set_data_async federations_key f (some f.version) s.machine.world).1 in
      let read =
        get_data-set_data_async federations_key f (some f.version) s.machine.world {w' = w} k
          (ground arith) in
      ap (λ r. r.0) read

  remove_federation-Removed :
      (id : FederationId) (s : Wallet V E) {s' : Wallet V E}
      → IsKeyed s.machine.world.password s.machine.world.cipher
      → remove_federation id s ≡ (ok tt, s')
      → (client : FederationClient) × (get s.federations id ≡ some client)
        × (s'.federations ≡ remove s.federations id)
        × (s'.federation_storage ≡ without_federation client.uuid s.federation_storage)
        × IsListStored s'
  unfolding remove_federation drop_federation
  remove_federation-Removed id s {s'} sealed h = elim (Option-cases (get s.federations id)) [
    | inl q ↦ absurd (ground arith)
    | inr (client, q) ↦ elim (Option-cases (get s.federation_storage.federations client.uuid)) [
      | inl r ↦ absurd (ground arith)
      | inr (code, r) ↦
          let t : Wallet V E = record s {
            federation_storage = without_federation client.uuid s.federation_storage;
          } in
          let u = (insert_federations t).1 in
          let (same, list) = insert_federations-keeps t in
          elim (Result-cases (insert_federations t).0) [
            | inr (_, f) ↦ absurd (ground arith)
            | inl (_, f) ↦
                let v : Wallet V E = record u { federations = remove u.federations id } in
                let (clients, kept, left, world) = leave_hermes-keeps v.federations v in
                let end : s' ≡ (leave_hermes v.federations v).1 = ground arith in
                let saved = insert_federations-IsListStored t sealed (ground arith) in
                (
                  client,
                  q,
                  rw end (ground arith),
                  rw end (ground arith),
                  rw (end, world, kept) saved,
                )
          ]
    ]
  ]

  -- If a federation that is listed and stored is removed and the write of the list fails, as when the
  -- remote storage refuses it, then its client stays, and every later removal finds nothing to remove.
  pub remove_federation_stuck :
      (id : FederationId) (client : FederationClient) (s : Wallet V E) {code : Text}
      {e : MutinyError}
      → get s.federations id ≡ some client
      → get s.federation_storage.federations client.uuid ≡ some code
      → (insert_federations
          (record s { federation_storage = without_federation client.uuid s.federation_storage })).0
        ≡ err e
      → let s' = (remove_federation id s).1 in
        ((remove_federation id s).0 ≡ err e)
        × (get s'.federations id ≡ some client)
        × (remove_federation id s' ≡ (err not_found, s'))
  unfolding remove_federation drop_federation
  remove_federation_stuck id client s {code} {e} listed kept fails =
      let t : Wallet V E = record s {
        federation_storage = without_federation client.uuid s.federation_storage;
      } in
      let u = (insert_federations t).1 in
      let (same, gone) = insert_federations-keeps t in
      let failed : remove_federation id s ≡ (err e, u) =
        rw (listed, remove_federation, kept, drop_federation, fails) refl in
      let there : get u.federations id ≡ some client = rw same listed in
      let missing : get u.federation_storage.federations client.uuid ≡ none = rw gone (
        ground (
          arith,
          get-remove s.federation_storage.federations client.uuid client.uuid,
          ==_self client.uuid,
        )) in
      let again : remove_federation id u ≡ (err not_found, u) =
        rw (there, remove_federation, missing, drop_federation) refl in
      rw failed (refl, there, again)

  -- A federation that was added cannot be added again: the second call changes nothing.
  pub create_new_federation_twice :
      (code : Text) (s : Wallet V E) {client : FederationClient} {s' : Wallet V E}
      → create_new_federation code s ≡ (ok client, s')
      → create_new_federation code s' ≡ (err invalid_arguments_error, s')
  unfolding create_new_federation
  create_new_federation_twice code s {client} {s'} h =
      let added = create_new_federation-Added code s {client = client} {s' = s'} h in
      let known : has_code code s'.federation_storage.federations ≡ true =
        rw added.list (has_code-insert s.federation_storage.federations client.uuid code) in
      rw (known, create_new_federation) refl

  -- If nothing is filed under the new id or uuid, and after the creation the cipher is that of the password,
  -- then a federation that is added and then removed, both with success, leaves every client and every
  -- entry of the list as it was, and the list is stored so.
  pub remove_federation-create :
      (code : Text) (s : Wallet V E) {client : FederationClient} {s1 s2 : Wallet V E} (k : Text)
      → get s.federations client.federation_id ≡ none
      → get s.federation_storage.federations client.uuid ≡ none
      → IsKeyed s1.machine.world.password s1.machine.world.cipher
      → create_new_federation code s ≡ (ok client, s1)
      → remove_federation client.federation_id s1 ≡ (ok tt, s2)
      → (get s2.federations k ≡ get s.federations k)
        × (get s2.federation_storage.federations k ≡ get s.federation_storage.federations k)
        × IsListStored s2
  remove_federation-create code s {client} {s1} {s2} k h h' sealed e e' =
      let added = create_new_federation-Added code s {client = client} {s' = s1} e in
      let (old, found, clients, list, saved) =
        remove_federation-Removed client.federation_id s1 {s' = s2} sealed e' in
      let same : old ≡ client = ground (
        arith,
        added.clients,
        get-insert s.federations client.federation_id client client.federation_id,
        ==_self client.federation_id,
      ) in
      (
        rw clients (
            rw added.clients (
              ground (
                arith,
                get-remove (insert s.federations client.federation_id client) client.federation_id
                    k,
                get-insert s.federations client.federation_id client k,
                ==_iff client.federation_id k,
              ))),
        rw list (
            rw same (
              rw added.list (
                ground (
                  arith,
                  get-remove (insert s.federation_storage.federations client.uuid code) client.uuid
                      k,
                  get-insert s.federation_storage.federations client.uuid code k,
                  ==_iff client.uuid k,
                )))),
        saved,
      )
