-- ===== src/Nwc/Manager/Auth/Distinct.antt =====
-- A nostr wallet auth request adds a profile of a fresh index, for the key that it names, and leaves the
-- others.
use mutiny_node.Prelude.{
  ℕ, sym, find, if◌then◌else◌, ◌==◌, nat_eq, ◌+◌, ◌^◌, ◌≤◌, ◌<◌, ◌≡◌, refl, inl, inr, List, [], ◌∷◌,
  ◌++◌, Option, none, some, arith, All, ◌∙◌,
}
use mutiny_node.Prelude.Text.{Text}
use mutiny_node.Exec.{ok, Result-cases}
use mutiny_node.Encrypt.{Crypto}
use mutiny_node.Storage.Values.{Json, Serde}
use mutiny_node.Storage.{World, Env}
use mutiny_node.Storage.Data.{IsKeyed}
use mutiny_node.Storage.Written.{scan-state}
use mutiny_node.Labels.{LabelItem, Contact}
use mutiny_node.Labels.Read.{get_contacts}
use mutiny_node.Labels.Keys.{contact_prefix}
use mutiny_node.Nwc.Budget.{BudgetedSpendingConditions}
use mutiny_node.Nwc.Invoice.{PublicKey}
use mutiny_node.Nwc.Profile.{
  Method, NwcProfileTag, Profile, NostrWalletConnect, KeyRing, NwcProfile, Uris, new_wallet_connect,
  nwc_profile,
}
use mutiny_node.Nwc.Manager.{Manager, ProfileType, has_index, next_user_index, sort_by_index}
use mutiny_node.Nwc.Manager.Ops.{save_profiles}
use mutiny_node.Nwc.Manager.Profiles.{
  LacksIndex, HasDistinctIndexes, IsStored, next_user_index_fresh, sort_by_index-HasDistinctIndexes,
  push-HasDistinctIndexes, find-sort_by_index, find-push, new_wallet_connect-profile,
  save_profiles-IsStored,
}
use mutiny_node.Nwc.Manager.Auth.{
  Nip49Uri, auth_conditions, auth_profile, identity_label, push_profile, nostr_wallet_auth,
}

module _ {V : Type 0} ⦃c : Crypto⦄ ⦃j : Json V⦄ ⦃env : Env⦄ ⦃profiles : Serde V (List Profile)⦄
    ⦃items : Serde V LabelItem⦄ ⦃contacts : Serde V Contact⦄ where
  push_profile-HasDistinctIndexes :
      ⦃u : Uris⦄ (nwc : NostrWalletConnect) (m : Manager V) {p : NwcProfile} {m' : Manager V}
      → IsKeyed m.world.password m.world.cipher
      → LacksIndex nwc.profile.index m.nwc
      → HasDistinctIndexes m.nwc
      → push_profile nwc m ≡ (ok p, m')
      → HasDistinctIndexes m'.nwc
        × (p.inner ≡ nwc.profile)
        × IsStored m'
        × ((i : ℕ)
            → find (has_index i) m'.nwc
              ≡ (if nwc.profile.index == i then some nwc else find (has_index i) m.nwc))
  unfolding push_profile nwc_profile save_profiles
  push_profile-HasDistinctIndexes nwc m {p} {m'} k fresh a e =
      let m1 = record m { nwc = sort_by_index (m.nwc ++ (nwc ∷ [])) } in
      elim (Result-cases (save_profiles m1).0) [
        | inr (_, r) ↦ absurd (ground arith)
        | inl (_, r) ↦
            let end : m' ≡ (save_profiles m1).1 = ground arith in
            let inner : p.inner ≡ nwc.profile = ground arith in
            rw end (
              sort_by_index-HasDistinctIndexes (m.nwc ++ (nwc ∷ []))
                  (push-HasDistinctIndexes m.nwc nwc fresh a),
              inner,
              save_profiles-IsStored m1 {m' = (save_profiles m1).1} k (ground arith),
              λ i.
                  find-sort_by_index i (m.nwc ++ (nwc ∷ []))
                    (push-HasDistinctIndexes m.nwc nwc fresh a)
                  ∙ find-push i m.nwc nwc fresh,
            )
      ]

  identity_label-state :
      (identity : Option PublicKey) (w : World V) → (identity_label identity w).1 ≡ w
  unfolding identity_label get_contacts
  identity_label-state none w = refl
  identity_label-state (some identity) w = ground (arith, scan-state Contact contact_prefix w)

  -- If the indexes are distinct, each with room for one more below the bound of `u32`, and the cipher
  -- is that of the password, then an auth request that succeeds for a user profile keeps them distinct
  -- and the list stored, and adds one connection, with the profile that it returns: every other index
  -- finds what it did before. The profile has an index from 1000 on that no other had, is for the key that
  -- the request names, and spends as the request or the budget beside it says, never both.
  pub nostr_wallet_auth-HasDistinctIndexes :
      ⦃u : Uris⦄ ⦃ring : KeyRing⦄ (name : Text) (uri : Nip49Uri)
      (budget : Option BudgetedSpendingConditions) (tag : NwcProfileTag) (commands : List Method)
      (m : Manager V) {p : NwcProfile} {m' : Manager V}
      → IsKeyed m.world.password m.world.cipher
      → All (λ n. n.profile.index + 1 < 2 ^ 32) m.nwc
      → HasDistinctIndexes m.nwc
      → nostr_wallet_auth (ProfileType.normal name) uri budget tag commands m ≡ (ok p, m')
      → HasDistinctIndexes m'.nwc
        × IsStored m'
        × (1000 ≤ p.index)
        × LacksIndex p.index m.nwc
        × (p.client_key ≡ some uri.public_key)
        × (auth_conditions uri.budget budget ≡ ok p.spending_conditions)
        × ((nwc : NostrWalletConnect) × (nwc.profile ≡ p.inner)
            × ((i : ℕ)
                → find (has_index i) m'.nwc
                  ≡ (if p.index == i then some nwc else find (has_index i) m.nwc)))
  unfolding nostr_wallet_auth
  nostr_wallet_auth-HasDistinctIndexes name uri budget tag commands m {p} {m'} k b a e =
      let i = next_user_index m.nwc in
      let fresh = next_user_index_fresh m.nwc b in
      let state = identity_label-state uri.identity m.world in
      elim (Result-cases (auth_conditions uri.budget budget)) [
        | inr (_, q) ↦ absurd (ground arith)
        | inl (conditions, q) ↦ elim (Result-cases (identity_label uri.identity m.world).0) [
          | inr (_, r) ↦ absurd (ground arith)
          | inl (label, r) ↦
              let profile =
                auth_profile name i (some (env.random_child m.world.draws)) uri.public_key
                  conditions commands tag label in
              elim (Result-cases (new_wallet_connect profile)) [
                | inr (_, t) ↦ absurd (ground arith)
                | inl (nwc, t) ↦
                    let same = new_wallet_connect-profile profile {nwc = nwc} t in
                    let (distinct, inner, stored, found) =
                      push_profile-HasDistinctIndexes nwc m {p = p} {m' = m'} k (rw same fresh.1) a
                        (ground arith) in
                    let own : p.inner ≡ profile = inner ∙ same in
                    (
                      distinct,
                      stored,
                      rw own fresh.0,
                      rw own fresh.1,
                      rw own refl,
                      rw own q,
                      (nwc, sym inner, rw inner found),
                    )
              ]
        ]
      ]
