-- ===== src/Nwc/Manager/Profiles.antt =====
-- The list of profiles: no index twice, and the stored list is the one in memory.
use mutiny_node.Prelude.{
  ℕ, ◌+◌, ◌^◌, ◌≤◌, ◌<◌, ◌≡◌, ◌≢◌, refl, sym, inl, inr, List, [], ◌∷◌, ◌++◌, none, some, arith, leb,
  nat_eq, find, if◌then◌else◌, ◌==◌, unwrap_or, All, All-append, Bool-cases,
}
use mutiny_node.Prelude.Text.{Text, text_eq}
use mutiny_node.Exec.{ok, Result-cases}
use mutiny_node.Encrypt.{Crypto}
use mutiny_node.Storage.Values.{Json, Serde}
use mutiny_node.Storage.{Env, set_data, get_data}
use mutiny_node.Storage.Data.{IsKeyed, get_data-set_data}
use mutiny_node.Nwc.Profile.{
  Method, SpendingConditions, NwcProfileTag, Profile, NostrWalletConnect, KeyRing, NwcProfile, Uris,
  new_wallet_connect, nwc_profile,
}
use mutiny_node.Nwc.Manager.{
  Manager, ProfileType, has_index, nwc_storage_key, profiles_of, insert_by_index, sort_by_index,
  max_user_index, next_user_index, user_nwc_profile_start_index,
}
use mutiny_node.Nwc.Manager.Ops.{new_profile, save_profiles, create_new_nwc_profile_internal}

abbrev pub LacksIndex : ℕ → List NostrWalletConnect → Type 0
LacksIndex i = All (λ n. n.profile.index ≢ i)

-- No two profiles have one index.
abbrev pub HasDistinctIndexes : List NostrWalletConnect → Type 0
HasDistinctIndexes [] = Unit
HasDistinctIndexes (n ∷ ns) = LacksIndex n.profile.index ns × HasDistinctIndexes ns

insert_by_index-LacksIndex :
    (i : ℕ) (n : NostrWalletConnect) (l : List NostrWalletConnect)
    → n.profile.index ≢ i
    → LacksIndex i l
    → LacksIndex i (insert_by_index n l)
unfolding insert_by_index
insert_by_index-LacksIndex i n [] h a = (h, tt)
insert_by_index-LacksIndex i n (m ∷ ms) h a =
    ground (arith, insert_by_index-LacksIndex i n ms h a.1)

insert_by_index-HasDistinctIndexes :
    (n : NostrWalletConnect) (l : List NostrWalletConnect)
    → LacksIndex n.profile.index l
    → HasDistinctIndexes l
    → HasDistinctIndexes (insert_by_index n l)
unfolding insert_by_index
insert_by_index-HasDistinctIndexes n [] h a = (tt, tt)
insert_by_index-HasDistinctIndexes n (m ∷ ms) h a =
    elim (Bool-cases (leb n.profile.index m.profile.index)) [
      | inl e ↦ rw e (h, a)
      | inr e ↦ rw e (
        insert_by_index-LacksIndex m.profile.index n ms (λ q. h.0 (sym q)) a.0,
        insert_by_index-HasDistinctIndexes n ms h.1 a.1,
      )
    ]

sort_by_index-LacksIndex :
    (i : ℕ) (l : List NostrWalletConnect) → LacksIndex i l → LacksIndex i (sort_by_index l)
unfolding sort_by_index
sort_by_index-LacksIndex i [] a = tt
sort_by_index-LacksIndex i (n ∷ ns) a =
    insert_by_index-LacksIndex i n (sort_by_index ns) a.0 (sort_by_index-LacksIndex i ns a.1)

pub sort_by_index-HasDistinctIndexes :
    (l : List NostrWalletConnect) → HasDistinctIndexes l → HasDistinctIndexes (sort_by_index l)
unfolding sort_by_index
sort_by_index-HasDistinctIndexes [] a = tt
sort_by_index-HasDistinctIndexes (n ∷ ns) a =
    insert_by_index-HasDistinctIndexes n (sort_by_index ns)
      (sort_by_index-LacksIndex n.profile.index ns a.0) (sort_by_index-HasDistinctIndexes ns a.1)

pub push-HasDistinctIndexes :
    (l : List NostrWalletConnect) (n : NostrWalletConnect)
    → LacksIndex n.profile.index l
    → HasDistinctIndexes l
    → HasDistinctIndexes (l ++ (n ∷ []))
push-HasDistinctIndexes [] n h a = (tt, tt)
push-HasDistinctIndexes (m ∷ ms) n h a =
    (All-append _ ms (n ∷ []) a.0 ((λ q. h.0 (sym q)), tt), push-HasDistinctIndexes ms n h.1 a.1)

find-insert_by_index :
    (i : ℕ) (n : NostrWalletConnect) (l : List NostrWalletConnect)
    → LacksIndex n.profile.index l
    → find (has_index i) (insert_by_index n l) ≡ find (has_index i) (n ∷ l)
unfolding insert_by_index
find-insert_by_index i n [] a = refl
find-insert_by_index i n (m ∷ ms) a = elim (Bool-cases (leb n.profile.index m.profile.index)) [
  | inl e ↦ rw e refl
  | inr e ↦ ground (arith, find-insert_by_index i n ms a.1, a.0)
]

-- The order of the list does not matter to a look-up by index.
pub find-sort_by_index :
    (i : ℕ) (l : List NostrWalletConnect)
    → HasDistinctIndexes l
    → find (has_index i) (sort_by_index l) ≡ find (has_index i) l
unfolding sort_by_index
find-sort_by_index i [] a = refl
find-sort_by_index i (n ∷ ns) a =
    let lacks = sort_by_index-LacksIndex n.profile.index ns a.0 in
    ground (arith, find-insert_by_index i n (sort_by_index ns) lacks, find-sort_by_index i ns a.1)

pub find-push :
    (i : ℕ) (l : List NostrWalletConnect) (n : NostrWalletConnect)
    → LacksIndex n.profile.index l
    → find (has_index i) (l ++ (n ∷ []))
      ≡ (if n.profile.index == i then some n else find (has_index i) l)
find-push i [] n a = refl
find-push i (m ∷ ms) n a = ground (arith, find-push i ms n a.1, a.0)

-- One more than the greatest index in use by a user's profile, without the wrap-around.
abbrev top_index : List NostrWalletConnect → ℕ
top_index l = elim (max_user_index l) [ none ↦ user_nwc_profile_start_index | some i ↦ i + 1 ]

top_index-ge : (l : List NostrWalletConnect) → 1000 ≤ top_index l
unfolding max_user_index
top_index-ge [] = omega arith
top_index-ge (n ∷ ns) = ground (arith, top_index-ge ns)

top_index-cons :
    (n : NostrWalletConnect) (ns : List NostrWalletConnect)
    → (top_index ns ≤ top_index (n ∷ ns)) × (n.profile.index < top_index (n ∷ ns))
unfolding max_user_index
top_index-cons n ns = ground (arith, top_index-ge ns)

LacksIndex-top : (l : List NostrWalletConnect) (k : ℕ) → top_index l ≤ k → LacksIndex k l
LacksIndex-top [] k h = tt
LacksIndex-top (n ∷ ns) k h = (
  (λ e. omega (arith, top_index-cons n ns, e)),
  LacksIndex-top ns k (omega (arith, top_index-cons n ns)),
)

abbrev BelowLimit : List NostrWalletConnect → Type 0
BelowLimit = All (λ n. n.profile.index + 1 < 2 ^ 32)

top_index-lt : (l : List NostrWalletConnect) → BelowLimit l → top_index l < 2 ^ 32
unfolding max_user_index
top_index-lt [] h = omega arith
top_index-lt (n ∷ ns) h = ground (arith, top_index-lt ns h.1, top_index-ge ns)

next_user_index-eq-top :
    (l : List NostrWalletConnect) → BelowLimit l → next_user_index l ≡ top_index l
unfolding next_user_index
next_user_index-eq-top l h = ground (arith, top_index-lt l h)

-- If every index has room for one more below the bound of `u32`, the next user index is 1000 or more
-- and no profile has it.
pub next_user_index_fresh :
    (l : List NostrWalletConnect)
    → All (λ n. n.profile.index + 1 < 2 ^ 32) l
    → (1000 ≤ next_user_index l) × LacksIndex (next_user_index l) l
next_user_index_fresh l h =
    rw (next_user_index-eq-top l h) (top_index-ge l, LacksIndex-top l (top_index l) (omega arith))

pub new_wallet_connect-profile :
    ⦃ring : KeyRing⦄ (profile : Profile) {nwc : NostrWalletConnect}
    → new_wallet_connect profile ≡ ok nwc
    → nwc.profile ≡ profile
unfolding new_wallet_connect
new_wallet_connect-profile ⦃ring⦄ profile e =
    elim (Result-cases (ring.derive_nwc_keys (unwrap_or profile.child_key_index profile.index))) [
      | inl (_, q) ↦ ground arith
      | inr (_, q) ↦ absurd (ground arith)
    ]

module _ {V : Type 0} ⦃c : Crypto⦄ ⦃j : Json V⦄ ⦃env : Env⦄
    ⦃profiles : Serde V (List Profile)⦄ where
  -- What is in memory is what is stored.
  abbrev pub IsStored : Manager V → Type 0
  IsStored m =
      (get_data {A = List Profile} nwc_storage_key m.world).0 ≡ ok (some (profiles_of m.nwc))

  save_profiles-nwc : (m : Manager V) → (save_profiles m).1.nwc ≡ m.nwc
  unfolding save_profiles
  save_profiles-nwc m = refl

  pub save_profiles-IsStored :
      (m : Manager V) {m' : Manager V}
      → IsKeyed m.world.password m.world.cipher
      → save_profiles m ≡ (ok tt, m')
      → IsStored m'
  unfolding save_profiles
  save_profiles-IsStored m {m'} k e =
      elim (Result-cases (set_data nwc_storage_key (profiles_of m.nwc) none m.world).0) [
        | inr (_, q) ↦ absurd (ground arith)
        | inl (_, q) ↦
            let w = (set_data nwc_storage_key (profiles_of m.nwc) none m.world).1 in
            let r =
              get_data-set_data nwc_storage_key (profiles_of m.nwc) none m.world {w' = w} k
                (ground arith) nwc_storage_key in
            ground arith
      ]

  -- If the indexes are distinct, each with room for one more below the bound of `u32`, and the cipher
  -- is that of the password, then creating a user profile that succeeds keeps them distinct, gives the
  -- profile an index from 1000 on that no other had, and leaves the list in memory stored.
  pub create_HasDistinctIndexes :
      ⦃u : Uris⦄ ⦃ring : KeyRing⦄ (name : Text) (conditions : SpendingConditions)
      (tag : NwcProfileTag) (commands : List Method) (m : Manager V) {p : NwcProfile}
      {m' : Manager V}
      → IsKeyed m.world.password m.world.cipher
      → All (λ n. n.profile.index + 1 < 2 ^ 32) m.nwc
      → HasDistinctIndexes m.nwc
      → create_new_nwc_profile_internal (ProfileType.normal name) conditions tag commands m
        ≡ (ok p, m')
      → HasDistinctIndexes m'.nwc × (1000 ≤ p.index) × LacksIndex p.index m.nwc × IsStored m'
  unfolding create_new_nwc_profile_internal nwc_profile save_profiles sort_by_index
  create_HasDistinctIndexes name conditions tag commands m {p} {m'} k b a e =
      let i = next_user_index m.nwc in
      let fresh = next_user_index_fresh m.nwc b in
      let profile =
        new_profile name i (some (env.random_child m.world.draws)) conditions tag commands in
      elim (Result-cases (new_wallet_connect profile)) [
        | inr (_, q) ↦ absurd (ground arith)
        | inl (nwc, q) ↦
            let same = new_wallet_connect-profile profile {nwc = nwc} q in
            let m1 = record m { nwc = sort_by_index (m.nwc ++ (nwc ∷ [])) } in
            elim (Result-cases (save_profiles m1).0) [
              | inr (_, r) ↦ absurd (ground arith)
              | inl (_, r) ↦
                  let end : m' ≡ (save_profiles m1).1 = ground arith in
                  let index : p.index ≡ i = ground arith in
                  let own : nwc.profile.index ≡ i = ground arith in
                  rw (end, index)
                    (
                      sort_by_index-HasDistinctIndexes (m.nwc ++ (nwc ∷ []))
                          (push-HasDistinctIndexes m.nwc nwc (rw own fresh.1) a),
                      fresh.0,
                      fresh.1,
                      save_profiles-IsStored m1 {m' = (save_profiles m1).1} k (ground arith),
                    )
            ]
      ]
