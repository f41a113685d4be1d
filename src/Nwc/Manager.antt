-- ===== src/Nwc/Manager.antt =====
-- The profiles of `NostrManager`: mutiny-core/src/nostr/mod.rs. The list `nwc` is behind one lock;
-- each method below holds it from its first read to its last write.
pub mod Ops
pub mod Auth
pub mod Profiles
use mutiny_node.Prelude.{
  ℕ, suc, ◌+◌, ◌%◌, ◌^◌, ◌≤◌, ◌≡◌, Bool, true, false, not, ◌||◌, List, [], ◌∷◌, ◌++◌, map, Option,
  none, some, inl, inr, max, leb, ltb, ◌==◌, nat_eq, if◌then◌else◌, retain, find, unwrap_or,
}
use mutiny_node.Prelude.Text.{Text, codes, text_eq}
use mutiny_node.Error.{MutinyError, not_found}
use mutiny_node.Exec.{Result, ok, err, Exec, pure, raise, lift, gets, ◌>>=◌, ◌>>◌, ok_or}
use mutiny_node.Encrypt.{Crypto, Bytes}
use mutiny_node.Storage.Values.{Json, Serde}
use mutiny_node.Storage.{World, Env, set_data, get_data}
use mutiny_node.Nwc.Invoice.{Bolt11, Bolt11Invoice, PublicKey, EventId}
use mutiny_node.Nwc.Budget.{BudgetPeriod, BudgetedSpendingConditions}
use mutiny_node.Nwc.Profile.{
  Method, SpendingConditions, NwcProfileTag, Profile, NostrWalletConnect, KeyRing, NwcProfile, Uris,
  active, new_wallet_connect, nwc_profile,
}

-- A call of `InvoiceHandler::pay_invoice`, with what the manager held in memory and the storage when it
-- was made.
pub record PayCall (V : Type 0) : Type 0 where
  pub invoice : Bolt11Invoice
  pub labels : List Text
  pub profiles : List Profile
  pub before : World V

-- The part of `NostrManager` that the wallet connect code reads and writes, over the storage.
pub record Manager (V : Type 0) : Type 0 where
  pub nwc : List NostrWalletConnect
  pub world : World V
  -- the calls made of the invoice handler, oldest first
  pub pay_calls : List (PayCall V)

abbrev pub nwc_storage_key : Text
nwc_storage_key = codes "nwc_profiles"

abbrev pub default_relay : Text
default_relay = codes "wss://relay.mutinywallet.com"

abbrev pub user_nwc_profile_start_index : ℕ
user_nwc_profile_start_index = 1000

abbrev pub mutiny_plus_subscription_label : Text
mutiny_plus_subscription_label = codes "Mutiny+ Subscription"

pub data ReservedProfile : Type 0 where
  mutiny_subscription : ReservedProfile

-- The panic of `info` is for an index that is not reserved; the only one is 0.
abbrev pub info : ReservedProfile → Text × ℕ
info mutiny_subscription = (mutiny_plus_subscription_label, 0)

pub data ProfileType : Type 0 where
  reserved : ReservedProfile → ProfileType
  normal : Text → ProfileType

abbrev pub profiles_of : List NostrWalletConnect → List Profile
profiles_of = map (λ n. n.profile)

abbrev pub has_index : ℕ → NostrWalletConnect → Bool
has_index i n = n.profile.index == i

-- An action on the storage, in the manager.
abbrev pub on_world : {V A : Type 0} → Exec (World V) A → Exec (Manager V) A
on_world m s = let (r, w) = m s.world in (r, record s { world = w })

abbrev pub put_nwc : {V : Type 0} → List NostrWalletConnect → Exec (Manager V) (Unit {0})
put_nwc l s = (ok tt, record s { nwc = l })

-- `iter_mut().find(..)` and a write to what it finds.
pub update_first :
    (NostrWalletConnect → Bool)
    → (NostrWalletConnect → NostrWalletConnect)
    → List NostrWalletConnect
    → List NostrWalletConnect
update_first p f [] = []
update_first p f (n ∷ ns) = if p n then f n ∷ ns else n ∷ update_first p f ns

abbrev pub with_profile : Profile → NostrWalletConnect → NostrWalletConnect
with_profile profile n = record n { profile = profile }

-- A stable sort by index, by insertion.
pub insert_by_index : NostrWalletConnect → List NostrWalletConnect → List NostrWalletConnect
insert_by_index n [] = n ∷ []
insert_by_index n (m ∷ ms) =
    if leb n.profile.index m.profile.index then n ∷ (m ∷ ms) else m ∷ insert_by_index n ms

pub sort_by_index : List NostrWalletConnect → List NostrWalletConnect
unfolding insert_by_index
sort_by_index [] = []
sort_by_index (n ∷ ns) = insert_by_index n (sort_by_index ns)

-- The greatest index at or above the start index, if there is one.
pub max_user_index : List NostrWalletConnect → Option ℕ
max_user_index [] = none
max_user_index (n ∷ ns) =
    let rest = max_user_index ns in
    if leb user_nwc_profile_start_index n.profile.index
    then some (max n.profile.index (unwrap_or rest 0))
    else rest

-- The next index is a `u32`.
pub next_user_index : List NostrWalletConnect → ℕ
unfolding max_user_index
next_user_index l = elim (max_user_index l) [
  | none ↦ user_nwc_profile_start_index
  | some i ↦ (i + 1) % 2 ^ 32
]

-- `get_next_nwc_index`; `child` is what `get_random_bip32_child_index` returns.
pub get_next_nwc_index : ProfileType → List NostrWalletConnect → ℕ → Text × ℕ × Option ℕ
unfolding next_user_index
get_next_nwc_index (ProfileType.reserved r) l child = ((info r).0, (info r).1, none)
get_next_nwc_index (ProfileType.normal name) l child = (name, next_user_index l, some child)

abbrev pub with_conditions : SpendingConditions → NostrWalletConnect → NostrWalletConnect
with_conditions sc n = record n { profile = record n.profile { spending_conditions = sc } }

-- The payments of the old budget are kept.
abbrev pub rebudget : ℕ → BudgetPeriod → Option ℕ → SpendingConditions → SpendingConditions
rebudget sats period single_max (SpendingConditions.budget b) =
    SpendingConditions.budget (record b { budget = sats; single_max = single_max; period = period })
rebudget sats period single_max _ =
    SpendingConditions.budget
      (record { budget = sats; single_max = single_max; payments = []; period = period })

abbrev pub set_budget : ℕ → BudgetPeriod → Option ℕ → NostrWalletConnect → NostrWalletConnect
set_budget sats period single_max n =
    with_conditions (rebudget sats period single_max n.profile.spending_conditions) n

abbrev pub disable : NostrWalletConnect → NostrWalletConnect
disable n = record n { profile = record n.profile { enabled = some false } }
