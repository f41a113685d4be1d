-- ===== src/Nwc/Profile.antt =====
-- The profile of a connection, its spending conditions, and the keys that come with it.
use mutiny_node.Prelude.{ℕ, Bool, true, not, ◌&&◌, List, [], ◌∷◌, Option, none, some, unwrap_or}
use mutiny_node.Prelude.Text.{Text}
use mutiny_node.Exec.{Result, ok, and_then}
use mutiny_node.Encrypt.{Bytes}
use mutiny_node.Nwc.Invoice.{PublicKey}
use mutiny_node.Nwc.Budget.{BudgetedSpendingConditions}

-- `nostr::nips::nip47::Method`
pub data Method : Type 0 where
  pay_invoice multi_pay_invoice pay_keysend multi_pay_keysend : Method
  make_invoice lookup_invoice list_transactions get_balance get_info : Method

pub record SingleUseSpendingConditions : Type 0 where
  pub payment_hash : Option Text
  pub amount_sats : ℕ

pub data SpendingConditions : Type 0 where
  single_use : SingleUseSpendingConditions → SpendingConditions
  require_approval : SpendingConditions
  budget : BudgetedSpendingConditions → SpendingConditions

pub data NwcProfileTag : Type 0 where
  subscription gift general : NwcProfileTag

pub record Profile : Type 0 where
  pub name : Text
  pub index : ℕ
  pub client_key : Option PublicKey
  pub relay : Text
  pub enabled : Option Bool
  pub archived : Option Bool
  pub spending_conditions : SpendingConditions
  pub commands : Option (List Method)
  pub child_key_index : Option ℕ
  pub tag : NwcProfileTag
  pub label : Option Text

active_flags : Option Bool → Option Bool → Bool
active_flags (some enabled) (some archived) = enabled && not archived
active_flags (some enabled) none = enabled
active_flags none (some archived) = not archived
active_flags none none = true

unfoldable pub active : Profile → Bool
unfolding active_flags
active p = active_flags p.enabled p.archived

-- A profile without commands is an old one.
unfoldable pub available_commands : Profile → List Method
available_commands p = unwrap_or p.commands (Method.pay_invoice ∷ [])

-- `nostr::Keys`: the public key, and the secret key where it is known.
pub record Keys : Type 0 where
  pub public_key : PublicKey
  pub secret_key : Option Bytes

pub record NostrWalletConnect : Type 0 where
  pub client_key : Keys
  pub server_key : Keys
  pub profile : Profile

-- What the wallet's seed gives: `derive_nwc_keys(context, xprivkey, profile_index)`, the client key
-- and the server key.
pub record KeyRing : Type 0 where
  pub derive_nwc_keys : ℕ → Result (Keys × Keys)

-- The client key of a profile that was created from a nostr wallet auth request is the one that the
-- request gave.
abbrev pub client_keys : Option PublicKey → Keys → Keys
client_keys none derived = derived
client_keys (some key) derived = record { public_key = key; secret_key = none }

module _ ⦃ring : KeyRing⦄ where
  -- `NostrWalletConnect::new`
  unfoldable pub new_wallet_connect : Profile → Result NostrWalletConnect
  new_wallet_connect profile =
      and_then (ring.derive_nwc_keys (unwrap_or profile.child_key_index profile.index)) λ keys.
        ok (record {
          client_key = client_keys profile.client_key keys.0;
          server_key = keys.1;
          profile = profile;
        })

-- `NwcProfile`, the view of a profile for the outside: its fields and the URI. `nwc_uri` is the URI
-- that `get_nwc_uri` builds, none where the secret key of the client is not known.
pub record NwcProfile : Type 0 where
  pub inner : Profile
  pub open inner use *
  pub nwc_uri : Option Text

-- `NostrWalletConnectURI::new(server public key, relay, client secret key)` displayed.
pub record Uris : Type 0 where
  pub wallet_connect_uri : PublicKey → Text → Bytes → Text

module _ ⦃uris : Uris⦄ where
  -- `get_nwc_uri`, for a relay that parses
  unfoldable pub get_nwc_uri : NostrWalletConnect → Option Text
  get_nwc_uri nwc = elim nwc.client_key.secret_key [
    | none ↦ none
    | some sk ↦ some (uris.wallet_connect_uri nwc.server_key.public_key nwc.profile.relay sk)
  ]

  unfoldable pub nwc_profile : NostrWalletConnect → NwcProfile
  nwc_profile nwc = record { inner = nwc.profile; nwc_uri = get_nwc_uri nwc }
