-- ===== src/Tokens.antt =====
-- mutiny-core/src/blindauth.rs: the blind tokens of the wallet's services, and storage.rs: how they are
-- stored. A token is derived from the counter of its plan; the server signs it blindly. The derivation
-- and the server are the instance `Issuer`. The lock on the token storage is held by each method from
-- its first read to its last write.
pub mod Counted
pub mod Used
use mutiny_node.Prelude.{
  ℕ, ◌+◌, ◌%◌, ◌^◌, ◌≡◌, ◌↔◌, Bool, true, false, not, ◌&&◌, List, [], ◌∷◌, ◌++◌, Option, none, some,
  arith, ◌==◌, nat_eq, ==_iff, Eq, length, retain, unwrap_or, if◌then◌else◌,
}
use mutiny_node.Prelude.Text.{Text, codes}
use mutiny_node.Prelude.Map.{Map, get, insert}
use mutiny_node.Error.{MutinyError, not_found}
use mutiny_node.Exec.{Result, ok, err, Exec, pure, raise, lift, ◌>>=◌, ◌>>◌}
use mutiny_node.Encrypt.{Crypto}
use mutiny_node.Storage.Values.{Json, Serde}
use mutiny_node.Storage.{World, Env, set_data_async, get_data}

abbrev pub service_tokens : Text
service_tokens = codes "service_tokens"

pub record ServicePlanIndex : Type 0 where
  pub service_id : ℕ
  pub plan_id : ℕ

abbrev pub plan_beq : ServicePlanIndex → ServicePlanIndex → Bool
plan_beq a b = a.service_id == b.service_id && a.plan_id == b.plan_id

pub plan_beq_iff : (a b : ServicePlanIndex) → (plan_beq a b ≡ true) ↔ (a ≡ b)
plan_beq_iff a b = (λ h. ground (arith), λ h. ground arith)

instance abbrev pub plan_eq : Eq ServicePlanIndex
plan_eq = record { beq = plan_beq; beq_iff = plan_beq_iff }

pub record SignedToken : Type 0 where
  pub counter : ℕ
  pub service_id : ℕ
  pub plan_id : ℕ
  pub blinded_message : Text
  pub blind_sig : Text
  pub spent : Bool

pub record TokenStorage : Type 0 where
  -- how often a token of the plan was issued
  pub map : Map ServicePlanIndex ℕ
  pub tokens : List SignedToken
  pub version : ℕ

pub record RedeemServiceTokenRequest : Type 0 where
  pub service_id : ℕ
  pub plan_id : ℕ
  pub blinded_message : Text

pub record Issuer : Type 0 where
  -- `derive_blind_token` for a service, a plan and a counter
  pub derive_blind_token : ℕ → ℕ → ℕ → Text
  -- the plans that the server has tokens for, and its signature; each may depend on how many
  -- signatures were asked for before
  pub check_tokens : ℕ → Result (List ServicePlanIndex)
  pub redeem_tokens : ℕ → RedeemServiceTokenRequest → Result Text

abbrev pub plan_of : SignedToken → ServicePlanIndex
plan_of t = record { service_id = t.service_id; plan_id = t.plan_id }

abbrev pub get_value : TokenStorage → ServicePlanIndex → ℕ
get_value s plan = unwrap_or (get s.map plan) 0

-- The numbers are of type `u32`.
unfoldable pub increment : ServicePlanIndex → SignedToken → TokenStorage → TokenStorage
increment plan token s = record {
  map = insert s.map plan ((get_value s plan + 1) % 2 ^ 32);
  tokens = s.tokens ++ (token ∷ []);
  version = (s.version + 1) % 2 ^ 32;
}

-- The token of a plan and a counter, once the server has signed it.
abbrev pub signed : ⦃issuer : Issuer⦄ → ServicePlanIndex → ℕ → Text → SignedToken
signed ⦃issuer⦄ plan counter blind_sig = record {
  counter = counter;
  service_id = plan.service_id;
  plan_id = plan.plan_id;
  blinded_message = issuer.derive_blind_token plan.service_id plan.plan_id counter;
  blind_sig = blind_sig;
  spent = false;
}

-- The test by which `used_token` looks for a token.
abbrev pub same_token : SignedToken → SignedToken → Bool
same_token token t =
    t.service_id == token.service_id && (t.plan_id == token.plan_id && t.counter == token.counter)

abbrev pub as_spent : SignedToken → SignedToken
as_spent t = record t { spent = true }

-- `position`, and the write to what it finds; `none` where there is nothing.
pub spend_first : (SignedToken → Bool) → List SignedToken → Option (List SignedToken)
spend_first p [] = none
spend_first p (t ∷ ts) =
    if p t
    then some (as_spent t ∷ ts)
    else elim (spend_first p ts) [ none ↦ none | some rest ↦ some (t ∷ rest) ]

-- The part of `BlindAuthClient` that changes.
pub record BlindAuthClient (V : Type 0) : Type 0 where
  pub token_storage : TokenStorage
  pub world : World V
  -- the signatures that the server was asked for, oldest first
  pub requests : List RedeemServiceTokenRequest

module _ {V : Type 0} where
  abbrev pub put_tokens : TokenStorage → Exec (BlindAuthClient V) Unit
  put_tokens t s = (ok tt, record s { token_storage = t })

  abbrev pub available_tokens : BlindAuthClient V → List SignedToken
  available_tokens s = retain (λ t. not t.spent) s.token_storage.tokens

  -- `retrieve_blinded_signature`, the request to the server
  abbrev pub request : ⦃issuer : Issuer⦄ → RedeemServiceTokenRequest → Exec (BlindAuthClient V) Text
  request ⦃issuer⦄ r s =
      (issuer.redeem_tokens (length s.requests) r, record s { requests = s.requests ++ (r ∷ []) })

  module _ ⦃c : Crypto⦄ ⦃j : Json V⦄ ⦃env : Env⦄ ⦃stored : Serde V TokenStorage⦄ where
    -- `get_token_storage` of the storage
    unfoldable pub get_token_storage : Exec (World V) TokenStorage
    get_token_storage = do
      res ← get_data service_tokens
      pure (unwrap_or res (record { map = []; tokens = []; version = 0 }))

    -- `insert_token_storage` of the list in memory
    unfoldable pub insert_token_storage : Exec (BlindAuthClient V) Unit
    insert_token_storage s =
        let done =
          set_data_async service_tokens s.token_storage (some s.token_storage.version) s.world in
        (done.0, record s { world = done.1 })

    -- The token that was signed is put into the list, and the list is stored.
    unfoldable pub store_token : SignedToken → Exec (BlindAuthClient V) SignedToken
    unfolding increment
    store_token token = do
      λ s. put_tokens (increment (plan_of token) token s.token_storage) s
      insert_token_storage
      pure token

    module _ ⦃issuer : Issuer⦄ where
      unfoldable pub retrieve_blinded_signature :
          ServicePlanIndex → Exec (BlindAuthClient V) SignedToken
      retrieve_blinded_signature plan s =
          let counter = (get_value s.token_storage plan + 1) % 2 ^ 32 in
          (do
            blind_sig ← request (record {
              service_id = plan.service_id;
              plan_id = plan.plan_id;
              blinded_message = issuer.derive_blind_token plan.service_id plan.plan_id counter;
            })
            store_token (signed plan counter blind_sig))
            s

      -- "fetch available one by one": a failure is only logged.
      unfoldable pub redeem_all : List ServicePlanIndex → BlindAuthClient V → BlindAuthClient V
      redeem_all [] s = s
      redeem_all (plan ∷ plans) s = redeem_all plans (retrieve_blinded_signature plan s).1

      unfoldable pub redeem_available_tokens : Exec (BlindAuthClient V) Unit
      redeem_available_tokens s = elim (issuer.check_tokens (length s.requests)) [
        | ok plans ↦ (ok tt, redeem_all plans s)
        | err e ↦ (err e, s)
      ]

    unfoldable pub used_token : SignedToken → Exec (BlindAuthClient V) Unit
    unfolding spend_first
    used_token token s = elim (spend_first (same_token token) s.token_storage.tokens) [
      | none ↦ (err not_found, s)
      | some tokens ↦ insert_token_storage (record s {
        token_storage = record s.token_storage {
          tokens = tokens;
          version = (s.token_storage.version + 1) % 2 ^ 32;
        };
      })
    ]
