-- ===== src/Examples/Tokens.antt =====
-- The theorems on blind tokens at concrete inputs.
use mutiny_node.Prelude.{◌+◌, ◌^◌, ◌<◌, ◌≡◌, refl, false, not, List, [], ◌∷◌, ◌++◌, arith, retain}
use mutiny_node.Prelude.Map.{get}
use mutiny_node.Exec.{ok}
use mutiny_node.Storage.{set_data_async}
use mutiny_node.Storage.Values.{encrypt_value}
use mutiny_node.Tokens.{
  ServicePlanIndex, plan_eq, SignedToken, TokenStorage, Issuer, same_token, get_value,
  BlindAuthClient, available_tokens, insert_token_storage, used_token, redeem_available_tokens,
}
use mutiny_node.Tokens.Counted.{IsCounted, redeem_available_tokens-IsCounted}
use mutiny_node.Tokens.Used.{used_token-available}
use mutiny_node.Examples.Instances.{
  Value, plain_crypto, value_json, token_list_serde, test_env, empty_world,
}

abbrev free_plan : ServicePlanIndex
free_plan = record { service_id = 1; plan_id = 1 }

-- A server that always has two tokens of one plan, and signs all.
instance abbrev test_issuer : Issuer
test_issuer = record {
  derive_blind_token = λ service plan counter. service ∷ (plan ∷ (counter ∷ []));
  check_tokens = λ n. ok (free_plan ∷ (free_plan ∷ []));
  redeem_tokens = λ n r. ok r.blinded_message;
}

abbrev old_token : SignedToken
old_token = record {
  counter = 1;
  service_id = 1;
  plan_id = 1;
  blinded_message = 1 ∷ (1 ∷ (1 ∷ []));
  blind_sig = 1 ∷ (1 ∷ (1 ∷ []));
  spent = false;
}

abbrev one_token : TokenStorage
one_token = record { map = (free_plan, 1) ∷ []; tokens = old_token ∷ []; version = 1 }

abbrev a_client : BlindAuthClient Value
a_client = record { token_storage = one_token; world = empty_world; requests = [] }

one_token-IsCounted : IsCounted one_token
unfolding get
one_token-IsCounted = record { bounded = (omega arith, tt); distinct = (tt, tt) }

one_plan-bounded : (p : ServicePlanIndex) → get_value one_token p + 2 < 2 ^ 32
unfolding get
one_plan-bounded p = ground arith

redeem_available_tokens-IsCounted_example :
    IsCounted (redeem_available_tokens a_client).1.token_storage
    × ((new : List SignedToken) × ((redeem_available_tokens a_client).1.token_storage.tokens
          ≡ (old_token ∷ []) ++ new))
redeem_available_tokens-IsCounted_example =
    redeem_available_tokens-IsCounted a_client (free_plan ∷ (free_plan ∷ [])) refl one_plan-bounded
      one_token-IsCounted

used_token-available_example :
    IsCounted (used_token old_token a_client).1.token_storage
    × (available_tokens (used_token old_token a_client).1
        ≡ retain (λ t. not (same_token old_token t)) (available_tokens a_client))
unfolding used_token insert_token_storage set_data_async encrypt_value
used_token-available_example =
    used_token-available old_token a_client {s' = (used_token old_token a_client).1}
      one_token-IsCounted refl
