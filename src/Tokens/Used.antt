-- ===== src/Tokens/Used.antt =====
-- A token that was used is no longer available, and the others stay as they were.
use mutiny_node.Prelude.{
  ◌+◌, ◌%◌, ◌^◌, ◌≤◌, ◌≡◌, inl, inr, Bool, true, false, not, List, [], ◌∷◌, some, arith, nat_eq,
  All, All-retain, retain, retain-eq_of_All, Bool-cases, Option-cases,
}
use mutiny_node.Exec.{ok}
use mutiny_node.Encrypt.{Crypto}
use mutiny_node.Storage.Values.{Json, Serde}
use mutiny_node.Storage.{Env}
use mutiny_node.Tokens.{
  SignedToken, TokenStorage, plan_of, get_value, same_token, as_spent, spend_first, BlindAuthClient,
  available_tokens, insert_token_storage, used_token,
}
use mutiny_node.Tokens.Counted.{AreDistinct, IsCounted}

abbrev unspent : SignedToken → Bool
unspent t = not t.spent

abbrev differs : SignedToken → SignedToken → Bool
differs token t = not (same_token token t)

same_token_trans :
    (token t u : SignedToken)
    → same_token token t ≡ true
    → same_token t u ≡ false
    → differs token u ≡ true
same_token_trans token t u h q = ground arith

All-differs :
    (token t : SignedToken) (ts : List SignedToken)
    → same_token token t ≡ true
    → All (λ u. same_token t u ≡ false) ts
    → All (λ u. differs token u ≡ true) ts
All-differs token t [] h a = tt
All-differs token t (u ∷ ts) h a = (same_token_trans token t u h a.0, All-differs token t ts h a.1)

spend_first-available :
    (token : SignedToken) (ts : List SignedToken) {ts' : List SignedToken}
    → AreDistinct ts
    → spend_first (same_token token) ts ≡ some ts'
    → retain unspent ts' ≡ retain (differs token) (retain unspent ts)
unfolding spend_first
spend_first-available token [] d h = cc
spend_first-available token (t ∷ ts) {ts'} d h = elim (Bool-cases (same_token token t)) [
  | inl e ↦
      let same : ts' ≡ as_spent t ∷ ts = ground arith in
      let others =
        retain-eq_of_All (differs token) (retain unspent ts)
          (All-retain (λ u. differs token u ≡ true) unspent ts (All-differs token t ts e d.0)) in
      rw same (ground (arith, Bool-cases t.spent))
  | inr e ↦ elim (Option-cases (spend_first (same_token token) ts)) [
    | inl q ↦ absurd (ground arith)
    | inr (rest, q) ↦
        let same : ts' ≡ t ∷ rest = ground arith in
        let ih = spend_first-available token ts {ts' = rest} d.1 q in
        rw same (ground (arith, Bool-cases t.spent))
  ]
]

-- What holds of a token whether it is spent or not holds of the tokens after one was spent.
All-spend_first :
    (P : SignedToken → Type 0) (p : SignedToken → Bool) (ts : List SignedToken)
    {ts' : List SignedToken}
    → ((t : SignedToken) → P t → P (as_spent t))
    → spend_first p ts ≡ some ts'
    → All P ts
    → All P ts'
unfolding spend_first
All-spend_first P p [] keep h a = cc
All-spend_first P p (t ∷ ts) {ts'} keep h a = elim (Bool-cases (p t)) [
  | inl e ↦ let same : ts' ≡ as_spent t ∷ ts = ground arith in rw same (keep t a.0, a.1)
  | inr e ↦ elim (Option-cases (spend_first p ts)) [
    | inl q ↦ absurd (ground arith)
    | inr (rest, q) ↦
        let same : ts' ≡ t ∷ rest = ground arith in
        rw same (a.0, All-spend_first P p ts {ts' = rest} keep q a.1)
  ]
]

AreDistinct-spend_first :
    (p : SignedToken → Bool) (ts : List SignedToken) {ts' : List SignedToken}
    → spend_first p ts ≡ some ts'
    → AreDistinct ts
    → AreDistinct ts'
unfolding spend_first
AreDistinct-spend_first p [] h d = cc
AreDistinct-spend_first p (t ∷ ts) {ts'} h d = elim (Bool-cases (p t)) [
  | inl e ↦ let same : ts' ≡ as_spent t ∷ ts = ground arith in rw same d
  | inr e ↦ elim (Option-cases (spend_first p ts)) [
    | inl q ↦ absurd (ground arith)
    | inr (rest, q) ↦
        let same : ts' ≡ t ∷ rest = ground arith in
        rw same (
          All-spend_first (λ u. same_token t u ≡ false) p ts {ts' = rest} (λ u x. x) q d.0,
          AreDistinct-spend_first p ts {ts' = rest} q d.1,
        )
  ]
]

module _ {V : Type 0} ⦃c : Crypto⦄ ⦃j : Json V⦄ ⦃env : Env⦄ ⦃stored : Serde V TokenStorage⦄ where
  -- If no two tokens share plan and counter, and no counter is above that of its plan, then after a token
  -- was used with success this still holds, and exactly the tokens that were available before are, but
  -- for that one.
  pub used_token-available :
      (token : SignedToken) (s : BlindAuthClient V) {s' : BlindAuthClient V}
      → IsCounted s.token_storage
      → used_token token s ≡ (ok tt, s')
      → IsCounted s'.token_storage
        × (available_tokens s' ≡ retain (λ t. not (same_token token t)) (available_tokens s))
  unfolding used_token insert_token_storage
  used_token-available token s {s'} k h =
      elim (Option-cases (spend_first (same_token token) s.token_storage.tokens)) [
        | inl q ↦ absurd (ground arith)
        | inr (ts, q) ↦
            let after : s'.token_storage ≡ record s.token_storage {
              tokens = ts;
              version = (s.token_storage.version + 1) % 2 ^ 32;
            } =
              ground arith in
            (
              rw after (record {
                bounded =
                    All-spend_first (λ t. t.counter ≤ get_value s.token_storage (plan_of t))
                      (same_token token) s.token_storage.tokens {ts' = ts} (λ t x. x) q k.bounded;
                distinct =
                    AreDistinct-spend_first (same_token token) s.token_storage.tokens {ts' = ts} q
                      k.distinct;
              }),
              rw after (spend_first-available token s.token_storage.tokens {ts' = ts} k.distinct q),
            )
      ]
