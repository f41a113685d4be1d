-- ===== src/Tokens/Counted.antt =====
-- Tokens are issued once: no two of the list share plan and counter.
use mutiny_node.Prelude.{
  suc, ◌+◌, ◌%◌, ◌^◌, ◌≤◌, ◌<◌, ◌≡◌, refl, ◌∙◌, ap, sym, ◌⊎◌, inl, inr, false, List, [], ◌∷◌, ◌++◌,
  arith, ◌==◌, nat_eq, ==_iff, ==_self, length, All, All-append, append_assoc, append-nil,
  Bool-cases, if◌then◌else◌,
}
use mutiny_node.Prelude.Text.{Text}
use mutiny_node.Prelude.Map.{get-insert}
use mutiny_node.Exec.{ok, Result-cases}
use mutiny_node.Encrypt.{Crypto}
use mutiny_node.Storage.Values.{Json, Serde}
use mutiny_node.Storage.{Env}
use mutiny_node.Tokens.{
  ServicePlanIndex, plan_eq, SignedToken, TokenStorage, RedeemServiceTokenRequest, Issuer, plan_of,
  get_value, increment, same_token, BlindAuthClient, signed, store_token, insert_token_storage,
  retrieve_blinded_signature, redeem_all, redeem_available_tokens,
}

abbrev pub AreDistinct : List SignedToken → Type 0
AreDistinct [] = Unit
AreDistinct (t ∷ ts) = All (λ u. same_token t u ≡ false) ts × AreDistinct ts

-- No counter is above that of its plan, and no two tokens share plan and counter.
pub record IsCounted (s : TokenStorage) : Type 0 where
  pub bounded : All (λ t. t.counter ≤ get_value s (plan_of t)) s.tokens
  pub distinct : AreDistinct s.tokens

AreDistinct-snoc :
    (ts : List SignedToken) (t : SignedToken)
    → AreDistinct ts
    → All (λ u. same_token u t ≡ false) ts
    → AreDistinct (ts ++ (t ∷ []))
AreDistinct-snoc [] t d n = (tt, tt)
AreDistinct-snoc (u ∷ ts) t d n = (
  All-append (λ x. same_token u x ≡ false) ts (t ∷ []) d.0 (n.0, tt),
  AreDistinct-snoc ts t d.1 n.1,
)

get_value-increment :
    (plan : ServicePlanIndex) (token : SignedToken) (s : TokenStorage) (p : ServicePlanIndex)
    → get_value s plan + 1 < 2 ^ 32
    → get_value (increment plan token s) p
      ≡ (if plan == p then get_value s plan + 1 else get_value s p)
unfolding increment
get_value-increment plan token s p h =
    let small : (get_value s plan + 1) % 2 ^ 32 ≡ get_value s plan + 1 = omega arith in
    elim (Bool-cases (plan == p)) [
      | inl e ↦ rw (get-insert s.map plan ((get_value s plan + 1) % 2 ^ 32) p, e) small
      | inr e ↦ rw (get-insert s.map plan ((get_value s plan + 1) % 2 ^ 32) p, e) refl
    ]

-- What is counted stays so under a higher count.
All-counted :
    (plan : ServicePlanIndex) (token : SignedToken) (s : TokenStorage) (ts : List SignedToken)
    → get_value s plan + 1 < 2 ^ 32
    → All (λ t. t.counter ≤ get_value s (plan_of t)) ts
    → All (λ t. t.counter ≤ get_value (increment plan token s) (plan_of t)) ts
All-counted plan token s [] h a = tt
All-counted plan token s (t ∷ ts) h a = (
  elim (Bool-cases (plan == plan_of t)) [
    | inl e ↦
        let same : plan ≡ plan_of t = (==_iff plan (plan_of t)).0 e in
        let low : t.counter ≤ get_value s plan = rw same a.0 in
        rw (get_value-increment plan token s (plan_of t) h, e) (omega arith)
    | inr e ↦ rw (get_value-increment plan token s (plan_of t) h, e) a.0
  ],
  All-counted plan token s ts h a.1,
)

-- A token of the next counter is new.
All-new :
    (token : SignedToken) (s : TokenStorage) (ts : List SignedToken)
    → get_value s (plan_of token) < token.counter
    → All (λ t. t.counter ≤ get_value s (plan_of t)) ts
    → All (λ u. same_token u token ≡ false) ts
All-new token s [] h a = tt
All-new token s (t ∷ ts) h a = (
  elim (Bool-cases (same_token t token)) [
    | inr e ↦ e
    | inl e ↦
        let services : token.service_id ≡ t.service_id = ground arith in
        let plans : token.plan_id ≡ t.plan_id = ground arith in
        let counters : token.counter ≡ t.counter = ground arith in
        let same : plan_of token ≡ plan_of t = ground arith in
        let low : t.counter ≤ get_value s (plan_of token) = rw same a.0 in absurd (omega arith)
  ],
  All-new token s ts h a.1,
)

increment-IsCounted :
    (token : SignedToken) (s : TokenStorage)
    → get_value s (plan_of token) + 1 < 2 ^ 32
    → token.counter ≡ get_value s (plan_of token) + 1
    → IsCounted s
    → IsCounted (increment (plan_of token) token s)
unfolding increment
increment-IsCounted token s h n k = record {
  bounded =
      All-append (λ t. t.counter ≤ get_value (increment (plan_of token) token s) (plan_of t))
        s.tokens (token ∷ []) (All-counted (plan_of token) token s s.tokens h k.bounded)
        (
          rw
              (
                get_value-increment (plan_of token) token s (plan_of token) h,
                ==_self (plan_of token),
              )
              (omega arith),
          tt,
        );
  distinct =
      AreDistinct-snoc s.tokens token k.distinct (All-new token s s.tokens (omega arith) k.bounded);
}

increment-le :
    (plan : ServicePlanIndex) (token : SignedToken) (s : TokenStorage) (p : ServicePlanIndex)
    → get_value s plan + 1 < 2 ^ 32
    → get_value (increment plan token s) p ≤ get_value s p + 1
increment-le plan token s p h = elim (Bool-cases (plan == p)) [
  | inl e ↦
      let same : plan ≡ p = (==_iff plan p).0 e in
      rw (get_value-increment plan token s p h, e, same) (omega arith)
  | inr e ↦ rw (get_value-increment plan token s p h, e) (omega arith)
]

-- What stays true of the list while tokens are issued.
record Issued (before after : TokenStorage) : Type 0 where
  counted : IsCounted after
  grown : (p : ServicePlanIndex) → get_value after p ≤ get_value before p + 1
  new : List SignedToken
  kept : after.tokens ≡ before.tokens ++ new

module _ {V : Type 0} ⦃c : Crypto⦄ ⦃j : Json V⦄ ⦃env : Env⦄ ⦃stored : Serde V TokenStorage⦄
    ⦃issuer : Issuer⦄ where
  -- A plan that is redeemed changes nothing in the list, or issues its next token.
  retrieve_blinded_signature-cases :
      (plan : ServicePlanIndex) (s : BlindAuthClient V)
      → let s' = (retrieve_blinded_signature plan s).1 in
        (s'.token_storage ≡ s.token_storage)
        ⊎ ((sig : Text) × (s'.token_storage
              ≡ increment plan
                  (signed plan ((get_value s.token_storage plan + 1) % 2 ^ 32) sig)
                  s.token_storage))
  unfolding retrieve_blinded_signature store_token insert_token_storage
  retrieve_blinded_signature-cases plan s =
      let counter = (get_value s.token_storage plan + 1) % 2 ^ 32 in
      let r : RedeemServiceTokenRequest = record {
        service_id = plan.service_id;
        plan_id = plan.plan_id;
        blinded_message = issuer.derive_blind_token plan.service_id plan.plan_id counter;
      } in
      elim (Result-cases (issuer.redeem_tokens (length s.requests) r)) [
        | inr (e, q) ↦ inl (ground arith)
        | inl (sig, q) ↦ inr (sig, ground arith)
      ]

  retrieve_blinded_signature-Issued :
      (plan : ServicePlanIndex) (s : BlindAuthClient V)
      → get_value s.token_storage plan + 1 < 2 ^ 32
      → IsCounted s.token_storage
      → Issued s.token_storage (retrieve_blinded_signature plan s).1.token_storage
  retrieve_blinded_signature-Issued plan s h k = elim (retrieve_blinded_signature-cases plan s) [
    | inl q ↦ rw q (record {
      counted = k;
      grown = λ p. omega arith;
      new = [];
      kept = sym (append-nil s.token_storage.tokens);
    })
    | inr (sig, q) ↦
        let token = signed plan ((get_value s.token_storage plan + 1) % 2 ^ 32) sig in
        rw q (record {
          counted = increment-IsCounted token s.token_storage h (omega arith) k;
          grown = λ p. increment-le plan token s.token_storage p h;
          new = token ∷ [];
          kept = unfold increment in refl;
        })
  ]

  redeem_all-IsCounted :
      (plans : List ServicePlanIndex) (s : BlindAuthClient V)
      → ((p : ServicePlanIndex) → get_value s.token_storage p + length plans < 2 ^ 32)
      → IsCounted s.token_storage
      → IsCounted (redeem_all plans s).token_storage
        × ((new : List SignedToken) × ((redeem_all plans s).token_storage.tokens
              ≡ s.token_storage.tokens ++ new))
  unfolding redeem_all
  redeem_all-IsCounted [] s h k = (k, ([], sym (append-nil s.token_storage.tokens)))
  redeem_all-IsCounted (plan ∷ plans) s h k =
      let t = (retrieve_blinded_signature plan s).1 in
      let room : get_value s.token_storage plan + suc (length plans) < 2 ^ 32 = h plan in
      let i = retrieve_blinded_signature-Issued plan s (omega arith) k in
      let (counted, (new, kept)) =
        redeem_all-IsCounted plans t (λ p. omega (arith, h p, i.grown p)) i.counted in
      (
        counted,
        (
          i.new ++ new,
          kept ∙ ap (λ l. l ++ new) i.kept ∙ append_assoc s.token_storage.tokens i.new new,
        ),
      )

  -- If no two tokens share plan and counter, no counter is above that of its plan, and each plan has room
  -- below the bound of `u32` for as many tokens as the server offers, then after redeeming them, whatever
  -- the server or the storage refuses, still no two tokens share plan and counter and no counter is above
  -- that of its plan, and no token is lost.
  pub redeem_available_tokens-IsCounted :
      (s : BlindAuthClient V) (plans : List ServicePlanIndex)
      → issuer.check_tokens (length s.requests) ≡ ok plans
      → ((p : ServicePlanIndex) → get_value s.token_storage p + length plans < 2 ^ 32)
      → IsCounted s.token_storage
      → IsCounted (redeem_available_tokens s).1.token_storage
        × ((new : List SignedToken) × ((redeem_available_tokens s).1.token_storage.tokens
              ≡ s.token_storage.tokens ++ new))
  unfolding redeem_available_tokens
  redeem_available_tokens-IsCounted s plans e h k =
      rw (e, redeem_available_tokens) (redeem_all-IsCounted plans s h k)
