-- ===== src/Wallet/Federations/Totals.antt =====
-- The total balance of the federations.
use mutiny_node.Prelude.{
  ℕ, ◌+◌, ◌%◌, ◌^◌, ◌<◌, ◌≡◌, refl, List, [], ◌∷◌, some, inl, inr, arith, ◌==◌, ==_self, Bool-cases,
  All, map,
}
use mutiny_node.Prelude.Text.{text_eq}
use mutiny_node.Prelude.Map.{Map, get}
use mutiny_node.Exec.{ok}
use mutiny_node.Wallet.{
  Wallet, FederationId, FederationClient, Clients, get_balance, list_federation_ids,
}
use mutiny_node.Wallet.Federations.{get_total_loop, get_total_federation_balance}

-- Each client is filed under its own id.
abbrev pub IsFiled : Map FederationId FederationClient → Type 0
IsFiled m = All (λ e. e.1.federation_id ≡ e.0) m

abbrev IsFound : Map FederationId FederationClient → FederationId → Type 0
IsFound m id = (client : FederationClient) × (get m id ≡ some client)

IsFound-cons :
    (m : Map FederationId FederationClient) (k : FederationId) (v : FederationClient)
    (ids : List FederationId)
    → All (IsFound m) ids
    → All (IsFound ((k, v) ∷ m)) ids
unfolding get
IsFound-cons m k v [] h = tt
IsFound-cons m k v (id ∷ ids) h =
    let (client, q) = h.0 in
    (
      elim (Bool-cases (k == id)) [
        | inl e ↦ (v, rw (e, get) refl)
        | inr e ↦ (client, rw (e, get) q)
      ],
      IsFound-cons m k v ids h.1,
    )

All-IsFound :
    (m : Map FederationId FederationClient)
    → IsFiled m
    → All (IsFound m) (map (λ (e : FederationId × FederationClient). e.1.federation_id) m)
unfolding get
All-IsFound [] h = tt
All-IsFound ((k, v) ∷ m) h = (
  (v, rw h.0 (rw (==_self k, get) refl)),
  IsFound-cons m k v (map (λ (e : FederationId × FederationClient). e.1.federation_id) m)
      (All-IsFound m h.1),
)

module _ {V E : Type 0} ⦃clients : Clients V E⦄ where
  -- The balances of the federations, added up with no bound.
  abbrev pub sats : Wallet V E → List FederationId → ℕ
  sats s [] = 0
  sats s (id ∷ ids) = get_balance id s.machine + sats s ids

  get_total_loop_lem :
      (ids : List FederationId) (total : ℕ) (s : Wallet V E)
      → total < 2 ^ 64
      → All (IsFound s.federations) ids
      → get_total_loop ids total s ≡ (ok ((total + sats s ids) % 2 ^ 64), s)
  unfolding get_total_loop
  get_total_loop_lem [] total s h a = ground arith
  get_total_loop_lem (id ∷ ids) total s h a =
      let (client, q) = a.0 in
      let next = (total + get_balance id s.machine) % 2 ^ 64 in
      let below : next < 2 ^ 64 = omega arith in
      let rest = get_total_loop_lem ids next s below a.1 in
      let same : (next + sats s ids) % 2 ^ 64 ≡ (total + sats s (id ∷ ids)) % 2 ^ 64 =
        omega arith in
      rw (q, get_total_loop) (rw (← same) rest)

  -- If each client is filed under its own id, then the total balance is found, is the sum of the balances
  -- of all federations modulo the bound of `u64`, and nothing changes.
  get_total_federation_balance_lem :
      (s : Wallet V E)
      → IsFiled s.federations
      → get_total_federation_balance s ≡ (ok (sats s (list_federation_ids s) % 2 ^ 64), s)
  unfolding get_total_federation_balance
  get_total_federation_balance_lem s h =
      let total =
        get_total_loop_lem (list_federation_ids s) 0 s (omega arith)
          (All-IsFound s.federations h) in
      let same : 0 + sats s (list_federation_ids s) ≡ sats s (list_federation_ids s) =
        omega arith in
      rw (← same) total
