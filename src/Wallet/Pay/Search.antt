-- ===== src/Wallet/Pay/Search.antt =====
-- The loop of `pay_invoice` over the federations: what each round asks, and what ends the loop.
use mutiny_node.Prelude.{
  ℕ, ◌/◌, ◌≡◌, ◌≢◌, refl, sym, ap, ◌∙◌, ◌⊎◌, inl, inr, List, [], ◌∷◌, ◌++◌, Option, none, some,
  arith, All, Bool-cases, Option-cases, leb, subst, append_assoc, append-nil,
}
use mutiny_node.Prelude.Text.{Text, text_eq}
use mutiny_node.Prelude.Map.{get}
use mutiny_node.Error.{MutinyError, payment_timeout}
use mutiny_node.Exec.{Result, ok, err}
use mutiny_node.Nwc.Invoice.{Bolt11, Bolt11Invoice}
use mutiny_node.Nwc.Node.{MutinyInvoice}
use mutiny_node.Wallet.{Wallet, Machine, FederationId, federation, Attempt, Clients, get_balance}
use mutiny_node.Wallet.Pay.{
  Round, paid, go_on, ask, after_federation, then_next, try_client, try_federation, try_federations,
}

module _ {V E : Type 0} where
  -- The payer said no, and did not leave it open.
  abbrev pub GaveUp : Attempt V E → Type 0
  GaveUp a = (e : MutinyError) × (a.answer ≡ err e) × (e ≢ payment_timeout)

  -- What the answer of an attempt makes of its round.
  abbrev EndsAs : Attempt V E → Result Round → Type 0
  EndsAs a (ok (paid r)) = a.answer ≡ ok r
  EndsAs a (ok (go_on e)) = GaveUp a
  EndsAs a (err e) = (e ≡ payment_timeout) × (a.answer ≡ err e)

  -- An attempt from one state to another.
  record Tried (inv : Bolt11Invoice) (s s' : Wallet V E) (a : Attempt V E) : Type 0 where
    for_invoice : a.invoice ≡ inv
    from : a.before ≡ s.machine
    logged : s'.asked ≡ s.asked ++ (a ∷ [])

  abbrev pub list_of : Option (Attempt V E) → List (Attempt V E)
  list_of none = []
  list_of (some a) = a ∷ []

  -- The first attempt starts from the machine, which is as it was if there was none.
  abbrev pub StartsAt : Machine V E → List (Attempt V E) → Machine V E → Type 0
  StartsAt m [] m' = m' ≡ m
  StartsAt m (a ∷ tried) m' = a.before ≡ m

  abbrev pub Ending : Result Round → Option (Attempt V E) → Type 0
  Ending (ok (paid r)) final = (a : Attempt V E) × (final ≡ some a) × (a.answer ≡ ok r)
  Ending (ok (go_on e)) final = final ≡ none
  Ending (err e) final = (a : Attempt V E) × (final ≡ some a) × (a.answer ≡ err e)

  -- What the loop did: all attempts but a last one gave up.
  pub record Search (inv : Bolt11Invoice) (s : Wallet V E) (out : Result Round × Wallet V E)
      : Type 0 where
    pub failed : List (Attempt V E)
    pub final : Option (Attempt V E)
    pub logged : out.1.asked ≡ s.asked ++ (failed ++ list_of final)
    pub gave_up : All GaveUp failed
    pub same : All (λ a. a.invoice ≡ inv) (failed ++ list_of final)
    pub start : StartsAt s.machine (failed ++ list_of final) out.1.machine
    pub ending : Ending out.0 final

  module _ ⦃b : Bolt11⦄ where
    after_federation-EndsAs :
        (inv : Bolt11Invoice) (answer : Result MutinyInvoice) (a : Attempt V E) (s : Wallet V E)
        → a.answer ≡ answer
        → EndsAs a (after_federation inv answer s).0
          × ((after_federation inv answer s).1.asked ≡ s.asked)
    unfolding after_federation
    after_federation-EndsAs inv (ok r) a s h = (h, refl)
    after_federation-EndsAs inv (err payment_timeout) a s h = ((refl, h), refl)
    after_federation-EndsAs inv (err e) a s h = ((e, h, λ q. cc), refl)

    module _ ⦃clients : Clients V E⦄ where
      try_client-Tried :
          (inv : Bolt11Invoice) (labels : List Text) (id : FederationId) (s : Wallet V E)
          → (a : Attempt V E) × Tried inv s (try_client inv labels id s).1 a
            × EndsAs a (try_client inv labels id s).0
      unfolding try_client ask
      try_client-Tried inv labels id s =
          let done = ask (federation id) inv labels (clients.pay_invoice id inv labels) s in
          let a : Attempt V E = record {
            payer = federation id;
            invoice = inv;
            labels = labels;
            before = s.machine;
            answer = done.0;
          } in
          let (ends, logged) = after_federation-EndsAs inv done.0 a done.1 refl in
          (a, record { for_invoice = refl; from = refl; logged = logged }, ends)

      -- A round asks nobody and changes nothing, or makes one attempt.
      try_federation-cases :
          (inv : Bolt11Invoice) (labels : List Text) (msat : ℕ) (id : FederationId)
          (last : Option MutinyError) (s : Wallet V E)
          → (try_federation inv labels msat id last s ≡ (ok (go_on last), s))
            ⊎ ((a : Attempt V E) × Tried inv s (try_federation inv labels msat id last s).1 a
                × EndsAs a (try_federation inv labels msat id last s).0)
      unfolding try_federation
      try_federation-cases inv labels msat id last s = elim (Option-cases (get s.federations id)) [
        | inl q ↦ inl (rw (q, try_federation) refl)
        | inr (client, q) ↦ elim (Bool-cases (leb (msat / 1000) (get_balance id s.machine))) [
          | inr poor ↦ inl (rw (q, poor, try_federation) refl)
          | inl rich ↦ inr (rw (q, rich, try_federation) (try_client-Tried inv labels id s))
        ]
      ]

      Search-then_next :
          (inv : Bolt11Invoice) (last : Option MutinyError) (s : Wallet V E)
          (p : Result Round × Wallet V E)
          (next : Option MutinyError → Wallet V E → Result Round × Wallet V E)
          → ((p ≡ (ok (go_on last), s)) ⊎ ((a : Attempt V E) × Tried inv s p.1 a × EndsAs a p.0))
          → ((e : Option MutinyError) (t : Wallet V E) → Search inv t (next e t))
          → Search inv s (then_next p next)
      Search-then_next inv last s (ok (paid r), s1) next (inl q) rest = absurd (ground arith)
      Search-then_next inv last s (ok (go_on e), s1) next (inl q) rest =
          subst (λ t. Search inv t (next e s1)) (ap (λ (x : Result Round × Wallet V E). x.1) q)
            (rest e s1)
      Search-then_next inv last s (err e, s1) next (inl q) rest = absurd (ground arith)
      Search-then_next inv last s (ok (paid r), s1) next (inr (a, t, ends)) rest = record {
        failed = [];
        final = some a;
        logged = t.logged;
        gave_up = tt;
        same = (t.for_invoice, tt);
        start = t.from;
        ending = (a, refl, ends);
      }
      Search-then_next inv last s (ok (go_on e), s1) next (inr (a, t, ends)) rest =
          let r = rest e s1 in
          record {
            failed = a ∷ r.failed;
            final = r.final;
            logged =
                r.logged
                ∙ ap (λ l. l ++ (r.failed ++ list_of r.final)) t.logged
                ∙ append_assoc s.asked (a ∷ []) (r.failed ++ list_of r.final);
            gave_up = (ends, r.gave_up);
            same = (t.for_invoice, r.same);
            start = t.from;
            ending = r.ending;
          }
      Search-then_next inv last s (err e, s1) next (inr (a, t, ends)) rest = record {
        failed = [];
        final = some a;
        logged = t.logged;
        gave_up = tt;
        same = (t.for_invoice, tt);
        start = t.from;
        ending = (a, refl, ends.1);
      }

      pub try_federations-Search :
          (inv : Bolt11Invoice) (labels : List Text) (msat : ℕ) (ids : List FederationId)
          (last : Option MutinyError) (s : Wallet V E)
          → Search inv s (try_federations inv labels msat ids last s)
      unfolding try_federations
      try_federations-Search inv labels msat [] last s = record {
        failed = [];
        final = none;
        logged = sym (append-nil s.asked);
        gave_up = tt;
        same = tt;
        start = refl;
        ending = refl;
      }
      try_federations-Search inv labels msat (id ∷ ids) last s =
          Search-then_next inv last s (try_federation inv labels msat id last s)
            (try_federations inv labels msat ids) (try_federation-cases inv labels msat id last s)
            (λ e t. try_federations-Search inv labels msat ids e t)
