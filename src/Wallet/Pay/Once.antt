-- ===== src/Wallet/Pay/Once.antt =====
-- Who is asked to pay an invoice, and whose answer is the result.
use mutiny_node.Prelude.{
  ℕ, ◌≡◌, refl, sym, ap, ◌∙◌, ◌⊎◌, inl, inr, List, [], ◌∷◌, ◌++◌, Option, none, some, arith, All,
  Bool-cases, ltb, subst, append_assoc, append-nil, unwrap_or,
}
use mutiny_node.Prelude.Text.{Text, text_eq}
use mutiny_node.Prelude.Map.{Map, insert}
use mutiny_node.Error.{MutinyError, insufficient_balance}
use mutiny_node.Exec.{Result, ok, err, continue, Result-cases}
use mutiny_node.Encrypt.{Crypto}
use mutiny_node.Storage.Values.{Json, Serde}
use mutiny_node.Storage.{Env}
use mutiny_node.Storage.Data.{IsKeyed}
use mutiny_node.Labels.Store.Indexed.{set_target_labels-stored}
use mutiny_node.Labels.{LabelItem, Contact}
use mutiny_node.Labels.Store.{invoice, set_target_labels, get_target_labels}
use mutiny_node.Nwc.Invoice.{Bolt11, Bolt11Invoice}
use mutiny_node.Nwc.Node.{MutinyInvoice}
use mutiny_node.Wallet.{
  Wallet, Machine, nodes, Attempt, on_world, Clients, NodeManager, InvoiceNetwork,
  list_federation_ids,
}
use mutiny_node.Wallet.Pay.{
  Round, paid, go_on, check_invoice, ask, try_federations, pay_with_nodes, finish, pay_invoice,
  sum_u64,
}
use mutiny_node.Wallet.Pay.Search.{GaveUp, list_of, StartsAt, Search, try_federations-Search}

append_self-ne : {A : Type 0} (xs : List A) (y : A) (ys : List A) → ¬ (xs ≡ xs ++ (y ∷ ys))
append_self-ne [] y ys h = ground arith
append_self-ne (x ∷ xs) y ys h = append_self-ne xs y ys (ground arith)

append_cancel : {A : Type 0} (xs ys zs : List A) → xs ++ ys ≡ xs ++ zs → ys ≡ zs
append_cancel [] ys zs h = h
append_cancel (x ∷ xs) ys zs h = append_cancel xs ys zs (ground arith)

module _ {V E : Type 0} where
  -- The one answer that counts is that of the last attempt.
  abbrev pub Answered : Option (Attempt V E) → Result MutinyInvoice → Type 0
  Answered none r = (e : MutinyError) × (r ≡ err e)
  Answered (some a) r = a.answer ≡ r

  -- What `pay_invoice` did from a machine on.
  record Paying (inv : Bolt11Invoice) (asked : List (Attempt V E)) (m : Machine V E)
      (out : Result MutinyInvoice × Wallet V E) : Type 0 where
    failed : List (Attempt V E)
    final : Option (Attempt V E)
    logged : out.1.asked ≡ asked ++ (failed ++ list_of final)
    gave_up : All GaveUp failed
    same : All (λ a. a.invoice ≡ inv) (failed ++ list_of final)
    start : StartsAt m (failed ++ list_of final) out.1.machine
    answered : Answered final out.0

  StartsAt-snoc :
      (m m' m'' : Machine V E) (failed : List (Attempt V E)) (a : Attempt V E)
      → StartsAt m (failed ++ []) m'
      → a.before ≡ m'
      → StartsAt m (failed ++ (a ∷ [])) m''
  StartsAt-snoc m m' m'' [] a h e = e ∙ h
  StartsAt-snoc m m' m'' (x ∷ failed) a h e = h

  All-snoc :
      (P : Attempt V E → Type 0) (failed : List (Attempt V E)) (a : Attempt V E)
      → All P (failed ++ [])
      → P a
      → All P (failed ++ (a ∷ []))
  All-snoc P [] a h p = (p, tt)
  All-snoc P (x ∷ failed) a h p = (h.0, All-snoc P failed a h.1 p)

  module _ ⦃b : Bolt11⦄ ⦃clients : Clients V E⦄ ⦃node : NodeManager V E⦄ where
    abbrev pub ask_nodes : Bolt11Invoice → Option ℕ → List Text → Wallet V E → Attempt V E
    ask_nodes inv amt_sats labels s = record {
      payer = nodes;
      invoice = inv;
      labels = labels;
      before = s.machine;
      answer = (node.pay_invoice inv amt_sats labels s.machine).0;
    }

    pay_with_nodes-cases :
        (inv : Bolt11Invoice) (amt_sats : Option ℕ) (labels : List Text) (last : Option MutinyError)
        (s : Wallet V E)
        → let out = pay_with_nodes inv amt_sats labels last s in
          (((e : MutinyError) × (out ≡ (err e, s)))
            ⊎ ((out.1.asked ≡ s.asked ++ (ask_nodes inv amt_sats labels s ∷ []))
                × (out.0 ≡ (ask_nodes inv amt_sats labels s).answer)))
    unfolding pay_with_nodes ask
    pay_with_nodes-cases inv amt_sats labels last s =
        elim (Bool-cases (ltb 0 (sum_u64 (node.channel_balances s.machine.outside)))) [
          | inr poor ↦ inl (unwrap_or last insufficient_balance, rw (poor, pay_with_nodes) refl)
          | inl rich ↦
              inr (ground (arith, Result-cases (node.pay_invoice inv amt_sats labels s.machine).0))
        ]

    finish-Paying :
        (inv : Bolt11Invoice) (amt_sats : Option ℕ) (labels : List Text) (s : Wallet V E)
        (round : Round) (t : Wallet V E)
        → Search inv s (ok round, t)
        → Paying inv s.asked s.machine (finish inv amt_sats labels round t)
    unfolding finish
    finish-Paying inv amt_sats labels s (paid r) t h =
        let (a, e, q) = h.ending in
        record {
          failed = h.failed;
          final = h.final;
          logged = h.logged;
          gave_up = h.gave_up;
          same = h.same;
          start = h.start;
          answered = rw e q;
        }
    finish-Paying inv amt_sats labels s (go_on last) t h =
        let a = ask_nodes inv amt_sats labels t in
        let none_left : h.final ≡ none = h.ending in
        elim (pay_with_nodes-cases inv amt_sats labels last t) [
          | inl (e, q) ↦ rw q (record {
            failed = h.failed;
            final = h.final;
            logged = h.logged;
            gave_up = h.gave_up;
            same = h.same;
            start = h.start;
            answered = rw none_left (e, refl);
          })
          | inr (q, r) ↦ record {
            failed = h.failed;
            final = some a;
            logged =
                q
                ∙ ap (λ l. l ++ (a ∷ []))
                    (h.logged ∙ ap (λ f. s.asked ++ (h.failed ++ list_of f)) none_left)
                ∙ append_assoc s.asked (h.failed ++ []) (a ∷ [])
                ∙ ap (λ l. s.asked ++ (l ++ (a ∷ []))) (append-nil h.failed);
            gave_up = h.gave_up;
            same =
                All-snoc (λ x. x.invoice ≡ inv) h.failed a
                  (subst (λ f. All (λ x. x.invoice ≡ inv) (h.failed ++ list_of f)) none_left h.same)
                  refl;
            start =
                StartsAt-snoc s.machine t.machine
                  (pay_with_nodes inv amt_sats labels last t).1.machine h.failed a
                  (subst (λ f. StartsAt s.machine (h.failed ++ list_of f) t.machine) none_left
                    h.start)
                  refl;
            answered = sym r;
          }
        ]

    finish-Search :
        (inv : Bolt11Invoice) (amt_sats : Option ℕ) (labels : List Text) (s : Wallet V E)
        (p : Result Round × Wallet V E)
        → Search inv s p
        → Paying inv s.asked s.machine (continue p.0 (finish inv amt_sats labels) p.1)
    finish-Search inv amt_sats labels s (ok round, t) h =
        finish-Paying inv amt_sats labels s round t h
    finish-Search inv amt_sats labels s (err e, t) h = record {
      failed = h.failed;
      final = h.final;
      logged = h.logged;
      gave_up = h.gave_up;
      same = h.same;
      start = h.start;
      answered = let (a, p, q) = h.ending in rw p q;
    }

    module _ ⦃c : Crypto⦄ ⦃j : Json V⦄ ⦃env : Env⦄ ⦃maps : Serde V (Map Text (List Text))⦄
        ⦃items : Serde V LabelItem⦄ ⦃contacts : Serde V Contact⦄ ⦃n : InvoiceNetwork⦄ where
      -- The machine from which the first payer is asked: the one with the labels.
      abbrev pub labelled : Bolt11Invoice → List Text → Wallet V E → Machine V E
      labelled inv labels s = (on_world (set_target_labels invoice inv labels) s).1.machine

      pay_invoice-Paying :
          (inv : Bolt11Invoice) (amt_sats : Option ℕ) (labels : List Text) (s : Wallet V E)
          → ((e : MutinyError) × ((pay_invoice inv amt_sats labels s).0 ≡ err e)
              × ((pay_invoice inv amt_sats labels s).1.asked ≡ s.asked))
            ⊎ (((set_target_labels invoice inv labels s.machine.world).0 ≡ ok tt)
                × Paying inv s.asked (labelled inv labels s) (pay_invoice inv amt_sats labels s))
      unfolding pay_invoice
      pay_invoice-Paying inv amt_sats labels s =
          elim (Result-cases (check_invoice inv amt_sats s)) [
            | inr (e, q) ↦ inl (rw (q, pay_invoice) (e, refl, refl))
            | inl (msat, q) ↦
                elim (Result-cases (set_target_labels invoice inv labels s.machine.world).0) [
                  | inr (e, r) ↦ inl (rw (q, r, pay_invoice) (e, refl, refl))
                  | inl (_, r) ↦
                      let t = (on_world (set_target_labels invoice inv labels) s).1 in
                      inr (
                        r,
                        rw (q, r, pay_invoice)
                            (finish-Search inv amt_sats labels t
                              (try_federations inv labels msat (list_federation_ids t) none t)
                              (try_federations-Search inv labels msat (list_federation_ids t) none
                                t)),
                      )
                ]
          ]

      -- If the cipher is that of the password, then when the first payer is asked, the labels of the invoice
      -- are stored already, and the labels of all others as they were.
      pub pay_invoice_labelled :
          (inv : Bolt11Invoice) (amt_sats : Option ℕ) (labels : List Text) (s : Wallet V E)
          {m : Map Text (List Text)} (a : Attempt V E) (rest : List (Attempt V E))
          → IsKeyed s.machine.world.password s.machine.world.cipher
          → get_target_labels invoice s.machine.world ≡ (ok m, s.machine.world)
          → (pay_invoice inv amt_sats labels s).1.asked ≡ s.asked ++ (a ∷ rest)
          → get_target_labels invoice a.before.world ≡ (ok (insert m inv labels), a.before.world)
      pay_invoice_labelled inv amt_sats labels s {m} a rest k g e =
          elim (pay_invoice-Paying inv amt_sats labels s) [
            | inl (_, _, r) ↦ absurd (append_self-ne s.asked a rest (sym r ∙ e))
            | inr (done, h) ↦
                let w' = (set_target_labels invoice inv labels s.machine.world).1 in
                let tried : h.failed ++ list_of h.final ≡ a ∷ rest =
                  append_cancel s.asked (h.failed ++ list_of h.final) (a ∷ rest)
                    (sym h.logged ∙ e) in
                let from : a.before ≡ labelled inv labels s =
                  subst
                    (λ l.
                      StartsAt (labelled inv labels s) l
                        (pay_invoice inv amt_sats labels s).1.machine)
                    tried h.start in
                let stored =
                  set_target_labels-stored invoice inv labels s.machine.world {m = m} {w' = w'} k g
                    (ground (arith, done)) in
                rw from stored
          ]
