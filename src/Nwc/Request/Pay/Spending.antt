-- ===== src/Nwc/Request/Pay/Spending.antt =====
-- What a request can spend of a budget.
use mutiny_node.Prelude.{
  ℕ, ◌+◌, ◌%◌, ◌≤◌, ◌≡◌, refl, ◌⊎◌, inl, inr, Bool, false, not, List, [], ◌∷◌, ◌++◌, Option, none,
  some, arith, ltb, retain, retain_comm, retain-retain, subst, Bool-cases,
}
use mutiny_node.Prelude.Text.{Text}
use mutiny_node.Error.{payment_timeout}
use mutiny_node.Exec.{Result, ok, err, Result-cases}
use mutiny_node.Encrypt.{Crypto}
use mutiny_node.Storage.Values.{Json, Serde}
use mutiny_node.Storage.{World, Env, now_secs, get_data}
use mutiny_node.Storage.Data.{IsKeyed}
use mutiny_node.Nwc.Invoice.{Bolt11, Bolt11Invoice}
use mutiny_node.Nwc.Budget.{
  Calendar, TrackedPayment, BudgetedSpendingConditions, u64_mod, add_payment, sum_payments,
  clean_old_payments, total, period_start,
}
use mutiny_node.Nwc.Budget.Laws.{counted}
use mutiny_node.Nwc.Profile.{SpendingConditions, Profile}
use mutiny_node.Nwc.Manager.Profiles.{IsStored, save_profiles-IsStored}
use mutiny_node.Nwc.Manager.{
  Manager, PayCall, nwc_storage_key, profiles_of, has_index, update_first, with_profile,
}
use mutiny_node.Nwc.Manager.Ops.{save_nwc_profile, save_profiles}
use mutiny_node.Nwc.Node.{InvoiceHandler, pay}
use mutiny_node.Nwc.Pending.{PendingNwcInvoice}
use mutiny_node.Nwc.Request.{Response, Event, Display, Session, set_conditions, calls}
use mutiny_node.Nwc.Request.Pay.{pay_nwc_invoice, payment_label}
use mutiny_node.Nwc.Request.Pay.Budgeted.{
  invoice_sats, over_single_max, over_budget, has_failed, parse_hashes, recheck_budget,
  check_budget, queue_for_approval, save_self, take_back, budget_payment_failed, budget_outcome,
  pay_within_budget, refuse_over_budget, handle_budget,
}

-- Pruning a cleaned list and cleaning it again is pruning it.
prune_cleaned :
    (p q : TrackedPayment → Bool) (ps : List TrackedPayment)
    → retain p (retain q (retain p (retain q ps))) ≡ retain p (retain q ps)
prune_cleaned p q ps =
    rw (retain_comm q p (retain q ps), retain-retain q ps, retain-retain p (retain q ps)) refl

module _ {V : Type 0} ⦃b : Bolt11⦄ ⦃cal : Calendar⦄ ⦃node : InvoiceHandler⦄ where
  -- What a check that passes has found. `cleaned` holds the payments that count now, less at most those
  -- that are known to have failed.
  pub record Within (s : Manager V) (sats : ℕ) (budget cleaned : BudgetedSpendingConditions)
      : Type 0 where
    pub single : over_single_max budget.single_max sats ≡ false
    pub fits : (total cleaned.payments + sats) % u64_mod ≤ budget.budget
    pub unfailed :
        retain (λ p. not (has_failed s p)) cleaned.payments
        ≡ retain (λ p. not (has_failed s p)) (counted (now_secs s.world) budget)
    pub same_budget : cleaned.budget ≡ budget.budget
    pub same_period : cleaned.period ≡ budget.period

  recheck_budget-Within :
      (sats : ℕ) (budget : BudgetedSpendingConditions) (s : Session V) {s' : Session V}
      {cleaned : BudgetedSpendingConditions}
      → over_single_max budget.single_max sats ≡ false
      → recheck_budget sats (clean_old_payments (now_secs s.manager.world) budget) s
        ≡ (ok (none, cleaned), s')
      → Within s.manager sats budget cleaned
  unfolding recheck_budget sum_payments
  recheck_budget-Within sats budget s {s'} {cleaned} h e =
      let now : ℕ = now_secs s.manager.world in
      elim (Result-cases (parse_hashes (clean_old_payments now budget).payments)) [
        | inr (_, q) ↦ absurd (ground arith)
        | inl (_, q) ↦ record {
          single = h;
          fits = ground arith;
          unfailed =
              let f : cleaned.payments
                  ≡ retain (λ p. ltb (period_start budget.period now) p.time)
                      (retain (λ p. not (has_failed s.manager p)) (counted now budget)) =
                ground arith in
              rw f (prune_cleaned _ _ budget.payments);
          same_budget = ground arith;
          same_period = ground arith;
        }
      ]

  -- A check that passes finds the payments of the period, the failed ones left out or not, within the
  -- budget together with the new amount.
  pub check_budget-Within :
      (sats : ℕ) (budget : BudgetedSpendingConditions) (s : Session V) {s' : Session V}
      {cleaned : BudgetedSpendingConditions}
      → check_budget sats budget s ≡ (ok (none, cleaned), s')
      → Within s.manager sats budget cleaned
  unfolding check_budget sum_payments
  check_budget-Within sats budget s {s'} {cleaned} e =
      elim (Bool-cases (over_single_max budget.single_max sats)) [
        | inl big ↦ absurd (ground arith)
        | inr small ↦
            elim (Bool-cases
              (over_budget (sum_payments (now_secs s.manager.world) budget).0 sats budget.budget)) [
                | inl over ↦ recheck_budget-Within sats budget s {s' = s'} small (ground arith)
                | inr fits ↦
                    let same : cleaned ≡ clean_old_payments (now_secs s.manager.world) budget =
                      ground arith in
                    rw same (record {
                      single = small;
                      fits = ground arith;
                      unfailed = refl;
                      same_budget = refl;
                      same_period = refl;
                    })
              ]
      ]

  check_budget-manager :
      (sats : ℕ) (budget : BudgetedSpendingConditions) (s : Session V)
      → (check_budget sats budget s).1.manager ≡ s.manager
  unfolding check_budget recheck_budget
  check_budget-manager sats budget s = ground arith

  check_budget-profile :
      (sats : ℕ) (budget : BudgetedSpendingConditions) (s : Session V)
      → (check_budget sats budget s).1.self.profile.index ≡ s.self.profile.index
  unfolding check_budget recheck_budget
  check_budget-profile sats budget s = ground arith

module _ {V : Type 0} ⦃c : Crypto⦄ ⦃j : Json V⦄ ⦃env : Env⦄ ⦃b : Bolt11⦄ ⦃cal : Calendar⦄
    ⦃node : InvoiceHandler⦄ ⦃d : Display⦄ ⦃profiles : Serde V (List Profile)⦄
    ⦃stored : Serde V (List PendingNwcInvoice)⦄ where
  pub queue_for_approval-calls :
      (event : Event) (invoice : Bolt11Invoice) (id : Option Text) (s : Session V)
      → calls (queue_for_approval event invoice id s).1 ≡ calls s
  unfolding queue_for_approval
  queue_for_approval-calls event invoice id s = refl

  pub save_self-calls : (s : Session V) → calls (save_self s).1 ≡ calls s
  unfolding save_self save_nwc_profile save_profiles
  save_self-calls s = refl

  -- The profiles of a call are those that were stored when it was made.
  abbrev pub AreStored : PayCall V → Type 0
  AreStored call =
      (get_data {A = List Profile} nwc_storage_key call.before).0 ≡ ok (some call.profiles)

  save_self-IsStored :
      (s : Session V) {s' : Session V}
      → IsKeyed s.manager.world.password s.manager.world.cipher
      → save_self s ≡ (ok tt, s')
      → IsStored s'.manager
  unfolding save_self save_nwc_profile
  save_self-IsStored s {s'} k e =
      save_profiles-IsStored
        (record s.manager {
          nwc =
              update_first (has_index s.self.profile.index) (with_profile s.self.profile)
                s.manager.nwc;
        })
        {m' = s'.manager} k (ground arith)

  take_back-calls :
      (invoice : Bolt11Invoice) (budget : BudgetedSpendingConditions) (s : Session V)
      → calls (take_back invoice budget s).1 ≡ calls s
  unfolding take_back save_nwc_profile save_profiles
  take_back-calls invoice budget s = refl

  refuse_over_budget-calls :
      (event : Event) (id : Option Text) (invoice : Bolt11Invoice) (message : Text) (s : Session V)
      → calls (refuse_over_budget event id invoice message s).1 ≡ calls s
  unfolding refuse_over_budget
  refuse_over_budget-calls event id invoice message s =
      ground (arith, queue_for_approval-calls event invoice id s)

  budget_outcome-calls :
      (event : Event) (id : Option Text) (invoice : Bolt11Invoice)
      (budget : BudgetedSpendingConditions) (r : Result Response) (s : Session V)
      → calls (budget_outcome event id invoice budget r s).1 ≡ calls s
  unfolding budget_outcome budget_payment_failed
  budget_outcome-calls event id invoice budget (ok resp) s = refl
  budget_outcome-calls event id invoice budget (err payment_timeout) s = refl
  budget_outcome-calls event id invoice budget (err _) s = ground (
    arith,
    take_back-calls invoice budget s,
    queue_for_approval-calls event invoice id (take_back invoice budget s).1,
  )

  -- The call that a payment makes: the profile in memory has been charged.
  abbrev pub charged_call :
      Bolt11Invoice → BudgetedSpendingConditions → Session V → World V → PayCall V
  charged_call invoice cleaned s before =
      let charged = record s.self.profile {
        spending_conditions =
            SpendingConditions.budget (add_payment (now_secs s.manager.world) invoice cleaned);
      } in
      record {
        invoice = invoice;
        labels = payment_label s.self.profile ∷ [];
        before = before;
        profiles =
            profiles_of
              (update_first (has_index s.self.profile.index) (with_profile charged) s.manager.nwc);
      }

  pay_within_budget-calls :
      (event : Event) (id : Option Text) (invoice : Bolt11Invoice)
      (cleaned : BudgetedSpendingConditions) (s : Session V)
      → IsKeyed s.manager.world.password s.manager.world.cipher
      → (calls (pay_within_budget event id invoice cleaned s).1 ≡ calls s)
        ⊎ ((before : World V) × (calls (pay_within_budget event id invoice cleaned s).1
              ≡ calls s ++ (charged_call invoice cleaned s before ∷ []))
            × AreStored (charged_call invoice cleaned s before))
  unfolding pay_within_budget pay_nwc_invoice pay save_self save_nwc_profile save_profiles
  pay_within_budget-calls event id invoice cleaned s k =
      let charged = add_payment (now_secs s.manager.world) invoice cleaned in
      let s1 = (set_conditions (SpendingConditions.budget charged) s).1 in
      let s2 = (save_self s1).1 in
      let (r, n) = pay_nwc_invoice s2.self invoice s2.manager in
      elim (Result-cases (save_self s1).0) [
        | inl (_, e) ↦ inr (
          s2.manager.world,
          rw e (budget_outcome-calls event id invoice charged r (record s2 { manager = n })),
          save_self-IsStored s1 {s' = s2} k (ground arith),
        )
        | inr (_, e) ↦ inl (rw e refl)
      ]

  check_budget-charged_call :
      (sats : ℕ) (budget cleaned : BudgetedSpendingConditions) (invoice : Bolt11Invoice)
      (s : Session V)
      → (before : World V)
      → charged_call invoice cleaned (check_budget sats budget s).1 before
        ≡ charged_call invoice cleaned s before
  unfolding check_budget recheck_budget
  check_budget-charged_call sats budget cleaned invoice s before = ground arith

  -- If the cipher is that of the password, a request against a budget asks the node for no payment, or for
  -- that of its invoice alone, once. It does so only if the budget check passed: the amount is within the maximum for a single payment,
  -- and with the payments of the period, the failed ones left out or not, within the budget. When the
  -- node is asked, the profile has been charged with the payment, in memory and in the storage.
  pub handle_budget-calls :
      (event : Event) (id : Option Text) (invoice : Bolt11Invoice)
      (budget : BudgetedSpendingConditions) (s : Session V)
      → IsKeyed s.manager.world.password s.manager.world.cipher
      → (calls (handle_budget event id invoice budget s).1 ≡ calls s)
        ⊎ ((cleaned : BudgetedSpendingConditions) × Within s.manager
              (invoice_sats invoice)
              budget
              cleaned
            × (before : World V) × (calls (handle_budget event id invoice budget s).1
                ≡ calls s ++ (charged_call invoice cleaned s before ∷ []))
            × AreStored (charged_call invoice cleaned s before))
  unfolding handle_budget
  handle_budget-calls event id invoice budget s k =
      let sats = invoice_sats invoice in
      let s1 = (check_budget sats budget s).1 in
      let same = check_budget-manager sats budget s in
      elim (Result-cases (check_budget sats budget s).0) [
        | inr (_, e) ↦ inl (ground arith)
        | inl ((some message, cleaned), e) ↦
            inl (ground (arith, refuse_over_budget-calls event id invoice message s1))
        | inl ((none, cleaned), e) ↦
            elim (pay_within_budget-calls event id invoice cleaned s1 (rw same k)) [
              | inl f ↦ inl (ground arith)
              | inr (before, f, stored_then) ↦ inr (
                cleaned,
                check_budget-Within sats budget s {s' = s1} (ground arith),
                before,
                ground (arith, check_budget-charged_call sats budget cleaned invoice s before),
                subst AreStored (check_budget-charged_call sats budget cleaned invoice s before)
                    stored_then,
              )
            ]
      ]
