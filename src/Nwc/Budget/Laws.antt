-- ===== src/Nwc/Budget/Laws.antt =====
-- What the budget counts.
use mathlib.Core.List.{append-nil}
use mutiny_node.Prelude.{
  ℕ, ◌+◌, ◌≤◌, ◌<◌, ◌≡◌, ap, ◌∙◌, Bool, true, not, List, [], ◌∷◌, ◌++◌, map, arith, ltb, ◌==◌,
  ==_self, sum, All, retain-append, retain-retain, retain-eq_of_All,
}
use mutiny_node.Prelude.Text.{Text, text_eq}
use mutiny_node.Nwc.Invoice.{Bolt11, Bolt11Invoice}
use mutiny_node.Nwc.Budget.{
  Calendar, TrackedPayment, BudgetedSpendingConditions, tracked, add_payment, remove_payment,
  period_start, clean_old_payments, budget_remaining, u64_mod,
}

-- The sats of a list of payments, as an unbounded number.
abbrev pub amounts : List TrackedPayment → ℕ
amounts ps = sum (map (λ p. p.amt) ps)

pub amounts-append : (ps qs : List TrackedPayment) → amounts (ps ++ qs) ≡ amounts ps + amounts qs
amounts-append [] qs = omega arith
amounts-append (p ∷ ps) qs = omega (arith, amounts-append ps qs)

module _ ⦃cal : Calendar⦄ where
  -- The payments that count at a time.
  abbrev pub counted : ℕ → BudgetedSpendingConditions → List TrackedPayment
  counted now c = (clean_old_payments now c).payments

  -- Cleaning twice at one time is cleaning once.
  pub clean_old_payments_idem :
      (now : ℕ) (c : BudgetedSpendingConditions)
      → clean_old_payments now (clean_old_payments now c) ≡ clean_old_payments now c
  unfolding clean_old_payments
  clean_old_payments_idem now c =
      ground (arith, retain-retain (λ p. ltb (period_start c.period now) p.time) c.payments)

  -- If the period starts before now, a payment added now is counted now, after those counted before.
  counted-add_payment :
      ⦃b : Bolt11⦄ (now : ℕ) (invoice : Bolt11Invoice) (c : BudgetedSpendingConditions)
      → period_start c.period now < now
      → counted now (add_payment now invoice c) ≡ counted now c ++ (tracked now invoice ∷ [])
  unfolding clean_old_payments add_payment
  counted-add_payment now invoice c h =
      let p = λ (q : TrackedPayment). ltb (period_start c.period now) q.time in
      ground (arith, retain-append p c.payments (tracked now invoice ∷ []))

  -- If the counted payments are within the budget, and that is a `u64`, then the remaining budget and
  -- the counted payments add up to the budget.
  budget_remaining-counted :
      (now : ℕ) (c : BudgetedSpendingConditions)
      → amounts (counted now c) ≤ c.budget
      → c.budget < u64_mod
      → budget_remaining now c + amounts (counted now c) ≡ c.budget
  unfolding budget_remaining
  budget_remaining-counted now c h k = omega arith

abbrev is_other : Text → TrackedPayment → Bool
is_other hex p = not (p.hash == hex)

-- If no tracked payment has the hash of an invoice, adding it and taking it back changes nothing.
remove_payment-add_payment :
    ⦃b : Bolt11⦄ (now : ℕ) (invoice : Bolt11Invoice) (c : BudgetedSpendingConditions)
    → All (λ p. is_other (b.to_hex (b.payment_hash invoice)) p ≡ true) c.payments
    → remove_payment invoice (add_payment now invoice c) ≡ c
unfolding remove_payment add_payment
remove_payment-add_payment ⦃b⦄ now invoice c h =
    ap (λ ps. record c { payments = ps })
      (retain-append (is_other (b.to_hex (b.payment_hash invoice))) c.payments
          (tracked now invoice ∷ [])
        ∙ rw (retain-eq_of_All _ c.payments h, ==_self (b.to_hex (b.payment_hash invoice)))
            (append-nil c.payments))
