-- ===== src/Nwc/Budget/Periods.antt =====
-- Where the budget periods start.
use mutiny_node.Prelude.{
  ℕ, ◌+◌, ◌-◌, ◌*◌, ◌/◌, ◌%◌, ◌^◌, ◌≤◌, ◌<◌, ◌≡◌, refl, List, [], ◌∷◌, arith, ltb, retain, All,
}
use mutiny_node.Nwc.Budget.{
  Calendar, TrackedPayment, BudgetPeriod, BudgetedSpendingConditions, period_start,
  clean_old_payments, budget_remaining, u64_mod,
}
use mutiny_node.Nwc.Budget.Laws.{counted}

module _ ⦃cal : Calendar⦄ where
  -- A period starts at or before the present, provided that a span of seconds is no longer than the
  -- time since the epoch.
  period_start-le-now :
      (p : BudgetPeriod) (now : ℕ)
      → ((secs : ℕ) → p ≡ BudgetPeriod.seconds secs → secs ≤ now)
      → period_start p now ≤ now
  unfolding period_start
  period_start-le-now BudgetPeriod.day now h = omega (arith, cal.midnight_lem now)
  period_start-le-now BudgetPeriod.week now h =
      omega (arith, cal.midnight_lem (now - cal.num_days_from_sunday now * 86400))
  period_start-le-now BudgetPeriod.month now h = cal.first_of_month-le now
  period_start-le-now BudgetPeriod.year now h = cal.first_of_year-le now
  period_start-le-now (BudgetPeriod.seconds secs) now h = ground (arith, h secs refl)

  -- From the first week of the epoch on, the week starts at midnight of a Sunday, at most seven days
  -- ago.
  week_start_sunday :
      (now : ℕ)
      → 6 * 86400 ≤ now
      → let start = period_start BudgetPeriod.week now in
        (start % 86400 ≡ 0)
        × ((start / 86400 + 4) % 7 ≡ 0)
        × (start ≤ now)
        × (now < start + 7 * 86400)
  unfolding period_start
  week_start_sunday now h =
      let n = cal.num_days_from_sunday_lem now in
      let m = cal.midnight_lem (now - cal.num_days_from_sunday now * 86400) in
      rw (m, n) (omega arith, omega arith, omega arith, omega arith)

  -- For a span that fits since the epoch, a payment made by now lies after the start of the period
  -- exactly if its age is less than the span: one that is as old as the span does not.
  seconds_counted :
      (secs now time : ℕ)
      → secs ≤ now
      → time ≤ now
      → ltb (period_start (BudgetPeriod.seconds secs) now) time ≡ ltb (now - time) secs
  unfolding period_start
  seconds_counted secs now time h k = ground arith

  retain-none :
      (start : ℕ) (ps : List TrackedPayment)
      → All (λ p. p.time ≤ start) ps
      → retain (λ p. ltb start p.time) ps ≡ []
  retain-none start [] h = refl
  retain-none start (p ∷ ps) h = ground (arith, retain-none start ps h.1)

  All-le_mono :
      {m n : ℕ} (ps : List TrackedPayment)
      → m ≤ n
      → All (λ p. p.time ≤ m) ps
      → All (λ p. p.time ≤ n) ps
  All-le_mono [] h a = tt
  All-le_mono (p ∷ ps) h a = (omega arith, All-le_mono ps h a.1)

  -- If the span of seconds is longer than the time since the epoch, both below 2 ^ 42, and
  -- all payments were made by now, then none is counted and the whole budget is left.
  pub seconds_before_epoch :
      (secs now : ℕ) (c : BudgetedSpendingConditions)
      → c.period ≡ BudgetPeriod.seconds secs
      → now < secs
      → secs < 2 ^ 42
      → now < 2 ^ 42
      → All (λ p. p.time ≤ now) c.payments
      → (counted now c ≡ []) × (budget_remaining now c ≡ c.budget)
  unfolding clean_old_payments budget_remaining period_start
  seconds_before_epoch secs now c p h k l a =
      let start : ℕ = now + u64_mod - secs in
      let e : retain (λ q. ltb start q.time) c.payments ≡ [] =
        retain-none start c.payments (All-le_mono c.payments (omega arith) a) in
      (ground arith, ground arith)
