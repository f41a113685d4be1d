-- ===== src/Nwc/Budget.antt =====
-- `BudgetedSpendingConditions` and its methods. Amounts, times and sums are `u64`: the sum is written
-- with its wrap-around, and so is the cast of the start of the period.
pub mod Laws
pub mod Periods
use mutiny_node.Prelude.{
  ℕ, ◌+◌, ◌-◌, ◌*◌, ◌/◌, ◌%◌, ◌^◌, ◌≤◌, ◌≡◌, Bool, not, List, [], ◌∷◌, ◌++◌, map, Option, none,
  some, ltb, leb, ◌==◌, if◌then◌else◌, retain, sum, unwrap_or,
}
use mutiny_node.Prelude.Text.{Text, text_eq}
use mutiny_node.Nwc.Invoice.{Bolt11, Bolt11Invoice}

abbrev pub u64_mod : ℕ
u64_mod = 2 ^ 64

-- `chrono` in UTC, on times in seconds since the epoch.
pub record Calendar : Type 0 where
  -- `date_naive().and_hms_opt(0, 0, 0)`
  pub midnight : ℕ → ℕ
  -- `weekday().num_days_from_sunday()`
  pub num_days_from_sunday : ℕ → ℕ
  -- midnight of the first day of the month, and of the year
  pub first_of_month : ℕ → ℕ
  pub first_of_year : ℕ → ℕ
  pub midnight_lem : (t : ℕ) → midnight t ≡ t - t % 86400
  pub first_of_month-le : (t : ℕ) → first_of_month t ≤ t
  pub first_of_year-le : (t : ℕ) → first_of_year t ≤ t
  -- the first Sunday was on the third day after the epoch
  pub num_days_from_sunday_lem : (t : ℕ) → num_days_from_sunday t ≡ (t / 86400 + 4) % 7

pub record TrackedPayment : Type 0 where
  pub time : ℕ
  pub amt : ℕ
  pub hash : Text

pub data BudgetPeriod : Type 0 where
  day week month year : BudgetPeriod
  seconds : ℕ → BudgetPeriod

pub record BudgetedSpendingConditions : Type 0 where
  pub budget : ℕ
  pub single_max : Option ℕ
  pub payments : List TrackedPayment
  pub period : BudgetPeriod

module _ ⦃b : Bolt11⦄ where
  -- `now` is `utils::now().as_secs()`.
  unfoldable pub tracked : ℕ → Bolt11Invoice → TrackedPayment
  tracked now invoice = record {
    time = now;
    amt = unwrap_or (b.amount_milli_satoshis invoice) 0 / 1_000;
    hash = b.to_hex (b.payment_hash invoice);
  }

  unfoldable pub add_payment :
      ℕ → Bolt11Invoice → BudgetedSpendingConditions → BudgetedSpendingConditions
  unfolding tracked
  add_payment now invoice c = record c { payments = c.payments ++ (tracked now invoice ∷ []) }

  unfoldable pub remove_payment :
      Bolt11Invoice → BudgetedSpendingConditions → BudgetedSpendingConditions
  remove_payment invoice c =
      let hex = b.to_hex (b.payment_hash invoice) in
      record c { payments = retain (λ p. not (p.hash == hex)) c.payments }

module _ ⦃cal : Calendar⦄ where
  -- `period_start.timestamp() as u64`. A start before the epoch is negative, and the cast wraps. A
  -- number of seconds that leaves the range of `chrono` panics and is not modelled.
  unfoldable pub period_start : BudgetPeriod → ℕ → ℕ
  period_start BudgetPeriod.day now = cal.midnight now
  period_start BudgetPeriod.week now = cal.midnight (now - cal.num_days_from_sunday now * 86_400)
  period_start BudgetPeriod.month now = cal.first_of_month now
  period_start BudgetPeriod.year now = cal.first_of_year now
  period_start (BudgetPeriod.seconds secs) now =
      if leb secs now then now - secs else now + u64_mod - secs

  unfoldable pub clean_old_payments : ℕ → BudgetedSpendingConditions → BudgetedSpendingConditions
  clean_old_payments now c = record c {
    payments = retain (λ p. ltb (period_start c.period now) p.time) c.payments;
  }

  -- `iter().map(|p| p.amt).sum()`
  abbrev pub total : List TrackedPayment → ℕ
  total ps = sum (map (λ p. p.amt) ps) % u64_mod

  -- The sum, and the conditions that the call leaves.
  unfoldable pub sum_payments : ℕ → BudgetedSpendingConditions → ℕ × BudgetedSpendingConditions
  unfolding clean_old_payments
  sum_payments now c = let c' = clean_old_payments now c in (total c'.payments, c')

  -- A saturating subtraction, on a clone.
  unfoldable pub budget_remaining : ℕ → BudgetedSpendingConditions → ℕ
  unfolding sum_payments
  budget_remaining now c = c.budget - (sum_payments now c).0
