-- ===== src/Activity/Items.antt =====
-- mutiny-core/src/lib.rs: the items of the activity list and the orders on them.
use Prim.Native.Nat.{compare, Ordering}
use mutiny_node.Prelude.{ℕ, ◌≡◌, refl, Bool, false, ◌||◌, List, [], ◌∷◌, Option, none, some, arith}
use mutiny_node.Prelude.Text.{Text, codes, starts_with}
use mutiny_node.Nwc.Node.{MutinyInvoice, HtlcStatus, pending, in_flight, succeeded, failed}
use mutiny_node.Activity.{
  ConfirmationTime, confirmed, unconfirmed, TransactionDetails, ChannelClosure,
}
use mutiny_node.Activity.Order.{then_with, text_cmp, text_cmp-reversed, reversed}
use mutiny_node.Activity.Persist.{time_of}

pub data ActivityItem : Type 0 where
  on_chain : TransactionDetails → ActivityItem
  lightning : MutinyInvoice → ActivityItem
  channel_closed : ChannelClosure → ActivityItem

-- The orders of the crates, and `serde_json::to_string` of an item.
pub record Orders : Type 0 where
  pub confirmation_cmp : ConfirmationTime → ConfirmationTime → Ordering
  pub txid_cmp : Option Text → Option Text → Ordering
  pub to_string : ActivityItem → Text
  pub confirmation_cmp_self : (t : ConfirmationTime) → confirmation_cmp t t ≡ Ordering.eq
  pub confirmation_cmp-reversed :
      (t u : ConfirmationTime) → confirmation_cmp u t ≡ reversed (confirmation_cmp t u)

-- A payment's time, once it has come to an end.
abbrev pub settled_time : HtlcStatus → ℕ → Option ℕ
settled_time succeeded time = some time
settled_time failed time = some time
settled_time pending time = none
settled_time in_flight time = none

abbrev pub last_updated : ActivityItem → Option ℕ
last_updated (on_chain t) = time_of t.confirmation_time
last_updated (lightning i) = settled_time i.status i.last_updated
last_updated (channel_closed c) = some c.timestamp

abbrev pub labels : ActivityItem → List Text
labels (on_chain t) = t.labels
labels (lightning i) = i.labels
labels (channel_closed c) = []

-- `str::contains` for a pattern that is not empty
abbrev pub has_part : Text → Text → Bool
has_part pattern [] = false
has_part pattern (c ∷ s) = starts_with (c ∷ s) pattern || has_part pattern s

abbrev pub any_has_part : Text → List Text → Bool
any_has_part pattern [] = false
any_has_part pattern (l ∷ ls) = has_part pattern l || any_has_part pattern ls

abbrev pub is_channel_open : ActivityItem → Bool
is_channel_open (on_chain t) = any_has_part (codes "LN Channel:") t.labels
is_channel_open (lightning i) = false
is_channel_open (channel_closed c) = false

module _ ⦃orders : Orders⦄ where
  -- `Ord for TransactionDetails`; the first case compares `self` with itself.
  abbrev pub confirmations_cmp :
      ConfirmationTime → ConfirmationTime → Option Text → Option Text → Ordering
  confirmations_cmp (confirmed h t) (confirmed h' t') a b =
      then_with (orders.confirmation_cmp (confirmed h t) (confirmed h t)) (orders.txid_cmp a b)
  confirmations_cmp (confirmed h t) (unconfirmed s) a b = Ordering.lt
  confirmations_cmp (unconfirmed s) (confirmed h t) a b = Ordering.gt
  confirmations_cmp (unconfirmed s) (unconfirmed s') a b =
      then_with (compare s s') (orders.txid_cmp a b)

  unfoldable pub transaction_cmp : TransactionDetails → TransactionDetails → Ordering
  transaction_cmp a b = confirmations_cmp a.confirmation_time b.confirmation_time a.txid b.txid

  -- Two pending items: "do lightning first".
  abbrev pub pending_cmp : ActivityItem → ActivityItem → Ordering
  pending_cmp (lightning l1) (on_chain o2) = Ordering.gt
  pending_cmp (on_chain o1) (lightning l2) = Ordering.lt
  pending_cmp (lightning l1) (lightning l2) = compare l1.expire l2.expire
  pending_cmp (on_chain o1) (on_chain o2) =
      orders.confirmation_cmp o1.confirmation_time o2.confirmation_time
  pending_cmp (channel_closed c1) b = Ordering.eq
  pending_cmp a (channel_closed c2) = Ordering.eq

  abbrev pub times_cmp : Option ℕ → Option ℕ → ActivityItem → ActivityItem → Ordering
  times_cmp (some a) (some b) x y = compare a b
  times_cmp (some a) none x y = Ordering.lt
  times_cmp none (some b) x y = Ordering.gt
  times_cmp none none x y = pending_cmp x y

  -- `Ord for ActivityItem`
  unfoldable pub activity_cmp : ActivityItem → ActivityItem → Ordering
  activity_cmp x y =
      then_with (times_cmp (last_updated x) (last_updated y) x y)
        (text_cmp (orders.to_string x) (orders.to_string y))

  -- How two confirmed transactions compare does not depend on when they were confirmed.
  transaction_cmp_times :
      (a b : TransactionDetails) (h t h' t' i u i' u' : ℕ)
      → transaction_cmp
          (record a { confirmation_time = confirmed h t })
          (record b { confirmation_time = confirmed h' t' })
        ≡ transaction_cmp
            (record a { confirmation_time = confirmed i u })
            (record b { confirmation_time = confirmed i' u' })
  unfolding transaction_cmp
  transaction_cmp_times a b h t h' t' i u i' u' = ground (
    arith,
    orders.confirmation_cmp_self (confirmed h t),
    orders.confirmation_cmp_self (confirmed i u),
  )

  pending_cmp-reversed : (x y : ActivityItem) → pending_cmp y x ≡ reversed (pending_cmp x y)
  pending_cmp-reversed (lightning l1) (on_chain o2) = refl
  pending_cmp-reversed (on_chain o1) (lightning l2) = refl
  pending_cmp-reversed (lightning l1) (lightning l2) = ground arith
  pending_cmp-reversed (on_chain o1) (on_chain o2) =
      orders.confirmation_cmp-reversed o1.confirmation_time o2.confirmation_time
  pending_cmp-reversed (channel_closed c1) (on_chain o) = refl
  pending_cmp-reversed (channel_closed c1) (lightning l) = refl
  pending_cmp-reversed (channel_closed c1) (channel_closed c2) = refl
  pending_cmp-reversed (on_chain o) (channel_closed c2) = refl
  pending_cmp-reversed (lightning l) (channel_closed c2) = refl

  times_cmp-reversed :
      (t u : Option ℕ) (x y : ActivityItem) → times_cmp u t y x ≡ reversed (times_cmp t u x y)
  times_cmp-reversed (some a) (some b) x y = ground arith
  times_cmp-reversed (some a) none x y = refl
  times_cmp-reversed none (some b) x y = refl
  times_cmp-reversed none none x y = pending_cmp-reversed x y

  -- The order of the activity list says the same of two items from either side.
  pub activity_cmp-reversed : (x y : ActivityItem) → activity_cmp y x ≡ reversed (activity_cmp x y)
  unfolding activity_cmp
  activity_cmp-reversed x y = ground (
    arith,
    times_cmp-reversed (last_updated x) (last_updated y) x y,
    text_cmp-reversed (orders.to_string x) (orders.to_string y),
  )
