-- ===== src/Nwc/Clear.antt =====
-- mutiny-core/src/nostr/mod.rs: `clear_successful_single_use_profiles`. The positions of the profiles
-- to remove are found under one lock, the payments are looked up, and the positions are removed under
-- another lock.
pub mod Removed
use mutiny_node.Prelude.{
  ℕ, zero, suc, Bool, true, false, List, [], ◌∷◌, Option, none, some, if◌then◌else◌,
}
use mutiny_node.Exec.{Result, Exec, ◌>>◌}
use mutiny_node.Encrypt.{Crypto, Bytes}
use mutiny_node.Storage.Values.{Json, Serde}
use mutiny_node.Storage.{Env}
use mutiny_node.Nwc.Invoice.{Bolt11}
use mutiny_node.Nwc.Profile.{Profile, NostrWalletConnect, SpendingConditions}
use mutiny_node.Nwc.Manager.{Manager, put_nwc}
use mutiny_node.Nwc.Manager.Ops.{save_profiles}
use mutiny_node.Nwc.Node.{HtlcStatus, succeeded, InvoiceHandler, lookup_status}

-- `Vec::remove`, which panics behind the end.
pub remove_at : {A : Type 0} → ℕ → List A → Option (List A)
remove_at i [] = none
remove_at zero (x ∷ xs) = some xs
remove_at (suc i) (x ∷ xs) = elim (remove_at i xs) [ none ↦ none | some rest ↦ some (x ∷ rest) ]

-- The loop over the positions in reverse.
pub remove_each : {A : Type 0} → List ℕ → List A → Option (List A)
remove_each [] l = some l
remove_each (i ∷ is) l = elim (remove_each is l) [ none ↦ none | some rest ↦ remove_at i rest ]

-- The hash of the payment that a single use profile was used for.
abbrev pub used_hash : ⦃b : Bolt11⦄ → SpendingConditions → Option Bytes
used_hash ⦃b⦄ (SpendingConditions.single_use su) = elim su.payment_hash [
  | none ↦ none
  | some hash ↦ b.from_hex hash
]
used_hash _ = none

abbrev is_succeeded : Option HtlcStatus → Bool
is_succeeded (some succeeded) = true
is_succeeded _ = false

module _ {V : Type 0} ⦃b : Bolt11⦄ ⦃node : InvoiceHandler⦄ where
  unfoldable pub is_spent : Manager V → NostrWalletConnect → Bool
  is_spent s n = elim (used_hash n.profile.spending_conditions) [
    | none ↦ false
    | some hash ↦ is_succeeded (lookup_status hash s)
  ]

  -- The positions from `i` on of the profiles whose payment has succeeded.
  pub spent_positions : Manager V → ℕ → List NostrWalletConnect → List ℕ
  spent_positions s i [] = []
  spent_positions s i (n ∷ ns) =
      let rest = spent_positions s (suc i) ns in if is_spent s n then i ∷ rest else rest

module _ {V : Type 0} ⦃c : Crypto⦄ ⦃j : Json V⦄ ⦃env : Env⦄
    ⦃profiles : Serde V (List Profile)⦄ where
  -- "Remove all of those NWC and then save": `none` is the panic.
  pub remove_and_save : List ℕ → Manager V → Option (Result (Unit {0}) × Manager V)
  remove_and_save positions s = elim (remove_each positions s.nwc) [
    | none ↦ none
    | some rest ↦ some ((do put_nwc rest; save_profiles) s)
  ]

  pub clear_successful_single_use_profiles :
      ⦃b : Bolt11⦄ ⦃node : InvoiceHandler⦄ → Manager V → Option (Result (Unit {0}) × Manager V)
  clear_successful_single_use_profiles s = remove_and_save (spent_positions s 0 s.nwc) s
