-- ===== src/Nwc/Approve/Denied.antt =====
-- When the pending invoices cannot be denied.
use mutiny_node.Prelude.{
  ℕ, ◌≡◌, List, [], ◌∷◌, ◌++◌, none, some, inl, inr, arith, find, Option-cases,
}
use mutiny_node.Error.{MutinyError, not_found}
use mutiny_node.Exec.{ok, err, Result-cases}
use mutiny_node.Encrypt.{Crypto, Bytes}
use mutiny_node.Storage.Values.{Json, Serde}
use mutiny_node.Storage.{World, Env, get_data}
use mutiny_node.Nwc.Invoice.{Bolt11}
use mutiny_node.Nwc.Manager.{Manager, has_index}
use mutiny_node.Nwc.Pending.{
  PendingNwcInvoice, has_hash, get_pending_nwc_invoices, find_nwc_data, profile_for,
}
use mutiny_node.Nwc.Approve.{Relay, send_rejection, reject_one, reject_all, deny_all_pending_nwc}

module _ {V : Type 0} ⦃c : Crypto⦄ ⦃j : Json V⦄ ⦃env : Env⦄ ⦃b : Bolt11⦄ ⦃relay : Relay V⦄
    ⦃stored : Serde V (List PendingNwcInvoice)⦄ where
  pub get_pending-state : (w : World V) → (get_pending_nwc_invoices w).1 ≡ w
  unfolding get_pending_nwc_invoices get_data
  get_pending-state w = ground arith

  pub find_nwc_data-state : (hash : Bytes) (s : Manager V) → (find_nwc_data hash s).1 ≡ s
  unfolding find_nwc_data
  find_nwc_data-state hash s =
      let state = get_pending-state s.world in
      elim (Result-cases (get_pending_nwc_invoices s.world).0) [
        | inr (_, q) ↦ ground arith
        | inl (l, q) ↦ elim (Option-cases (find (has_hash hash) l)) [
          | inl f ↦ ground arith
          | inr (p, f) ↦ elim (Result-cases (profile_for p.index s.nwc)) [
            | inl (_, r) ↦ ground arith
            | inr (_, r) ↦ ground arith
          ]
        ]
      ]

  -- A profile that is gone is not found.
  find_nwc_data_gone :
      (p : PendingNwcInvoice) (i : ℕ) (l : List PendingNwcInvoice) (s : Manager V)
      → get_pending_nwc_invoices s.world ≡ (ok l, s.world)
      → find (has_hash (b.payment_hash p.invoice)) l ≡ some p
      → p.index ≡ some i
      → find (has_index i) s.nwc ≡ none
      → find_nwc_data (b.payment_hash p.invoice) s ≡ (err not_found, s)
  unfolding find_nwc_data
  find_nwc_data_gone p i l s g f q n = ground arith

  reject_one-state : (p : PendingNwcInvoice) (s : Manager V) → (reject_one p s).1 ≡ s
  unfolding reject_one send_rejection
  reject_one-state p s =
      let state = find_nwc_data-state (b.payment_hash p.invoice) s in
      elim (Result-cases (find_nwc_data (b.payment_hash p.invoice) s).0) [
        | inr (_, q) ↦ ground arith
        | inl ((none, inv), q) ↦ ground arith
        | inl ((some nwc, inv), q) ↦ ground arith
      ]

  -- The loop fails if it does at one of its invoices, and changes nothing.
  reject_all_fails :
      (before after : List PendingNwcInvoice) (p : PendingNwcInvoice) (s : Manager V)
      {e : MutinyError}
      → reject_one p s ≡ (err e, s)
      → (d : MutinyError) × (reject_all (before ++ (p ∷ after)) s ≡ (err d, s))
  unfolding reject_all
  reject_all_fails [] after p s {e} h = (e, ground arith)
  reject_all_fails (x ∷ before) after p s {e} h =
      let (d, rest) = reject_all_fails before after p s {e = e} h in
      let state = reject_one-state x s in
      elim (Result-cases (reject_one x s).0) [
        | inr (f, q) ↦ (f, ground arith)
        | inl (_, q) ↦ (d, ground arith)
      ]

  -- If one of the invoices, the first of its hash, came by a profile that is gone, denying all invoices fails, and nothing has
  -- changed: every invoice still waits.
  deny_all_pending_nwc_gone :
      (before after : List PendingNwcInvoice) (p : PendingNwcInvoice) (i : ℕ) (s : Manager V)
      → get_pending_nwc_invoices s.world ≡ (ok (before ++ (p ∷ after)), s.world)
      → find (has_hash (b.payment_hash p.invoice)) (before ++ (p ∷ after)) ≡ some p
      → p.index ≡ some i
      → find (has_index i) s.nwc ≡ none
      → (d : MutinyError) × (deny_all_pending_nwc s ≡ (err d, s))
  unfolding deny_all_pending_nwc reject_one
  deny_all_pending_nwc_gone before after p i s g f q n =
      let gone = find_nwc_data_gone p i (before ++ (p ∷ after)) s g f q n in
      let one : reject_one p s ≡ (err not_found, s) = ground arith in
      let (d, all) = reject_all_fails before after p s {e = not_found} one in (d, ground arith)
