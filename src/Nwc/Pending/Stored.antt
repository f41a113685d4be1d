-- ===== src/Nwc/Pending/Stored.antt =====
-- What the stored list of invoices holds after each method on it.
use mutiny_node.Prelude.{
  ℕ, ◌≡◌, ◌≤◌, refl, Bool, not, List, [], ◌∷◌, ◌++◌, Option, none, inl, inr, arith, if◌then◌else◌,
  retain, contains, length, ◌==◌, ==_iff, ==_self, nat_eq, Bool-cases,
}
use mutiny_node.Prelude.Text.{Text, text_eq}
use mutiny_node.Exec.{ok}
use mutiny_node.Encrypt.{Crypto, Bytes}
use mutiny_node.Storage.Values.{Json, Serde}
use mutiny_node.Storage.{World, Env, get_data}
use mutiny_node.Storage.Data.{IsKeyed, get_data-set_data}
use mutiny_node.Nwc.Invoice.{Bolt11, Bolt11Invoice, PublicKey, EventId}
use mutiny_node.Nwc.Pending.{
  PendingNwcInvoice, pending_eq, pending_nwc_events_key, has_hash, get_pending_nwc_invoices,
  set_pending, save_pending_nwc_invoice, remove_pending_nwc_invoice,
}

length-retain-le : {A : Type 0} (p : A → Bool) (xs : List A) → length (retain p xs) ≤ length xs
length-retain-le p [] = omega arith
length-retain-le p (x ∷ xs) = ground (arith, length-retain-le p xs)

-- A list that loses no element is the same list.
retain-eq_of_length :
    {A : Type 0} (p : A → Bool) (xs : List A) → length xs ≡ length (retain p xs) → retain p xs ≡ xs
retain-eq_of_length p [] h = refl
retain-eq_of_length p (x ∷ xs) h = elim (Bool-cases (p x)) [
  | inl e ↦ ground (arith, retain-eq_of_length p xs)
  | inr e ↦ absurd (ground (arith, length-retain-le p xs))
]

module _ {V : Type 0} ⦃c : Crypto⦄ ⦃j : Json V⦄ ⦃env : Env⦄ ⦃b : Bolt11⦄
    ⦃stored : Serde V (List PendingNwcInvoice)⦄ where
  -- What was written is read.
  get_pending-set_pending :
      (l : List PendingNwcInvoice) (w : World V) {w' : World V}
      → IsKeyed w.password w.cipher
      → set_pending l w ≡ (ok tt, w')
      → get_pending_nwc_invoices w' ≡ (ok l, w')
  unfolding get_pending_nwc_invoices get_data
  get_pending-set_pending l w {w'} k e =
      let read =
        get_data-set_data pending_nwc_events_key l none w {w' = w'} k e pending_nwc_events_key in
      ground (arith, ==_self pending_nwc_events_key)

  -- If the cipher is that of the password, then after an invoice was saved with success, the stored list
  -- is the one before if that held it, and the one before with it at the end otherwise.
  pub get_pending-save_pending :
      (index : Option ℕ) (event : EventId) (pubkey : PublicKey) (invoice : Bolt11Invoice)
      (id : Option Text) (w : World V) {l : List PendingNwcInvoice} {w' : World V}
      → IsKeyed w.password w.cipher
      → get_pending_nwc_invoices w ≡ (ok l, w)
      → save_pending_nwc_invoice index event pubkey invoice id w ≡ (ok tt, w')
      → let p : PendingNwcInvoice = record {
        index = index;
        invoice = invoice;
        event_id = event;
        pubkey = pubkey;
        identifier = id;
      } in
        get_pending_nwc_invoices w' ≡ (ok (if contains l p then l else l ++ (p ∷ [])), w')
  unfolding save_pending_nwc_invoice
  get_pending-save_pending index event pubkey invoice id w {l} {w'} k h e =
      let p : PendingNwcInvoice = record {
        index = index;
        invoice = invoice;
        event_id = event;
        pubkey = pubkey;
        identifier = id;
      } in
      elim (Bool-cases (contains l p)) [
        | inl old ↦ ground arith
        | inr new ↦
            ground (arith, get_pending-set_pending (l ++ (p ∷ [])) w {w' = w'} k (ground arith))
      ]

  -- If the cipher is that of the password, then after the invoices of a hash were removed with success,
  -- the stored list is the one before without them, in the same order.
  pub get_pending-remove_pending :
      (hash : Bytes) (w : World V) {l : List PendingNwcInvoice} {w' : World V}
      → IsKeyed w.password w.cipher
      → get_pending_nwc_invoices w ≡ (ok l, w)
      → remove_pending_nwc_invoice hash w ≡ (ok tt, w')
      → get_pending_nwc_invoices w' ≡ (ok (retain (λ x. not (has_hash hash x)) l), w')
  unfolding remove_pending_nwc_invoice
  get_pending-remove_pending hash w {l} {w'} k h e =
      let left = retain (λ x. not (has_hash hash x)) l in
      elim (Bool-cases (length l == length left)) [
        | inl same ↦ ground (
          arith,
          retain-eq_of_length (λ x. not (has_hash hash x)) l,
          ==_iff (length l) (length left),
        )
        | inr less ↦ ground (arith, get_pending-set_pending left w {w' = w'} k (ground arith))
      ]
