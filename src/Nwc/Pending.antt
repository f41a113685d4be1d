-- ===== src/Nwc/Pending.antt =====
-- The invoices that wait for an approval: `PendingNwcInvoice` of mutiny-core/src/nostr/nwc.rs, and the
-- methods of `NostrManager` on the stored list. Each is one step here: a run that no other method interrupts.
-- `pending_nwc_lock` does not see to that, since its guard is dropped where it is taken.
pub mod Stored
use mutiny_node.Prelude.{
  ℕ, ◌≡◌, ◌↔◌, Bool, true, false, not, ◌&&◌, List, [], ◌∷◌, ◌++◌, Option, none, some, arith, ◌==◌,
  Eq, nat_eq, nat_beq, if◌then◌else◌, retain, find, contains, length, unwrap_or,
}
use mutiny_node.Prelude.Text.{Text, codes, text_eq, text_beq, text_beq_iff, text_leb}
use mutiny_node.Error.{not_found}
use mutiny_node.Exec.{Result, ok, err, Exec, pure, lift, gets, ◌>>=◌, ok_or}
use mutiny_node.Encrypt.{Crypto, Bytes}
use mutiny_node.Storage.Values.{Json, Serde}
use mutiny_node.Storage.{World, Env, set_data, get_data, now_secs}
use mutiny_node.Nwc.Invoice.{Bolt11, Bolt11Invoice, PublicKey, EventId}
use mutiny_node.Nwc.Profile.{NostrWalletConnect}
use mutiny_node.Nwc.Manager.{Manager, on_world, has_index}
use mutiny_node.Nwc.Node.{InvoiceHandler, succeeded, lookup_status}

pub record PendingNwcInvoice : Type 0 where
  pub index : Option ℕ
  pub invoice : Bolt11Invoice
  pub event_id : EventId
  pub pubkey : PublicKey
  pub identifier : Option Text

abbrev pub option_beq {ℓ} : {A : Type ℓ} → (A → A → Bool) → Option A → Option A → Bool
option_beq eq none none = true
option_beq eq none (some y) = false
option_beq eq (some x) none = false
option_beq eq (some x) (some y) = eq x y

abbrev pub pending_beq : PendingNwcInvoice → PendingNwcInvoice → Bool
pending_beq a b =
    option_beq nat_beq a.index b.index
    && text_beq a.invoice b.invoice
    && text_beq a.event_id b.event_id
    && text_beq a.pubkey b.pubkey
    && option_beq text_beq a.identifier b.identifier

option_beq_nat_iff : (a b : Option ℕ) → (option_beq nat_beq a b ≡ true) ↔ (a ≡ b)
option_beq_nat_iff a b = ground arith

option_beq_text_iff : (a b : Option Text) → (option_beq text_beq a b ≡ true) ↔ (a ≡ b)
option_beq_text_iff none none = ground arith
option_beq_text_iff none (some y) = ground arith
option_beq_text_iff (some x) none = ground arith
option_beq_text_iff (some x) (some y) = ground (arith, text_beq_iff x y)

pub pending_beq_iff : (a b : PendingNwcInvoice) → (pending_beq a b ≡ true) ↔ (a ≡ b)
pending_beq_iff a b = ground (
  arith,
  option_beq_nat_iff a.index b.index,
  text_beq_iff a.invoice b.invoice,
  text_beq_iff a.event_id b.event_id,
  text_beq_iff a.pubkey b.pubkey,
  option_beq_text_iff a.identifier b.identifier,
)

-- The derived `PartialEq`.
instance abbrev pub pending_eq : Eq PendingNwcInvoice
pending_eq = record { beq = pending_beq; beq_iff = pending_beq_iff }

abbrev pub pending_nwc_events_key : Text
pending_nwc_events_key = codes "pending_nwc_events"

module _ ⦃b : Bolt11⦄ where
  -- `is_expired`, at a time in seconds
  abbrev pub is_expired : ℕ → PendingNwcInvoice → Bool
  is_expired now p = b.would_expire p.invoice now

  abbrev pub has_hash : Bytes → PendingNwcInvoice → Bool
  has_hash hash p = b.payment_hash p.invoice == hash

-- `sort` by the text of the invoice, which is stable, and `dedup`.
pub insert_pending : PendingNwcInvoice → List PendingNwcInvoice → List PendingNwcInvoice
insert_pending p [] = p ∷ []
insert_pending p (q ∷ qs) =
    if text_leb p.invoice q.invoice then p ∷ (q ∷ qs) else q ∷ insert_pending p qs

unfoldable pub sort_pending : List PendingNwcInvoice → List PendingNwcInvoice
unfolding insert_pending
sort_pending [] = []
sort_pending (p ∷ ps) = insert_pending p (sort_pending ps)

-- An element is dropped if it equals the one kept before it.
pub dedup_after : PendingNwcInvoice → List PendingNwcInvoice → List PendingNwcInvoice
dedup_after p [] = []
dedup_after p (q ∷ qs) = if q == p then dedup_after p qs else q ∷ dedup_after q qs

unfoldable pub dedup : List PendingNwcInvoice → List PendingNwcInvoice
unfolding dedup_after
dedup [] = []
dedup (p ∷ ps) = p ∷ dedup_after p ps

-- The profile that the invoice came in by, none for a direct message.
abbrev pub profile_for : Option ℕ → List NostrWalletConnect → Result (Option NostrWalletConnect)
profile_for none l = ok none
profile_for (some index) l = elim (find (has_index index) l) [
  | none ↦ err not_found
  | some n ↦ ok (some n)
]

module _ {V : Type 0} ⦃c : Crypto⦄ ⦃j : Json V⦄ ⦃env : Env⦄ ⦃b : Bolt11⦄
    ⦃stored : Serde V (List PendingNwcInvoice)⦄ where
  -- `get_pending_nwc_invoices`, and the first step of the methods below
  unfoldable pub get_pending_nwc_invoices : Exec (World V) (List PendingNwcInvoice)
  get_pending_nwc_invoices = do found ← get_data pending_nwc_events_key; pure (unwrap_or found [])

  abbrev pub set_pending : List PendingNwcInvoice → Exec (World V) Unit
  set_pending l = set_data pending_nwc_events_key l none

  unfoldable pub save_pending_nwc_invoice :
      Option ℕ → EventId → PublicKey → Bolt11Invoice → Option Text → Exec (World V) Unit
  unfolding get_pending_nwc_invoices
  save_pending_nwc_invoice profile_index event_id event_pk invoice identifier = do
    let pending : PendingNwcInvoice = record {
      index = profile_index;
      invoice = invoice;
      event_id = event_id;
      pubkey = event_pk;
      identifier = identifier;
    }
    current ← get_pending_nwc_invoices
    if contains current pending then pure tt else set_pending (current ++ (pending ∷ []))

  unfoldable pub remove_pending_nwc_invoice : Bytes → Exec (World V) Unit
  unfolding get_pending_nwc_invoices
  remove_pending_nwc_invoice hash = do
    pending ← get_pending_nwc_invoices
    let left = retain (λ x. not (has_hash hash x)) pending
    if length pending == length left then pure tt else set_pending left

  unfoldable pub find_nwc_data :
      Bytes → Exec (Manager V) (Option NostrWalletConnect × PendingNwcInvoice)
  unfolding get_pending_nwc_invoices
  find_nwc_data hash = do
    pending ← on_world get_pending_nwc_invoices
    inv ← lift (ok_or (find (has_hash hash) pending) not_found)
    l ← gets (λ s. s.nwc)
    nwc ← lift (profile_for inv.index l)
    pure (nwc, inv)

  -- The part of `deny_invoice` after the response was broadcast.
  unfoldable pub drop_denied : Bytes → Exec (World V) Unit
  unfolding get_pending_nwc_invoices
  drop_denied hash = do
    invoices ← get_pending_nwc_invoices
    now ← gets now_secs
    let fresh = retain (λ x. not (is_expired now x)) invoices
    set_pending (retain (λ x. not (has_hash hash x)) fresh)

  -- `deny_all_pending_nwc` after the responses were sent
  unfoldable pub drop_all : Exec (World V) Unit
  drop_all = set_pending []

  abbrev pub is_paid : ⦃node : InvoiceHandler⦄ → PendingNwcInvoice → Manager V → Bool
  is_paid p s = elim (lookup_status (b.payment_hash p.invoice) s) [
    | none ↦ false
    | some st ↦ elim st [ succeeded ↦ true | _ ↦ false ]
  ]

  -- The invoices of a list that are still to be answered.
  abbrev pub still_valid :
      ⦃node : InvoiceHandler⦄ → List PendingNwcInvoice → Manager V → List PendingNwcInvoice
  still_valid invoices s = dedup (
      sort_pending
        (retain (λ x. not (is_expired (now_secs s.world) x) && not (is_paid x s)) invoices))

  -- What follows the read of the list: the look-ups, at each of which other tasks may run, and the
  -- write.
  unfoldable pub keep_valid :
      ⦃node : InvoiceHandler⦄ → List PendingNwcInvoice → Exec (Manager V) Unit
  keep_valid invoices s = on_world (set_pending (still_valid invoices s)) s

  unfoldable pub clear_invalid_nwc_invoices : ⦃node : InvoiceHandler⦄ → Exec (Manager V) Unit
  unfolding get_pending_nwc_invoices keep_valid
  clear_invalid_nwc_invoices = do invoices ← on_world get_pending_nwc_invoices; keep_valid invoices
