-- ===== src/Activity/Persist/Restart.antt =====
-- The activity index that is filled at the start gives a payment in flight a time, where the write of such
-- a payment gives it none.
use mutiny_node.Prelude.{
  ◌≡◌, refl, Bool, true, false, ◌||◌, List, [], ◌∷◌, ◌++◌, some, inl, inr, arith, ◌==◌, ==_iff,
  ==_self, contains, Eq, Bool-cases,
}
use mutiny_node.Prelude.Text.{Text, text_eq}
use mutiny_node.Prelude.Map.{Map, get}
use mutiny_node.Exec.{ok, Result-cases}
use mutiny_node.Encrypt.{Crypto, Bytes}
use mutiny_node.Storage.Values.{Json, Serde, IndexItem}
use mutiny_node.Storage.{World, Env, scan}
use mutiny_node.Storage.Data.{IsKeyed}
use mutiny_node.Storage.Written.{scan-state}
use mutiny_node.Nwc.Node.{in_flight}
use mutiny_node.Activity.{TransactionDetails, PaymentInfo, ChannelClosure}
use mutiny_node.Activity.Index.{extend, item_eq, IsSorted, extend-IsSorted, contains-extend}
use mutiny_node.Activity.Persist.{
  Hex, timed_item, is_listed, prefix_of, payment_key, payment_items, transaction_items,
  closure_items, onchain_items, persist_payment_info, populate, change_index,
  payment_inbound_prefix_key, payment_outbound_prefix_key, transaction_details_prefix_key,
  channel_closure_prefix,
}
use mutiny_node.Activity.Persist.Laws.{persist_payment_info-timed}

pub contains-append {ℓ} :
    {A : Type ℓ} ⦃e : Eq A⦄ (xs ys : List A) (a : A)
    → contains (xs ++ ys) a ≡ (contains xs a || contains ys a)
contains-append [] ys a = refl
contains-append (x ∷ xs) ys a = ground (arith, contains-append xs ys a)

contains-append_right :
    (xs ys : List IndexItem) (a : IndexItem) → contains ys a ≡ true → contains (xs ++ ys) a ≡ true
contains-append_right xs ys a h = ground (arith, contains-append xs ys a)

payment_items-in_flight :
    (m : Map Text PaymentInfo) (k : Text) {info : PaymentInfo}
    → get m k ≡ some info
    → info.status ≡ in_flight
    → contains (payment_items m) (timed_item info.last_update k) ≡ true
unfolding payment_items get
payment_items-in_flight [] k h e = cc
payment_items-in_flight ((i, v) ∷ m) k {info} h e = elim (Bool-cases (i == k)) [
  | inl q ↦
      let same : v ≡ info = ground arith in
      let listed : is_listed v.status ≡ true = rw (same, e) refl in
      ground (arith, ==_self i, ==_iff i k)
  | inr q ↦ ground (arith, payment_items-in_flight m k {info = info})
]

module _ {V : Type 0} ⦃c : Crypto⦄ ⦃j : Json V⦄ ⦃env : Env⦄ ⦃hex : Hex⦄
    ⦃payments : Serde V PaymentInfo⦄ ⦃transactions : Serde V TransactionDetails⦄
    ⦃closures : Serde V ChannelClosure⦄ where
  -- What the four scans found, and the index after it.
  record Populated (txs : List TransactionDetails) (w w' : World V) : Type 0 where
    details : Map Text TransactionDetails
    closed : Map Text ChannelClosure
    inbound : Map Text PaymentInfo
    outbound : Map Text PaymentInfo
    read_inbound : scan {A = PaymentInfo} payment_inbound_prefix_key w ≡ (ok inbound, w)
    read_outbound : scan {A = PaymentInfo} payment_outbound_prefix_key w ≡ (ok outbound, w)
    after :
        w'
        ≡ (change_index
            (λ index. extend index (
              onchain_items txs
              ++ (transaction_items details
                  ++ (closure_items closed ++ (payment_items inbound ++ payment_items outbound)))))
            w).1

  populate-Populated :
      (txs : List TransactionDetails) (w : World V) {w' : World V}
      → populate txs w ≡ (ok tt, w')
      → Populated txs w w'
  unfolding populate
  populate-Populated txs w {w'} e =
      let s1 = scan-state TransactionDetails transaction_details_prefix_key w in
      let s2 = scan-state ChannelClosure channel_closure_prefix w in
      let s3 = scan-state PaymentInfo payment_inbound_prefix_key w in
      let s4 = scan-state PaymentInfo payment_outbound_prefix_key w in
      elim (Result-cases (scan {A = TransactionDetails} transaction_details_prefix_key w).0) [
        | inr (_, q) ↦ absurd (ground arith)
        | inl (details, q1) ↦
            elim (Result-cases (scan {A = ChannelClosure} channel_closure_prefix w).0) [
              | inr (_, q) ↦ absurd (ground arith)
              | inl (closed, q2) ↦
                  elim (Result-cases (scan {A = PaymentInfo} payment_inbound_prefix_key w).0) [
                    | inr (_, q) ↦ absurd (ground arith)
                    | inl (inbound, q3) ↦
                        elim (Result-cases
                          (scan {A = PaymentInfo} payment_outbound_prefix_key w).0) [
                            | inr (_, q) ↦ absurd (ground arith)
                            | inl (outbound, q4) ↦ record {
                              details = details;
                              closed = closed;
                              inbound = inbound;
                              outbound = outbound;
                              read_inbound = ground arith;
                              read_outbound = ground arith;
                              after = ground arith;
                            }
                          ]
                  ]
            ]
      ]

  Populated-listed :
      (inbound : Bool) {txs : List TransactionDetails} {w w' : World V} {m : Map Text PaymentInfo}
      (x : IndexItem) (all : Populated txs w w')
      → scan (prefix_of inbound) w ≡ (ok m, w)
      → contains (payment_items m) x ≡ true
      → contains (payment_items all.inbound ++ payment_items all.outbound) x ≡ true
  Populated-listed true {w = w} {m = m} x all r h =
      let same : m ≡ all.inbound = ground (arith, all.read_inbound) in
      ground (arith, contains-append (payment_items all.inbound) (payment_items all.outbound) x)
  Populated-listed false {w = w} {m = m} x all r h =
      let same : m ≡ all.outbound = ground (arith, all.read_outbound) in
      contains-append_right (payment_items all.inbound) (payment_items all.outbound) x
        (rw (← same) h)

  -- If the cipher is that of the password and the index is sorted, then a payment that is in flight when
  -- the index is filled keeps its item with the time of that moment, whatever is persisted of a payment
  -- next: also when the payment succeeds at another time, or fails.
  pub populate_then_persist :
      (txs : List TransactionDetails) (w : World V) {w1 w' : World V} (payment_hash : Bytes)
      (inbound : Bool) (old info : PaymentInfo) {m : Map Text PaymentInfo}
      → IsKeyed w.password w.cipher
      → IsSorted w.activity_index
      → scan (prefix_of inbound) w ≡ (ok m, w)
      → get m (payment_key inbound payment_hash) ≡ some old
      → old.status ≡ in_flight
      → populate txs w ≡ (ok tt, w1)
      → persist_payment_info payment_hash info inbound w1 ≡ (ok tt, w')
      → contains w'.activity_index (timed_item old.last_update (payment_key inbound payment_hash))
        ≡ true
  populate_then_persist txs w {w1} {w'} payment_hash inbound old info {m} k s r g f p e =
      let all = populate-Populated txs w {w' = w1} p in
      let key = payment_key inbound payment_hash in
      let found = payment_items-in_flight m key {info = old} g f in
      let items =
        onchain_items txs
        ++ (transaction_items all.details
            ++ (closure_items all.closed
                ++ (payment_items all.inbound ++ payment_items all.outbound))) in
      let listed : contains items (timed_item old.last_update key) ≡ true =
        contains-append_right (onchain_items txs) _ _ (
          contains-append_right (transaction_items all.details) _ _ (
            contains-append_right (closure_items all.closed) _ _
              (Populated-listed inbound (timed_item old.last_update key) all r found))) in
      let sorted : IsSorted w1.activity_index =
        rw all.after (extend-IsSorted w.activity_index items s) in
      let keyed : IsKeyed w1.password w1.cipher = rw all.after k in
      persist_payment_info-timed payment_hash info inbound w1 {w' = w'} old.last_update key keyed
        sorted e
        (ground (
          arith,
          all.after,
          contains-extend w.activity_index items (timed_item old.last_update key),
        ))
