-- ===== src/Lightning/Proved.antt =====
-- The preimages of the payments that were sent.
use mutiny_node.Prelude.{
  ℕ, ◌≡◌, ◌≢◌, refl, append_cancel_left, sym, inl, inr, Bool, true, false, List, Option, none, some,
  arith, ==_iff, ◌==◌, Bool-cases, Option-cases,
}
use mutiny_node.Prelude.Text.{Text, text_eq}
use mutiny_node.Prelude.Map.{get}
use mutiny_node.Error.{MutinyError}
use mutiny_node.Exec.{err, Result-cases}
use mutiny_node.Encrypt.{Crypto, Bytes}
use mutiny_node.Storage.Values.{Json, Serde}
use mutiny_node.Storage.{World, Env, set_data, get_data, store_value, now_secs}
use mutiny_node.Storage.Data.{IsKeyed}
use mutiny_node.Storage.Written.{set_data-Written}
use mutiny_node.Wallet.{Machine}
use mutiny_node.Nwc.Node.{succeeded}
use mutiny_node.Activity.{PaymentInfo, ChannelClosure}
use mutiny_node.Activity.Persist.{
  Hex, payment_outbound_prefix_key, payment_key, persist_payment_info, read_payment_info, found,
}
use mutiny_node.Lightning.{ChannelOpenParams, Encodings, Ldk}
use mutiny_node.Lightning.Event.{
  Event, PaymentPurpose, payment_claimable, payment_claimed, payment_sent, payment_failed,
  claimed_info, sent_info, failed_info,
}
use mutiny_node.Lightning.Actions.{payment_claimable_handler}
use mutiny_node.Lightning.Events.{handle_event, payment_claimed_handler, settle}

-- The payment hash of a preimage.
pub record PaymentHashes : Type 0 where
  pub sha256 : Bytes → Bytes

-- The events of a payment. The preimage of a payment that was sent is one of its hash.
pub data IsOfPayment ⦃hashes : PaymentHashes⦄ : Event → Type 0 where
  claimable :
      (payment_hash : Bytes) (purpose : PaymentPurpose) (amount_msat skimmed : ℕ)
      → IsOfPayment (payment_claimable payment_hash purpose amount_msat skimmed)
  claimed :
      (receiver : Option Text) (payment_hash : Bytes) (purpose : PaymentPurpose) (amount_msat : ℕ)
      → IsOfPayment (payment_claimed receiver payment_hash purpose amount_msat)
  sent :
      (payment_preimage payment_hash : Bytes) (fee_paid_msat : Option ℕ)
      → hashes.sha256 payment_preimage ≡ payment_hash
      → IsOfPayment (payment_sent payment_preimage payment_hash fee_paid_msat)
  gave_up : (payment_hash : Bytes) → IsOfPayment (payment_failed payment_hash)

-- The record of a payment of a hash that has succeeded holds a preimage of the hash.
abbrev pub HasProof : ⦃hashes : PaymentHashes⦄ → Bytes → Option PaymentInfo → Type 0
HasProof payment_hash none = Unit
HasProof ⦃hashes⦄ payment_hash (some i) =
    i.status ≡ succeeded → (p : Bytes) × (i.preimage ≡ some p) × (hashes.sha256 p ≡ payment_hash)

-- Keys of one direction are of one hash.
payment_key_injective :
    ⦃hex : Hex⦄ (a b : Bytes) → payment_key false a ≡ payment_key false b → a ≡ b
unfolding payment_key
payment_key_injective ⦃hex⦄ a b h =
    hex.as_hex_injective a b (append_cancel_left payment_outbound_prefix_key _ _ h)

payment_key-distinct : ⦃hex : Hex⦄ (a b : Bytes) → payment_key true a ≢ payment_key false b
unfolding payment_key
payment_key-distinct a b h = ground arith

sent_info-HasProof :
    ⦃hashes : PaymentHashes⦄ (preimage payment_hash : Bytes) (fee : Option ℕ) (now : ℕ)
    (i : PaymentInfo)
    → hashes.sha256 preimage ≡ payment_hash
    → HasProof payment_hash (some (sent_info preimage fee now i))
unfolding sent_info
sent_info-HasProof preimage payment_hash fee now i e h = (preimage, refl, e)

failed_info-HasProof :
    ⦃hashes : PaymentHashes⦄ (payment_hash : Bytes) (now : ℕ) (i : PaymentInfo)
    → HasProof payment_hash (some (failed_info now i))
unfolding failed_info
failed_info-HasProof payment_hash now i h = absurd (ground arith)

module _ {V : Type 0} ⦃c : Crypto⦄ ⦃j : Json V⦄ ⦃env : Env⦄ where
  -- A write that fails writes nothing.
  set_data-err :
      {A : Type 0} ⦃s : Serde V A⦄ (key : Text) (a : A) (w : World V) (e : MutinyError)
      → (set_data key a none w).0 ≡ err e
      → (set_data key a none w).1.storage ≡ w.storage
  unfolding set_data store_value
  set_data-err key a w e h = ground arith

  module _ ⦃hex : Hex⦄ ⦃payments : Serde V PaymentInfo⦄ where
    -- The payments that were sent, by their hashes.
    abbrev pub outbound : World V → Bytes → Option PaymentInfo
    outbound w payment_hash =
        found (get_data {A = PaymentInfo} (payment_key false payment_hash) w).0

    abbrev pub AllProved : ⦃hashes : PaymentHashes⦄ → World V → Type 0
    AllProved w = (payment_hash : Bytes) → HasProof payment_hash (outbound w payment_hash)

    outbound-Agree :
        (payment_hash : Bytes) (w w' : World V)
        → get w'.memory (payment_key false payment_hash)
          ≡ get w.memory (payment_key false payment_hash)
        → w'.password ≡ w.password
        → outbound w' payment_hash ≡ outbound w payment_hash
    unfolding get_data
    outbound-Agree payment_hash w w' m p = rw (m, p) refl

    -- Whatever comes of the write of a payment, another payment's record stays.
    persist_payment_info-others :
        (payment_hash other : Bytes) (info : PaymentInfo) (inbound : Bool) (w : World V)
        → IsKeyed w.password w.cipher
        → payment_key false other ≢ payment_key inbound payment_hash
        → outbound (persist_payment_info payment_hash info inbound w).1 other ≡ outbound w other
    unfolding persist_payment_info
    persist_payment_info-others payment_hash other info inbound w k n =
        let key = payment_key inbound payment_hash in
        let r = set_data key info none w in
        elim (Result-cases r.0) [
          | inr (e, q) ↦
              let same = set_data-err key info w e q in
              outbound-Agree other w _ (ground arith) (ground arith)
          | inl (_, q) ↦
              let d = set_data-Written key info none w {w' = r.1} k (ground arith) in
              let a = d.others (payment_key false other) n in
              outbound-Agree other w _ (ground (arith, a.memory)) (ground (arith, a.password))
        ]

    pub persist_payment_info-AllProved :
        ⦃hashes : PaymentHashes⦄ (payment_hash : Bytes) (info : PaymentInfo) (w : World V)
        → IsKeyed w.password w.cipher
        → HasProof payment_hash (some info)
        → AllProved w
        → AllProved (persist_payment_info payment_hash info false w).1
    unfolding persist_payment_info get_data
    persist_payment_info-AllProved payment_hash info w k h all other =
        let key = payment_key false payment_hash in
        let r = set_data key info none w in
        elim (Bool-cases (payment_key false other == key)) [
          | inr q ↦
              rw
                (persist_payment_info-others payment_hash other info false w k
                  (λ e. ground (arith, ==_iff (payment_key false other) key)))
                (all other)
          | inl q ↦ elim (Result-cases r.0) [
            | inr (e, f) ↦
                let same = set_data-err key info w e f in
                rw
                  (outbound-Agree other w (persist_payment_info payment_hash info false w).1
                    (ground arith) (ground arith))
                  (all other)
            | inl (_, f) ↦
                let d = set_data-Written key info none w {w' = r.1} k (ground arith) in
                let e : outbound (persist_payment_info payment_hash info false w).1 other
                    ≡ some info =
                  ground (arith, d.read, ==_iff (payment_key false other) key) in
                let same : other ≡ payment_hash =
                  payment_key_injective other payment_hash
                    ((==_iff (payment_key false other) key).0 q) in
                rw (e, same) h
          ]
        ]

module _ {V E : Type 0} ⦃c : Crypto⦄ ⦃j : Json V⦄ ⦃env : Env⦄ ⦃hex : Hex⦄ ⦃enc : Encodings⦄
    ⦃ldk : Ldk V E⦄ ⦃strings : Serde V (List Text)⦄ ⦃params : Serde V ChannelOpenParams⦄
    ⦃closures : Serde V ChannelClosure⦄ ⦃payments : Serde V PaymentInfo⦄
    ⦃hashes : PaymentHashes⦄ where
  payment_claimable_handler-keeps :
      (payment_hash : Bytes) (purpose : PaymentPurpose) (amount_msat skimmed : ℕ) (m : Machine V E)
      → (payment_claimable_handler payment_hash purpose amount_msat skimmed m).world ≡ m.world
  unfolding payment_claimable_handler
  payment_claimable_handler-keeps payment_hash purpose amount_msat skimmed m = ground arith

  payment_claimed_handler-AllProved :
      (receiver : Option Text) (payment_hash : Bytes) (purpose : PaymentPurpose) (amount_msat : ℕ)
      (m : Machine V E)
      → IsKeyed m.world.password m.world.cipher
      → AllProved m.world
      → AllProved (payment_claimed_handler receiver payment_hash purpose amount_msat m).world
  unfolding payment_claimed_handler
  payment_claimed_handler-AllProved receiver payment_hash purpose amount_msat m k all other =
      rw
        (persist_payment_info-others payment_hash other
          (claimed_info receiver purpose amount_msat (now_secs m.world)
            (read_payment_info payment_hash true m.world))
          true m.world k (λ h. payment_key-distinct payment_hash other (sym h)))
        (all other)

  settle-AllProved :
      (f : ℕ → PaymentInfo → PaymentInfo) (payment_hash : Bytes) (m : Machine V E)
      → ((i : PaymentInfo) → HasProof payment_hash (some (f (now_secs m.world) i)))
      → IsKeyed m.world.password m.world.cipher
      → AllProved m.world
      → AllProved (settle f payment_hash m).world
  settle-AllProved f payment_hash m h k all =
      elim (Option-cases (read_payment_info payment_hash false m.world)) [
        | inl e ↦ rw (e, settle) all
        | inr (saved, e) ↦
            let info = f (now_secs m.world) saved in
            let same : (settle f payment_hash m).world
                ≡ (persist_payment_info payment_hash info false m.world).1 =
              ground arith in
            rw same (persist_payment_info-AllProved payment_hash info m.world k (h saved) all)
      ]

  -- If the cipher is that of the password, and each sent payment whose record says that it has succeeded
  -- has a preimage of its hash there, then an event of a payment, which reports only preimages of the
  -- hash, is handled without a panic and leaves this so, whether or not its record could be written.
  pub handle_event-AllProved :
      (node_id : Text) (e : Event) (m : Machine V E)
      → IsOfPayment e
      → IsKeyed m.world.password m.world.cipher
      → AllProved m.world
      → (m' : Machine V E) × (handle_event node_id e m ≡ some m') × AllProved m'.world
  unfolding handle_event
  handle_event-AllProved node_id e m (claimable payment_hash purpose amount_msat skimmed) k all =
      (_, refl, rw (payment_claimable_handler-keeps payment_hash purpose amount_msat skimmed m) all)
  handle_event-AllProved node_id e m (claimed receiver payment_hash purpose amount_msat) k all =
      (_, refl, payment_claimed_handler-AllProved receiver payment_hash purpose amount_msat m k all)
  handle_event-AllProved node_id e m (sent preimage payment_hash fee image) k all = (
    _,
    refl,
    settle-AllProved (sent_info preimage fee) payment_hash m
        (λ i. sent_info-HasProof preimage payment_hash fee _ i image) k all,
  )
  handle_event-AllProved node_id e m (gave_up payment_hash) k all = (
    _,
    refl,
    settle-AllProved failed_info payment_hash m (failed_info-HasProof payment_hash _) k all,
  )
