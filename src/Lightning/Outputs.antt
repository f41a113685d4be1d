-- ===== src/Lightning/Outputs.antt =====
-- The outputs that could not be spent are stored, for another attempt.
use mutiny_node.Prelude.{
  ◌≡◌, refl, inl, inr, ◌++◌, List, [], ◌∷◌, none, some, arith, map, unwrap_or, retain, Bool-cases,
  ◌%◌, ◌==◌, nat_eq,
}
use mutiny_node.Prelude.Text.{Text, text_eq}
use mutiny_node.Error.{MutinyError}
use mutiny_node.Exec.{ok, err, and_then-eq-ok, Result-cases}
use mutiny_node.Encrypt.{Crypto}
use mutiny_node.Storage.Values.{Json, Serde}
use mutiny_node.Storage.{World, Env, get_data}
use mutiny_node.Storage.Data.{IsKeyed}
use mutiny_node.Storage.Written.{set_data-Written}
use mutiny_node.Wallet.{Machine}
use mutiny_node.Activity.{PaymentInfo, ChannelClosure}
use mutiny_node.Activity.Persist.{Hex}
use mutiny_node.Lightning.{
  ChannelOpenParams, SpendableOutputDescriptor, Encodings, Ldk, get_key,
  failed_spendable_output_descriptor_key, read_descriptors, persist_failed_spendable_outputs,
  get_failed_spendable_outputs,
}
use mutiny_node.Lightning.Event.{spendable_outputs, is_spendable}
use mutiny_node.Lightning.Actions.{
  handle_spendable_outputs, spend_present, spend_outputs, spending_height,
}
use mutiny_node.Lightning.Events.{handle_event, spendable_outputs_handler}

read_descriptors-append :
    ⦃enc : Encodings⦄ (xs : List Text) (ds os : List SpendableOutputDescriptor)
    → read_descriptors xs ≡ ok ds
    → read_descriptors (xs ++ map enc.to_hex os) ≡ ok (ds ++ os)
unfolding read_descriptors
read_descriptors-append [] ds [] h = ground arith
read_descriptors-append ⦃enc⦄ [] ds (o ∷ os) h =
    let ih = read_descriptors-append [] [] os refl in ground (arith, enc.from_hex-to_hex o)
read_descriptors-append ⦃enc⦄ (x ∷ xs) ds os h =
    let (d, p, h1) = and_then-eq-ok (enc.from_hex x) _ h in
    let (rest, q, h2) = and_then-eq-ok (read_descriptors xs) _ h1 in
    let ih = read_descriptors-append xs rest os q in ground arith

module _ {V : Type 0} ⦃c : Crypto⦄ ⦃j : Json V⦄ ⦃env : Env⦄ ⦃enc : Encodings⦄
    ⦃strings : Serde V (List Text)⦄ where
  -- The reading depends on what is stored alone.
  get_failed-storage :
      (node_id : Text) (ds : List SpendableOutputDescriptor) {w w' : World V}
      → w'.storage ≡ w.storage
      → get_failed_spendable_outputs node_id w ≡ (ok ds, w)
      → get_failed_spendable_outputs node_id w' ≡ (ok ds, w')
  unfolding get_failed_spendable_outputs get_data
  get_failed-storage node_id ds {w} {w'} same g =
      let key = get_key node_id failed_spendable_output_descriptor_key in
      elim (Result-cases (get_data {A = List Text} key w).0) [
        | inr (_, q) ↦ absurd (ground arith)
        | inl (o, q) ↦ ground arith
      ]

  -- What is stored and can be read is kept, and what failed is added to it.
  get_failed-persist_failed :
      (node_id : Text) (w : World V) {w' : World V} (ds os : List SpendableOutputDescriptor)
      → IsKeyed w.password w.cipher
      → get_failed_spendable_outputs node_id w ≡ (ok ds, w)
      → persist_failed_spendable_outputs node_id os w ≡ (ok tt, w')
      → get_failed_spendable_outputs node_id w' ≡ (ok (ds ++ os), w')
  unfolding get_failed_spendable_outputs persist_failed_spendable_outputs get_data
  get_failed-persist_failed node_id w {w'} ds os k g p =
      let key = get_key node_id failed_spendable_output_descriptor_key in
      elim (Result-cases (get_data {A = List Text} key w).0) [
        | inr (_, q) ↦ absurd (ground arith)
        | inl (o, q) ↦
            let old = unwrap_or o [] in
            let d =
              set_data-Written key (old ++ map enc.to_hex os) none w {w' = w'} k (ground arith) in
            let more = read_descriptors-append old ds os (ground arith) in ground (arith, d.read)
      ]

module _ {V E : Type 0} ⦃ldk : Ldk V E⦄ where
  -- A sweep of outputs leaves what is stored: it talks to the wallet and draws random numbers.
  spending_height-keeps : (m : Machine V E) → (spending_height m).1.world.storage ≡ m.world.storage
  unfolding spending_height
  spending_height-keeps m = elim (Bool-cases (ldk.random_height m.world.draws % 10 == 0)) [
    | inl q ↦ ground arith
    | inr q ↦ ground arith
  ]

  spend_outputs-keeps :
      (ds : List SpendableOutputDescriptor) (m : Machine V E)
      → (spend_outputs ds m).1.world.storage ≡ m.world.storage
  unfolding spend_outputs
  spend_outputs-keeps ds m =
      let (height, m1) = spending_height m in
      let same = spending_height-keeps m in
      let r =
        ldk.spend_spendable_outputs ds (ldk.get_normal_fee_rate m.outside)
          (ldk.lock_time_from_height height) m1.outside in
      elim (Result-cases r.0) [ inr (_, q) ↦ ground arith | inl (_, q) ↦ ground arith ]

  spend_present-keeps :
      (ds : List SpendableOutputDescriptor) (m : Machine V E)
      → (spend_present ds m).1.world.storage ≡ m.world.storage
  unfolding spend_present
  spend_present-keeps [] m = refl
  spend_present-keeps (d ∷ ds) m = spend_outputs-keeps (d ∷ ds) m

  handle_spendable_outputs-keeps :
      (os : List SpendableOutputDescriptor) (m : Machine V E)
      → (handle_spendable_outputs os m).1.world.storage ≡ m.world.storage
  unfolding handle_spendable_outputs
  handle_spendable_outputs-keeps os m = spend_present-keeps (retain is_spendable os) m

  module _ ⦃c : Crypto⦄ ⦃j : Json V⦄ ⦃env : Env⦄ ⦃hex : Hex⦄ ⦃enc : Encodings⦄
      ⦃strings : Serde V (List Text)⦄ ⦃params : Serde V ChannelOpenParams⦄
      ⦃closures : Serde V ChannelClosure⦄ ⦃payments : Serde V PaymentInfo⦄ where
    -- If the cipher is that of the password, the outputs that failed earlier can be read, the new ones
    -- cannot be spent, and the write succeeds, then after the event the earlier ones are read followed by
    -- all the new ones.
    pub spendable_outputs_kept :
        (node_id : Text) (os ds : List SpendableOutputDescriptor) (m : Machine V E)
        {m1 : Machine V E} {w' : World V} {e : MutinyError}
        → IsKeyed m.world.password m.world.cipher
        → get_failed_spendable_outputs node_id m.world ≡ (ok ds, m.world)
        → handle_spendable_outputs os m ≡ (err e, m1)
        → persist_failed_spendable_outputs node_id os m1.world ≡ (ok tt, w')
        → (handle_event node_id (spendable_outputs os) m ≡ some (record m1 { world = w' }))
          × (get_failed_spendable_outputs node_id w' ≡ (ok (ds ++ os), w'))
    unfolding handle_event spendable_outputs_handler
    spendable_outputs_kept node_id os ds m {m1} {w'} k g h p =
        let same : m1.world.storage ≡ m.world.storage =
          ground (arith, handle_spendable_outputs-keeps os m) in
        (
          ground arith,
          get_failed-persist_failed node_id m1.world {w' = w'} ds os (rw same k)
              (get_failed-storage node_id ds same g) p,
        )
