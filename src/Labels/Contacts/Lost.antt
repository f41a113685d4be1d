-- ===== src/Labels/Contacts/Lost.antt =====
-- What making a contact of a label leaves of the other labels.
use mutiny_node.Prelude.{
  ◌≡◌, ◌≢◌, refl, sym, List, [], ◌∷◌, Option, none, some, inl, inr, arith, ◌==◌, ==_iff,
  if◌then◌else◌, contains, Bool-cases,
}
use mutiny_node.Prelude.Text.{Text, text_eq, ne_of_first}
use mutiny_node.Prelude.Map.{Map, get, get-insert}
use mutiny_node.Exec.{ok, Result-cases}
use mutiny_node.Encrypt.{Crypto}
use mutiny_node.Storage.Values.{Json, Serde}
use mutiny_node.Storage.{World, Env, draw, set_data, get_data, delete}
use mutiny_node.Storage.Data.{IsKeyed}
use mutiny_node.Storage.Written.{Agree, Written, set_data-Written, IsKeyed-SameClock, delete-Agree}
use mutiny_node.Labels.Store.{Kind, address, invoice, map_key, get_target_labels, get_label}
use mutiny_node.Labels.Store.Spec.{map_key-ne-label, map_key-ne-contact, Agree-trans}
use mutiny_node.Labels.Store.Indexed.{get_target_labels-Agree}
use mutiny_node.Labels.{LabelItem, Contact}
use mutiny_node.Labels.Keys.{get_label_item_key, get_contact_key}
use mutiny_node.Labels.Contacts.{
  renamed, relabelled, relabel, convert_label, create_contact_from_label,
}

-- No two entries of one key: a `HashMap` never has them.
abbrev pub LacksKey : {A : Type 0} → Text → Map Text A → Type 0
LacksKey k [] = Unit
LacksKey k ((i, _) ∷ m) = (i ≢ k) × LacksKey k m

abbrev pub HasDistinctKeys : {A : Type 0} → Map Text A → Type 0
HasDistinctKeys [] = Unit
HasDistinctKeys ((i, _) ∷ m) = LacksKey i m × HasDistinctKeys m

get-LacksKey : {A : Type 0} (k : Text) (m : Map Text A) → LacksKey k m → get m k ≡ none
unfolding get
get-LacksKey k [] h = refl
get-LacksKey k ((i, v) ∷ m) h = ground (arith, ==_iff i k, get-LacksKey k m h.1)

-- What the new map holds of an entry.
abbrev pub relabelled_entry : Text → Text → Option (List Text) → Option (List Text)
relabelled_entry label id none = none
relabelled_entry label id (some labels) =
    if contains labels label then some (renamed label id labels) else none

relabelled-LacksKey :
    (label id k : Text) (m : Map Text (List Text))
    → LacksKey k m
    → get (relabelled label id m) k ≡ none
unfolding relabelled get
relabelled-LacksKey label id k [] h = refl
relabelled-LacksKey label id k ((i, labels) ∷ m) h = ground (
  arith,
  ==_iff i k,
  relabelled-LacksKey label id k m h.1,
  get-insert (relabelled label id m) i (renamed label id labels) k,
)

pub get-relabelled :
    (label id : Text) (m : Map Text (List Text)) (target : Text)
    → HasDistinctKeys m
    → get (relabelled label id m) target ≡ relabelled_entry label id (get m target)
unfolding relabelled get
get-relabelled label id [] target h = refl
get-relabelled label id ((i, labels) ∷ m) target h = elim (Bool-cases (i == target)) [
  | inl e ↦
      let same : i ≡ target = (==_iff i target).0 e in
      ground (
        arith,
        relabelled-LacksKey label id i m h.0,
        get-insert (relabelled label id m) i (renamed label id labels) target,
      )
  | inr e ↦ ground (
    arith,
    get-relabelled label id m target h.1,
    get-insert (relabelled label id m) i (renamed label id labels) target,
  )
]

-- A random draw changes nothing that is read.
Agree-draw : {V : Type 0} {k : Text} {w w' : World V} → Agree k (draw w) w' → Agree k w w'
Agree-draw a = record { memory = a.memory; password = a.password }

map_keys_apart : map_key address ≢ map_key invoice
map_keys_apart = ne_of_first _ _ (λ e. omega arith)

module _ {V : Type 0} ⦃c : Crypto⦄ ⦃j : Json V⦄ ⦃env : Env⦄ ⦃maps : Serde V (Map Text (List Text))⦄
    ⦃items : Serde V LabelItem⦄ ⦃contacts : Serde V Contact⦄ where
  -- A map is read and its relabelled copy written.
  record Relabelled (kind : Kind) (label id : Text) (w w' : World V) : Type 0 where
    old : Map Text (List Text)
    read : get_target_labels kind w ≡ (ok old, w)
    written : Written (map_key kind) (relabelled label id old) w w'

  get_target_labels-state : (kind : Kind) (w : World V) → (get_target_labels kind w).1 ≡ w
  unfolding get_target_labels get_data
  get_target_labels-state kind w = ground arith

  relabel-Relabelled :
      (kind : Kind) (label id : Text) (w : World V) {w' : World V}
      → IsKeyed w.password w.cipher
      → relabel kind label id w ≡ (ok tt, w')
      → Relabelled kind label id w w'
  unfolding relabel
  relabel-Relabelled kind label id w {w'} k e =
      let state = get_target_labels-state kind w in
      elim (Result-cases (get_target_labels kind w).0) [
        | inr (_, q) ↦ absurd (ground arith)
        | inl (old, q) ↦ record {
          old = old;
          read = ground arith;
          written =
              set_data-Written (map_key kind) (relabelled label id old) none w {w' = w'} k
                (ground arith);
        }
      ]

  -- The steps of a conversion that succeeds.
  record Converted (label id : Text) (w w' : World V) : Type 0 where
    w1 : World V
    w2 : World V
    w3 : World V
    before : (kind : Kind) → Agree (map_key kind) w w1
    addresses : Relabelled address label id w1 w2
    invoices : Relabelled invoice label id w2 w3
    after : (kind : Kind) → Agree (map_key kind) w3 w'

  convert_label-Converted :
      (label : Text) (contact : Contact) (current : LabelItem) (w : World V) {id : Text}
      {w' : World V}
      → IsKeyed w.password w.cipher
      → convert_label label contact current w ≡ (ok id, w')
      → Converted label id w w'
  unfolding convert_label
  convert_label-Converted label contact current w {id} {w'} k e =
      let made = env.new_uuid w.draws in
      let r1 = set_data (get_label_item_key made) current none (draw w) in
      elim (Result-cases r1.0) [
        | inr (_, q) ↦ absurd (ground arith)
        | inl (_, q1) ↦
            let d1 =
              set_data-Written (get_label_item_key made) current none (draw w) {w' = r1.1} k
                (ground arith) in
            let k1 = IsKeyed-SameClock d1.clock k in
            let r2 = relabel address label made r1.1 in
            elim (Result-cases r2.0) [
              | inr (_, q) ↦ absurd (ground arith)
              | inl (_, q2) ↦
                  let d2 =
                    relabel-Relabelled address label made r1.1 {w' = r2.1} k1 (ground arith) in
                  let k2 = IsKeyed-SameClock d2.written.clock k1 in
                  let r3 = relabel invoice label made r2.1 in
                  elim (Result-cases r3.0) [
                    | inr (_, q) ↦ absurd (ground arith)
                    | inl (_, q3) ↦
                        let d3 =
                          relabel-Relabelled invoice label made r2.1 {w' = r3.1} k2
                            (ground arith) in
                        let k3 = IsKeyed-SameClock d3.written.clock k2 in
                        let r4 = set_data (get_contact_key made) contact none r3.1 in
                        elim (Result-cases r4.0) [
                          | inr (_, q) ↦ absurd (ground arith)
                          | inl (_, q4) ↦
                              let d4 =
                                set_data-Written (get_contact_key made) contact none r3.1
                                  {w' = r4.1} k3 (ground arith) in
                              let same : id ≡ made = ground arith in
                              let end : w' ≡ (delete (get_label_item_key label ∷ []) r4.1).1 =
                                ground arith in
                              rw (same, end)
                                (record {
                                  w1 = r1.1;
                                  w2 = r2.1;
                                  w3 = r3.1;
                                  before = λ kind.
                                      Agree-draw
                                        (d1.others (map_key kind) (map_key-ne-label kind made));
                                  addresses = d2;
                                  invoices = d3;
                                  after = λ kind.
                                      Agree-trans
                                        (d4.others (map_key kind) (map_key-ne-contact kind made))
                                        (delete-Agree (get_label_item_key label) (map_key kind) r4.1
                                          (map_key-ne-label kind label));
                                })
                        ]
                  ]
            ]
      ]

  -- A map before and after its conversion.
  Converted-map :
      (kind : Kind) (label id : Text) {w w' : World V} {m : Map Text (List Text)}
      → Converted label id w w'
      → get_target_labels kind w ≡ (ok m, w)
      → get_target_labels kind w' ≡ (ok (relabelled label id m), w')
  unfolding get_target_labels
  Converted-map address label id {m = m} d h =
      let start = get_target_labels-Agree address (d.before address) h in
      let same : d.addresses.old ≡ m = ground (arith, d.addresses.read) in
      let done : get_target_labels address d.w2 ≡ (ok (relabelled label id m), d.w2) =
        ground (arith, d.addresses.written.read) in
      let mid =
        get_target_labels-Agree address (d.invoices.written.others (map_key address) map_keys_apart)
          done in
      get_target_labels-Agree address (d.after address) mid
  Converted-map invoice label id {m = m} d h =
      let start = get_target_labels-Agree invoice (d.before invoice) h in
      let mid =
        get_target_labels-Agree invoice
          (d.addresses.written.others (map_key invoice) (λ e. map_keys_apart (sym e))) start in
      let same : d.invoices.old ≡ m = ground (arith, d.invoices.read) in
      let done : get_target_labels invoice d.w3 ≡ (ok (relabelled label id m), d.w3) =
        ground (arith, d.invoices.written.read) in
      get_target_labels-Agree invoice (d.after invoice) done

  get_label-state : (label : Text) (w : World V) → (get_label label w).1 ≡ w
  unfolding get_label get_data
  get_label-state label w = refl

  -- If the cipher is that of the password, then a contact made of a label with success has renamed the
  -- label wherever it stood, and has dropped every address and every invoice that did not have it: such
  -- a target has no entry left, whatever its labels were.
  pub create_contact_from_label_lem :
      (kind : Kind) (label : Text) (contact : Contact) (w : World V) {m : Map Text (List Text)}
      {id : Text} {w' : World V} (target : Text)
      → IsKeyed w.password w.cipher
      → HasDistinctKeys m
      → get_target_labels kind w ≡ (ok m, w)
      → create_contact_from_label label contact w ≡ (ok id, w')
      → (after : Map Text (List Text)) × (get_target_labels kind w' ≡ (ok after, w'))
        × (get after target ≡ relabelled_entry label id (get m target))
  unfolding create_contact_from_label
  create_contact_from_label_lem kind label contact w {m} {id} {w'} target k distinct h e =
      let state = get_label-state label w in
      elim (Result-cases (get_label label w).0) [
        | inr (_, q) ↦ absurd (ground arith)
        | inl (none, q) ↦ absurd (ground arith)
        | inl (some current, q) ↦
            let d =
              convert_label-Converted label contact current w {id = id} {w' = w'} k
                (ground arith) in
            (
              relabelled label id m,
              Converted-map kind label id d h,
              get-relabelled label id m target distinct,
            )
      ]
