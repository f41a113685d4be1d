-- ===== src/Labels/Store/Spec.antt =====
-- What setting the labels of an address or an invoice leaves in the storage.
use mutiny_node.Prelude.{
  ℕ, ◌≡◌, ◌≢◌, refl, sym, true, ◌||◌, List, [], ◌∷◌, ◌++◌, Option, none, some, inl, inr, arith,
  ◌==◌, ==_iff, ==_self, if◌then◌else◌, contains, Bool-cases,
}
use mutiny_node.Prelude.Text.{Text, text_eq, append-injective, ne_of_first}
use mutiny_node.Prelude.Map.{Map}
use mutiny_node.Exec.{ok, Result-cases}
use mutiny_node.Encrypt.{Crypto}
use mutiny_node.Storage.Values.{Json, Serde}
use mutiny_node.Storage.{World, Env, get_data}
use mutiny_node.Storage.Data.{IsKeyed}
use mutiny_node.Storage.Written.{
  Agree, SameClock, set_data-Written, get_data-Agree, IsKeyed-SameClock, SameClock-trans,
}
use mutiny_node.Labels.{LabelItem, Contact, set_insert}
use mutiny_node.Labels.Keys.{get_label_item_key, get_contact_key, label_prefix}
use mutiny_node.Labels.Store.{
  Kind, address, invoice, map_key, touched, get_label, get_contact, edit_contact, touch_contact,
  update_contact, add_label, add_labels,
}

contains-append :
    (xs : List Text) (x y : Text) → contains (xs ++ (x ∷ [])) y ≡ (contains xs y || x == y)
contains-append [] x y = ground arith
contains-append (z ∷ xs) x y = ground (arith, contains-append xs x y)

pub contains-set_insert :
    (xs : List Text) (x y : Text) → contains (set_insert xs x) y ≡ (contains xs y || x == y)
contains-set_insert xs x y = ground (arith, contains-append xs x y, ==_iff x y)

-- Touching an item twice is touching it once.
touched_idem :
    (kind : Kind) (target : Text) (now : ℕ) (item : Option LabelItem)
    → touched kind target now (some (touched kind target now item)) ≡ touched kind target now item
touched_idem address target now none = ground (arith, ==_self target)
touched_idem invoice target now none = ground (arith, ==_self target)
touched_idem address target now (some item) =
    ground (arith, contains-set_insert item.addresses target target, ==_self target)
touched_idem invoice target now (some item) =
    ground (arith, contains-set_insert item.invoices target target, ==_self target)

-- The item of a label after the labels of a target were set.
abbrev pub item_after : Kind → Text → ℕ → List Text → Text → Option LabelItem → Option LabelItem
item_after kind target now labels l item =
    if contains labels l then some (touched kind target now item) else item

-- The keys of the maps, of the label items and of the contacts do not meet.
pub map_key-ne-label : (kind : Kind) (l : Text) → map_key kind ≢ get_label_item_key l
map_key-ne-label address l = ne_of_first _ (get_label_item_key l) (λ e. omega arith)
map_key-ne-label invoice l = ne_of_first _ (get_label_item_key l) (λ e. omega arith)

pub map_key-ne-contact : (kind : Kind) (l : Text) → map_key kind ≢ get_contact_key l
map_key-ne-contact address l = ne_of_first _ (get_contact_key l) (λ e. omega arith)
map_key-ne-contact invoice l = ne_of_first _ (get_contact_key l) (λ e. omega arith)

label-ne-contact : (l k : Text) → get_label_item_key l ≢ get_contact_key k
label-ne-contact l k = ne_of_first (get_label_item_key l) (get_contact_key k) (λ e. omega arith)

label-ne : (l k : Text) → l ≢ k → get_label_item_key l ≢ get_label_item_key k
label-ne l k h e = h (append-injective label_prefix l k e)

Agree-refl : {V : Type 0} (k : Text) (w : World V) → Agree k w w
Agree-refl k w = record { memory = refl; password = refl }

pub Agree-trans :
    {V : Type 0} {k : Text} {u v w : World V} → Agree k u v → Agree k v w → Agree k u w
Agree-trans a b = ground (arith, a.memory, a.password, b.memory, b.password)

Agree-sym : {V : Type 0} {k : Text} {v w : World V} → Agree k v w → Agree k w v
Agree-sym a = record { memory = sym a.memory; password = sym a.password }

SameClock-refl : {V : Type 0} (w : World V) → SameClock w w
SameClock-refl w = record { password = refl; cipher = refl; now_ms = refl }

module _ {V : Type 0} ⦃c : Crypto⦄ ⦃j : Json V⦄ ⦃env : Env⦄ ⦃maps : Serde V (Map Text (List Text))⦄
    ⦃items : Serde V LabelItem⦄ ⦃contacts : Serde V Contact⦄ where
  -- Only the contact of the label may change.
  record ContactOnly (label : Text) (w w' : World V) : Type 0 where
    others : (k : Text) → k ≢ get_contact_key label → Agree k w w'
    clock : SameClock w w'

  update_contact-ContactOnly :
      (label : Text) (now : ℕ) (item : Option LabelItem) (w : World V) {w' : World V}
      → IsKeyed w.password w.cipher
      → update_contact label now item w ≡ (ok tt, w')
      → ContactOnly label w w'
  unfolding update_contact get_contact touch_contact edit_contact get_data
  update_contact-ContactOnly label now none w {w'} k e =
      let same : w' ≡ w = ground arith in
      rw same (record { others = λ i h. Agree-refl i w; clock = SameClock-refl w })
  update_contact-ContactOnly label now (some item) w {w'} k e =
      elim (Result-cases (get_contact label w).0) [
        | inr (_, q) ↦ absurd (ground arith)
        | inl (none, q) ↦
            let same : w' ≡ w = ground arith in
            rw same (record { others = λ i h. Agree-refl i w; clock = SameClock-refl w })
        | inl (some contact, q) ↦
            let d =
              set_data-Written (get_contact_key label) (record contact { last_used = now }) none w
                {w' = w'} k (ground arith) in
            record { others = d.others; clock = d.clock }
      ]

  -- What one round of the loop does.
  record Added (kind : Kind) (target : Text) (now : ℕ) (label : Text) (w w' : World V)
      : Type 0 where
    item : Option LabelItem
    before : get_label label w ≡ (ok item, w)
    after : get_label label w' ≡ (ok (some (touched kind target now item)), w')
    others : (k : Text) → k ≢ get_label_item_key label → k ≢ get_contact_key label → Agree k w w'
    clock : SameClock w w'

  get_label-state : (label : Text) (w : World V) → (get_label label w).1 ≡ w
  unfolding get_label get_data
  get_label-state label w = refl

  add_label-Added :
      (kind : Kind) (target : Text) (now : ℕ) (label : Text) (w : World V) {w' : World V}
      → IsKeyed w.password w.cipher
      → add_label kind target now label w ≡ (ok tt, w')
      → Added kind target now label w w'
  unfolding add_label
  add_label-Added kind target now label w {w'} k e = elim (Result-cases (get_label label w).0) [
    | inr (_, q) ↦ absurd (ground arith)
    | inl (item, q) ↦
        let state = get_label-state label w in
        let w1 = (update_contact label now item w).1 in
        elim (Result-cases (update_contact label now item w).0) [
          | inr (_, r) ↦ absurd (ground arith)
          | inl (_, r) ↦
              let only = update_contact-ContactOnly label now item w {w' = w1} k (ground arith) in
              let d =
                set_data-Written (get_label_item_key label) (touched kind target now item) none w1
                  {w' = w'} (IsKeyed-SameClock only.clock k) (ground arith) in
              record {
                item = item;
                before = ground arith;
                after = unfold get_label in d.read;
                others = λ i h n. Agree-trans (only.others i n) (d.others i h);
                clock = SameClock-trans only.clock d.clock;
              }
        ]
  ]

  -- What the whole loop does.
  pub record AllAdded (kind : Kind) (target : Text) (now : ℕ) (labels : List Text) (w w' : World V)
      : Type 0 where
    pub each :
        (l : Text) (item : Option LabelItem)
        → get_label l w ≡ (ok item, w)
        → get_label l w' ≡ (ok (item_after kind target now labels l item), w')
    pub readable :
        (l : Text)
        → contains labels l ≡ true
        → (item : Option LabelItem) × (get_label l w ≡ (ok item, w))
    pub map_keys : (other : Kind) → Agree (map_key other) w w'
    pub clock : SameClock w w'

  pub get_label-Agree :
      (l : Text) {w w' : World V} {item : Option LabelItem}
      → Agree (get_label_item_key l) w w'
      → get_label l w ≡ (ok item, w)
      → get_label l w' ≡ (ok item, w')
  unfolding get_label
  get_label-Agree l a h = get_data-Agree (get_label_item_key l) a h

  -- One round, seen at any label.
  Added-items :
      (kind : Kind) (target : Text) (now : ℕ) (label : Text) {w w' : World V} (l : Text)
      (item : Option LabelItem)
      → Added kind target now label w w'
      → get_label l w ≡ (ok item, w)
      → get_label l w' ≡ (ok (if label == l then some (touched kind target now item) else item), w')
  Added-items kind target now label {w} {w'} l item a h = elim (Bool-cases (label == l)) [
    | inl e ↦
        let same : label ≡ l = (==_iff label l).0 e in
        let before = a.before in
        let after = a.after in let first_item : a.item ≡ item = ground arith in ground arith
    | inr e ↦
        let other : l ≢ label = λ q. ground (arith, ==_iff label l) in
        rw e (
          get_label-Agree l
            (a.others (get_label_item_key l) (label-ne l label other) (label-ne-contact l label)) h)
  ]

  -- A label that a round leaves alone was readable before it.
  readable_before :
      {kind : Kind} {target : Text} {now : ℕ} (label l : Text) {w w' : World V}
      → Added kind target now label w w'
      → l ≢ label
      → (item : Option LabelItem) × (get_label l w' ≡ (ok item, w'))
      → (item : Option LabelItem) × (get_label l w ≡ (ok item, w))
  readable_before label l a n (item, h) = (
    item,
    get_label-Agree l
        (Agree-sym
          (a.others (get_label_item_key l) (label-ne l label n) (label-ne-contact l label)))
        h,
  )

  pub add_labels-AllAdded :
      (kind : Kind) (target : Text) (now : ℕ) (labels : List Text) (w : World V) {w' : World V}
      → IsKeyed w.password w.cipher
      → add_labels kind target now labels w ≡ (ok tt, w')
      → AllAdded kind target now labels w w'
  unfolding add_labels
  add_labels-AllAdded kind target now [] w {w'} k e =
      let same : w' ≡ w = ground arith in
      rw same (record {
        each = λ l item h. h;
        readable = λ l h. absurd (ground arith);
        map_keys = λ other. Agree-refl (map_key other) w;
        clock = SameClock-refl w;
      })
  add_labels-AllAdded kind target now (label ∷ labels) w {w'} k e =
      let w1 = (add_label kind target now label w).1 in
      elim (Result-cases (add_label kind target now label w).0) [
        | inr (_, q) ↦ absurd (ground arith)
        | inl (_, q) ↦
            let one = add_label-Added kind target now label w {w' = w1} k (ground arith) in
            let rest =
              add_labels-AllAdded kind target now labels w1 {w' = w'}
                (IsKeyed-SameClock one.clock k) (ground arith) in
            record {
              each = λ l item h.
                  let h1 = Added-items kind target now label l item one h in
                  ground (arith, rest.each l _ h1, touched_idem kind target now item);
              readable = λ l h. elim (Bool-cases (label == l)) [
                | inl f ↦ (one.item, rw (← (==_iff label l).0 f) one.before)
                | inr f ↦
                    readable_before label l one (λ q. ground (arith, ==_iff label l))
                      (rest.readable l (ground arith))
              ];
              map_keys = λ other.
                  Agree-trans
                    (one.others (map_key other) (map_key-ne-label other label)
                      (map_key-ne-contact other label))
                    (rest.map_keys other);
              clock = SameClock-trans one.clock rest.clock;
            }
      ]
