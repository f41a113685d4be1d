-- ===== src/Labels/Store/Indexed.antt =====
-- The map of an address or invoice to its labels, and the items of the labels, agree one way: who has a
-- label is listed in its item.
use mutiny_node.Prelude.{
  ℕ, ◌≡◌, ◌≢◌, sym, true, List, [], Option, none, some, inl, inr, arith, ◌==◌, ==_iff, ==_self,
  contains, unwrap_or, Bool-cases,
}
use mutiny_node.Prelude.Text.{Text, text_eq, ne_of_first}
use mutiny_node.Prelude.Map.{Map, get, insert, get-insert}
use mutiny_node.Exec.{ok, Result-cases}
use mutiny_node.Encrypt.{Crypto}
use mutiny_node.Storage.Values.{Json, Serde}
use mutiny_node.Storage.{World, Env, now_secs, set_data, get_data}
use mutiny_node.Storage.Data.{IsKeyed}
use mutiny_node.Storage.Written.{
  Agree, Written, set_data-Written, get_data-Agree, IsKeyed-SameClock,
}
use mutiny_node.Labels.{LabelItem, Contact}
use mutiny_node.Labels.Keys.{get_label_item_key}
use mutiny_node.Labels.Store.{
  Kind, address, invoice, map_key, touched, get_target_labels, get_label, set_target_labels,
}
use mutiny_node.Labels.Store.Spec.{
  item_after, AllAdded, get_label-Agree, add_labels-AllAdded, map_key-ne-label, contains-set_insert,
  Agree-trans,
}

-- The addresses or invoices that an item lists.
abbrev pub targets : Kind → LabelItem → List Text
targets address item = item.addresses
targets invoice item = item.invoices

abbrev pub labels_of : Map Text (List Text) → Text → List Text
labels_of m target = unwrap_or (get m target) []

targets-touched_self :
    (kind : Kind) (target : Text) (now : ℕ) (item : Option LabelItem)
    → contains (targets kind (touched kind target now item)) target ≡ true
targets-touched_self address target now none = ground (arith, ==_self target)
targets-touched_self invoice target now none = ground (arith, ==_self target)
targets-touched_self address target now (some item) =
    ground (arith, contains-set_insert item.addresses target target, ==_self target)
targets-touched_self invoice target now (some item) =
    ground (arith, contains-set_insert item.invoices target target, ==_self target)

-- An item loses nothing that it lists.
targets-touched :
    (kind k : Kind) (target t : Text) (now : ℕ) (item : LabelItem)
    → contains (targets kind item) t ≡ true
    → contains (targets kind (touched k target now (some item))) t ≡ true
targets-touched address address target t now item h =
    ground (arith, contains-set_insert item.addresses target t)
targets-touched address invoice target t now item h = h
targets-touched invoice address target t now item h = h
targets-touched invoice invoice target t now item h =
    ground (arith, contains-set_insert item.invoices target t)

module _ {V : Type 0} ⦃c : Crypto⦄ ⦃j : Json V⦄ ⦃env : Env⦄ ⦃maps : Serde V (Map Text (List Text))⦄
    ⦃items : Serde V LabelItem⦄ ⦃contacts : Serde V Contact⦄ where
  -- The write of the map, and then the loop.
  record Both (kind : Kind) (target : Text) (labels : List Text) (m : Map Text (List Text))
      (w w' : World V) : Type 0 where
    mid : World V
    written : Written (map_key kind) (insert m target labels) w mid
    added : AllAdded kind target (now_secs w) labels mid w'

  set_target_labels-Both :
      (kind : Kind) (target : Text) (labels : List Text) (w : World V) {m : Map Text (List Text)}
      {w' : World V}
      → IsKeyed w.password w.cipher
      → get_target_labels kind w ≡ (ok m, w)
      → set_target_labels kind target labels w ≡ (ok tt, w')
      → Both kind target labels m w w'
  unfolding set_target_labels
  set_target_labels-Both kind target labels w {m} {w'} k h e =
      let mid = (set_data (map_key kind) (insert m target labels) none w).1 in
      elim (Result-cases (set_data (map_key kind) (insert m target labels) none w).0) [
        | inr (_, q) ↦ absurd (ground arith)
        | inl (_, q) ↦
            let d =
              set_data-Written (map_key kind) (insert m target labels) none w {w' = mid} k
                (ground arith) in
            let same : now_secs mid ≡ now_secs w = ground (arith, d.clock.now_ms) in
            record {
              mid = mid;
              written = d;
              added =
                  add_labels-AllAdded kind target (now_secs w) labels mid {w' = w'}
                    (IsKeyed-SameClock d.clock k) (ground arith);
            }
      ]

  pub get_target_labels-Agree :
      (kind : Kind) {w w' : World V} {m : Map Text (List Text)}
      → Agree (map_key kind) w w'
      → get_target_labels kind w ≡ (ok m, w)
      → get_target_labels kind w' ≡ (ok m, w')
  unfolding get_target_labels
  get_target_labels-Agree kind {w} {w'} {m} a h =
      elim (Result-cases (get_data {A = Map Text (List Text)} (map_key kind) w).0) [
        | inr (_, q) ↦ absurd (ground arith)
        | inl (r, q) ↦ ground (
          arith,
          get_data-Agree {A = Map Text (List Text)} (map_key kind) {r = r} a (ground arith),
        )
      ]

  pub set_target_labels-stored :
      (kind : Kind) (target : Text) (labels : List Text) (w : World V) {m : Map Text (List Text)}
      {w' : World V}
      → IsKeyed w.password w.cipher
      → get_target_labels kind w ≡ (ok m, w)
      → set_target_labels kind target labels w ≡ (ok tt, w')
      → get_target_labels kind w' ≡ (ok (insert m target labels), w')
  unfolding get_target_labels
  set_target_labels-stored kind target labels w {m} {w'} k h e =
      let both = set_target_labels-Both kind target labels w {m = m} {w' = w'} k h e in
      ground (
        arith,
        get_data-Agree {A = Map Text (List Text)} (map_key kind) (both.added.map_keys kind)
            both.written.read,
      )

  -- If the cipher is that of the password, then after the labels of an address or invoice were set with
  -- success, the map holds exactly the new labels for it and is otherwise as before. The item of each of
  -- these labels lists it and is stamped with the time, and is new if there was none; every other item
  -- is as before.
  pub set_target_labels_lem :
      (kind : Kind) (target : Text) (labels : List Text) (w : World V) {m : Map Text (List Text)}
      {w' : World V} (l : Text) {item : Option LabelItem}
      → IsKeyed w.password w.cipher
      → get_target_labels kind w ≡ (ok m, w)
      → set_target_labels kind target labels w ≡ (ok tt, w')
      → get_label l w ≡ (ok item, w)
      → (get_target_labels kind w' ≡ (ok (insert m target labels), w'))
        × (get_label l w' ≡ (ok (item_after kind target (now_secs w) labels l item), w'))
  unfolding get_target_labels
  set_target_labels_lem kind target labels w {m} {w'} l {item} k h e g =
      let both = set_target_labels-Both kind target labels w {m = m} {w' = w'} k h e in
      let agree =
        both.written.others (get_label_item_key l) (λ q. map_key-ne-label kind l (sym q)) in
      (
        set_target_labels-stored kind target labels w {m = m} {w' = w'} k h e,
        both.added.each l item (get_label-Agree l agree g),
      )

  -- What has a label is listed in the item of the label.
  pub record IsIndexed (kind : Kind) (w : World V) : Type 0 where
    pub labels_map : Map Text (List Text)
    pub read : get_target_labels kind w ≡ (ok labels_map, w)
    pub listed :
        (target l : Text)
        → contains (labels_of labels_map target) l ≡ true
        → (item : LabelItem) × (get_label l w ≡ (ok (some item), w))
          × (contains (targets kind item) target ≡ true)

  -- An item that lists something still does.
  Both-kept :
      (k kind : Kind) (target : Text) (labels : List Text) {m : Map Text (List Text)}
      {w w' : World V} (l t : Text) (item : LabelItem)
      → Both kind target labels m w w'
      → get_label l w ≡ (ok (some item), w)
      → contains (targets k item) t ≡ true
      → (kept : LabelItem) × (get_label l w' ≡ (ok (some kept), w'))
        × (contains (targets k kept) t ≡ true)
  Both-kept k kind target labels {m} {w} {w'} l t item both g h =
      let agree =
        both.written.others (get_label_item_key l) (λ q. map_key-ne-label kind l (sym q)) in
      let after = both.added.each l (some item) (get_label-Agree l agree g) in
      elim (Bool-cases (contains labels l)) [
        | inl e ↦ (
          touched kind target (now_secs w) (some item),
          ground arith,
          targets-touched k kind target t (now_secs w) item h,
        )
        | inr e ↦ (item, ground arith, h)
      ]

  -- A label that was just set lists its target.
  Both-set :
      (kind : Kind) (target : Text) (labels : List Text) {m : Map Text (List Text)} {w w' : World V}
      (l : Text)
      → Both kind target labels m w w'
      → contains labels l ≡ true
      → (item : LabelItem) × (get_label l w' ≡ (ok (some item), w'))
        × (contains (targets kind item) target ≡ true)
  Both-set kind target labels {w = w} l both h =
      let (item, g) = both.added.readable l h in
      (
        touched kind target (now_secs w) item,
        ground (arith, both.added.each l item g),
        targets-touched_self kind target (now_secs w) item,
      )

  Both-IsIndexed :
      (kind : Kind) (target : Text) (labels : List Text) {w w' : World V}
      (indexed : IsIndexed kind w)
      → Both kind target labels indexed.labels_map w w'
      → IsIndexed kind w'
  unfolding get_target_labels
  Both-IsIndexed kind target labels {w} {w'} indexed both = record {
    labels_map = insert indexed.labels_map target labels;
    read = ground (
      arith,
      get_data-Agree {A = Map Text (List Text)} (map_key kind) (both.added.map_keys kind)
          both.written.read,
    );
    listed = λ t l h. elim (Bool-cases (target == t)) [
      | inl e ↦ rw (← (==_iff target t).0 e) (
          Both-set kind target labels l both
            (ground (arith, get-insert indexed.labels_map target labels t)))
      | inr e ↦
          let (item, g, q) =
            indexed.listed t l (ground (arith, get-insert indexed.labels_map target labels t)) in
          Both-kept kind kind target labels l t item both g q
    ];
  }

  Both-IsIndexed_other :
      (k kind : Kind) (target : Text) (labels : List Text) {m : Map Text (List Text)}
      {w w' : World V}
      → map_key k ≢ map_key kind
      → IsIndexed k w
      → Both kind target labels m w w'
      → IsIndexed k w'
  Both-IsIndexed_other k kind target labels n indexed both = record {
    labels_map = indexed.labels_map;
    read =
        get_target_labels-Agree k
          (Agree-trans (both.written.others (map_key k) n) (both.added.map_keys k)) indexed.read;
    listed = λ t l h.
        let (item, g, q) = indexed.listed t l h in Both-kept k kind target labels l t item both g q;
  }

  -- If the cipher is that of the password, and whatever has a label is listed in the item of the label,
  -- for addresses and for invoices, then this is so after the labels of an address or of an invoice were
  -- set with success.
  pub set_target_labels-IsIndexed :
      (kind k : Kind) (target : Text) (labels : List Text) (w : World V) {w' : World V}
      → IsKeyed w.password w.cipher
      → IsIndexed address w
      → IsIndexed invoice w
      → set_target_labels kind target labels w ≡ (ok tt, w')
      → IsIndexed k w'
  set_target_labels-IsIndexed address address target labels w {w'} s a i e =
      Both-IsIndexed address target labels a
        (set_target_labels-Both address target labels w {w' = w'} s a.read e)
  set_target_labels-IsIndexed invoice invoice target labels w {w'} s a i e =
      Both-IsIndexed invoice target labels i
        (set_target_labels-Both invoice target labels w {w' = w'} s i.read e)
  set_target_labels-IsIndexed address invoice target labels w {w'} s a i e =
      Both-IsIndexed_other invoice address target labels (ne_of_first _ _ (λ q. omega arith)) i
        (set_target_labels-Both address target labels w {w' = w'} s a.read e)
  set_target_labels-IsIndexed invoice address target labels w {w'} s a i e =
      Both-IsIndexed_other address invoice target labels (ne_of_first _ _ (λ q. omega arith)) a
        (set_target_labels-Both invoice target labels w {w' = w'} s i.read e)
