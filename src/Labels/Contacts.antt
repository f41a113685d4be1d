-- ===== src/Labels/Contacts.antt =====
-- mutiny-core/src/labels.rs: the methods of `LabelStorage` that create and delete contacts. A contact is
-- a label whose name is a random id.
pub mod Lost
use mutiny_node.Prelude.{
  ℕ, ◌≡◌, refl, Bool, true, false, not, List, [], ◌∷◌, ◌++◌, Option, none, some, inl, inr, ◌==◌,
  if◌then◌else◌, contains, map, unwrap_or, retain,
}
use mutiny_node.Prelude.Text.{Text, codes, text_eq}
use mutiny_node.Prelude.Map.{Map, get, insert, map_values}
use mutiny_node.Error.{not_found}
use mutiny_node.Exec.{Result, ok, err, Exec, pure, raise, lift, gets, ◌>>=◌, ◌>>◌}
use mutiny_node.Encrypt.{Crypto}
use mutiny_node.Storage.Values.{Json, Serde, deserialize_error}
use mutiny_node.Storage.{World, Env, now_secs, draw, set, delete, set_data, get_data}
use mutiny_node.Labels.{LabelItem, Contact}
use mutiny_node.Labels.Keys.{
  address_labels_map_key, invoice_labels_map_key, get_label_item_key, get_contact_key,
}
use mutiny_node.Labels.Store.{Kind, address, invoice, map_key, get_target_labels, get_label}

-- "replace the label with the new id, otherwise keep old one"
abbrev pub renamed : Text → Text → List Text → List Text
renamed label id labels = map (λ l. if l == label then id else l) labels

-- The loop over a map: only the entries that have the label are put into the new map.
unfoldable pub relabelled : Text → Text → Map Text (List Text) → Map Text (List Text)
relabelled label id [] = []
relabelled label id ((target, labels) ∷ m) =
    let rest = relabelled label id m in
    if contains labels label then insert rest target (renamed label id labels) else rest

-- `value.retain(|s| *s != id)` on every value.
abbrev pub without : Text → Map Text (List Text) → Map Text (List Text)
without id m = map_values (retain (λ s. not (s == id))) m

module _ {V : Type 0} ⦃c : Crypto⦄ ⦃j : Json V⦄ ⦃env : Env⦄ ⦃maps : Serde V (Map Text (List Text))⦄
    ⦃items : Serde V LabelItem⦄ ⦃contacts : Serde V Contact⦄ where
  -- `Uuid::new_v4().to_string()`
  abbrev pub new_id : Exec (World V) Text
  new_id w = (ok (env.new_uuid w.draws), draw w)

  -- One of the two maps, read, relabelled and written back.
  unfoldable pub relabel : Kind → Text → Text → Exec (World V) Unit
  relabel kind label id = do
    target_labels ← get_target_labels kind
    set_data (map_key kind) (relabelled label id target_labels) none

  unfoldable pub convert_label : Text → Contact → LabelItem → Exec (World V) Text
  convert_label label contact current = do
    id ← new_id
    set_data (get_label_item_key id) current none
    relabel address label id
    relabel invoice label id
    set_data (get_contact_key id) contact none
    delete (get_label_item_key label ∷ [])
    pure id

  unfoldable pub create_contact_from_label : Text → Contact → Exec (World V) Text
  create_contact_from_label label contact = do
    found ← get_label label
    elim found [ none ↦ raise not_found | some current ↦ convert_label label contact current ]

  unfoldable pub create_new_contact : Contact → Exec (World V) Text
  create_new_contact contact = do
    id ← new_id
    set_data (get_contact_key id) contact none
    now ← gets now_secs
    let item : LabelItem = record { addresses = []; invoices = []; last_used_time = now }
    set_data (get_label_item_key id) item none
    pure id

  -- `serde_json::to_value(m)?`
  abbrev pub to_value : Map Text (List Text) → Result V
  to_value m = elim (maps.to_value m) [ inl _ ↦ err deserialize_error | inr v ↦ ok v ]

  unfoldable pub delete_contact : Text → Exec (World V) Unit
  delete_contact id = do
    inv_labels ← get_target_labels invoice
    addr_labels ← get_target_labels address
    addr_value ← lift (to_value (without id addr_labels))
    inv_value ← lift (to_value (without id inv_labels))
    set ((address_labels_map_key, addr_value) ∷ ((invoice_labels_map_key, inv_value) ∷ []))
    delete (get_contact_key id ∷ (get_label_item_key id ∷ []))
