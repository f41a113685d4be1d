-- ===== src/Labels/Store.antt =====
-- mutiny-core/src/labels.rs: the methods of `LabelStorage` that write labels. `set_address_labels` and
-- `set_invoice_labels` are one function here, over which of the two maps and sets is meant: the code
-- writes it twice.
pub mod Spec
pub mod Indexed
use mutiny_node.Prelude.{
  ℕ, ◌≡◌, refl, Bool, true, false, not, List, [], ◌∷◌, ◌++◌, Option, none, some, arith, ◌==◌,
  if◌then◌else◌, contains, map, unwrap_or, retain,
}
use mutiny_node.Prelude.Text.{Text, codes, text_eq}
use mutiny_node.Prelude.Map.{Map, get, insert, map_values}
use mutiny_node.Error.{not_found}
use mutiny_node.Exec.{Result, ok, err, Exec, pure, raise, lift, gets, ◌>>=◌, ◌>>◌}
use mutiny_node.Encrypt.{Crypto}
use mutiny_node.Storage.Values.{Json, Serde, to_data}
use mutiny_node.Storage.{World, Env, now_secs, draw, set, delete, set_data, get_data}
use mutiny_node.Labels.{LabelItem, Contact, set_insert}
use mutiny_node.Labels.Keys.{
  address_labels_map_key, invoice_labels_map_key, get_label_item_key, get_contact_key,
}

-- What a label is put on.
pub data Kind : Type 0 where
  address invoice : Kind

abbrev pub map_key : Kind → Text
map_key address = address_labels_map_key
map_key invoice = invoice_labels_map_key

-- The item after the target was added and the time of last use written.
abbrev pub touched : Kind → Text → ℕ → Option LabelItem → LabelItem
touched address target now (some item) = record item {
  addresses = set_insert item.addresses target;
  last_used_time = now;
}
touched invoice target now (some item) = record item {
  invoices = set_insert item.invoices target;
  last_used_time = now;
}
touched address target now none = record {
  addresses = target ∷ [];
  invoices = [];
  last_used_time = now;
}
touched invoice target now none = record {
  addresses = [];
  invoices = target ∷ [];
  last_used_time = now;
}

module _ {V : Type 0} ⦃c : Crypto⦄ ⦃j : Json V⦄ ⦃env : Env⦄ ⦃maps : Serde V (Map Text (List Text))⦄
    ⦃items : Serde V LabelItem⦄ ⦃contacts : Serde V Contact⦄ where
  -- `get_address_labels` and `get_invoice_labels`
  unfoldable pub get_target_labels : Kind → Exec (World V) (Map Text (List Text))
  get_target_labels kind = do res ← get_data (map_key kind); pure (unwrap_or res [])

  unfoldable pub get_label : Text → Exec (World V) (Option LabelItem)
  get_label label = get_data (get_label_item_key label)

  unfoldable pub get_contact : Text → Exec (World V) (Option Contact)
  get_contact label = get_data (get_contact_key label)

  unfoldable pub edit_contact : Text → Contact → Exec (World V) Unit
  edit_contact id contact = set_data (get_contact_key id) contact none

  -- "if it is a contact, update last used"
  unfoldable pub touch_contact : Text → ℕ → Option Contact → Exec (World V) Unit
  touch_contact label now none = pure tt
  touch_contact label now (some contact) = edit_contact label (record contact { last_used = now })

  unfoldable pub update_contact : Text → ℕ → Option LabelItem → Exec (World V) Unit
  update_contact label now none = pure tt
  update_contact label now (some item) = do
    contact ← get_contact label
    touch_contact label now contact

  -- One round of the loop over the labels.
  unfoldable pub add_label : Kind → Text → ℕ → Text → Exec (World V) Unit
  add_label kind target now label = do
    item ← get_label label
    update_contact label now item
    set_data (get_label_item_key label) (touched kind target now item) none

  unfoldable pub add_labels : Kind → Text → ℕ → List Text → Exec (World V) Unit
  unfolding add_label
  add_labels kind target now [] = pure tt
  add_labels kind target now (label ∷ labels) = do
    add_label kind target now label
    add_labels kind target now labels

  -- `set_address_labels` and `set_invoice_labels`
  unfoldable pub set_target_labels : Kind → Text → List Text → Exec (World V) Unit
  set_target_labels kind target labels = do
    target_labels ← get_target_labels kind
    set_data (map_key kind) (insert target_labels target labels) none
    now ← gets now_secs
    add_labels kind target now labels
