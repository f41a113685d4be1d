-- ===== src/Examples/Labels.antt =====
-- The theorems on labels and contacts at concrete inputs.
use mutiny_node.Prelude.{◌≡◌, refl, List, [], ◌∷◌, none, some, arith, replicate}
use mathlib.Core.Bool.{false≢true}
use mutiny_node.Prelude.Text.{Text, codes, text_eq, ne_of_first}
use mutiny_node.Prelude.Map.{Map, get, insert}
use mutiny_node.Exec.{ok}
use mutiny_node.Storage.{World, delete, read_value, set_data, get_data}
use mutiny_node.Storage.Values.{encrypt_value, decrypt_value, needs_encryption}
use mutiny_node.Encrypt.{encryption_key_from_pass, get_encryption_key}
use mutiny_node.Storage.Data.{keyed}
use mutiny_node.Labels.{LabelItem, Contact}
use mutiny_node.Labels.Store.{
  Kind, address, invoice, get_target_labels, get_label, set_target_labels, add_labels,
  update_contact,
}
use mutiny_node.Labels.Store.Indexed.{IsIndexed, set_target_labels_lem, set_target_labels-IsIndexed}
use mutiny_node.Labels.Contacts.{create_contact_from_label, convert_label, relabel}
use mutiny_node.Labels.Contacts.Lost.{create_contact_from_label_lem}
use mutiny_node.Examples.Instances.{
  Value, plain_crypto, value_json, label_map_serde, item_serde, contact_serde, test_env,
  locked_world,
}

-- The address has a label, and a label has an address.
abbrev labelled : World Value
labelled = (set_target_labels address (codes "addr") (codes "rent" ∷ []) locked_world).1

abbrev rent : LabelItem
rent = record { addresses = codes "addr" ∷ []; invoices = []; last_used_time = 1_700_000_000 }

set_target_labels_lem_example :
    (get_target_labels address labelled ≡ (ok ((codes "addr", codes "rent" ∷ []) ∷ []), labelled))
    × (get_label (codes "rent") labelled ≡ (ok (some rent), labelled))
unfolding encryption_key_from_pass get_encryption_key get_target_labels get_data read_value get
    set_target_labels set_data encrypt_value needs_encryption add_labels get_label insert
    update_contact
set_target_labels_lem_example =
    set_target_labels_lem address (codes "addr") (codes "rent" ∷ []) locked_world {m = []}
      {w' = labelled} (codes "rent") {item = none}
      (keyed (codes "pass") _ (replicate 16 7) refl refl) refl refl refl

nothing_labelled : (kind : Kind) → IsIndexed kind locked_world
unfolding get_target_labels get_data read_value get
nothing_labelled address = record {
  labels_map = [];
  read = refl;
  listed = λ t l h. absurd (false≢true h);
}
nothing_labelled invoice = record {
  labels_map = [];
  read = refl;
  listed = λ t l h. absurd (false≢true h);
}

set_target_labels-IsIndexed_example : IsIndexed address labelled
unfolding encryption_key_from_pass get_encryption_key get_target_labels get_data read_value get
    set_target_labels set_data encrypt_value needs_encryption add_labels get_label insert
    update_contact
set_target_labels-IsIndexed_example =
    set_target_labels-IsIndexed address address (codes "addr") (codes "rent" ∷ []) locked_world
      {w' = labelled} (keyed (codes "pass") _ (replicate 16 7) refl refl) (nothing_labelled address)
      (nothing_labelled invoice) refl

-- A second address has another label, and then a contact is made of the first label.
abbrev twice : World Value
twice = (set_target_labels address (codes "home") (codes "food" ∷ []) labelled).1

abbrev bob : Contact
bob = record {
  name = codes "bob";
  npub = none;
  ln_address = none;
  lnurl = none;
  image_url = none;
  last_used = 0;
}

abbrev converted : World Value
converted = (create_contact_from_label (codes "rent") bob twice).1

abbrev both_labelled : Map Text (List Text)
both_labelled = (codes "addr", codes "rent" ∷ []) ∷ ((codes "home", codes "food" ∷ []) ∷ [])

create_contact_from_label_lem_example :
    (after : Map Text (List Text)) × (get_target_labels address converted ≡ (ok after, converted))
    × (get after (codes "home") ≡ none)
unfolding encryption_key_from_pass get_encryption_key get_target_labels get_data read_value get
    set_target_labels set_data encrypt_value needs_encryption add_labels get_label insert
    update_contact create_contact_from_label decrypt_value convert_label relabel delete
create_contact_from_label_lem_example =
    create_contact_from_label_lem address (codes "rent") bob twice {m = both_labelled}
      {w' = converted} (codes "home") (keyed (codes "pass") _ (replicate 16 7) refl refl)
      (((λ e. absurd (ne_of_first _ _ (λ q. omega arith) e)), tt), (tt, tt)) refl refl
