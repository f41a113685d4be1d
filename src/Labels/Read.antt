-- ===== src/Labels/Read.antt =====
-- mutiny-core/src/labels.rs: the methods of `LabelStorage` that list labels and contacts.
use mutiny_node.Prelude.{
  Bool, not, List, [], ◌∷◌, ◌++◌, Option, none, some, if◌then◌else◌, map, is_some, retain,
}
use mutiny_node.Prelude.Text.{Text, text_eq}
use mutiny_node.Prelude.Map.{Map, get, insert}
use mutiny_node.Exec.{Exec, pure, ◌>>=◌}
use mutiny_node.Encrypt.{Crypto}
use mutiny_node.Storage.Values.{Json, Serde}
use mutiny_node.Storage.{World, Env, scan}
use mutiny_node.Labels.{LabelItem, Contact, LnurlCrate, has_lnurl, is_text, TagItem, label, contact}
use mutiny_node.Labels.Keys.{label_prefix, contact_prefix, remove_all}

-- "remove the prefix from the keys": entries whose keys become equal replace one another.
unfoldable pub strip_keys {ℓ} : {A : Type ℓ} → Text → Map Text A → Map Text A → Map Text A
unfolding remove_all
strip_keys prefix [] m = m
strip_keys prefix ((key, a) ∷ all) m = strip_keys prefix all (insert m (remove_all prefix key) a)

-- The first contact of a map that passes a test.
unfoldable pub find_contact : (Contact → Bool) → Map Text Contact → Option (Text × Contact)
find_contact test [] = none
find_contact test ((id, c) ∷ m) =
    let rest = find_contact test m in if test c then some (id, c) else rest

abbrev pub id_of : Option (Text × Contact) → Option Text
id_of none = none
id_of (some (id, c)) = some id

-- `labels.retain(|label, _| contacts.get(label).is_none())`, then the two lists.
unfoldable pub tag_items : Map Text LabelItem → Map Text Contact → List TagItem
tag_items labels contacts =
    map (λ e. label e.0 e.1) (retain (λ e. not (is_some (get contacts e.0))) labels)
    ++ map (λ e. contact e.0 e.1) contacts

module _ {V : Type 0} ⦃c : Crypto⦄ ⦃j : Json V⦄ ⦃env : Env⦄ ⦃stored_items : Serde V LabelItem⦄
    ⦃stored_contacts : Serde V Contact⦄ where
  unfoldable pub get_labels : Exec (World V) (Map Text LabelItem)
  get_labels = do all ← scan label_prefix; pure (strip_keys label_prefix all [])

  unfoldable pub get_contacts : Exec (World V) (Map Text Contact)
  get_contacts = do all ← scan contact_prefix; pure (strip_keys contact_prefix all [])

  unfoldable pub get_tag_items : Exec (World V) (List TagItem)
  unfolding get_labels get_contacts
  get_tag_items = do contacts ← get_contacts; labels ← get_labels; pure (tag_items labels contacts)

  unfoldable pub get_contact_for_lnurl : ⦃crate : LnurlCrate⦄ → Text → Exec (World V) (Option Text)
  unfolding get_contacts
  get_contact_for_lnurl lnurl = do
    contacts ← get_contacts
    pure (id_of (find_contact (has_lnurl lnurl) contacts))

  unfoldable pub get_contact_for_npub : Text → Exec (World V) (Option (Text × Contact))
  unfolding get_contacts
  get_contact_for_npub npub = do
    contacts ← get_contacts
    pure (find_contact (λ contact. is_text contact.npub npub) contacts)
