-- ===== src/Labels.antt =====
-- mutiny-core/src/labels.rs: the types. A `Bolt11Invoice`, a `LightningAddress`, a `LnUrl` and a public
-- key are the texts that they are stored as; a `HashSet` is a list without repetitions, in an order
-- that the code does not look at.
pub mod Keys
pub mod Store
pub mod Read
pub mod Contacts
use mutiny_node.Prelude.{
  ℕ, ◌≡◌, ◌↔◌, refl, Bool, true, false, not, ◌||◌, List, [], ◌∷◌, ◌++◌, Option, none, some, arith,
  ◌==◌, if◌then◌else◌, contains, is_some, or_else, unwrap_or,
}
use mutiny_node.Prelude.Text.{Text, text_eq}

pub record LabelItem : Type 0 where
  pub addresses : List Text
  pub invoices : List Text
  pub last_used_time : ℕ

pub record Contact : Type 0 where
  pub name : Text
  pub npub : Option Text
  pub ln_address : Option Text
  pub lnurl : Option Text
  pub image_url : Option Text
  pub last_used : ℕ

-- The fields of `nostr::Metadata` that a contact takes over.
pub record Metadata : Type 0 where
  pub display_name : Option Text
  pub name : Option Text
  pub lud16 : Option Text
  pub lud06 : Option Text
  pub picture : Option Text

-- What the crate `lnurl` gives: the two parsers, and the address that a lnurl stands for.
pub record LnurlCrate : Type 0 where
  pub parse_address : Text → Option Text
  pub parse_lnurl : Text → Option Text
  pub lightning_address : Text → Option Text

-- `HashSet::insert`.
abbrev pub set_insert : List Text → Text → List Text
set_insert xs x = if contains xs x then xs else xs ++ (x ∷ [])

-- `opt.filter(|n| !n.is_empty())`
abbrev pub non_empty : Option Text → Option Text
non_empty none = none
non_empty (some []) = none
non_empty (some (c ∷ cs)) = some (c ∷ cs)

abbrev pub bind_option : Option Text → (Text → Option Text) → Option Text
bind_option none f = none
bind_option (some t) f = f t

-- `Contact::default()`
abbrev pub default_contact : Contact
default_contact = record {
  name = [];
  npub = none;
  ln_address = none;
  lnurl = none;
  image_url = none;
  last_used = 0;
}

module _ ⦃crate : LnurlCrate⦄ where
  unfoldable pub update_with_metadata : Contact → Metadata → Contact
  update_with_metadata contact metadata = record contact {
    name =
        unwrap_or (or_else (non_empty metadata.display_name) (non_empty metadata.name))
          contact.name;
    ln_address = or_else (bind_option metadata.lud16 crate.parse_address) contact.ln_address;
    lnurl = or_else (bind_option metadata.lud06 crate.parse_lnurl) contact.lnurl;
    image_url = or_else (non_empty metadata.picture) contact.image_url;
  }

  unfoldable pub create_from_metadata : Text → Metadata → Contact
  unfolding update_with_metadata
  create_from_metadata npub metadata =
      update_with_metadata (record default_contact { npub = some npub }) metadata

-- Equality with an optional text: `opt == Some(t)`.
abbrev pub is_text : Option Text → Text → Bool
is_text none t = false
is_text (some u) t = u == t

-- `lnurl.lightning_address().as_ref() == Some(ln_address)`, if there is an address
abbrev pub stands_for : Option Text → Option Text → Bool
stands_for none found = false
stands_for (some address) found = is_text found address

module _ ⦃crate : LnurlCrate⦄ where
  unfoldable pub has_lnurl : Text → Contact → Bool
  has_lnurl lnurl contact =
      if is_text contact.lnurl lnurl
      then true
      else stands_for contact.ln_address (crate.lightning_address lnurl)

pub data TagItem : Type 0 where
  label : Text → LabelItem → TagItem
  contact : Text → Contact → TagItem
