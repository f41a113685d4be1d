-- ===== src/Examples/Instances.antt =====
-- Concrete third parties for the tests: ciphers that do nothing, a server that accepts all, JSON values
-- as a data type, a node that answers from a table.
use Prim.Native.Nat.{Ordering}
use mutiny_node.Prelude.{
  ℕ, ◌+◌, ◌-◌, ◌/◌, ◌%◌, ◌≡◌, refl, sym, ◌⊎◌, inr, inl, true, false, List, [], ◌∷◌, ◌++◌, Option,
  none, some, arith, replicate,
}
use mutiny_node.Prelude.Text.{Text, codes}
use mutiny_node.Prelude.Map.{Map}
use mutiny_node.Error.{not_found}
use mutiny_node.Exec.{ok, err}
use mutiny_node.Encrypt.{Crypto}
use mutiny_node.Storage.Values.{Json, Serde}
use mutiny_node.Storage.Lock.{DeviceLock}
use mutiny_node.Labels.{LabelItem, Contact}
use mutiny_node.Storage.{Env, World}
use mutiny_node.Nwc.Invoice.{Bolt11}
use mutiny_node.Nwc.Budget.{Calendar}
use mutiny_node.Nwc.Profile.{Profile, KeyRing, Uris}
use mutiny_node.Nwc.Node.{InvoiceHandler}
use mutiny_node.Nwc.Pending.{PendingNwcInvoice}
use mutiny_node.Nwc.Request.{Display}
use mutiny_node.Nwc.Request.Reads.{InvoiceText}
use mutiny_node.Activity.{PaymentInfo, TransactionDetails, ChannelClosure}
use mutiny_node.Activity.Persist.{Hex}
use mutiny_node.Activity.Invoices.{InvoiceMore}
use mutiny_node.Activity.Items.{Orders}
use mutiny_node.Wallet.{FederationStorage}
use mutiny_node.Tokens.{TokenStorage}
use mutiny_node.Activity.Read.{Parsers, Ledger}
use mutiny_node.Lightning.{ChannelOpenParams}

instance abbrev pub plain_crypto : Crypto
plain_crypto = record {
  hash_password = λ pw salt. some pw;
  seal = λ k n p. some p;
  unseal = λ k n d. some d;
  cbc_encrypt = λ k i p. p;
  cbc_decrypt = λ k i d. some d;
  base64_encode = λ b. b;
  base64_decode = λ t. some t;
  as_bytes = λ t. t;
  from_utf8 = λ b. some b;
  unseal-seal = λ k n p d h. sym h;
  cbc_decrypt-cbc_encrypt = λ k i p. refl;
  base64_decode-base64_encode = λ b. refl;
  from_utf8-as_bytes = λ t. refl;
}

pub data Value : Type 0 where
  string : Text → Value
  number : ℕ → Value
  profiles : List Profile → Value
  pending : List PendingNwcInvoice → Value
  lock : DeviceLock → Value
  label_map : Map Text (List Text) → Value
  item : LabelItem → Value
  contact : Contact → Value
  payment : PaymentInfo → Value
  details : TransactionDetails → Value
  closure : ChannelClosure → Value
  federation_list : FederationStorage → Value
  token_list : TokenStorage → Value
  open_params : ChannelOpenParams → Value
  texts : List Text → Value

abbrev as_text : Value → Option Text
as_text (string t) = some t
as_text _ = none

pub from_str-as_text : (v : Value) (t : Text) → as_text v ≡ some t → some (string t) ≡ some v
from_str-as_text (string s) t h = cc
from_str-as_text _ t h = cc

instance abbrev pub value_json : Json Value
value_json = record {
  to_string = as_text;
  from_str = λ t. some (string t);
  string = string;
  as_string = as_text;
  from_str-to_string = from_str-as_text;
  as_string-string = λ t. refl;
}

abbrev as_number : Value → Option ℕ
as_number (number n) = some n
as_number _ = none

abbrev as_profiles : Value → Option (List Profile)
as_profiles (profiles l) = some l
as_profiles _ = none

abbrev as_pending : Value → Option (List PendingNwcInvoice)
as_pending (pending l) = some l
as_pending _ = none

abbrev as_lock : Value → Option DeviceLock
as_lock (lock l) = some l
as_lock _ = none

abbrev as_label_map : Value → Option (Map Text (List Text))
as_label_map (label_map m) = some m
as_label_map _ = none

abbrev as_item : Value → Option LabelItem
as_item (item i) = some i
as_item _ = none

abbrev as_contact : Value → Option Contact
as_contact (contact c) = some c
as_contact _ = none

abbrev as_payment : Value → Option PaymentInfo
as_payment (payment x) = some x
as_payment _ = none

abbrev as_details : Value → Option TransactionDetails
as_details (details x) = some x
as_details _ = none

abbrev as_federation_list : Value → Option FederationStorage
as_federation_list (federation_list x) = some x
as_federation_list _ = none

abbrev as_token_list : Value → Option TokenStorage
as_token_list (token_list x) = some x
as_token_list _ = none

abbrev as_open_params : Value → Option ChannelOpenParams
as_open_params (open_params x) = some x
as_open_params _ = none

abbrev as_texts : Value → Option (List Text)
as_texts (texts x) = some x
as_texts _ = none

abbrev as_closure : Value → Option ChannelClosure
as_closure (closure x) = some x
as_closure _ = none

module _ {A : Type 0} (wrap : A → Value) (read : Value → Option A)
    (back : (a : A) → read (wrap a) ≡ some a) where
  pub serde_back :
      (a : A) (v : Value) → ◌≡◌ {A = Text ⊎ Value} (inr (wrap a)) (inr v) → read v ≡ some a
  serde_back a v h = let e : wrap a ≡ v = cc in rw (← e) (back a)

instance abbrev pub text_serde : Serde Value Text
text_serde = record {
  to_value = λ t. inr (string t);
  from_value = as_text;
  from_value-to_value = serde_back string as_text (λ a. refl);
}

instance abbrev pub number_serde : Serde Value ℕ
number_serde = record {
  to_value = λ t. inr (number t);
  from_value = as_number;
  from_value-to_value = serde_back number as_number (λ a. refl);
}

instance abbrev pub profiles_serde : Serde Value (List Profile)
profiles_serde = record {
  to_value = λ t. inr (profiles t);
  from_value = as_profiles;
  from_value-to_value = serde_back profiles as_profiles (λ a. refl);
}

instance abbrev pub pending_serde : Serde Value (List PendingNwcInvoice)
pending_serde = record {
  to_value = λ t. inr (pending t);
  from_value = as_pending;
  from_value-to_value = serde_back pending as_pending (λ a. refl);
}

instance abbrev pub lock_serde : Serde Value DeviceLock
lock_serde = record {
  to_value = λ t. inr (lock t);
  from_value = as_lock;
  from_value-to_value = serde_back lock as_lock (λ a. refl);
}

instance abbrev pub label_map_serde : Serde Value (Map Text (List Text))
label_map_serde = record {
  to_value = λ t. inr (label_map t);
  from_value = as_label_map;
  from_value-to_value = serde_back label_map as_label_map (λ a. refl);
}

instance abbrev pub item_serde : Serde Value LabelItem
item_serde = record {
  to_value = λ t. inr (item t);
  from_value = as_item;
  from_value-to_value = serde_back item as_item (λ a. refl);
}

instance abbrev pub contact_serde : Serde Value Contact
contact_serde = record {
  to_value = λ t. inr (contact t);
  from_value = as_contact;
  from_value-to_value = serde_back contact as_contact (λ a. refl);
}

instance abbrev pub payment_serde : Serde Value PaymentInfo
payment_serde = record {
  to_value = λ t. inr (payment t);
  from_value = as_payment;
  from_value-to_value = serde_back payment as_payment (λ a. refl);
}

instance abbrev pub details_serde : Serde Value TransactionDetails
details_serde = record {
  to_value = λ t. inr (details t);
  from_value = as_details;
  from_value-to_value = serde_back details as_details (λ a. refl);
}

instance abbrev pub closure_serde : Serde Value ChannelClosure
closure_serde = record {
  to_value = λ t. inr (closure t);
  from_value = as_closure;
  from_value-to_value = serde_back closure as_closure (λ a. refl);
}

instance abbrev pub federation_list_serde : Serde Value FederationStorage
federation_list_serde = record {
  to_value = λ t. inr (federation_list t);
  from_value = as_federation_list;
  from_value-to_value = serde_back federation_list as_federation_list (λ a. refl);
}

instance abbrev pub token_list_serde : Serde Value TokenStorage
token_list_serde = record {
  to_value = λ t. inr (token_list t);
  from_value = as_token_list;
  from_value-to_value = serde_back token_list as_token_list (λ a. refl);
}

instance abbrev pub open_params_serde : Serde Value ChannelOpenParams
open_params_serde = record {
  to_value = λ t. inr (open_params t);
  from_value = as_open_params;
  from_value-to_value = serde_back open_params as_open_params (λ a. refl);
}

instance abbrev pub texts_serde : Serde Value (List Text)
texts_serde = record {
  to_value = λ t. inr (texts t);
  from_value = as_texts;
  from_value-to_value = serde_back texts as_texts (λ a. refl);
}

instance abbrev pub test_env : Env
test_env = record {
  new_uuid = λ n. codes "uuid-" ++ (n ∷ []);
  random_nonce = λ n. replicate 12 n;
  random_salt = λ n. replicate 16 n;
  random_child = λ n. n % 2147483648;
  length-random_nonce = λ n. refl;
  length-random_salt = λ n. refl;
  put_result = λ n. ok tt;
}

-- A remote storage that refuses every upload.
abbrev pub refusing : Env
refusing = record test_env { put_result = λ n. err not_found }

-- An invoice is the list of its amount in millisatoshis, its hash and its expiry.
abbrev nth : ℕ → Text → ℕ
nth n [] = 0
nth ℕ.zero (x ∷ xs) = x
nth (ℕ.suc n) (x ∷ xs) = nth n xs

instance abbrev pub test_bolt11 : Bolt11
test_bolt11 = record {
  parses = λ t. true;
  amount_milli_satoshis = λ i. some (nth 0 i);
  payment_hash = λ i. nth 1 i ∷ [];
  would_expire = λ i now. false;
  payee = λ i. [];
  to_hex = λ b. b;
  from_hex = λ t. some t;
  from_hex-to_hex = λ i. refl;
}

-- UTC without the calendar: months of thirty days and years of 365 from the epoch on.
instance abbrev pub test_calendar : Calendar
test_calendar = record {
  midnight = λ t. t - t % 86400;
  num_days_from_sunday = λ t. (t / 86400 + 4) % 7;
  first_of_month = λ t. t - t % 2592000;
  first_of_year = λ t. t - t % 31536000;
  midnight_lem = λ t. refl;
  first_of_month-le = λ t. omega arith;
  first_of_year-le = λ t. omega arith;
  num_days_from_sunday_lem = λ t. refl;
}

-- Every payment succeeds.
instance abbrev pub test_node : InvoiceHandler
test_node = record {
  skip_hodl_invoices = true;
  lookup_payment = λ n h. none;
  pay_invoice = λ n i l. ok (codes "preimage");
  create_invoice = λ a l. ok (a ∷ 0 ∷ []);
  get_network = codes "regtest";
  get_best_block = ok (100, codes "hash");
}

instance abbrev pub test_display : Display
test_display = record { display_error = λ e. codes "error"; display_number = λ n. n ∷ [] }

instance abbrev pub test_invoice_text : InvoiceText
test_invoice_text = record { duration_since_epoch = λ i. 0; description = λ i. inl (codes "") }

instance abbrev pub test_keys : KeyRing
test_keys = record {
  derive_nwc_keys = λ i. ok (
    record { public_key = 1 ∷ i ∷ []; secret_key = some (i ∷ []) },
    record { public_key = 2 ∷ i ∷ []; secret_key = some (i ∷ []) },
  );
}

instance abbrev pub test_uris : Uris
test_uris = record { wallet_connect_uri = λ p r s. r }

-- Texts for bytes, and orders that hold all equal.
instance abbrev pub test_hex : Hex
test_hex = record {
  as_hex = λ b. b;
  as_hex_injective = λ a b h. h;
  raw_hex = λ t. t;
  id_hex = λ n. n ∷ [];
}

instance abbrev pub test_more : InvoiceMore
test_more = record {
  expiry_time = λ i. 3600;
  payee_pub_key = λ i. none;
  hex = λ b. b;
  from_hex = some;
  from_hex-hex = λ b l. refl;
}

instance abbrev pub test_orders : Orders
test_orders = record {
  confirmation_cmp = λ t u. Ordering.eq;
  txid_cmp = λ t u. Ordering.eq;
  to_string = λ i. [];
  confirmation_cmp_self = λ t. refl;
  confirmation_cmp-reversed = λ t u. refl;
}

instance abbrev pub test_parsers : Parsers
test_parsers = record { hash_from_hex = ok; channel_from_hex = ok; txid_from_str = ok }

instance abbrev pub test_ledger : Ledger Value
test_ledger = record { get_transaction = λ t w. ok none }

abbrev pub empty_world : World Value
empty_world = record {
  storage = record {
    password = none;
    cipher = none;
    memory = [];
    vss_client = false;
    delayed_keys = [];
    activity_index = [];
  };
  now_ms = 1_700_000_000_000;
  draws = 0;
  sent = [];
}

-- A storage with a password.
abbrev pub locked_world : World Value
locked_world = record empty_world {
  storage = record empty_world.storage {
    password = some (codes "pass");
    cipher = some (record { key = codes "pass"; salt = replicate 16 7 });
  };
}
