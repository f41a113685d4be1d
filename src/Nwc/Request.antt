-- ===== src/Nwc/Request.antt =====
-- What a wallet connect request holds, and what is answered: the types of `nostr::nips::nip47` that
-- the handlers of mutiny-core/src/nostr/nwc.rs use. A response event is given by its content and its
-- tags; that content is encrypted for the client and signed by the server key of the profile, which
-- does not fail.
pub mod Pay
pub mod Reads
pub mod Handle
use mutiny_node.Prelude.{ℕ, Bool, List, Option, none, some}
use mutiny_node.Prelude.Text.{Text}
use mutiny_node.Error.{MutinyError}
use mutiny_node.Exec.{Result, Exec, ok}
use mutiny_node.Nwc.Invoice.{Bolt11Invoice, PublicKey, EventId}
use mutiny_node.Nwc.Profile.{Method, NostrWalletConnect, SpendingConditions}
use mutiny_node.Nwc.Manager.{Manager, PayCall}

pub data ErrorCode : Type 0 where
  rate_limited not_implemented insufficient_balance payment_failed quota_exceeded : ErrorCode
  restricted unauthorized not_found internal other : ErrorCode

pub data TransactionType : Type 0 where
  incoming outgoing : TransactionType

pub record LookupInvoiceResponseResult : Type 0 where
  pub transaction_type : Option TransactionType
  pub invoice : Option Bolt11Invoice
  pub description : Option Text
  pub description_hash : Option Text
  pub preimage : Option Text
  pub payment_hash : Text
  pub amount : ℕ
  pub fees_paid : ℕ
  pub created_at : ℕ
  pub expires_at : ℕ
  pub settled_at : Option ℕ

pub record GetInfoResponseResult : Type 0 where
  pub alias : Text
  pub color : Text
  pub pubkey : Text
  pub network : Text
  pub block_height : ℕ
  pub block_hash : Text
  pub methods : List Method

pub data ResponseResult : Type 0 where
  pay_invoice : Text → ResponseResult
  make_invoice : Bolt11Invoice → Text → ResponseResult
  lookup_invoice : LookupInvoiceResponseResult → ResponseResult
  get_balance : ℕ → ResponseResult
  get_info : GetInfoResponseResult → ResponseResult

pub record Nip47Error : Type 0 where
  pub code : ErrorCode
  pub message : Text

pub record Response : Type 0 where
  pub result_type : Method
  pub error : Option Nip47Error
  pub result : Option ResponseResult

abbrev pub error_response : Method → ErrorCode → Text → Response
error_response method code message = record {
  result_type = method;
  error = some (record { code = code; message = message });
  result = none;
}

abbrev pub result_response : Method → ResponseResult → Response
result_response method result = record { result_type = method; error = none; result = some result }

pub record ResponseEvent : Type 0 where
  pub content : Response
  -- the tags: whom the response is for, which event it answers, and the identifier of the request
  pub p_tag : PublicKey
  pub e_tag : EventId
  pub identifier : Option Text

pub record PayInvoiceRequestParams : Type 0 where
  pub id : Option Text
  pub invoice : Text
  pub amount : Option ℕ

pub data RequestParams : Type 0 where
  pay_invoice : PayInvoiceRequestParams → RequestParams
  make_invoice : ℕ → RequestParams
  lookup_invoice : Option Text → Option Text → RequestParams
  get_balance get_info other : RequestParams

pub record Request : Type 0 where
  pub method : Method
  pub params : RequestParams

-- A nostr event. `request` is what decryption and `Request::from_json` give: an error if the content
-- does not decrypt, none if it does not parse.
pub record Event : Type 0 where
  pub is_request : Bool
  pub pubkey : PublicKey
  pub id : EventId
  pub created_at : ℕ
  pub p_tag : Option PublicKey
  pub request : Result (Option Request)

-- How errors and amounts are displayed in messages.
pub record Display : Type 0 where
  pub display_error : MutinyError → Text
  pub display_number : ℕ → Text

-- The mutable variables of a handler: `self`, its two flags, and the manager.
pub record Session (V : Type 0) : Type 0 where
  pub self : NostrWalletConnect
  pub needs_delete : Bool
  pub needs_save : Bool
  pub manager : Manager V

abbrev pub on_manager : {V A : Type 0} → Exec (Manager V) A → Exec (Session V) A
on_manager m s = let (r, n) = m s.manager in (r, record s { manager = n })

-- `self.profile.spending_conditions = ..`
abbrev pub set_conditions : {V : Type 0} → SpendingConditions → Exec (Session V) (Unit {0})
set_conditions sc s = (
  ok tt,
  record s {
    self = record s.self { profile = record s.self.profile { spending_conditions = sc } };
  },
)

abbrev pub reply : Event → Option Text → Response → ResponseEvent
reply event id content = record {
  content = content;
  p_tag = event.pubkey;
  e_tag = event.id;
  identifier = id;
}

-- The calls of the node that a session has seen.
abbrev pub calls : {V : Type 0} → Session V → List (PayCall V)
calls s = s.manager.pay_calls
