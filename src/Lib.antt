-- ===== src/Lib.antt =====
-- Verification library of mutiny-node: how the wallet pays and receives, its federations and blind
-- tokens, its wallet connect service, its labels and its activity list, and the storage and encryption
-- that they stand on. Definitions carry the names of the functions in the Rust code.
--
-- Parts, and how they interact. An application sends an encrypted request over nostr.
-- `NostrManager::handle_nwc_request` (mutiny-core/src/nostr/mod.rs) finds the connection that it is
-- for, `NostrWalletConnect::handle_nwc_request` (mutiny-core/src/nostr/nwc.rs) checks it and, for a
-- payment, asks the node under the spending conditions of the profile: a budget, a single use, or an
-- approval by the user. Profiles and the invoices that wait for an approval are kept in the storage
-- (mutiny-core/src/storage.rs), which encrypts some keys under the user's password
-- (mutiny-core/src/encrypt.rs). The storage also keeps the labels of addresses and invoices
-- (mutiny-core/src/labels.rs) and the payments, with an index of them from which the wallet lists its
-- activity (mutiny-core/src/lib.rs). The wallet itself (mutiny-core/src/lib.rs) chooses which federation
-- or node pays an invoice or makes one, keeps the list of its federations, and redeems the tokens of
-- its plans (mutiny-core/src/blindauth.rs). Everything that fails does so with an error of
-- mutiny-core/src/error.rs.
--
-- Files, by the code that they model:
--   Prelude           Boolean tests, lists, texts as lists of code points, maps as association lists
--   Error             error.rs: the two error types; Error/Equality their `PartialEq`
--   Exec              methods that change a state and may fail
--   Encrypt           encrypt.rs, every function; Encrypt/Roundtrip its proofs
--   Storage           storage.rs: `MemoryStorage`, `set_data`, `set_data_async`, `get_data`, `scan`
--   Storage/Values    storage.rs: `encrypt_value`, `decrypt_value`, the items of the remote storage
--   Storage/Times     storage.rs: the sync times of direct messages and of wallet connect;
--                     Storage/Times/Forward their proof
--   Storage/Lock      storage.rs: `DeviceLock`, `get_device_id`, `set_device_lock`;
--                     Storage/Lock/Exclusion their proofs
--   Storage/Data      proofs on what is written and read; Storage/Written on what a write leaves alone
--   Storage/Delayed   storage.rs: `set_data_async_queue_remote`, as a step relation; its Quiescence
--                     and Drain the proofs on what is uploaded
--   Storage/Password  storage.rs: `change_password_and_rewrite_storage`, lib.rs: `change_password`; its
--                     Loops and Kept the proofs
--   Activity          lib.rs, event.rs, nodemanager.rs: the records of payments and transactions
--   Activity/Order    storage.rs: `Ord for IndexItem`; Activity/Index the `BTreeSet` in this order
--   Activity/Persist  storage.rs: `persist_payment_info` and its like, lib.rs: the index at the start;
--                     its Laws and Restart the proofs
--   Activity/Items    lib.rs: `ActivityItem`, the orders; Activity/Invoices the conversions of
--                     invoices, its Kept a proof; Activity/Read `get_activity`, its Page the proof on the slice, its
--                     Labelled `get_label_activity`
--   Labels            labels.rs: label items and contacts; Labels/Keys their storage keys;
--                     Labels/Store the methods that set labels, its Spec and Indexed their proofs;
--                     Labels/Contacts the contacts, its Lost their proofs; Labels/Read the lists
--   Nwc/Invoice       the invoices, as a parameter
--   Nwc/Budget        nwc.rs: `BudgetedSpendingConditions`; Nwc/Budget/Laws and Periods its proofs
--   Nwc/Profile       nwc.rs: profiles, spending conditions, keys and connection strings
--   Nwc/Manager       nostr/mod.rs: the list of profiles and the choice of an index;
--                     Nwc/Manager/Ops the methods on it, Nwc/Manager/Profiles their proofs;
--                     Nwc/Manager/Auth `nostr_wallet_auth` on the request of nostr/nip49.rs,
--                     Nwc/Manager/Auth/Distinct its proof
--   Nwc/Clear         nostr/mod.rs: `clear_successful_single_use_profiles`; Nwc/Clear/Removed its proofs
--   Nwc/Node          lib.rs: the trait `InvoiceHandler`; utils.rs: `is_hodl_invoice`
--   Nwc/Pending       nostr/mod.rs: the methods on the invoices that wait for an approval;
--                     Nwc/Pending/Stored their proofs
--   Nwc/Approve       nostr/mod.rs: `approve_invoice`, `deny_invoice`, `deny_all_pending_nwc`; its
--                     Unreported and Denied the proofs on how they fail
--   Nwc/Request       the requests and responses; Nwc/Request/Pay `check_valid_nwc_invoice` and
--                     `pay_nwc_invoice`; its Budgeted and SingleUse the arms of
--                     `handle_pay_invoice_request`, its Spending and OneTime their proofs;
--                     Nwc/Request/Reads the requests that move no money; Nwc/Request/Handle the
--                     guards and the dispatch, its Gate their proofs
--   Federation        federation.rs: the states of a payment; Federation/Outcome `process_ln_outcome`,
--                     its Ends the proofs on when it ends
--   Wallet            lib.rs: `MutinyWallet`, with its federations and nodes as parameters
--   Wallet/Pay        lib.rs: `pay_invoice`; its Search the proofs on the loop over the federations, its
--                     Once and AsksOn those on the whole call
--   Wallet/Federations  lib.rs: `create_new_federation`, `remove_federation`, the balances; its Listed
--                     and Totals the proofs
--   Wallet/Receive    lib.rs: `create_lightning_invoice`, `create_address`, `create_bip21`; its SafeMode
--                     a proof
--   Wallet/Sweep      lib.rs: `sweep_federation_balance_to_invoice`; its Single the proof
--   Lightning         ldkstorage.rs: the records of channels and outputs; Lightning/Event, Actions and
--                     Events event.rs: the events, what they ask of lightning, and `handle_event`; Settled,
--                     Proved, Closed and Outputs the proofs
--   Tokens            blindauth.rs: `TokenStorage`, `BlindAuthClient`; its Counted and Used the proofs
--   Examples          tests, and the results below at concrete inputs
--
-- State. A method is a function from its state to a result and the state after it; what was written
-- before an error stays written. `World` is the storage with a clock in milliseconds, the number of
-- random draws so far and the uploads sent. `Manager` adds the profiles in memory and the calls made
-- of the node, each with the profiles in memory and the storage at that moment. `Session` adds
-- the variables of a request handler: the profile that it works on and its two flags.
--
-- `Wallet` is the storage with what lies outside the wallet, its federations in memory, and a log of
-- the payments that were asked for, each with the state at that moment; a spawned task is logged and
-- not run. A `Machine`, on which the events of lightning act as well, is the storage with what lies outside.
--
-- Numbers are natural numbers. Sums and products that are a `u64` or a `u32` in the code are taken
-- modulo 2 ^ 64 or 2 ^ 32 where they are computed; the release build of the code wraps as well.
-- Loops are over lists; the wait for a payment is over the events so far, and has no result while it
-- goes on. `str::replace` and `str::trim_start_matches` run
-- on fuel, the length of the text, which every step shortens.
--
-- Parameters, for code that is not in the repository: the ciphers, password hash and encodings
-- (`Crypto`), JSON and the conversions of types to it (`Json`, `Serde`), the calendar (`Calendar`),
-- invoices (`Bolt11`, `InvoiceText`), the nostr client (`Relay`), keys and connection strings
-- (`KeyRing`, `Uris`), the texts of errors and numbers (`Display`), the parsers of lnurls
-- (`LnurlCrate`), texts of hashes and ids (`Hex`, `InvoiceMore`, `Parsers`), the hash of a
-- preimage (`PaymentHashes`), the orders of the crates (`Orders`), the on-chain wallet (`Ledger`),
-- random draws and the remote server (`Env`), the server of tokens (`Issuer`), the node (`InvoiceHandler`), whose answers may depend on the
-- payments asked for before, and what the wallet drives (`Clients`, `NodeManager`, `Services`),
-- over a state of its own, as are the lightning development kit and the wallet on the chain for the
-- events (`Ldk`, `Encodings`). Their laws are documented behaviour: a cipher decrypts what it
-- encrypted, an encoding decodes, a conversion reads back what it wrote, midnight is a multiple of
-- a day. The files of Examples give an instance of each. Some of these parameters stand for parts
-- of the repository that are not modelled: the calls of federations, nodes, the on-chain wallet and
-- the liquidity providers.
--
-- Not modelled: signing and encryption of nostr events (an event carries the request that it
-- decrypts to, a response is the content with its tags), relays, logging, the clients of
-- federations but for the wait for a payment, the lightning nodes but for the handler of their
-- events, the on-chain wallet, the liquidity providers, fees in floating point, and the browser
-- bindings. A panic of the code is an error, or the lack of a result, where the code can reach it.
-- Steps of two methods are not interleaved, but for the tasks of Storage/Delayed, where a write and
-- an upload are one step each; so the mutexes, of which `pending_nwc_lock` is one, are not modelled.
mod Prelude
pub mod Error
mod Exec
pub mod Encrypt
pub mod Storage
pub mod Nwc
pub mod Labels
pub mod Activity
pub mod Federation
pub mod Lightning
pub mod Wallet
pub mod Tokens
mod Examples
