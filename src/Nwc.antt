-- ===== src/Nwc.antt =====
-- Nostr Wallet Connect: mutiny-core/src/nostr/nwc.rs, and the profiles that the `NostrManager` of
-- mutiny-core/src/nostr/mod.rs keeps for it.
pub mod Invoice
pub mod Budget
pub mod Profile
pub mod Manager
pub mod Node
pub mod Pending
pub mod Request
pub mod Approve
pub mod Clear
