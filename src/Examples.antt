-- ===== src/Examples.antt =====
-- Tests, and the theorems at concrete inputs.
mod Instances
mod Storage
mod Nwc
mod Pending
mod Lock
mod Labels
mod Delayed
mod Password
mod Activity
mod Labelled
mod Approve
mod Clear
mod Wallet
mod Federations
mod Outcome
mod Tokens
mod Lightning
