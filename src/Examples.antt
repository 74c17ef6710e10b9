-- ===== src/Examples.antt =====
-- The theorems at concrete inputs.
mod Numbers
mod Machine
mod Handlers
mod Codec
mod Paths
mod Accounts
mod Tables
mod World
mod Ledger
mod Blocks
