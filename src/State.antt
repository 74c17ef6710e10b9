-- ===== src/State.antt =====
-- include/div0/state and src/state: the interface to the state and its implementation.
pub mod Access
pub mod Account
pub mod Stores
pub mod World
