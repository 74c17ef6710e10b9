-- ===== src/Evm.antt =====
-- The execution engine under include/div0/evm and src/evm, a module per component.
pub mod Stack
pub mod Memory
pub mod Jumpdest
pub mod Frame
pub mod Opcodes
pub mod Env
