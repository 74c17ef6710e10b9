-- ===== src/Executor.antt =====
-- include/div0/executor/block_executor.h and src/executor/block_executor.c: the transactions of a
-- block. The state is behind `access`; `execute_env` is evm_execute_env on a machine that was
-- reset, `create_address` is compute_create_address, `transaction_hash` the hash of a transaction,
-- and `alloc n` says whether the arena has `n` bytes. Messages and logs are left out.
pub mod Create
pub mod Validation
pub mod Transact
pub mod Block
use div.Common.{ℕ, Bool, Option, List}
use div.Types.Address.{Address, Hash}
use div.Transaction.{Transaction}
use div.Evm.Env.{BlockContext}

pub data TxValidationError : Type 0 where
  tx_valid : TxValidationError
  tx_err_invalid_signature : TxValidationError
  tx_err_nonce_too_low : TxValidationError
  tx_err_nonce_too_high : TxValidationError
  tx_err_insufficient_balance : TxValidationError
  tx_err_intrinsic_gas : TxValidationError
  tx_err_gas_limit_exceeded : TxValidationError
  tx_err_max_fee_too_low : TxValidationError
  tx_err_chain_id_mismatch : TxValidationError

pub record ExecReceipt : Type 0 where
  pub tx_hash : Hash
  pub tx_type : ℕ
  pub success : Bool
  pub gas_used : ℕ
  pub cumulative_gas : ℕ
  pub created_address : Option Address
  pub output : List ℕ

pub record ExecRejected : Type 0 where
  pub index : ℕ
  pub error : TxValidationError

pub record BlockExecResult : Type 0 where
  pub receipts : List ExecReceipt
  pub rejected : List ExecRejected
  pub gas_used : ℕ
  pub blob_gas_used : ℕ
  pub state_root : Hash

pub record BlockTx : Type 0 where
  pub tx : Transaction
  pub sender : Address
  pub sender_recovered : Bool
  pub original_index : ℕ

-- The state, the machine and the arena are arguments of the functions.
pub record BlockExecutor : Type 0 where
  pub block : BlockContext
  pub chain_id : ℕ
  pub skip_signature_validation : Bool
