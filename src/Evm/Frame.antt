-- ===== src/Evm/Frame.antt =====
-- include/div0/evm/status.h and include/div0/evm/call_frame.h: the status of an operation and
-- the state of a call.
use div.Common.{ℕ, Bool, true, false, List, Option, leb, if◌then◌else◌, get_or, length}
use div.Uint256.{Uint256}
use div.Evm.Stack.{EvmStack}
use div.Evm.Memory.{EvmMemory}

pub data EvmStatus : Type 0 where
  evm_ok : EvmStatus
  evm_stack_overflow : EvmStatus
  evm_stack_underflow : EvmStatus
  evm_invalid_opcode : EvmStatus
  evm_out_of_gas : EvmStatus
  evm_invalid_jump : EvmStatus
  evm_write_protection : EvmStatus
  evm_call_depth_exceeded : EvmStatus
  evm_insufficient_balance : EvmStatus
  evm_state_unavailable : EvmStatus

pub data ExecType : Type 0 where
  exec_tx_start : ExecType
  exec_call : ExecType
  exec_staticcall : ExecType
  exec_delegatecall : ExecType
  exec_callcode : ExecType
  exec_create : ExecType
  exec_create2 : ExecType

-- The stack and the memory belong to the frame alone, so that the pointers are values. The sizes
-- of the code and the input are the lengths of the lists; addresses and hashes are their bytes.
pub record CallFrame : Type 0 where
  pub pc : ℕ
  pub gas : ℕ
  pub stack : EvmStack
  pub memory : EvmMemory
  pub code : List ℕ
  pub output_offset : ℕ
  pub output_size : ℕ
  pub depth : ℕ
  pub exec_type : ExecType
  pub is_static : Bool
  pub caller : List ℕ
  pub address : List ℕ
  pub value : Uint256
  pub input : List ℕ
  pub jumpdest_bitmap : Option (List ℕ)
  pub code_hash : List ℕ

unfoldable pub can_transfer_value : CallFrame → Bool
can_transfer_value frame = elim frame.exec_type [
  | ExecType.exec_tx_start ↦ true
  | ExecType.exec_call ↦ true
  | ExecType.exec_callcode ↦ true
  | _ ↦ false
]

unfoldable pub current_opcode : CallFrame → ℕ
current_opcode frame = if leb (length frame.code) frame.pc then 0 else get_or frame.code frame.pc 0
