-- ===== src/Evm/Env.antt =====
-- include/div0/evm/block_context.h, tx_context.h, execution_env.h and evm.h: what an execution is
-- given and what it returns. The callback for the hashes of earlier blocks is left out.
use div.Common.{ℕ, Bool, List}
use div.Types.Address.{Address, Hash}
use div.Uint256.{Uint256}
use div.Evm.Frame.{EvmStatus}

pub record BlockContext : Type 0 where
  pub number : ℕ
  pub timestamp : ℕ
  pub gas_limit : ℕ
  pub chain_id : ℕ
  pub base_fee : Uint256
  pub blob_base_fee : Uint256
  pub prev_randao : Uint256
  pub coinbase : Address

pub record TxContext : Type 0 where
  pub origin : Address
  pub gas_price : Uint256
  pub blob_hashes : List Hash

pub record CallParams : Type 0 where
  pub value : Uint256
  pub gas : ℕ
  pub code : List ℕ
  pub input : List ℕ
  pub caller : Address
  pub address : Address
  pub is_static : Bool

pub record ExecutionEnv : Type 0 where
  pub block : BlockContext
  pub tx : TxContext
  pub call : CallParams

pub data EvmResult : Type 0 where
  evm_result_stop : EvmResult
  evm_result_error : EvmResult

-- The logs are left out: the executor does not read them.
pub record EvmExecutionResult : Type 0 where
  pub result : EvmResult
  pub error : EvmStatus
  pub gas_used : ℕ
  pub gas_refund : ℕ
  pub output : List ℕ
