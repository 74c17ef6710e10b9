-- ===== src/Executor/Transact/Calls.antt =====
-- What the machine is asked to run for a transaction.
use div.Common.{
  ℕ, ◌≡◌, refl, ap, ◌∙◌, true, false, Option, none, some, List, [], Option-cases, inl, inr, sub_u64,
  if◌then◌else◌,
}
use div.Types.Address.{Address}
use div.Transaction.{
  Transaction, legacy, eip2930, eip1559, eip4844, eip7702, is_null, transaction_gas_limit,
  transaction_to, transaction_is_create, transaction_data, transaction_effective_gas_price,
  transaction_value, get_blob_hashes,
}
use div.Transaction.Intrinsic.{tx_intrinsic_gas}
use div.State.Access.{StateAccess}
use div.Evm.Env.{CallParams, ExecutionEnv}
use div.Executor.{BlockExecutor, BlockTx}
use div.Executor.Transact.{call_env, build_env}

pub is_create-is_null : (tx : Transaction) → transaction_is_create tx ≡ is_null (transaction_to tx)
is_create-is_null (legacy tx) = refl
is_create-is_null (eip2930 tx) = refl
is_create-is_null (eip1559 tx) = refl
is_create-is_null (eip4844 tx) = refl
is_create-is_null (eip7702 tx) = refl

-- With a recipient the call runs its code on the data. Without one it runs the data as the code of
-- the new contract, on no input.
abbrev pub Runs : Option Address → Address → List ℕ → (Address → List ℕ) → CallParams → Type 0
Runs none contract payload code call =
    (call.address ≡ contract) × (call.code ≡ payload) × (call.input ≡ [])
Runs (some to) contract payload code call =
    (call.address ≡ to) × (call.code ≡ code to) × (call.input ≡ payload)

-- The environment of a transaction, where `code` gives the code of each address.
pub record IsCall (exec : BlockExecutor) (btx : BlockTx) (contract : Address)
    (code : Address → List ℕ) (env : ExecutionEnv) : Type 0 where
  pub block : env.block ≡ exec.block
  pub origin : env.tx.origin ≡ btx.sender
  pub gas_price : env.tx.gas_price ≡ transaction_effective_gas_price btx.tx exec.block.base_fee
  pub blob_hashes : env.tx.blob_hashes ≡ get_blob_hashes btx.tx
  pub caller : env.call.caller ≡ btx.sender
  pub value : env.call.value ≡ transaction_value btx.tx
  pub gas : env.call.gas ≡ sub_u64 (transaction_gas_limit btx.tx) (tx_intrinsic_gas btx.tx)
  pub not_static : env.call.is_static ≡ false
  pub runs : Runs (transaction_to btx.tx) contract (transaction_data btx.tx) code env.call

Runs-same :
    (to : Option Address) (contract : Address) (payload : List ℕ) (code code' : Address → List ℕ)
    (call : CallParams)
    → ((a : Address) → code a ≡ code' a)
    → Runs to contract payload code call
    → Runs to contract payload code' call
Runs-same none contract payload code code' call same h = h
Runs-same (some to) contract payload code code' call same h = (h.0, h.1 ∙ same to, h.2)

-- The same codes make the same call.
pub IsCall-same :
    (exec : BlockExecutor) (btx : BlockTx) (contract : Address) (code code' : Address → List ℕ)
    (env : ExecutionEnv)
    → ((a : Address) → code a ≡ code' a)
    → IsCall exec btx contract code env
    → IsCall exec btx contract code' env
IsCall-same exec btx contract code code' env same h = record {
  block = h.block;
  origin = h.origin;
  gas_price = h.gas_price;
  blob_hashes = h.blob_hashes;
  caller = h.caller;
  value = h.value;
  gas = h.gas;
  not_static = h.not_static;
  runs =
      Runs-same (transaction_to btx.tx) contract (transaction_data btx.tx) code code' env.call same
        h.runs;
}

module _ {S : Type 0} (access : StateAccess S) where
  -- The state that the machine starts from: a creation adds the account of the new contract.
  abbrev pub entered : BlockTx → Address → S → S
  entered btx contract s =
      if transaction_is_create btx.tx then access.create_contract contract s else s

  -- Every transaction is a creation or has a recipient.
  pub build_env-some :
      (exec : BlockExecutor) (btx : BlockTx) (contract : Address) (s : S)
      → (env : ExecutionEnv) × (build_env access exec btx
            (transaction_effective_gas_price btx.tx exec.block.base_fee)
            contract
            s
          ≡ some (env, entered btx contract s))
        × IsCall exec btx contract (λ a. access.get_code a s) env
  unfolding build_env
  build_env-some exec btx contract s = elim (Option-cases (transaction_to btx.tx)) [
    | inl nobody ↦
        let create : transaction_is_create btx.tx ≡ true =
          is_create-is_null btx.tx ∙ ap is_null nobody in
        (
          call_env exec btx (transaction_effective_gas_price btx.tx exec.block.base_fee) contract
              (transaction_data btx.tx) [],
          rw create refl,
          record {
            block = refl;
            origin = refl;
            gas_price = refl;
            blob_hashes = refl;
            caller = refl;
            value = refl;
            gas = refl;
            not_static = refl;
            runs = rw nobody (refl, refl, refl);
          },
        )
    | inr (to, here) ↦
        let call : transaction_is_create btx.tx ≡ false =
          is_create-is_null btx.tx ∙ ap is_null here in
        (
          call_env exec btx (transaction_effective_gas_price btx.tx exec.block.base_fee) to
              (access.get_code to s) (transaction_data btx.tx),
          rw (call, here) refl,
          record {
            block = refl;
            origin = refl;
            gas_price = refl;
            blob_hashes = refl;
            caller = refl;
            value = refl;
            gas = refl;
            not_static = refl;
            runs = rw here (refl, refl, refl);
          },
        )
  ]
