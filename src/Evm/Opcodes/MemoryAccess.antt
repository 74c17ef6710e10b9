-- ===== src/Evm/Opcodes/MemoryAccess.antt =====
-- src/evm/opcodes/memory.h: the handlers that read and write the memory. `alloc n` says whether the
-- arena has `n` bytes, `fresh` is what a new byte holds, and `fuel` is for the doubling of the
-- capacity; `none` means that it ran out.
pub mod Stores
use div.Common.{
  ℕ, ◌+◌, ◌-◌, ◌*◌, ◌/◌, ◌%◌, ◌^◌, Bool, true, false, not, Option, none, some, ltb, leb,
  if◌then◌else◌, u8, u64, u64_max, bit_and,
}
use div.Uint256.{Uint256, fits_u64, to_u64_unsafe, from_u64}
use div.Evm.Stack.{EvmStack, has_items, push_unsafe, pop_unsafe}
use div.Evm.Memory.{EvmMemory, expand, store8_unsafe, store32_unsafe, load32_unsafe}
use div.Evm.Frame.{EvmStatus, CallFrame}
use div.Evm.Opcodes.{charge, with_space, push_after}

-- The checks behind the expansion: its result, the sum of the prices, and the gas.
abbrev pub pay_expansion :
    ℕ
    → (CallFrame → CallFrame)
    → CallFrame
    → Option (Bool × ℕ × EvmMemory)
    → Option (EvmStatus × CallFrame)
pay_expansion gas_cost access frame none = none
pay_expansion gas_cost access frame (some (ok, mem_cost, memory')) =
    let frame' = record frame { memory = memory' } in
    some (
      if not ok
      then (EvmStatus.evm_out_of_gas, frame')
      else if ltb (u64_max - gas_cost) mem_cost
      then (EvmStatus.evm_out_of_gas, frame')
      else (let total_cost = u64 (gas_cost + mem_cost) in
          if ltb frame.gas total_cost
          then (EvmStatus.evm_out_of_gas, frame')
          else (EvmStatus.evm_ok, access (charge total_cost frame'))))

module _ (alloc : ℕ → Bool) (fresh fuel : ℕ) where
  -- The checks of an offset that was popped, for an access to `size` bytes.
  abbrev pub access_at :
      Uint256 → ℕ → ℕ → (ℕ → CallFrame → CallFrame) → CallFrame → Option (EvmStatus × CallFrame)
  access_at offset_u256 size gas_cost access frame =
      if not (fits_u64 offset_u256)
      then some (EvmStatus.evm_out_of_gas, frame)
      else (let offset = to_u64_unsafe offset_u256 in
          if ltb (u64_max - size) offset
          then some (EvmStatus.evm_out_of_gas, frame)
          else pay_expansion gas_cost (access offset) frame
              (expand alloc fresh fuel offset size 0 frame.memory))

  unfoldable pub op_mload : ℕ → CallFrame → Option (EvmStatus × CallFrame)
  op_mload gas_cost frame =
      if not (has_items 1 frame.stack)
      then some (EvmStatus.evm_stack_underflow, frame)
      else (let (offset_u256, stack') = pop_unsafe frame.stack in
          access_at offset_u256 32 gas_cost
            (λ offset f. record f { stack = push_unsafe (load32_unsafe offset f.memory) f.stack })
            (record frame { stack = stack' }))

  unfoldable pub op_mstore : ℕ → CallFrame → Option (EvmStatus × CallFrame)
  op_mstore gas_cost frame =
      if not (has_items 2 frame.stack)
      then some (EvmStatus.evm_stack_underflow, frame)
      else (let (offset_u256, stack') = pop_unsafe frame.stack in
          let (value, stack'') = pop_unsafe stack' in
          access_at offset_u256 32 gas_cost
            (λ offset f. record f { memory = store32_unsafe offset value f.memory })
            (record frame { stack = stack'' }))

  unfoldable pub op_mstore8 : ℕ → CallFrame → Option (EvmStatus × CallFrame)
  op_mstore8 gas_cost frame =
      if not (has_items 2 frame.stack)
      then some (EvmStatus.evm_stack_underflow, frame)
      else (let (offset_u256, stack') = pop_unsafe frame.stack in
          let (value, stack'') = pop_unsafe stack' in
          access_at offset_u256 1 gas_cost
            (λ offset f. record f {
              memory = store8_unsafe offset (u8 (bit_and value.limb0 0xff)) f.memory;
            })
            (record frame { stack = stack'' }))

module _ (alloc : ℕ → Bool) (fresh : Uint256) where
  unfoldable pub op_msize : ℕ → CallFrame → Option (EvmStatus × CallFrame)
  op_msize gas_cost frame =
      with_space alloc fresh (push_after alloc fresh gas_cost (from_u64 frame.memory.size) frame)
        frame
