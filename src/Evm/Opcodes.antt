-- ===== src/Evm/Opcodes.antt =====
-- src/evm/opcodes/{arithmetic,comparison,stack,push,control_flow}.h, and the handler of ADD in
-- src/evm/evm.c. A handler gives the status and the frame; `none` means that the fuel of
-- `ensure_space` ran out, which does not happen on a valid stack.
pub mod Binary
pub mod Words
pub mod Jumps
pub mod Pushes
pub mod MemoryAccess
use div.Common.{
  ℕ, zero, suc, ◌+◌, ◌-◌, ◌*◌, ◌/◌, ◌%◌, ◌^◌, Bool, true, false, List, Option, none, some, ltb, leb,
  not, if◌then◌else◌, length, take, drop, u64, u64_max, sub_u64,
}
use div.Uint256.{
  Uint256, u256_zero, from_u64, is_zero, fits_u64, to_u64_unsafe, eq, add, sub, mul, lt, gt, slt,
  sgt, exp, byte_length,
}
use div.Uint256.Bytes.{from_bytes_be}
use div.Evm.Stack.{
  EvmStack, has_items, has_space, ensure_space, push_unsafe, pop_unsafe, peek_unsafe, dup_unsafe,
  swap_unsafe,
}
use div.Evm.Jumpdest.{is_valid}
use div.Evm.Frame.{EvmStatus, CallFrame}

-- `frame->gas -= gas_cost` on uint64_t.
abbrev pub charge : ℕ → CallFrame → CallFrame
charge gas_cost frame = record frame { gas = sub_u64 frame.gas gas_cost }

-- Pop two, push the result.
abbrev pub replace_two : (Uint256 → Uint256 → Uint256) → EvmStack → EvmStack
replace_two f stack =
    let (a, stack') = pop_unsafe stack in
    let (b, stack'') = pop_unsafe stack' in push_unsafe (f a b) stack''

-- The frame of the handlers that pop two operands and push one result.
unfoldable pub binary_op : (Uint256 → Uint256 → Uint256) → ℕ → CallFrame → EvmStatus × CallFrame
binary_op f gas_cost frame =
    if not (has_items 2 frame.stack)
    then (EvmStatus.evm_stack_underflow, frame)
    else if ltb frame.gas gas_cost
    then (EvmStatus.evm_out_of_gas, frame)
    else (EvmStatus.evm_ok, charge gas_cost (record frame { stack = replace_two f frame.stack }))

abbrev pub from_bool : Bool → Uint256
from_bool b = if b then from_u64 1 else u256_zero

abbrev pub op_sub : ℕ → CallFrame → EvmStatus × CallFrame
op_sub = binary_op sub

abbrev pub op_mul : ℕ → CallFrame → EvmStatus × CallFrame
op_mul = binary_op mul

abbrev pub op_lt : ℕ → CallFrame → EvmStatus × CallFrame
op_lt = binary_op (λ a b. from_bool (lt a b))

abbrev pub op_gt : ℕ → CallFrame → EvmStatus × CallFrame
op_gt = binary_op (λ a b. from_bool (gt a b))

abbrev pub op_eq : ℕ → CallFrame → EvmStatus × CallFrame
op_eq = binary_op (λ a b. from_bool (eq a b))

abbrev pub op_slt : ℕ → CallFrame → EvmStatus × CallFrame
op_slt = binary_op (λ a b. from_bool (slt a b))

abbrev pub op_sgt : ℕ → CallFrame → EvmStatus × CallFrame
op_sgt = binary_op (λ a b. from_bool (sgt a b))

-- The handler of ADD in the dispatch loop.
unfoldable pub op_add : CallFrame → EvmStatus × CallFrame
op_add frame =
    if not (has_items 2 frame.stack)
    then (EvmStatus.evm_stack_underflow, frame)
    else (EvmStatus.evm_ok, record frame { stack = replace_two add frame.stack })

abbrev pub gas_exp_base : ℕ
gas_exp_base = 10

abbrev pub gas_exp_byte : ℕ
gas_exp_byte = 50

-- The end of the handler of EXP, with its price.
abbrev pub pay_exp : ℕ → CallFrame → EvmStatus × CallFrame
pay_exp gas_cost frame =
    if ltb frame.gas gas_cost
    then (EvmStatus.evm_out_of_gas, frame)
    else (EvmStatus.evm_ok, charge gas_cost (record frame { stack = replace_two exp frame.stack }))

unfoldable pub op_exp : CallFrame → EvmStatus × CallFrame
op_exp frame =
    if not (has_items 2 frame.stack)
    then (EvmStatus.evm_stack_underflow, frame)
    else (let exp_byte_len = byte_length (peek_unsafe frame.stack 1) in
        if ltb 0 exp_byte_len
        then (if ltb ((u64_max - gas_exp_base) / gas_exp_byte) exp_byte_len
            then (EvmStatus.evm_out_of_gas, frame)
            else pay_exp (u64 (gas_exp_base + u64 (gas_exp_byte * exp_byte_len))) frame)
        else pay_exp gas_exp_base frame)

unfoldable pub op_iszero : ℕ → CallFrame → EvmStatus × CallFrame
op_iszero gas_cost frame =
    if not (has_items 1 frame.stack)
    then (EvmStatus.evm_stack_underflow, frame)
    else if ltb frame.gas gas_cost
    then (EvmStatus.evm_out_of_gas, frame)
    else (let (a, stack') = pop_unsafe frame.stack in
        (
          EvmStatus.evm_ok,
          charge gas_cost (record frame { stack = push_unsafe (from_bool (is_zero a)) stack' }),
        ))

unfoldable pub op_pop : ℕ → CallFrame → EvmStatus × CallFrame
op_pop gas_cost frame =
    if not (has_items 1 frame.stack)
    then (EvmStatus.evm_stack_underflow, frame)
    else if ltb frame.gas gas_cost
    then (EvmStatus.evm_out_of_gas, frame)
    else (EvmStatus.evm_ok, charge gas_cost (record frame { stack = (pop_unsafe frame.stack).1 }))

unfoldable pub op_dup : ℕ → ℕ → CallFrame → EvmStatus × CallFrame
op_dup depth gas_cost frame =
    if not (has_items depth frame.stack)
    then (EvmStatus.evm_stack_underflow, frame)
    else if not (has_space 1 frame.stack)
    then (EvmStatus.evm_stack_overflow, frame)
    else if ltb frame.gas gas_cost
    then (EvmStatus.evm_out_of_gas, frame)
    else (EvmStatus.evm_ok, charge gas_cost (record frame { stack = dup_unsafe depth frame.stack }))

unfoldable pub op_swap : ℕ → ℕ → CallFrame → EvmStatus × CallFrame
op_swap depth gas_cost frame =
    if not (has_items (depth + 1) frame.stack)
    then (EvmStatus.evm_stack_underflow, frame)
    else if ltb frame.gas gas_cost
    then (EvmStatus.evm_out_of_gas, frame)
    else (
      EvmStatus.evm_ok,
      charge gas_cost (record frame { stack = swap_unsafe depth frame.stack }),
    )

-- The tests that JUMP and JUMPI make of a destination before they go there.
abbrev pub jump_to : List ℕ → Uint256 → CallFrame → EvmStatus × CallFrame
jump_to bitmap dest_u256 frame =
    if not (fits_u64 dest_u256)
    then (EvmStatus.evm_invalid_jump, frame)
    else (let dest = to_u64_unsafe dest_u256 in
        if not (is_valid bitmap (length frame.code) dest)
        then (EvmStatus.evm_invalid_jump, frame)
        else (EvmStatus.evm_ok, record frame { pc = dest }))

unfoldable pub op_jumpdest : ℕ → CallFrame → EvmStatus × CallFrame
op_jumpdest gas_cost frame =
    if ltb frame.gas gas_cost
    then (EvmStatus.evm_out_of_gas, frame)
    else (EvmStatus.evm_ok, charge gas_cost frame)

unfoldable pub op_jump : List ℕ → ℕ → CallFrame → EvmStatus × CallFrame
op_jump bitmap gas_cost frame =
    if not (has_items 1 frame.stack)
    then (EvmStatus.evm_stack_underflow, frame)
    else if ltb frame.gas gas_cost
    then (EvmStatus.evm_out_of_gas, frame)
    else (let (dest, stack') = pop_unsafe frame.stack in
        jump_to bitmap dest (charge gas_cost (record frame { stack = stack' })))

unfoldable pub op_jumpi : List ℕ → ℕ → CallFrame → EvmStatus × CallFrame
op_jumpi bitmap gas_cost frame =
    if not (has_items 2 frame.stack)
    then (EvmStatus.evm_stack_underflow, frame)
    else if ltb frame.gas gas_cost
    then (EvmStatus.evm_out_of_gas, frame)
    else (let (dest, stack') = pop_unsafe frame.stack in
        let (condition, stack'') = pop_unsafe stack' in
        let frame' = charge gas_cost (record frame { stack = stack'' }) in
        if is_zero condition then (EvmStatus.evm_ok, frame') else jump_to bitmap dest frame')

-- The rest of a handler after `ensure_space`.
abbrev pub after_space :
    Option (Bool × EvmStack)
    → (EvmStack → EvmStatus × CallFrame)
    → CallFrame
    → Option (EvmStatus × CallFrame)
after_space none rest frame = none
after_space (some (enough, stack')) rest frame = some (
    if enough then rest stack' else (EvmStatus.evm_stack_overflow, record frame { stack = stack' }))

module _ (alloc : ℕ → Bool) (fresh : Uint256) where
  abbrev pub with_space :
      (EvmStack → EvmStatus × CallFrame) → CallFrame → Option (EvmStatus × CallFrame)
  with_space rest frame = after_space (ensure_space alloc fresh 1 frame.stack) rest frame

  -- What `ensure_space` leaves, where the gas is checked after the space.
  abbrev pub push_after : ℕ → Uint256 → CallFrame → EvmStack → EvmStatus × CallFrame
  push_after gas_cost value frame stack' =
      if ltb frame.gas gas_cost
      then (EvmStatus.evm_out_of_gas, record frame { stack = stack' })
      else (EvmStatus.evm_ok, charge gas_cost (record frame { stack = push_unsafe value stack' }))

  unfoldable pub op_pc : ℕ → ℕ → CallFrame → Option (EvmStatus × CallFrame)
  op_pc pc_value gas_cost frame = with_space (push_after gas_cost (from_u64 pc_value) frame) frame

  -- The gas that is left after the charge.
  unfoldable pub op_gas : ℕ → CallFrame → Option (EvmStatus × CallFrame)
  op_gas gas_cost frame =
      with_space (push_after gas_cost (from_u64 (sub_u64 frame.gas gas_cost)) frame) frame

  unfoldable pub op_push0 : ℕ → CallFrame → Option (EvmStatus × CallFrame)
  op_push0 gas_cost frame =
      if ltb frame.gas gas_cost
      then some (EvmStatus.evm_out_of_gas, frame)
      else with_space (push_after gas_cost u256_zero frame) frame

  unfoldable pub op_push_n : ℕ → ℕ → CallFrame → Option (EvmStatus × CallFrame)
  op_push_n n gas_cost frame =
      if ltb frame.gas gas_cost
      then some (EvmStatus.evm_out_of_gas, frame)
      else with_space
          (λ stack'.
            let available = sub_u64 (length frame.code) frame.pc in
            let to_read = if ltb n available then n else available in
            let value = from_bytes_be (take to_read (drop frame.pc frame.code)) in
            (
              EvmStatus.evm_ok,
              charge gas_cost
                  (record frame { pc = u64 (frame.pc + n); stack = push_unsafe value stack' }),
            ))
          frame
