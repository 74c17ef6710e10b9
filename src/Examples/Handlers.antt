-- ===== src/Examples/Handlers.antt =====
-- The handlers of opcodes at concrete inputs.
use div.Common.{
  inl, ℕ, ◌+◌, ◌*◌, ◌<◌, ◌≡◌, ◌⊎◌, refl, arith, Bool, true, false, List, [], ◌∷◌, none, some,
  replicate, ltb, ◌==◌, ◌%◌, ◌-◌,
}
use div.Uint256.{u256_zero, from_u64, to_nat, u256_mod, add, exp, byte_length, top_byte}
use div.Evm.Stack.{EvmStack, IsValid}
use div.Evm.Stack.Grow.{Refused}
use div.Evm.Memory.{round_up_32, expansion_cost}
use div.Evm.Frame.{EvmStatus, ExecType, CallFrame}
use div.Evm.Opcodes.{
  op_sub, op_mul, op_lt, op_gt, op_eq, op_slt, op_sgt, op_exp, op_add, op_dup, op_push_n,
}
use div.Evm.Opcodes.Binary.{Paid, op_exp-Paid, op_add-Paid}
use div.Evm.Opcodes.Words.{Computes, one_if, biased, binary_handlers-Compute}
use div.Evm.Opcodes.Jumps.{op_dup-full}
use div.Evm.Opcodes.MemoryAccess.{op_mstore}
use div.Evm.Opcodes.MemoryAccess.Stores.{Stores, op_mstore-Stores}
use div.Evm.Opcodes.Pushes.{Pushes, op_push_n-Pushes}

-- JUMPDEST alone, and its bitmap.
abbrev program : List ℕ
program = 0x5b ∷ []

abbrev program_bitmap : List ℕ
program_bitmap = 1 ∷ []

-- The element on top is the position 0.
abbrev operands : EvmStack
operands = record { items = from_u64 2 ∷ u256_zero ∷ []; capacity = 2; top = 2 }

operands-IsValid : IsValid operands
operands-IsValid = record {
  slots = refl;
  in_use = omega arith;
  some_slots = omega arith;
  bounded = omega arith;
}

abbrev frame : CallFrame
frame = record {
  pc = 0;
  gas = 500;
  stack = operands;
  memory = record { buffer = []; size = 0; capacity = 0 };
  code = program;
  output_offset = 0;
  output_size = 0;
  depth = 0;
  exec_type = ExecType.exec_tx_start;
  is_static = false;
  caller = replicate 20 0;
  address = replicate 20 1;
  value = u256_zero;
  input = [];
  jumpdest_bitmap = none;
  code_hash = replicate 32 0;
}

binary_handlers-Compute_example :
    Computes (λ a b. (to_nat a + u256_mod - to_nat b) % u256_mod) 3 frame (op_sub 3 frame)
    × Computes (λ a b. to_nat a * to_nat b % u256_mod) 3 frame (op_mul 3 frame)
    × Computes (λ a b. one_if (ltb (to_nat a) (to_nat b))) 3 frame (op_lt 3 frame)
    × Computes (λ a b. one_if (ltb (to_nat b) (to_nat a))) 3 frame (op_gt 3 frame)
    × Computes (λ a b. one_if (to_nat a == to_nat b)) 3 frame (op_eq 3 frame)
    × Computes (λ a b. one_if (ltb (biased a) (biased b))) 3 frame (op_slt 3 frame)
    × Computes (λ a b. one_if (ltb (biased b) (biased a))) 3 frame (op_sgt 3 frame)
binary_handlers-Compute_example = binary_handlers-Compute 3 frame operands-IsValid (omega arith) (
  (omega arith, omega arith, omega arith, omega arith),
  ((omega arith, omega arith, omega arith, omega arith), tt),
)

op_exp-Paid_example :
    Paid frame (10 + 50 * byte_length (from_u64 2)) (exp u256_zero (from_u64 2) ∷ []) (op_exp frame)
unfolding byte_length top_byte
op_exp-Paid_example =
    op_exp-Paid frame u256_zero (from_u64 2) [] operands-IsValid (omega arith) refl (omega arith)

op_add-Paid_example : Paid frame 0 (add u256_zero (from_u64 2) ∷ []) (op_add frame)
op_add-Paid_example = op_add-Paid frame u256_zero (from_u64 2) [] operands-IsValid refl

op_dup-full_example :
    ((op_dup 1 3 frame).0 ≡ EvmStatus.evm_ok)
    × ((op_dup 1 3 frame).1.stack.capacity < (op_dup 1 3 frame).1.stack.top)
op_dup-full_example =
    op_dup-full 1 3 frame operands-IsValid refl (omega arith) (omega arith) (omega arith)

abbrev all_granted : ℕ → Bool
all_granted n = true

op_push_n-Pushes_example :
    (after : CallFrame) × (((op_push_n all_granted u256_zero 1 3 frame
          ≡ some (EvmStatus.evm_ok, after))
        × Pushes 1 3 frame after)
      ⊎ ((op_push_n all_granted u256_zero 1 3 frame ≡ some (EvmStatus.evm_stack_overflow, after))
          × Refused all_granted u256_zero 1 frame.stack))
op_push_n-Pushes_example =
    op_push_n-Pushes all_granted u256_zero 1 3 frame operands-IsValid (omega arith) (omega arith)
      (omega arith) (omega arith) (omega arith)

no_memory-IsValid : div.Evm.Memory.IsValid frame.memory
no_memory-IsValid = record {
  bytes = refl;
  in_use = omega arith;
  words = omega arith;
  empty_or_more = inl refl;
  addressable = omega arith;
}

op_mstore-Stores_example :
    (after : CallFrame) × (op_mstore all_granted 7 54 3 frame ≡ some (EvmStatus.evm_ok, after))
    × Stores 3 0 (from_u64 2) [] frame after
unfolding round_up_32 expansion_cost
op_mstore-Stores_example =
    op_mstore-Stores all_granted 7 3 0 frame u256_zero (from_u64 2) [] (λ n. refl) operands-IsValid
      no_memory-IsValid (omega arith) (omega arith, omega arith, omega arith, omega arith)
      (omega arith, omega arith, omega arith, omega arith) refl refl (omega arith) (omega arith)
