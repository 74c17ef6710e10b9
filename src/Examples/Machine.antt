-- ===== src/Examples/Machine.antt =====
-- The stack, the memory and the jump destinations at concrete inputs.
use div.Common.{
  ℕ, ◌+◌, ◌-◌, ◌*◌, ◌/◌, ◌^◌, ◌≤◌, ◌<◌, ◌≡◌, ◌↔◌, ◌⊎◌, inr, refl, arith, Bool, true, false, List,
  [], ◌∷◌, none, some, length, get_or, replicate, length-replicate,
}
use div.Uint256.{Uint256, IsUint256, u256_zero, from_u64}
use div.Evm.Stack.{
  EvmStack, grown_capacity, sizeof_uint256, push, pop_unsafe, peek_unsafe, dup_unsafe, swap_unsafe,
  ensure_space,
}
use div.Evm.Stack.View.{view}
use div.Evm.Stack.Grow.{Extends, Refused, ensure_space-Extends}
use div.Evm.Stack.Refine.{Pushed, push-view}
use div.Evm.Memory.{
  EvmMemory, round_up_32, expansion_cost, expand, store_unsafe, store32_unsafe, load32_unsafe,
}
use div.Evm.Memory.Cost.{quadratic, expansion_cost_exact}
use div.Evm.Memory.Contents.{Covers, expand-Covers}
use div.Evm.Memory.Limits.{expand_hangs, expand_wraps}
use div.Evm.Jumpdest.{is_valid, compute_bitmap}
use div.Evm.Jumpdest.Boundaries.{Reaches}
use div.Evm.Jumpdest.Scan.{compute_bitmap-is_valid}

-- An arena with room for everything, and what it hands out.
abbrev roomy : ℕ → Bool
roomy n = true

abbrev dirty : Uint256
dirty = from_u64 99

-- Three elements in four slots.
abbrev stack : EvmStack
stack = record { items = from_u64 3 ∷ from_u64 8 ∷ from_u64 11 ∷ dirty ∷ []; capacity = 4; top = 3 }

stack-IsValid : div.Evm.Stack.IsValid stack
stack-IsValid = record {
  slots = refl;
  in_use = omega arith;
  some_slots = omega arith;
  bounded = omega arith;
}

push-view_example :
    Pushed u256_zero stack (push roomy dirty u256_zero stack)
    × (((push roomy dirty u256_zero stack).0 ≡ true) ↔ (
        (length (view stack) < 1024)
        × ((stack.top < stack.capacity)
            ⊎ (roomy (grown_capacity stack.capacity * sizeof_uint256) ≡ true))))
push-view_example = push-view roomy dirty u256_zero stack stack-IsValid

ensure_space-Extends_example :
    (r : Bool × EvmStack) × (ensure_space roomy dirty 7 stack ≡ some r)
    × Extends stack r.1
    × (r.0 ≡ true → (stack.top + 7 ≤ r.1.capacity) × (stack.top + 7 ≤ 1024))
    × (r.0 ≡ false → Refused roomy dirty 7 stack)
ensure_space-Extends_example = ensure_space-Extends roomy dirty 7 stack stack-IsValid

-- A memory of two words, in its first buffer.
abbrev memory : EvmMemory
memory = record { buffer = replicate 1024 1; size = 64; capacity = 1024 }

memory-IsValid : div.Evm.Memory.IsValid memory
memory-IsValid = record {
  bytes = length-replicate {A = ℕ} 1024 1;
  in_use = omega arith;
  words = omega arith;
  empty_or_more = inr (omega arith);
  addressable = omega arith;
}

expand-Covers_example :
    (ok : Bool) × (t : EvmMemory) × (expand roomy 7 54 100 40 0 memory
      ≡ some (ok, expansion_cost (memory.size / 32) (round_up_32 (100 + 40) / 32), t))
    × (ok ≡ true → Covers (100 + 40) memory t)
    × (ok ≡ false → (t ≡ memory) × ((n : ℕ) × (roomy n ≡ false)))
expand-Covers_example =
    expand-Covers roomy 7 100 40 0 memory memory-IsValid (omega arith) (omega arith)

abbrev pair : List ℕ
pair = 4 ∷ 5 ∷ []

dirty-IsUint256 : IsUint256 dirty
dirty-IsUint256 = (omega arith, omega arith, omega arith, omega arith)

expansion_cost_exact_example : expansion_cost 2 724 ≡ quadratic 724 - quadratic 2
expansion_cost_exact_example = expansion_cost_exact 2 724 (omega arith) (omega arith)

expand_hangs_example : expand roomy 7 1000 (2 ^ 63) 32 0 memory ≡ none
expand_hangs_example =
    expand_hangs roomy 7 1000 (2 ^ 63) 32 0 memory memory-IsValid (inr (10, omega arith, refl))
      (omega arith) (omega arith) (omega arith)

expand_wraps_example : expand roomy 7 54 (2 ^ 64 - 33) 32 0 memory ≡ some (true, 0, memory)
expand_wraps_example =
    expand_wraps roomy 7 54 (2 ^ 64 - 33) 32 0 memory (omega arith) (omega arith) (omega arith)

-- PUSH1 0x5b, JUMPDEST: the first 0x5b is data.
abbrev code : List ℕ
code = 0x60 ∷ 0x5b ∷ 0x5b ∷ []

compute_bitmap-is_valid_example :
    (bitmap : List ℕ) × (compute_bitmap roomy code ≡ some (some bitmap))
    × ((dest : ℕ)
        → (is_valid bitmap (length code) dest ≡ true)
          ↔ ((dest < length code) × (get_or code dest 0 ≡ 0x5b) × Reaches code dest 0))
compute_bitmap-is_valid_example =
    compute_bitmap-is_valid roomy code (omega arith) (omega arith) refl
