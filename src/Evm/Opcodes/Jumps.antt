-- ===== src/Evm/Opcodes/Jumps.antt =====
-- The jump instructions on a frame whose code was analysed, and the growth of the stack.
use div.Common.{ℕ, ◌+◌, ◌≤◌, ◌<◌, ◌≡◌, ◌↔◌, refl, arith, true, List, length, get_or, leb, le→ltb}
use div.Uint256.{Uint256}
use div.Evm.Stack.{IsValid, has_items, has_space, dup_unsafe}
use div.Evm.Jumpdest.{is_valid}
use div.Evm.Jumpdest.Boundaries.{Reaches}
use div.Evm.Frame.{EvmStatus, CallFrame}
use div.Evm.Opcodes.{op_dup}

-- The test of a bitmap agrees with the instructions of the code.
abbrev pub Analysed : List ℕ → List ℕ → Type 0
Analysed code bitmap =
    (dest : ℕ)
    → (is_valid bitmap (length code) dest ≡ true)
      ↔ ((dest < length code) × (get_or code dest 0 ≡ 0x5b) × Reaches code dest 0)

-- A number that is the position of a JUMPDEST instruction.
abbrev pub IsTarget : List ℕ → ℕ → Type 0
IsTarget code dest = (dest < length code) × (get_or code dest 0 ≡ 0x5b) × Reaches code dest 0

-- DUP does not let the stack grow. With its price in gas, on a valid stack whose array is full and below the bound of 1024
-- elements it still succeeds, and leaves a stack with more elements than slots.
pub op_dup-full :
    (depth price : ℕ) (frame : CallFrame)
    → IsValid frame.stack
    → frame.stack.top ≡ frame.stack.capacity
    → frame.stack.top < 1024
    → depth ≤ frame.stack.top
    → price ≤ frame.gas
    → ((op_dup depth price frame).0 ≡ EvmStatus.evm_ok)
      × ((op_dup depth price frame).1.stack.capacity < (op_dup depth price frame).1.stack.top)
unfolding op_dup has_items has_space dup_unsafe
op_dup-full depth price frame v full below deep rich =
    let items : leb depth frame.stack.top ≡ true = ground arith in
    let space : leb (frame.stack.top + 1) 1024 ≡ true = ground arith in
    rw (items, space, le→ltb frame.gas price rich) (refl, omega arith)
