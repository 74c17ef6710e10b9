-- ===== src/Evm/Opcodes/Binary.antt =====
-- The handlers that replace two operands by a result.
use div.Common.{
  ℕ, suc, ◌+◌, ◌-◌, ◌*◌, ◌/◌, ◌≤◌, ◌<◌, ◌≡◌, refl, sym, ap, ap₂, ◌∙◌, arith, true, false, List, ◌∷◌,
  length, get_or, drop, ltb, leb, Bool-cases, inl, inr, IsU64, u64, u64_max, sub_u64, lt→ltb,
  le→ltb,
}
use div.Uint256.{Uint256, u256_zero, add, exp, byte_length}
use div.Evm.Stack.{EvmStack, IsValid, has_items, push_unsafe, pop_unsafe, peek_unsafe}
use div.Evm.Stack.View.{view, length-slots_down}
use div.Evm.Stack.Refine.{pop_unsafe-view, store_top-view, peek_unsafe-view}
use div.Evm.Frame.{EvmStatus, CallFrame}
use div.Evm.Opcodes.{replace_two, binary_op, charge, op_exp, op_add}

-- Popping, told by the list.
pub pop-list :
    (s : EvmStack) (x : Uint256) (xs : List Uint256)
    → IsValid s
    → view s ≡ x ∷ xs
    → ((pop_unsafe s).0 ≡ x)
      × (view (pop_unsafe s).1 ≡ xs)
      × IsValid (pop_unsafe s).1
      × ((pop_unsafe s).1.top < (pop_unsafe s).1.capacity)
unfolding pop_unsafe
pop-list s x xs v e =
    let size : suc (length xs) ≡ s.top = sym (ap length e) ∙ length-slots_down s.items s.top in
    let popped = pop_unsafe-view s v (omega (arith, size)) in
    (
      ap (λ t. get_or t 0 u256_zero) (sym popped.0 ∙ e),
      ap (drop 1) (sym popped.0 ∙ e),
      popped.1,
      omega (arith, size, v.in_use),
    )

-- The two first elements give way to their result.
pub replace_two-view :
    (f : Uint256 → Uint256 → Uint256) (s : EvmStack) (a b : Uint256) (rest : List Uint256)
    → IsValid s
    → view s ≡ a ∷ b ∷ rest
    → (view (replace_two f s) ≡ f a b ∷ rest) × IsValid (replace_two f s)
unfolding push_unsafe
replace_two-view f s a b rest v e =
    let first = pop-list s a (b ∷ rest) v e in
    let second = pop-list (pop_unsafe s).1 b rest first.2 first.1 in
    let below : EvmStack = (pop_unsafe (pop_unsafe s).1).1 in
    let result : Uint256 = f (pop_unsafe s).0 (pop_unsafe (pop_unsafe s).1).0 in
    let stored = store_top-view result below second.2 second.3 in
    (stored.0 ∙ ap₂ ◌∷◌ (ap₂ f first.0 second.0) second.1, stored.1)

-- The frame after a successful operation: the price is paid, and the stack is `elements`.
pub record Paid (frame : CallFrame) (price : ℕ) (elements : List Uint256)
    (r : EvmStatus × CallFrame) : Type 0 where
  pub ok : r.0 ≡ EvmStatus.evm_ok
  pub gas : r.1.gas + price ≡ frame.gas
  pub stack : view r.1.stack ≡ elements
  pub valid : IsValid r.1.stack
  pub same_pc : r.1.pc ≡ frame.pc
  pub same_memory : r.1.memory ≡ frame.memory

-- The price is within the gas.
pub charge_exact : (gas price : ℕ) → IsU64 gas → price ≤ gas → sub_u64 gas price + price ≡ gas
charge_exact gas price h k = omega arith

Paid-two :
    (f : Uint256 → Uint256 → Uint256) (price : ℕ) (frame : CallFrame) (a b : Uint256)
    (rest : List Uint256)
    → IsValid frame.stack
    → IsU64 frame.gas
    → view frame.stack ≡ a ∷ b ∷ rest
    → price ≤ frame.gas
    → Paid frame price
        (f a b ∷ rest)
        (EvmStatus.evm_ok, charge price (record frame { stack = replace_two f frame.stack }))
Paid-two f price frame a b rest v h e k =
    let replaced = replace_two-view f frame.stack a b rest v e in
    record {
      ok = refl;
      gas = charge_exact frame.gas price h k;
      stack = replaced.0;
      valid = replaced.1;
      same_pc = refl;
      same_memory = refl;
    }

-- A stack with two elements has items for the operation.
pub two_items :
    (s : EvmStack) (a b : Uint256) (rest : List Uint256)
    → view s ≡ a ∷ b ∷ rest
    → has_items 2 s ≡ true
unfolding has_items
two_items s a b rest e =
    let size : suc (suc (length rest)) ≡ s.top =
      sym (ap length e) ∙ length-slots_down s.items s.top in
    ground (arith, size)

-- A handler with two operands on a valid stack. With fewer than two elements, or with less gas
-- than its price, it reports so and changes nothing. Otherwise it replaces the first two elements
-- by the result of the function, the first as the left operand, and pays exactly the price.
pub binary_op-Paid :
    (f : Uint256 → Uint256 → Uint256) (price : ℕ) (frame : CallFrame)
    → IsValid frame.stack
    → IsU64 frame.gas
    → (length (view frame.stack) < 2
        → binary_op f price frame ≡ (EvmStatus.evm_stack_underflow, frame))
      × (2 ≤ length (view frame.stack)
          → frame.gas < price
          → binary_op f price frame ≡ (EvmStatus.evm_out_of_gas, frame))
      × ((a b : Uint256) (rest : List Uint256)
          → view frame.stack ≡ a ∷ b ∷ rest
          → price ≤ frame.gas
          → Paid frame price (f a b ∷ rest) (binary_op f price frame))
unfolding binary_op has_items
binary_op-Paid f price frame v h =
    let size = length-slots_down frame.stack.items frame.stack.top in
    (
      (λ few.
          let short : leb 2 frame.stack.top ≡ false = ground (arith, size, few) in rw short refl),
      (λ many poor.
          let enough : leb 2 frame.stack.top ≡ true = ground (arith, size, many) in
          rw (enough, lt→ltb frame.gas price poor) refl),
      λ a b rest e rich.
          let enough : leb 2 frame.stack.top ≡ true = two_items frame.stack a b rest e in
          rw (enough, le→ltb frame.gas price rich) (Paid-two f price frame a b rest v h e rich),
    )

-- EXP costs 10 and 50 more for each byte of the exponent. With that much gas on a valid stack it
-- replaces the base, which comes first, and the exponent by the power, and pays that price.
pub op_exp-Paid :
    (frame : CallFrame) (base exponent : Uint256) (rest : List Uint256)
    → IsValid frame.stack
    → IsU64 frame.gas
    → view frame.stack ≡ base ∷ exponent ∷ rest
    → 10 + 50 * byte_length exponent ≤ frame.gas
    → Paid frame (10 + 50 * byte_length exponent) (exp base exponent ∷ rest) (op_exp frame)
unfolding op_exp
op_exp-Paid frame base exponent rest v h e rich =
    let n : ℕ = byte_length exponent in
    let items = two_items frame.stack base exponent rest e in
    let size : suc (suc (length rest)) ≡ frame.stack.top =
      sym (ap length e) ∙ length-slots_down frame.stack.items frame.stack.top in
    let second : peek_unsafe frame.stack 1 ≡ exponent =
      peek_unsafe-view frame.stack 1 v (omega (arith, size)) ∙ ap (λ t. get_or t 1 u256_zero) e in
    rw (items, second)
      (elim (Bool-cases (ltb 0 n)) [
        | inl some_bytes ↦
            let in_range : ltb ((u64_max - 10) / 50) n ≡ false =
              le→ltb ((u64_max - 10) / 50) n (omega (arith, rich, h)) in
            let price : u64 (10 + u64 (50 * n)) ≡ 10 + 50 * n = omega (arith, rich, h) in
            let enough : ltb frame.gas (10 + 50 * n) ≡ false =
              le→ltb frame.gas (10 + 50 * n) rich in
            rw (some_bytes, in_range, price, enough)
              (Paid-two exp (10 + 50 * n) frame base exponent rest v h e rich)
        | inr no_bytes ↦
            let price : 10 + 50 * n ≡ 10 = ground (arith, no_bytes) in
            let enough : ltb frame.gas 10 ≡ false = le→ltb frame.gas 10 (omega (arith, rich)) in
            rw (no_bytes, enough, price)
              (Paid-two exp 10 frame base exponent rest v h e (omega (arith, rich)))
      ])

-- The handler of ADD on a valid stack with two elements replaces the first two by
-- their sum and leaves the gas as it is.
pub op_add-Paid :
    (frame : CallFrame) (a b : Uint256) (rest : List Uint256)
    → IsValid frame.stack
    → view frame.stack ≡ a ∷ b ∷ rest
    → Paid frame 0 (add a b ∷ rest) (op_add frame)
unfolding op_add
op_add-Paid frame a b rest v e =
    let replaced = replace_two-view add frame.stack a b rest v e in
    rw (two_items frame.stack a b rest e) (record {
      ok = refl;
      gas = omega arith;
      stack = replaced.0;
      valid = replaced.1;
      same_pc = refl;
      same_memory = refl;
    })
