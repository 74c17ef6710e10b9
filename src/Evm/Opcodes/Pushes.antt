-- ===== src/Evm/Opcodes/Pushes.antt =====
-- PUSH1 to PUSH32: the constant that stands in the code.
use div.Common.{
  ℕ, ◌+◌, ◌^◌, ◌≤◌, ◌<◌, ◌≡◌, ◌⊎◌, refl, sym, ap, ap₂, ◌∙◌, arith, Bool, false, List, ◌∷◌, some,
  length, take, drop, length-drop, take-all, ltb, if◌then◌else◌, Bool-cases, inl, inr, ltb→le,
  le→ltb, IsU64, u64, sub_u64,
}
use div.Uint256.{Uint256}
use div.Uint256.Bytes.{from_bytes_be}
use div.Evm.Stack.{EvmStack, IsValid, ensure_space, push_unsafe}
use div.Evm.Stack.View.{view}
use div.Evm.Stack.Grow.{Extends, Refused, ensure_space-Extends}
use div.Evm.Stack.Refine.{store_top-view}
use div.Evm.Frame.{EvmStatus, CallFrame}
use div.Evm.Opcodes.{charge, after_space, op_push_n}
use div.Evm.Opcodes.Binary.{charge_exact}

-- The constant of a push with `n` bytes of data: the bytes that the code has after the opcode.
abbrev pub constant : ℕ → CallFrame → Uint256
constant n frame = from_bytes_be (take n (drop frame.pc frame.code))

-- Reading no more bytes than there are makes no difference.
available_bytes :
    (n pc : ℕ) (code : List ℕ)
    → pc ≤ length code
    → length code < 2 ^ 64
    → take (if ltb n (sub_u64 (length code) pc) then n else sub_u64 (length code) pc) (drop pc code)
      ≡ take n (drop pc code)
available_bytes n pc code h b =
    let available : ℕ = sub_u64 (length code) pc in
    let left : length (drop pc code) ≡ available = omega (arith, length-drop pc code) in
    elim (Bool-cases (ltb n available)) [
      | inl more ↦ rw more refl
      | inr less ↦ rw less (
          take-all available (drop pc code) (omega (arith, left))
          ∙ sym (take-all n (drop pc code) (omega (arith, left, ltb→le _ _ less))))
    ]

-- The frame after a push: the constant in front, the price paid, the position behind the data.
pub record Pushes (n price : ℕ) (frame after : CallFrame) : Type 0 where
  pub stack : view after.stack ≡ constant n frame ∷ view frame.stack
  pub valid : IsValid after.stack
  pub gas : after.gas + price ≡ frame.gas
  pub pc : after.pc ≡ frame.pc + n

abbrev after_push : ℕ → ℕ → CallFrame → EvmStack → CallFrame
after_push n price frame stack' = charge price (record frame {
  pc = u64 (frame.pc + n);
  stack =
      push_unsafe
        (from_bytes_be (
          take
            (if ltb n (sub_u64 (length frame.code) frame.pc)
              then n
              else sub_u64 (length frame.code) frame.pc)
            (drop frame.pc frame.code)))
        stack';
})

after_push-Pushes :
    (n price : ℕ) (frame : CallFrame) (stack' : EvmStack)
    → Extends frame.stack stack'
    → frame.stack.top + 1 ≤ stack'.capacity
    → IsU64 frame.gas
    → price ≤ frame.gas
    → n ≤ 32
    → frame.pc ≤ length frame.code
    → length frame.code < 2 ^ 63
    → Pushes n price frame (after_push n price frame stack')
unfolding push_unsafe
after_push-Pushes n price frame stack' extends room h rich small inside b =
    let value = available_bytes n frame.pc frame.code inside (omega arith) in
    let stored = store_top-view _ stack' extends.valid (omega (arith, extends.same_top)) in
    record {
      stack = stored.0 ∙ ap₂ (λ t xs. from_bytes_be t ∷ xs) value extends.same_view;
      valid = stored.1;
      gas = charge_exact frame.gas price h rich;
      pc = omega arith;
    }

module _ (alloc : ℕ → Bool) (fresh : Uint256) where
  push_with_space :
      (n price : ℕ) (frame : CallFrame) (enough : Bool) (stack' : EvmStack)
      → ltb frame.gas price ≡ false
      → ensure_space alloc fresh 1 frame.stack ≡ some (enough, stack')
      → op_push_n alloc fresh n price frame
        ≡ some (
            if enough
            then (EvmStatus.evm_ok, after_push n price frame stack')
            else (EvmStatus.evm_stack_overflow, record frame { stack = stack' }))
  unfolding op_push_n
  push_with_space n price frame enough stack' rich space =
      rw rich (
        ap (λ t. after_space t (λ t'. (EvmStatus.evm_ok, after_push n price frame t')) frame) space)

  -- A push of up to 32 bytes on a valid frame with its price in gas ends. It puts the constant that
  -- stands in the code in front of the stack, pays the price and steps over the data; or it
  -- reports an overflow, and then the stack is full or the arena has refused memory.
  pub op_push_n-Pushes :
      (n price : ℕ) (frame : CallFrame)
      → IsValid frame.stack
      → IsU64 frame.gas
      → price ≤ frame.gas
      → n ≤ 32
      → frame.pc ≤ length frame.code
      → length frame.code < 2 ^ 63
      → (after : CallFrame) × (((op_push_n alloc fresh n price frame
              ≡ some (EvmStatus.evm_ok, after))
            × Pushes n price frame after)
          ⊎ ((op_push_n alloc fresh n price frame ≡ some (EvmStatus.evm_stack_overflow, after))
              × Refused alloc fresh 1 frame.stack))
  op_push_n-Pushes n price frame v h rich small inside b =
      let (r, value, extends, room, refused) = ensure_space-Extends alloc fresh 1 frame.stack v in
      let result = push_with_space n price frame r.0 r.1 (le→ltb frame.gas price rich) value in
      elim (Bool-cases r.0) [
        | inl ok ↦ (
          after_push n price frame r.1,
          inl (
            result ∙ rw ok refl,
            after_push-Pushes n price frame r.1 extends (room ok).0 h rich small inside b,
          ),
        )
        | inr full ↦ (record frame { stack = r.1 }, inr (result ∙ rw full refl, refused full))
      ]
