-- ===== src/Evm/Opcodes/MemoryAccess/Stores.antt =====
-- MSTORE on a frame with enough gas.
use div.Common.{
  ℕ, ◌+◌, ◌-◌, ◌/◌, ◌^◌, ◌≤◌, ◌<◌, ◌≡◌, ◌⊎◌, inl, inr, refl, ap, ◌∙◌, arith, Bool, true, false,
  List, ◌∷◌, some, length, ltb, Bool-cases, le→ltb, lt→ltb, IsU64, u64, u64_max,
}
use div.Uint256.{Uint256, IsUint256, to_nat, fits_u64}
use div.Uint256.Order.{fits_u64_iff}
use div.Uint256.Bytes.{to_bytes_be}
use div.Uint256.Bytes.RoundTrip.{to_bytes_be-Holds}
use div.Evm.Stack.{EvmStack, IsValid, pop_unsafe}
use div.Evm.Stack.View.{view}
use div.Evm.Memory.{
  EvmMemory, round_up_32, expansion_cost, expand, store_unsafe, store32_unsafe, load32_unsafe,
}
use div.Evm.Memory.Expand.{byte}
use div.Evm.Memory.Contents.{expand-Covers}
use div.Evm.Memory.Access.{store_unsafe-byte, load32_unsafe-store32_unsafe}
use div.Evm.Frame.{EvmStatus, CallFrame}
use div.Evm.Opcodes.{charge}
use div.Evm.Opcodes.Binary.{pop-list, two_items, charge_exact}
use div.Evm.Opcodes.MemoryAccess.{pay_expansion, access_at, op_mstore}

-- Storing a word leaves the bytes outside its range.
store32_outside :
    (offset i : ℕ) (value : Uint256) (m : EvmMemory)
    → div.Evm.Memory.IsValid m
    → IsUint256 value
    → offset + 32 ≤ m.size
    → (i < offset) ⊎ (offset + 32 ≤ i)
    → byte (store32_unsafe offset value m) i ≡ byte m i
unfolding store32_unsafe store_unsafe
store32_outside offset i value m v p h outside =
    let size = (to_bytes_be-Holds value p).1 in
    store_unsafe-byte offset (to_bytes_be value) m i v (omega (arith, size, h)) ∙ elim outside [
      | inl below ↦ rw (lt→ltb i offset below) refl
      | inr above ↦
          rw
            (
              le→ltb i offset (omega (arith, above)),
              le→ltb i (offset + length (to_bytes_be value)) (omega (arith, size, above)),
            )
            refl
    ]

-- The price that is paid when everything succeeds.
pay_exact :
    (price cost : ℕ) (access : CallFrame → CallFrame) (frame : CallFrame) (m : EvmMemory)
    → price + cost ≤ frame.gas
    → IsU64 frame.gas
    → pay_expansion price access frame (some (true, cost, m))
      ≡ some (EvmStatus.evm_ok, access (charge (price + cost) (record frame { memory = m })))
pay_exact price cost access frame m rich h =
    let in_range : ltb (u64_max - price) cost ≡ false =
      le→ltb (u64_max - price) cost (omega arith) in
    let total : u64 (price + cost) ≡ price + cost = omega arith in
    rw (in_range, total, le→ltb frame.gas (price + cost) rich) refl

-- The price of an access to 32 bytes: that of the handler, and that of the words it adds.
abbrev pub access_price : ℕ → ℕ → EvmMemory → ℕ
access_price price offset m = price + expansion_cost (m.size / 32) (round_up_32 (offset + 32) / 32)

-- The frame after a word was stored.
pub record Stores (price offset : ℕ) (value : Uint256) (rest : List Uint256)
    (frame after : CallFrame) : Type 0 where
  pub loaded : load32_unsafe offset after.memory ≡ value
  pub others :
      (i : ℕ) → (i < offset) ⊎ (offset + 32 ≤ i) → byte after.memory i ≡ byte frame.memory i
  pub gas : after.gas + access_price price offset frame.memory ≡ frame.gas
  pub stack : view after.stack ≡ rest
  pub same_pc : after.pc ≡ frame.pc

module _ (alloc : ℕ → Bool) (fresh : ℕ) where
  access_value :
      (offset_u256 : Uint256) (offset price cost : ℕ) (access : ℕ → CallFrame → CallFrame)
      (frame : CallFrame) (m : EvmMemory)
      → IsUint256 offset_u256
      → to_nat offset_u256 ≡ offset
      → offset + 32 ≤ 2 ^ 63
      → expand alloc fresh 54 offset 32 0 frame.memory ≡ some (true, cost, m)
      → price + cost ≤ frame.gas
      → IsU64 frame.gas
      → access_at alloc fresh 54 offset_u256 32 price access frame
        ≡ some
            (EvmStatus.evm_ok, access offset (charge (price + cost) (record frame { memory = m })))
  access_value offset_u256 offset price cost access frame m p e b expanded rich h =
      let fits : fits_u64 offset_u256 ≡ true =
        (fits_u64_iff offset_u256 p).1 (omega (arith, e, b)) in
      let same : offset_u256.limb0 ≡ offset = omega (arith, e, b, p) in
      let in_range : ltb (u64_max - 32) offset ≡ false =
        le→ltb (u64_max - 32) offset (omega (arith, b)) in
      rw (fits, same, in_range)
        (ap (pay_expansion price (access offset) frame) expanded
          ∙ pay_exact price cost (access offset) frame m rich h)

  store_value :
      (price : ℕ) (frame : CallFrame) (offset_u256 value : Uint256) (rest : List Uint256)
      → IsValid frame.stack
      → view frame.stack ≡ offset_u256 ∷ value ∷ rest
      → (stack' : EvmStack) × (view stack' ≡ rest)
        × (op_mstore alloc fresh 54 price frame
            ≡ access_at alloc fresh 54 offset_u256 32 price
                (λ offset f. record f { memory = store32_unsafe offset value f.memory })
                (record frame { stack = stack' }))
  unfolding op_mstore
  store_value price frame offset_u256 value rest v e =
      let first = pop-list frame.stack offset_u256 (value ∷ rest) v e in
      let second = pop-list (pop_unsafe frame.stack).1 value rest first.2 first.1 in
      (
        (pop_unsafe (pop_unsafe frame.stack).1).1,
        second.1,
        rw (two_items frame.stack offset_u256 value rest e, first.0, second.0) refl,
      )

  -- MSTORE with an arena that grants every request, at an offset that ends at or below 2^63, on a
  -- frame with valid stack and memory and with its price in gas. It succeeds: the word at the
  -- offset is the stored one, every byte outside its 32 bytes reads as before, and it pays its own
  -- price and that of the words that it adds to the memory.
  pub op_mstore-Stores :
      (price offset : ℕ) (frame : CallFrame) (offset_u256 value : Uint256) (rest : List Uint256)
      → ((n : ℕ) → alloc n ≡ true)
      → IsValid frame.stack
      → div.Evm.Memory.IsValid frame.memory
      → IsU64 frame.gas
      → IsUint256 offset_u256
      → IsUint256 value
      → view frame.stack ≡ offset_u256 ∷ value ∷ rest
      → to_nat offset_u256 ≡ offset
      → offset + 32 ≤ 2 ^ 63
      → access_price price offset frame.memory ≤ frame.gas
      → (after : CallFrame) × (op_mstore alloc fresh 54 price frame
          ≡ some (EvmStatus.evm_ok, after))
        × Stores price offset value rest frame after
  op_mstore-Stores price offset frame offset_u256 value rest granted v w h p q e n b rich =
      let (stack', popped, stored) = store_value price frame offset_u256 value rest v e in
      let cost : ℕ = expansion_cost (frame.memory.size / 32) (round_up_32 (offset + 32) / 32) in
      let (ok, m, expanded, good, bad) =
        expand-Covers alloc fresh offset 32 0 frame.memory w (omega arith) b in
      elim (Bool-cases ok) [
        | inr refused ↦ absurd (no_refusal ((bad refused).1))
        | inl fine ↦
            let covers = good fine in
            let frame' = record frame { stack = stack' } in
            let value_read = ap (λ t. some (t, cost, m)) fine in
            (
              record frame {
                stack = stack';
                gas = (charge (price + cost) frame).gas;
                memory = store32_unsafe offset value m;
              },
              stored
                  ∙ access_value offset_u256 offset price cost
                      (λ o f. record f { memory = store32_unsafe o value f.memory }) frame' m p n b
                      (expanded ∙ value_read) rich h,
              record {
                loaded = load32_unsafe-store32_unsafe offset value m covers.valid q covers.covers;
                others = λ i outside.
                    store32_outside offset i value m covers.valid q covers.covers outside
                    ∙ covers.same_bytes i;
                gas = charge_exact frame.gas (price + cost) h rich;
                stack = popped;
                same_pc = refl;
              },
            )
      ]
    where
      no_refusal : (n' : ℕ) × (alloc n' ≡ false) → ⊥
      no_refusal (n', refused) = ground (arith, granted n', refused)
