-- ===== src/Evm/Memory.antt =====
-- include/div0/evm/memory.h and src/evm/memory.c: the byte memory of a frame, which grows in
-- words of 32 bytes inside a buffer that doubles. `alloc n` says whether the arena has `n`
-- bytes, and `fresh` is what a new byte holds. The field `data` is `buffer`, and a null pointer the empty list.
pub mod Cost
pub mod Expand
pub mod Contents
pub mod Access
pub mod Limits
use div.Common.{
  ℕ, zero, suc, ◌+◌, ◌-◌, ◌*◌, ◌/◌, ◌%◌, ◌^◌, ◌≤◌, ◌<◌, Bool, true, false, List, [], ◌∷◌, ◌++◌,
  Option, none, some, ◌≡◌, ◌⊎◌, ltb, leb, ◌==◌, if◌then◌else◌, set, take, drop, replicate, length,
  u64, u64_max, sub_u64, bit_and,
}
use div.Uint256.{Uint256}
use div.Uint256.Bytes.{from_bytes_be, to_bytes_be}

abbrev pub evm_memory_initial_capacity : ℕ
evm_memory_initial_capacity = 1024

pub record EvmMemory : Type 0 where
  pub buffer : List ℕ
  pub size : ℕ
  pub capacity : ℕ

-- The buffer has `capacity` bytes, of which the first `size`, whole words, are in use.
pub record IsValid (m : EvmMemory) : Type 0 where
  pub bytes : length m.buffer ≡ m.capacity
  pub in_use : m.size ≤ m.capacity
  pub words : m.size % 32 ≡ 0
  pub empty_or_more : (m.capacity ≡ 0) ⊎ (evm_memory_initial_capacity ≤ m.capacity)
  pub addressable : m.capacity < 2 ^ 64

abbrev pub init : EvmMemory
init = record { buffer = []; size = 0; capacity = 0 }

unfoldable pub reset : EvmMemory → EvmMemory
reset m = record m { buffer = []; size = 0; capacity = 0 }

unfoldable pub round_up_32 : ℕ → ℕ
round_up_32 n = bit_and (u64 (n + 31)) (u64_max - 31)

-- `(g_memory * n) + ((n * n) / 512)` on uint64_t.
abbrev pub memory_cost : ℕ → ℕ
memory_cost n = u64 (u64 (3 * n) + u64 (n * n) / 512)

unfoldable pub expansion_cost : ℕ → ℕ → ℕ
expansion_cost current_words new_words =
    if leb new_words current_words
    then 0
    else sub_u64 (memory_cost new_words) (memory_cost current_words)

-- `while (new_capacity < new_size) new_capacity *= 2`; `none` means that the fuel ran out.
unfoldable pub double_until : ℕ → ℕ → ℕ → Option ℕ
double_until zero new_size new_capacity = none
double_until (suc fuel) new_size new_capacity =
    let rest = double_until fuel new_size (u64 (new_capacity * 2)) in
    if ltb new_capacity new_size then rest else some new_capacity

-- `memcpy` to, or `memset` of, the bytes from `offset` on.
abbrev pub write_at : ℕ → List ℕ → List ℕ → List ℕ
write_at offset bytes buffer = take offset buffer ++ (bytes ++ drop (offset + length bytes) buffer)

-- The zero fill at the end of `expand`.
abbrev pub zero_fill : ℕ → EvmMemory → EvmMemory
zero_fill new_size m = record m {
  buffer = write_at m.size (replicate (new_size - m.size) 0) m.buffer;
  size = new_size;
}

module _ (alloc : ℕ → Bool) (fresh : ℕ) where
  -- The move to a larger buffer.
  abbrev pub reallocate : ℕ → EvmMemory → Bool × EvmMemory
  reallocate new_capacity m =
      if alloc new_capacity
      then (
        true,
        record m {
          buffer = take m.size m.buffer ++ replicate (new_capacity - m.size) fresh;
          capacity = new_capacity;
        },
      )
      else (false, m)

  -- The part that makes sure of `new_size` bytes of capacity.
  unfoldable pub reserve : ℕ → ℕ → EvmMemory → Option (Bool × EvmMemory)
  reserve fuel new_size m =
      if leb new_size m.capacity
      then some (true, m)
      else elim (double_until fuel new_size
          (if m.capacity == 0 then evm_memory_initial_capacity else m.capacity)) [
            | none ↦ none
            | some new_capacity ↦ some (reallocate new_capacity m)
          ]

  -- The answer, the value of `*gas_cost` afterwards, and the memory. Fuel is for the doubling.
  unfoldable pub expand : ℕ → ℕ → ℕ → ℕ → EvmMemory → Option (Bool × ℕ × EvmMemory)
  expand fuel offset size gas_cost m =
      if size == 0
      then some (true, 0, m)
      else if ltb (u64_max - size) offset
      then some (false, gas_cost, m)
      else (let new_size = round_up_32 (offset + size) in
          let cost = expansion_cost (m.size / 32) (new_size / 32) in
          if leb new_size m.size then some (true, cost, m) else elim (reserve fuel new_size m) [
            | none ↦ none
            | some (ok, m') ↦
                some (if ok then (true, cost, zero_fill new_size m') else (false, cost, m'))
          ])

-- The callers of the unsafe operations have expanded the memory.
unfoldable pub store8_unsafe : ℕ → ℕ → EvmMemory → EvmMemory
store8_unsafe offset value m = record m { buffer = set m.buffer offset value }

unfoldable pub store_unsafe : ℕ → List ℕ → EvmMemory → EvmMemory
store_unsafe offset bytes m = record m { buffer = write_at offset bytes m.buffer }

unfoldable pub load_unsafe : ℕ → ℕ → EvmMemory → List ℕ
load_unsafe offset len m = take len (drop offset m.buffer)

unfoldable pub store32_unsafe : ℕ → Uint256 → EvmMemory → EvmMemory
store32_unsafe offset value m = record m { buffer = write_at offset (to_bytes_be value) m.buffer }

unfoldable pub load32_unsafe : ℕ → EvmMemory → Uint256
load32_unsafe offset m = from_bytes_be (take 32 (drop offset m.buffer))

-- `memmove` inside the memory.
unfoldable pub copy_unsafe : ℕ → ℕ → ℕ → EvmMemory → EvmMemory
copy_unsafe dest src len m = record m {
  buffer = write_at dest (take len (drop src m.buffer)) m.buffer;
}
