-- ===== src/Evm/Memory/Access.antt =====
-- The reads and writes inside the size.
use div.Common.{
  ℕ, ◌+◌, ◌-◌, ◌≤◌, ◌<◌, ◌≡◌, sym, ap, ◌∙◌, arith, List, ◌++◌, length, get_or, take, drop,
  length-take, take-length-append, drop-length-append, get_or-append_left, get_or-append_right,
  get_or-take, get_or-take_out, get_or-drop, if◌then◌else◌, Bool-cases, inl, inr, ltb, ltb→lt,
  ltb→le,
}
use div.Uint256.{Uint256, IsUint256}
use div.Uint256.Bytes.{from_bytes_be, to_bytes_be}
use div.Uint256.Bytes.RoundTrip.{to_bytes_be-Holds, from_bytes_be-to_bytes_be}
use div.Evm.Memory.{
  EvmMemory, IsValid, write_at, store_unsafe, load_unsafe, store32_unsafe, load32_unsafe,
}
use div.Evm.Memory.Expand.{byte}

module _ (offset : ℕ) (bytes buffer : List ℕ) (h : offset + length bytes ≤ length buffer) where
  prefix_size : length (take offset buffer) ≡ offset
  prefix_size = omega (arith, h, length-take offset buffer)

  drop-write_at :
      drop offset (write_at offset bytes buffer) ≡ bytes ++ drop (offset + length bytes) buffer
  drop-write_at =
      ap (λ t. drop t (write_at offset bytes buffer)) (sym prefix_size)
      ∙ drop-length-append (take offset buffer) (bytes ++ drop (offset + length bytes) buffer)

  -- What is written can be read.
  pub read-write_at : take (length bytes) (drop offset (write_at offset bytes buffer)) ≡ bytes
  read-write_at =
      ap (take (length bytes)) drop-write_at
      ∙ take-length-append bytes (drop (offset + length bytes) buffer)

-- Storing bytes within the size and loading as many from the same place gives them back.
pub load_unsafe-store_unsafe :
    (offset : ℕ) (bytes : List ℕ) (m : EvmMemory)
    → IsValid m
    → offset + length bytes ≤ m.size
    → load_unsafe offset (length bytes) (store_unsafe offset bytes m) ≡ bytes
unfolding load_unsafe store_unsafe
load_unsafe-store_unsafe offset bytes m v h =
    read-write_at offset bytes m.buffer (omega (arith, v.in_use, v.bytes))

-- A word that is stored within the size of a valid memory is the word that is loaded from the same
-- offset.
pub load32_unsafe-store32_unsafe :
    (offset : ℕ) (value : Uint256) (m : EvmMemory)
    → IsValid m
    → IsUint256 value
    → offset + 32 ≤ m.size
    → load32_unsafe offset (store32_unsafe offset value m) ≡ value
unfolding load32_unsafe store32_unsafe
load32_unsafe-store32_unsafe offset value m v p h =
    let written = to_bytes_be-Holds value p in
    let room : offset + length (to_bytes_be value) ≤ length m.buffer =
      omega (arith, h, v.in_use, v.bytes, written.1) in
    ap (λ t. from_bytes_be (take t (drop offset (write_at offset (to_bytes_be value) m.buffer))))
      (sym written.1)
    ∙ ap from_bytes_be (read-write_at offset (to_bytes_be value) m.buffer room)
    ∙ from_bytes_be-to_bytes_be value p

-- The writes at an index: inside the range they give the new bytes, outside they change nothing.
get_or-write_at_in :
    (offset i : ℕ) (bytes buffer : List ℕ)
    → offset + length bytes ≤ length buffer
    → offset ≤ i
    → i < offset + length bytes
    → get_or (write_at offset bytes buffer) i 0 ≡ get_or bytes (i - offset) 0
get_or-write_at_in offset i bytes buffer h low high =
    let size : length (take offset buffer) ≡ offset = prefix_size offset bytes buffer h in
    get_or-append_right (take offset buffer) _ i 0 (omega (arith, size))
    ∙ ap (λ t. get_or (bytes ++ drop (offset + length bytes) buffer) (i - t) 0) size
    ∙ get_or-append_left bytes _ (i - offset) 0 (omega arith)

get_or-write_at_below :
    (offset i : ℕ) (bytes buffer : List ℕ)
    → offset + length bytes ≤ length buffer
    → i < offset
    → get_or (write_at offset bytes buffer) i 0 ≡ get_or buffer i 0
get_or-write_at_below offset i bytes buffer h low =
    get_or-append_left (take offset buffer) _ i 0 (omega (arith, prefix_size offset bytes buffer h))
    ∙ get_or-take offset buffer i 0 low

get_or-write_at_above :
    (offset i : ℕ) (bytes buffer : List ℕ)
    → offset + length bytes ≤ length buffer
    → offset + length bytes ≤ i
    → get_or (write_at offset bytes buffer) i 0 ≡ get_or buffer i 0
get_or-write_at_above offset i bytes buffer h high =
    let size : length (take offset buffer) ≡ offset = prefix_size offset bytes buffer h in
    let back : offset + length bytes + (i - offset - length bytes) ≡ i = omega arith in
    get_or-append_right (take offset buffer) _ i 0 (omega (arith, size))
    ∙ ap (λ t. get_or (bytes ++ drop (offset + length bytes) buffer) (i - t) 0) size
    ∙ get_or-append_right bytes _ (i - offset) 0 (omega arith)
    ∙ get_or-drop (offset + length bytes) buffer (i - offset - length bytes) 0
    ∙ ap (λ t. get_or buffer t 0) back

byte_in : (m : EvmMemory) (i : ℕ) → i < m.size → byte m i ≡ get_or m.buffer i 0
byte_in m i h = get_or-take m.size m.buffer i 0 h

byte_out : (m : EvmMemory) (i : ℕ) → m.size ≤ i → byte m i ≡ 0
byte_out m i h = get_or-take_out m.size m.buffer i 0 h

-- Storing bytes within the size of a valid memory: the bytes at the indices of the range are the stored ones, and
-- every other index reads as before.
pub store_unsafe-byte :
    (offset : ℕ) (bytes : List ℕ) (m : EvmMemory) (i : ℕ)
    → IsValid m
    → offset + length bytes ≤ m.size
    → byte (store_unsafe offset bytes m) i ≡ (
        if ltb i offset
        then byte m i
        else if ltb i (offset + length bytes)
        then get_or bytes (i - offset) 0
        else byte m i)
unfolding store_unsafe
store_unsafe-byte offset bytes m i v h =
    let stored = record m { buffer = write_at offset bytes m.buffer } in
    let room : offset + length bytes ≤ length m.buffer = omega (arith, v.in_use, v.bytes) in
    elim (Bool-cases (ltb i offset)) [
      | inl below ↦
          let low : i < m.size = omega (arith, ltb→lt _ _ below) in
          rw below (
            byte_in stored i low
            ∙ get_or-write_at_below offset i bytes m.buffer room (ltb→lt _ _ below)
            ∙ sym (byte_in m i low))
      | inr above ↦ rw above (elim (Bool-cases (ltb i (offset + length bytes))) [
        | inl inside ↦ rw inside (
            byte_in stored i (omega (arith, ltb→lt _ _ inside))
            ∙ get_or-write_at_in offset i bytes m.buffer room (ltb→le _ _ above)
                (ltb→lt _ _ inside))
        | inr outside ↦ rw outside (elim (Bool-cases (ltb i m.size)) [
          | inl used ↦
              byte_in stored i (ltb→lt _ _ used)
              ∙ get_or-write_at_above offset i bytes m.buffer room (ltb→le _ _ outside)
              ∙ sym (byte_in m i (ltb→lt _ _ used))
          | inr unused ↦
              byte_out stored i (ltb→le _ _ unused) ∙ sym (byte_out m i (ltb→le _ _ unused))
        ])
      ])
    ]
