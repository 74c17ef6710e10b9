-- ===== src/Rlp/Encode.antt =====
-- src/rlp/encode.c: the encoders, which write into a byte string of an arena. `alloc n` says
-- whether the arena has `n` bytes.
use div.Common.{
  ℕ, zero, suc, ◌+◌, ◌*◌, Bool, ◌&&◌, List, [], ◌∷◌, ltb, leb, ◌==◌, if◌then◌else◌, length, get_or,
  u8, u64, ◌>>>◌,
}
use div.Types.Bytes.{Bytes, init_arena, reserve, append, append_byte}
use div.Rlp.{
  rlp_small_prefix_barrier, rlp_empty_string_byte, rlp_single_byte_max, rlp_short_string_max,
  length_of_length, byte_length_u64,
}

-- The bytes that a loop from `i = num_bytes - 1` down to 0 takes out of a word.
unfoldable pub be_bytes : ℕ → ℕ → List ℕ
be_bytes zero value = []
be_bytes (suc i) value = u8 (value >>> (i * 8)) ∷ be_bytes i value

-- What the function writes to the front of its buffer.
unfoldable pub write_length_bytes : ℕ → List ℕ
write_length_bytes len =
    let num_bytes = length_of_length len in
    if num_bytes == 1
    then u8 len ∷ []
    else if num_bytes == 2
    then u8 (len >>> 8) ∷ u8 len ∷ []
    else if num_bytes == 3
    then u8 (len >>> 16) ∷ u8 (len >>> 8) ∷ u8 len ∷ []
    else if num_bytes == 4
    then u8 (len >>> 24) ∷ u8 (len >>> 16) ∷ u8 (len >>> 8) ∷ u8 len ∷ []
    else be_bytes num_bytes len

module _ (alloc : ℕ → Bool) where
  -- The results of the calls are not looked at.
  abbrev pub reserve! : ℕ → Bytes → Bytes
  reserve! capacity b = (reserve alloc capacity b).1

  abbrev pub append! : List ℕ → Bytes → Bytes
  append! bytes b = (append alloc bytes b).1

  abbrev pub append_byte! : ℕ → Bytes → Bytes
  append_byte! byte b = (append_byte alloc byte b).1

  unfoldable pub encode_bytes : List ℕ → Bytes
  encode_bytes payload =
      let len = length payload in
      if len == 1 && leb (get_or payload 0 0) rlp_single_byte_max
      then append_byte! (get_or payload 0 0) (reserve! 1 init_arena)
      else if ltb len rlp_small_prefix_barrier
      then (let result =
            append_byte! (u8 (rlp_empty_string_byte + len)) (reserve! (u64 (1 + len)) init_arena) in
          if ltb 0 len then append! payload result else result)
      else (let len_bytes = length_of_length len in
          let result =
            append_byte! (u8 (rlp_short_string_max + len_bytes))
              (reserve! (u64 (1 + len_bytes + len)) init_arena) in
          append! payload (append! (write_length_bytes len) result))

  -- The loop that appends the bytes of the value.
  unfoldable pub append_be : ℕ → ℕ → Bytes → Bytes
  append_be zero value result = result
  append_be (suc i) value result = append_be i value (append_byte! (u8 (value >>> (i * 8))) result)

  unfoldable pub encode_u64 : ℕ → Bytes
  encode_u64 value =
      if value == 0
      then append_byte! rlp_empty_string_byte (reserve! 1 init_arena)
      else if ltb value 128
      then append_byte! (u8 value) (reserve! 1 init_arena)
      else (let num_bytes = byte_length_u64 value in
          append_be num_bytes value (
            append_byte! (u8 (rlp_empty_string_byte + num_bytes))
              (reserve! (1 + num_bytes) init_arena)))
