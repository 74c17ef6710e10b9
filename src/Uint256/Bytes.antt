-- ===== src/Uint256/Bytes.antt =====
-- `uint256_from_bytes_be` and `uint256_to_bytes_be` of src/types/uint256.c. A byte buffer is the
-- list of its bytes; a null pointer comes with length 0.
pub mod RoundTrip
use div.Common.{
  ℕ, zero, suc, ◌+◌, ◌-◌, ◌*◌, ◌/◌, ◌^◌, ◌<◌, List, [], ◌∷◌, ◌++◌, length, take, drop, replicate,
  ltb, if◌then◌else◌, bit_and, ◌>>>◌,
}
use div.Common.BigEndian.{shift_in}
use div.Uint256.{Uint256, from_limbs}

-- The limb read from the eight bytes at `offset`.
unfoldable pub limb_at : List ℕ → ℕ → ℕ
limb_at padded offset = shift_in 0 (take 8 (drop offset padded))

-- A longer input keeps its last 32 bytes, a shorter one is padded with zeros in front.
unfoldable pub pad : List ℕ → List ℕ
pad bytes =
    let clamped = if ltb 32 (length bytes) then drop (length bytes - 32) bytes else bytes in
    replicate (32 - length clamped) 0 ++ clamped

unfoldable pub from_bytes_be : List ℕ → Uint256
unfolding limb_at
from_bytes_be bytes =
    let padded = pad bytes in
    from_limbs (limb_at padded 24) (limb_at padded 16) (limb_at padded 8) (limb_at padded 0)

-- The loop that writes a limb from its last byte to its first, in front of what is written.
unfoldable pub write_limb : ℕ → ℕ → List ℕ → List ℕ
write_limb zero limb out = out
write_limb (suc left) limb out = write_limb left (limb >>> 8) (bit_and limb 0xff ∷ out)

unfoldable pub to_bytes_be : Uint256 → List ℕ
to_bytes_be value =
    write_limb 8 value.limb3 []
    ++ (write_limb 8 value.limb2 [] ++ (write_limb 8 value.limb1 [] ++ write_limb 8 value.limb0 []))
