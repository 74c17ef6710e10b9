-- ===== src/Trie/Nibbles.antt =====
-- src/trie/nibbles.c: sequences of nibbles, as lists. The empty list is NIBBLES_EMPTY; `alloc n`
-- says whether the arena has `n` bytes.
pub mod Laws
use div.Common.{
  ℕ, zero, suc, ◌+◌, ◌-◌, ◌*◌, ◌/◌, ◌%◌, ◌^◌, Bool, true, false, ◌||◌, List, [], ◌∷◌, ◌++◌, Option,
  none, some, ltb, leb, ◌==◌, if◌then◌else◌, length, take, drop, u8, u64, u64_max, bit_and, bit_or,
  ◌<<<◌, ◌>>>◌, min,
}
use div.Common.Int.{ℤ}

-- The loop that writes the two nibbles of each byte.
unfoldable pub split : List ℕ → List ℕ
split [] = []
split (byte ∷ bytes) = bit_and (byte >>> 4) 0x0f ∷ bit_and byte 0x0f ∷ split bytes

-- The loop that joins pairs of nibbles; an odd one out is dropped.
unfoldable pub join : List ℕ → List ℕ
join [] = []
join (high ∷ []) = []
join (high ∷ low ∷ nibbles) = u8 (bit_or (high <<< 4) low) ∷ join nibbles

unfoldable pub common_prefix : List ℕ → List ℕ → ℕ
common_prefix [] b = 0
common_prefix (x ∷ a) [] = 0
common_prefix (x ∷ a) (y ∷ b) = let rest = common_prefix a b in if x == y then suc rest else 0

-- -1, 0 and 1 of the comparison.
unfoldable pub cmp : List ℕ → List ℕ → ℤ
cmp [] [] = ℤ.pos 0
cmp [] (y ∷ b) = ℤ.negsuc 0
cmp (x ∷ a) [] = ℤ.pos 1
cmp (x ∷ a) (y ∷ b) =
    let rest = cmp a b in if ltb x y then ℤ.negsuc 0 else if ltb y x then ℤ.pos 1 else rest

unfoldable pub to_bytes : List ℕ → List ℕ
to_bytes nibbles = if length nibbles == 0 then [] else join nibbles

module _ (alloc : ℕ → Bool) where
  unfoldable pub from_bytes : List ℕ → List ℕ
  from_bytes bytes =
      if length bytes == 0 then [] else if alloc (u64 (length bytes * 2)) then split bytes else []

  unfoldable pub to_bytes_alloc : List ℕ → Option (List ℕ)
  to_bytes_alloc nibbles =
      if length nibbles == 0
      then none
      else if alloc (length nibbles / 2)
      then some (to_bytes nibbles)
      else none

  -- With an arena the slice is a copy, without one a view.
  unfoldable pub slice : Bool → List ℕ → ℕ → ℕ → List ℕ
  slice in_arena src start len =
      if length src == 0 || leb (length src) start
      then []
      else (let remaining = length src - start in
          let len' = if len == u64_max || ltb remaining len then remaining else len in
          if len' == 0
          then []
          else (let copied = if alloc len' then take len' (drop start src) else [] in
              if in_arena then copied else take len' (drop start src)))

  unfoldable pub copy : List ℕ → List ℕ
  copy src = if length src == 0 then [] else if alloc (length src) then src else []

  unfoldable pub concat : List ℕ → List ℕ → List ℕ
  concat a b =
      if length a == 0
      then copy b
      else if length b == 0
      then copy a
      else if alloc (u64 (length a + length b))
      then a ++ b
      else []

  unfoldable pub concat3 : List ℕ → ℕ → List ℕ → List ℕ
  concat3 prefix middle suffix =
      if alloc (u64 (u64 (length prefix + 1) + length suffix))
      then prefix ++ (middle ∷ suffix)
      else []
