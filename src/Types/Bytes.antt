-- ===== src/Types/Bytes.antt =====
-- include/div0/types/bytes.h and src/types/bytes.c: byte strings that are backed by an arena, so
-- that their buffer is allocated once. `alloc n` says whether the arena has `n` bytes; the
-- variant on `malloc` is not modelled.
use div.Common.{
  ℕ, ◌+◌, ◌^◌, ◌≤◌, ◌<◌, ◌≡◌, refl, sym, ap, arith, Bool, true, false, List, [], ◌∷◌, ◌++◌, ltb,
  leb, ◌==◌, if◌then◌else◌, length, u64, lt→leb, append-nil,
}

-- `stored` is the first `size` bytes of the buffer, and `allocated` whether there is a buffer.
pub record Bytes : Type 0 where
  pub stored : List ℕ
  pub capacity : ℕ
  pub allocated : Bool

abbrev pub init_arena : Bytes
init_arena = record { stored = []; capacity = 0; allocated = false }

module _ (alloc : ℕ → Bool) where
  unfoldable pub reserve : ℕ → Bytes → Bool × Bytes
  reserve capacity b =
      if leb capacity b.capacity
      then (true, b)
      else if b.allocated
      then (false, b)
      else if alloc capacity
      then (true, record b { capacity = capacity; allocated = true })
      else (false, b)

  -- The source tests a null pointer too, which comes with length 0.
  unfoldable pub append : List ℕ → Bytes → Bool × Bytes
  append bytes b =
      if length bytes == 0
      then (true, b)
      else (let new_size = u64 (length b.stored + length bytes) in
          if ltb new_size (length b.stored)
          then (false, b)
          else (let (reserved, b') = reserve new_size b in
              if reserved then (true, record b' { stored = b'.stored ++ bytes }) else (false, b')))

  unfoldable pub append_byte : ℕ → Bytes → Bool × Bytes
  append_byte byte b = append (byte ∷ []) b

  -- Appending within the capacity adds the bytes at the end.
  pub append_within :
      (bytes : List ℕ) (b : Bytes)
      → length b.stored + length bytes ≤ b.capacity
      → b.capacity < 2 ^ 64
      → (append bytes b).1 ≡ record b { stored = b.stored ++ bytes }
  unfolding append reserve
  append_within [] b h k = ap (λ t. record b { stored = t }) (sym (append-nil b.stored))
  append_within (x ∷ xs) b h k =
      let some_bytes : (length (x ∷ xs) == 0) ≡ false = ground arith in
      let exact : u64 (length b.stored + length (x ∷ xs)) ≡ length b.stored + length (x ∷ xs) =
        omega arith in
      let no_overflow : ltb (length b.stored + length (x ∷ xs)) (length b.stored) ≡ false =
        ground arith in
      let room : leb (length b.stored + length (x ∷ xs)) b.capacity ≡ true = ground arith in
      rw (some_bytes, exact, no_overflow, room) refl

  -- A first reservation that the arena grants.
  pub reserve_first :
      (n : ℕ)
      → 0 < n
      → alloc n ≡ true
      → (reserve n init_arena).1 ≡ record { stored = []; capacity = n; allocated = true }
  unfolding reserve
  reserve_first n pos room = rw (lt→leb 0 n pos, room) refl

  -- A first reservation that the arena refuses.
  pub reserve_refused : (n : ℕ) → alloc n ≡ false → (reserve n init_arena).1 ≡ init_arena
  unfolding reserve
  reserve_refused n refused = ground (arith, refused)
