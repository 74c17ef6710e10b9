-- ===== src/Rlp/Encoding.antt =====
-- The encoding of a byte string as RLP defines it, and the encoder that produces it.
use div.Common.{
  ℕ, ◌+◌, ◌^◌, ◌≤◌, ◌<◌, ◌≡◌, refl, sym, ap, ◌∙◌, arith, Bool, true, false, ◌&&◌, List, [], ◌∷◌,
  ◌++◌, ltb, leb, ◌==◌, if◌then◌else◌, Bool-cases, inl, inr, ltb→lt, ltb→le, length, length-append,
  get_or, u8, u64,
}
use div.Types.Bytes.{Bytes, init_arena, reserve, append, append_byte, append_within, reserve_first}
use div.Rlp.{length_of_length}
use div.Rlp.Encode.{be_bytes, encode_bytes}
use div.Rlp.Lengths.{length_of_length-IsByteCount, be_bytes-Holds, write_length_bytes-be_bytes}

-- A byte below 0x80 stands for itself; fewer than 56 bytes follow a prefix with their number;
-- more follow a prefix with the size of their number, and the number.
abbrev pub encoding : List ℕ → List ℕ
encoding xs =
    if length xs == 1 && leb (get_or xs 0 0) 0x7f
    then xs
    else if ltb (length xs) 56
    then (0x80 + length xs) ∷ xs
    else (0xb7 + length_of_length (length xs))
      ∷ (be_bytes (length_of_length (length xs)) (length xs) ++ xs)

abbrev pub is_single : List ℕ → Bool
is_single xs = length xs == 1 && leb (get_or xs 0 0) 0x7f

pub encoding_single : (xs : List ℕ) → is_single xs ≡ true → encoding xs ≡ xs
encoding_single xs single = rw single refl

pub encoding_short :
    (xs : List ℕ)
    → is_single xs ≡ false
    → ltb (length xs) 56 ≡ true
    → encoding xs ≡ (0x80 + length xs) ∷ xs
encoding_short xs not_single short = rw (not_single, short) refl

pub encoding_long :
    (xs : List ℕ)
    → is_single xs ≡ false
    → ltb (length xs) 56 ≡ false
    → encoding xs
      ≡ (0xb7 + length_of_length (length xs))
        ∷ (be_bytes (length_of_length (length xs)) (length xs) ++ xs)
encoding_long xs not_single long = rw (not_single, long) refl

pub length-encoding_long :
    (xs : List ℕ)
    → is_single xs ≡ false
    → ltb (length xs) 56 ≡ false
    → length (encoding xs) ≡ 1 + length_of_length (length xs) + length xs
length-encoding_long xs not_single long =
    let n : ℕ = length_of_length (length xs) in
    ap length (encoding_long xs not_single long)
    ∙ omega (arith, length-append (be_bytes n (length xs)) xs, (be_bytes-Holds n (length xs)).1)

-- The header takes at most nine bytes.
pub encoding_bound : (xs : List ℕ) → length xs < 2 ^ 63 → length (encoding xs) ≤ 9 + length xs
encoding_bound xs b = elim (Bool-cases (is_single xs)) [
  | inl single ↦ omega (arith, ap length (encoding_single xs single))
  | inr not_single ↦ elim (Bool-cases (ltb (length xs) 56)) [
    | inl short ↦ omega (arith, ap length (encoding_short xs not_single short))
    | inr long ↦ omega (
      arith,
      length-encoding_long xs not_single long,
      length_of_length-IsByteCount (length xs) (omega arith) (ltb→le _ _ long),
    )
  ]
]

module _ (alloc : ℕ → Bool) where
  abbrev pub filled : ℕ → List ℕ → Bytes
  filled n xs = record { stored = xs; capacity = n; allocated = true }

  pub append-filled :
      (n : ℕ) (xs ys : List ℕ)
      → length xs + length ys ≤ n
      → n < 2 ^ 64
      → (append alloc ys (filled n xs)).1 ≡ filled n (xs ++ ys)
  append-filled n xs ys h k = append_within alloc ys (filled n xs) h k

  pub start_filled :
      (n p : ℕ)
      → 1 ≤ n
      → n < 2 ^ 64
      → alloc n ≡ true
      → (append_byte alloc p (reserve alloc n init_arena).1).1 ≡ filled n (p ∷ [])
  unfolding append_byte
  start_filled n p h k room =
      ap (λ b. (append alloc (p ∷ []) b).1) (reserve_first alloc n h room)
      ∙ append-filled n [] (p ∷ []) h k

  encode_single :
      (x : ℕ) → leb x 0x7f ≡ true → alloc 1 ≡ true → (encode_bytes alloc (x ∷ [])).stored ≡ x ∷ []
  unfolding encode_bytes
  encode_single x small room =
      rw small (ap (λ b. b.stored) (start_filled 1 x (omega arith) (omega arith) room))

  encode_short :
      (xs : List ℕ)
      → is_single xs ≡ false
      → ltb (length xs) 56 ≡ true
      → alloc (1 + length xs) ≡ true
      → (encode_bytes alloc xs).stored ≡ (0x80 + length xs) ∷ xs
  unfolding encode_bytes
  encode_short xs not_single short room =
      let few : length xs < 56 = ltb→lt _ _ short in
      let size : u64 (1 + length xs) ≡ 1 + length xs = omega arith in
      let prefix : u8 (0x80 + length xs) ≡ 0x80 + length xs = omega arith in
      let start =
        start_filled (1 + length xs) (0x80 + length xs) (omega arith) (omega arith) room in
      rw (not_single, short, size, prefix, start)
        (elim (Bool-cases (ltb 0 (length xs))) [
          | inl some_bytes ↦ rw some_bytes (
              ap (λ b. b.stored)
                (append-filled (1 + length xs) ((0x80 + length xs) ∷ []) xs (omega arith)
                  (omega arith)))
          | inr empty ↦
              rw empty (ap (λ t. (0x80 + length xs) ∷ t) (sym (nothing xs (ltb→le _ _ empty))))
        ])
    where
      nothing : (ys : List ℕ) → length ys ≤ 0 → ys ≡ []
      nothing [] h = refl
      nothing (y ∷ ys) h = absurd (omega arith)

  encode_long :
      (xs : List ℕ)
      → is_single xs ≡ false
      → ltb (length xs) 56 ≡ false
      → length xs < 2 ^ 63
      → alloc (1 + length_of_length (length xs) + length xs) ≡ true
      → (encode_bytes alloc xs).stored
        ≡ (0xb7 + length_of_length (length xs))
          ∷ (be_bytes (length_of_length (length xs)) (length xs) ++ xs)
  unfolding encode_bytes
  encode_long xs not_single long b room =
      let n : ℕ = length_of_length (length xs) in
      let total : ℕ = 1 + n + length xs in
      let count = length_of_length-IsByteCount (length xs) (omega arith) (ltb→le _ _ long) in
      let header : List ℕ = be_bytes n (length xs) in
      let header_size : length header ≡ n = (be_bytes-Holds n (length xs)).1 in
      let size : u64 (1 + n + length xs) ≡ 1 + n + length xs = omega (arith, count) in
      let prefix : u8 (0xb7 + n) ≡ 0xb7 + n = omega (arith, count) in
      let start = start_filled total (0xb7 + n) (omega arith) (omega (arith, count)) room in
      let with_header =
        append-filled total ((0xb7 + n) ∷ []) header (omega (arith, header_size))
          (omega (arith, count)) in
      let with_bytes =
        append-filled total ((0xb7 + n) ∷ header) xs (omega (arith, header_size))
          (omega (arith, count)) in
      rw
        (
          not_single,
          long,
          size,
          prefix,
          start,
          write_length_bytes-be_bytes (length xs),
          with_header,
        )
        (ap (λ b'. b'.stored) with_bytes)

  -- With room for the encoding in the arena, fewer than 2 ^ 63 bytes are encoded as RLP says.
  pub encode_bytes-encoding :
      (xs : List ℕ)
      → length xs < 2 ^ 63
      → alloc (length (encoding xs)) ≡ true
      → (encode_bytes alloc xs).stored ≡ encoding xs
  encode_bytes-encoding xs b room = elim (Bool-cases (is_single xs)) [
    | inl single ↦
        one_byte xs single (ap (λ t. alloc (length t)) (sym (encoding_single xs single)) ∙ room)
        ∙ sym (encoding_single xs single)
    | inr not_single ↦ elim (Bool-cases (ltb (length xs) 56)) [
      | inl short ↦
          let size : length (encoding xs) ≡ 1 + length xs =
            ap length (encoding_short xs not_single short) ∙ omega arith in
          encode_short xs not_single short (ap alloc (sym size) ∙ room)
          ∙ sym (encoding_short xs not_single short)
      | inr long ↦
          encode_long xs not_single long b
            (ap alloc (sym (length-encoding_long xs not_single long)) ∙ room)
          ∙ sym (encoding_long xs not_single long)
    ]
  ]
    where
      one_byte :
          (ys : List ℕ)
          → is_single ys ≡ true
          → alloc (length ys) ≡ true
          → (encode_bytes alloc ys).stored ≡ ys
      one_byte [] single k = absurd (ground (arith, single))
      one_byte (y ∷ []) single k = encode_single y single k
      one_byte (y ∷ z ∷ ys) single k = absurd (ground (arith, single))
