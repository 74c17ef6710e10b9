-- ===== src/Evm/Jumpdest.antt =====
-- src/evm/jumpdest.h: the bitmap of the positions that a jump may go to. `alloc n` says whether
-- the arena has `n` bytes; `none` where the code returns a null pointer.
pub mod Bitmap
pub mod Boundaries
pub mod Scan
use div.Common.{
  ℕ, zero, suc, ◌+◌, ◌-◌, ◌*◌, ◌/◌, ◌%◌, ◌^◌, Bool, true, false, ◌&&◌, List, Option, none, some,
  ltb, leb, ◌==◌, ◌!=◌, if◌then◌else◌, get_or, set, replicate, length, u8, u64, bit_and, bit_or,
  ◌<<<◌,
}

abbrev pub op_jumpdest_code : ℕ
op_jumpdest_code = 0x5b

abbrev pub op_push1_code : ℕ
op_push1_code = 0x60

abbrev pub op_push32_code : ℕ
op_push32_code = 0x7f

abbrev pub bitmap_size : ℕ → ℕ
bitmap_size code_size = u64 (code_size + 7) / 8

-- `bitmap[dest / 8] & (1U << (dest % 8))` is not 0.
abbrev pub bit_set : List ℕ → ℕ → Bool
bit_set bitmap dest = bit_and (get_or bitmap (dest / 8) 0) (1 <<< (dest % 8)) != 0

unfoldable pub is_valid : List ℕ → ℕ → ℕ → Bool
is_valid bitmap code_size dest = if leb code_size dest then false else bit_set bitmap dest

-- `bitmap[pc / 8] |= (1U << (pc % 8))`.
abbrev pub set_bit : List ℕ → ℕ → List ℕ
set_bit bitmap pc = set bitmap (pc / 8) (u8 (bit_or (get_or bitmap (pc / 8) 0) (1 <<< (pc % 8))))

-- One round of the scan: the bitmap and the next position.
unfoldable pub scan_round : List ℕ → ℕ → List ℕ → List ℕ × ℕ
scan_round code pc bitmap =
    let opcode = get_or code pc 0 in
    if opcode == op_jumpdest_code
    then (set_bit bitmap pc, u64 (pc + 1))
    else if leb op_push1_code opcode && leb opcode op_push32_code
    then (let push_size = u64 ((opcode - op_push1_code) + 1) in
        (bitmap, u64 (pc + u64 (1 + push_size))))
    else (bitmap, u64 (pc + 1))

-- The `for` loop; `none` means that the fuel ran out.
unfoldable pub scan : ℕ → List ℕ → ℕ → List ℕ → Option (List ℕ)
scan zero code pc bitmap = none
scan (suc fuel) code pc bitmap =
    let (bitmap', pc') = scan_round code pc bitmap in
    let rest = scan fuel code pc' bitmap' in if ltb pc (length code) then rest else some bitmap

-- Every round goes forward, so that the length of the code bounds the rounds.
unfoldable pub compute_bitmap : (ℕ → Bool) → List ℕ → Option (Option (List ℕ))
compute_bitmap alloc code =
    if length code == 0
    then some none
    else if alloc (bitmap_size (length code))
    then elim (scan (suc (length code)) code 0 (replicate (bitmap_size (length code)) 0)) [
      | none ↦ none
      | some bitmap ↦ some (some bitmap)
    ]
    else some none
