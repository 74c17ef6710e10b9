-- ===== src/Evm/Jumpdest/Bitmap.antt =====
-- The bits of the bitmap as binary digits, and what setting one does.
use div.Common.{
  ℕ, zero, suc, ◌*◌, ◌/◌, ◌%◌, ◌^◌, ◌≤◌, ◌<◌, ◌≡◌, ◌≢◌, ◌↔◌, inl, inr, sym, ap, ◌∙◌, arith, true,
  List, ◌==◌, ◌!=◌, get_or, length, All, All-get_or, All-set, length-set, get_or-set_self,
  get_or-set_ne, Bool-cases, IsU8, u8, bit_and, bit_or, ◌<<<◌,
}
use div.Common.Bits.Single.{
  digit, digit-bound, bit_and_pow, digit-bit_or_self, digit-bit_or_ne, bit_or-bound,
}
use div.Evm.Jumpdest.{bit_set, set_bit}
use native.Mathlib.Nat.{one-le-pow, pow-le-pow_right}

-- A bit of the bitmap as a binary digit.
abbrev pub digit_of : List ℕ → ℕ → ℕ
digit_of bitmap i = digit (get_or bitmap (i / 8) 0) (i % 8)

digit_test : (d p : ℕ) → d < 2 → 1 ≤ p → ((d * p != 0) ≡ true) ↔ (d ≡ 1)
digit_test zero p h k = ground arith
digit_test (suc zero) p h k = ground arith
digit_test (suc (suc d)) p h k = absurd (omega arith)

pub bit_set_iff : (bitmap : List ℕ) (i : ℕ) → (bit_set bitmap i ≡ true) ↔ (digit_of bitmap i ≡ 1)
bit_set_iff bitmap i =
    let byte : ℕ = get_or bitmap (i / 8) 0 in
    let positive : 1 ≤ 2 ^ (i % 8) = one-le-pow (i % 8) 2 (omega arith) in
    let one_bit : 1 <<< (i % 8) ≡ 2 ^ (i % 8) = omega arith in
    let bit : bit_and byte (1 <<< (i % 8)) ≡ digit byte (i % 8) * 2 ^ (i % 8) =
      ap (bit_and byte) one_bit ∙ bit_and_pow byte (i % 8) in
    rw bit (digit_test (digit byte (i % 8)) (2 ^ (i % 8)) (digit-bound byte (i % 8)) positive)

-- The bitmap while the scan runs: bytes, and room for a bit per byte of code.
abbrev pub IsBitmap : ℕ → List ℕ → Type 0
IsBitmap code_size bitmap = All IsU8 bitmap × (code_size ≤ 8 * length bitmap)

module _ (code_size pc : ℕ) (bitmap : List ℕ) (v : IsBitmap code_size bitmap)
    (h : pc < code_size) where
  old_byte : IsU8 (get_or bitmap (pc / 8) 0)
  old_byte = All-get_or IsU8 bitmap (pc / 8) 0 v.0 (omega arith)

  bit_bound : 2 ^ (pc % 8) < 2 ^ 8
  bit_bound =
      omega (arith, pow-le-pow_right {n = 2} (omega arith) {i = pc % 8} {j = 7} (omega arith))

  new_byte :
      u8 (bit_or (get_or bitmap (pc / 8) 0) (1 <<< (pc % 8)))
      ≡ bit_or (get_or bitmap (pc / 8) 0) (2 ^ (pc % 8))
  new_byte =
      let one_bit : 1 <<< (pc % 8) ≡ 2 ^ (pc % 8) = omega arith in
      ap (λ t. u8 (bit_or (get_or bitmap (pc / 8) 0) t)) one_bit
      ∙ omega (arith, bit_or-bound 8 (get_or bitmap (pc / 8) 0) (2 ^ (pc % 8)) old_byte bit_bound)

  pub set_bit-IsBitmap : IsBitmap code_size (set_bit bitmap pc)
  set_bit-IsBitmap =
      let byte : ℕ = u8 (bit_or (get_or bitmap (pc / 8) 0) (1 <<< (pc % 8))) in
      (
        All-set IsU8 bitmap (pc / 8) byte v.0 (omega arith),
        omega (arith, v.1, length-set bitmap (pc / 8) byte),
      )

  written : get_or (set_bit bitmap pc) (pc / 8) 0 ≡ bit_or (get_or bitmap (pc / 8) 0) (2 ^ (pc % 8))
  written = get_or-set_self bitmap (pc / 8) _ 0 (omega (arith, v.1, h)) ∙ new_byte

  pub set_bit_self : digit_of (set_bit bitmap pc) pc ≡ 1
  set_bit_self =
      ap (λ t. digit t (pc % 8)) written ∙ digit-bit_or_self (get_or bitmap (pc / 8) 0) (pc % 8)

  pub set_bit_ne : (i : ℕ) → i ≢ pc → digit_of (set_bit bitmap pc) i ≡ digit_of bitmap i
  set_bit_ne i ne = elim (Bool-cases (i / 8 == pc / 8)) [
    | inl same ↦
        let byte : i / 8 ≡ pc / 8 = ground (arith, same) in
        ap (λ t. digit (get_or (set_bit bitmap pc) t 0) (i % 8)) byte
        ∙ ap (λ t. digit t (i % 8)) written
        ∙ digit-bit_or_ne (get_or bitmap (pc / 8) 0) (pc % 8) (i % 8)
            (λ e. ne (omega (arith, e, byte)))
        ∙ ap (λ t. digit (get_or bitmap t 0) (i % 8)) (sym byte)
    | inr other ↦
        ap (λ t. digit t (i % 8))
          (get_or-set_ne bitmap (pc / 8) (i / 8) _ 0 (λ e. ground (arith, other, e)))
  ]
