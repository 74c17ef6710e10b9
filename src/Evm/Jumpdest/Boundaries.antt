-- ===== src/Evm/Jumpdest/Boundaries.antt =====
-- The bitmap marks the JUMPDEST bytes at which an instruction begins, and no others.
use div.Common.{
  ℕ, ◌+◌, ◌-◌, ◌^◌, ◌<◌, ◌≡◌, ◌↔◌, ◌⊎◌, inl, inr, sym, ap, ◌∙◌, arith, false, ◌&&◌, List, leb, ◌==◌,
  if◌then◌else◌, get_or, length, Bool-cases,
}
use div.Evm.Jumpdest.{set_bit, scan_round}
use div.Evm.Jumpdest.Bitmap.{digit_of, IsBitmap, set_bit-IsBitmap, set_bit_self, set_bit_ne}

-- An instruction is its opcode, and the data of a PUSH1 to PUSH32.
abbrev pub instruction_size : ℕ → ℕ
instruction_size opcode = if leb 0x60 opcode && leb opcode 0x7f then opcode - 0x60 + 2 else 1

-- From the position `pc` one reaches `dest` by going from instruction to instruction.
pub data Reaches (code : List ℕ) (dest : ℕ) : ℕ → Type 0 where
  here : (pc : ℕ) → pc ≡ dest → Reaches code dest pc
  next :
      (pc : ℕ)
      → pc < length code
      → Reaches code dest (pc + instruction_size (get_or code pc 0))
      → Reaches code dest pc

-- An instruction that begins at `dest`, on the way from `pc`, is a JUMPDEST.
abbrev pub Marked : List ℕ → ℕ → ℕ → Type 0
Marked code pc dest = (get_or code dest 0 ≡ 0x5b) × Reaches code dest pc

-- One round: the next instruction, and the bit of this one if it is a JUMPDEST.
pub record Round (code : List ℕ) (pc : ℕ) (bitmap : List ℕ) (r : List ℕ × ℕ) : Type 0 where
  pub forward : r.1 ≡ pc + instruction_size (get_or code pc 0)
  pub valid : IsBitmap (length code) r.0
  pub marks :
      (i : ℕ)
      → (digit_of r.0 i ≡ 1) ↔ ((digit_of bitmap i ≡ 1) ⊎ ((i ≡ pc) × (get_or code pc 0 ≡ 0x5b)))

mark_iff :
    (code : List ℕ) (pc : ℕ) (bitmap : List ℕ)
    → IsBitmap (length code) bitmap
    → pc < length code
    → get_or code pc 0 ≡ 0x5b
    → (i : ℕ)
    → (digit_of (set_bit bitmap pc) i ≡ 1)
      ↔ ((digit_of bitmap i ≡ 1) ⊎ ((i ≡ pc) × (get_or code pc 0 ≡ 0x5b)))
mark_iff code pc bitmap v h op i = elim (Bool-cases (i == pc)) [
  | inl same ↦
      let e : i ≡ pc = ground (arith, same) in
      (
        (λ t. inr (e, op)),
        λ t. ap (digit_of (set_bit bitmap pc)) e ∙ set_bit_self (length code) pc bitmap v h,
      )
  | inr other ↦
      let kept = set_bit_ne (length code) pc bitmap v h i (λ e. ground (arith, other, e)) in
      (
        (λ t. inl (sym kept ∙ t)),
        λ t. elim t [ inl old ↦ kept ∙ old | inr new ↦ absurd (ground (arith, other, new.0)) ],
      )
]

unmarked_iff :
    (code : List ℕ) (pc : ℕ) (bitmap : List ℕ)
    → (get_or code pc 0 == 0x5b) ≡ false
    → (i : ℕ)
    → (digit_of bitmap i ≡ 1) ↔ ((digit_of bitmap i ≡ 1) ⊎ ((i ≡ pc) × (get_or code pc 0 ≡ 0x5b)))
unmarked_iff code pc bitmap other i =
    ((λ t. inl t), λ t. elim t [ inl old ↦ old | inr new ↦ absurd (ground (arith, other, new.1)) ])

pub scan_round-Round :
    (code : List ℕ) (pc : ℕ) (bitmap : List ℕ)
    → IsBitmap (length code) bitmap
    → pc < length code
    → length code < 2 ^ 63
    → Round code pc bitmap (scan_round code pc bitmap)
unfolding scan_round
scan_round-Round code pc bitmap v h b = elim (Bool-cases (get_or code pc 0 == 0x5b)) [
  | inl jumpdest ↦
      let op : get_or code pc 0 ≡ 0x5b = ground (arith, jumpdest) in
      rw jumpdest (record {
        forward = rw op (omega arith);
        valid = set_bit-IsBitmap (length code) pc bitmap v h;
        marks = mark_iff code pc bitmap v h op;
      })
  | inr other ↦
      rw other (elim (Bool-cases (leb 0x60 (get_or code pc 0) && leb (get_or code pc 0) 0x7f)) [
        | inl push ↦ rw push (record {
          forward = rw push (ground (arith, push));
          valid = v;
          marks = unmarked_iff code pc bitmap other;
        })
        | inr single ↦ rw single (record {
          forward = rw single (omega arith);
          valid = v;
          marks = unmarked_iff code pc bitmap other;
        })
      ])
]
