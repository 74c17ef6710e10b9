-- ===== src/Evm/Jumpdest/Scan.antt =====
-- The whole scan, and the test that the jump instructions make.
use div.Common.{
  ℕ, zero, suc, ◌+◌, ◌/◌, ◌%◌, ◌^◌, ◌≤◌, ◌<◌, ◌≡◌, ◌↔◌, ◌⊎◌, inl, inr, refl, sym, ap, ◌∙◌, arith,
  Bool, true, false, List, some, ltb, leb, ◌==◌, get_or, replicate, length, All-replicate,
  length-replicate, Bool-cases, ltb→lt, ltb→le, le→ltb, lt→ltb, leb→gt, IsU8,
}
use div.Common.Bits.Single.{digit}
use mathlib.Core.Path.{subst}
use div.Evm.Jumpdest.{scan_round, scan, bitmap_size, is_valid, compute_bitmap}
use div.Evm.Jumpdest.Bitmap.{digit_of, IsBitmap, bit_set_iff}
use div.Evm.Jumpdest.Boundaries.{Reaches, Marked, Round, scan_round-Round, instruction_size}

scan_stop :
    (fuel : ℕ) (code : List ℕ) (pc : ℕ) (bitmap : List ℕ)
    → length code ≤ pc
    → scan (suc fuel) code pc bitmap ≡ some bitmap
unfolding scan
scan_stop fuel code pc bitmap h = rw (le→ltb pc (length code) h) refl

scan_step :
    (fuel : ℕ) (code : List ℕ) (pc : ℕ) (bitmap : List ℕ)
    → pc < length code
    → scan (suc fuel) code pc bitmap
      ≡ scan fuel code (scan_round code pc bitmap).1 (scan_round code pc bitmap).0
unfolding scan
scan_step fuel code pc bitmap h = rw (lt→ltb pc (length code) h) refl

-- Nothing is marked behind the code.
marked_stop :
    (code : List ℕ) (pc dest : ℕ)
    → length code ≤ pc
    → dest < length code
    → Reaches code dest pc
    → dest ≡ pc
marked_stop code pc dest h k (Reaches.here _ e) = sym e
marked_stop code pc dest h k (Reaches.next _ less _) = absurd (omega arith)

-- What is marked from here on: this instruction, or what is marked from the next one on.
Marked-step :
    (code : List ℕ) (pc dest : ℕ)
    → pc < length code
    → Marked code pc dest ↔ (
        ((dest ≡ pc) × (get_or code pc 0 ≡ 0x5b))
        ⊎ Marked code (pc + instruction_size (get_or code pc 0)) dest)
Marked-step code pc dest h = (split, join)
  where
    split :
        Marked code pc dest
        → ((dest ≡ pc) × (get_or code pc 0 ≡ 0x5b))
          ⊎ Marked code (pc + instruction_size (get_or code pc 0)) dest
    split (op, Reaches.here _ e) = inl (sym e, ap (λ t. get_or code t 0) e ∙ op)
    split (op, Reaches.next _ less further) = inr (op, further)

    join :
        ((dest ≡ pc) × (get_or code pc 0 ≡ 0x5b))
          ⊎ Marked code (pc + instruction_size (get_or code pc 0)) dest
        → Marked code pc dest
    join (inl (e, op)) = (ap (λ t. get_or code t 0) e ∙ op, Reaches.here pc (sym e))
    join (inr (op, further)) = (op, Reaches.next pc h further)

-- A bitmap with the bits of another one and of what is marked from `pc` on.
abbrev Marks : List ℕ → ℕ → List ℕ → List ℕ → Type 0
Marks code pc bitmap result =
    (dest : ℕ)
    → dest < length code
    → (digit_of result dest ≡ 1) ↔ ((digit_of bitmap dest ≡ 1) ⊎ Marked code pc dest)

stop-Marks :
    (code : List ℕ) (pc : ℕ) (bitmap : List ℕ) → length code ≤ pc → Marks code pc bitmap bitmap
stop-Marks code pc bitmap end dest h = (
  (λ t. inl t),
  λ t. elim t [
    | inl old ↦ old
    | inr m ↦ absurd (omega (arith, h, end, marked_stop code pc dest end h m.1))
  ],
)

step-Marks :
    (code : List ℕ) (pc : ℕ) (bitmap : List ℕ) (r : List ℕ × ℕ) (result : List ℕ)
    → pc < length code
    → Round code pc bitmap r
    → Marks code (pc + instruction_size (get_or code pc 0)) r.0 result
    → Marks code pc bitmap result
step-Marks code pc bitmap r result h round marks dest k =
    let later = marks dest k in
    let now = round.marks dest in
    let step = Marked-step code pc dest h in
    (
      (λ t. elim (later.0 t) [
        | inr further ↦ inr (step.1 (inr further))
        | inl bit ↦ elim (now.0 bit) [ inl old ↦ inl old | inr this ↦ inr (step.1 (inl this)) ]
      ]),
      λ t. elim t [
        | inl old ↦ later.1 (inl (now.1 (inl old)))
        | inr m ↦ elim (step.0 m) [
          | inl this ↦ later.1 (inl (now.1 (inr this)))
          | inr further ↦ later.1 (inr further)
        ]
      ],
    )

size_positive : (opcode : ℕ) → 1 ≤ instruction_size opcode
size_positive opcode = ground arith

-- The scan from `pc` ends, and adds the bits of what is marked from there on.
scan-Marks :
    (fuel : ℕ) (code : List ℕ) (pc : ℕ) (bitmap : List ℕ)
    → IsBitmap (length code) bitmap
    → length code < 2 ^ 63
    → length code ≤ pc + fuel
    → (result : List ℕ) × (scan (suc fuel) code pc bitmap ≡ some result)
      × Marks code pc bitmap result
scan-Marks zero code pc bitmap v b f =
    let end : length code ≤ pc = omega arith in
    (bitmap, scan_stop zero code pc bitmap end, stop-Marks code pc bitmap end)
scan-Marks (suc fuel) code pc bitmap v b f = elim (Bool-cases (ltb pc (length code))) [
  | inr stop ↦
      let end : length code ≤ pc = ltb→le _ _ stop in
      (bitmap, scan_stop (suc fuel) code pc bitmap end, stop-Marks code pc bitmap end)
  | inl more ↦
      let h : pc < length code = ltb→lt _ _ more in
      let r = scan_round code pc bitmap in
      let round = scan_round-Round code pc bitmap v h b in
      let (result, value, marks) =
        scan-Marks fuel code r.1 r.0 round.valid b
          (omega (arith, round.forward, size_positive (get_or code pc 0))) in
      (
        result,
        scan_step (suc fuel) code pc bitmap h ∙ value,
        step-Marks code pc bitmap r result h round
            (subst (λ t. Marks code t r.0 result) round.forward marks),
      )
]

no_bits : (n i : ℕ) → digit_of (replicate n 0) i ≡ 0
no_bits n i = ap (λ t. digit t (i % 8)) (zeros n (i / 8)) ∙ zero_digit (i % 8)
  where
    zeros : (m j : ℕ) → get_or {A = ℕ} (replicate m 0) j 0 ≡ 0
    zeros zero j = refl
    zeros (suc m) zero = refl
    zeros (suc m) (suc j) = zeros m j

    zero_digit : (j : ℕ) → digit 0 j ≡ 0
    zero_digit zero = refl
    zero_digit (suc j) = zero_digit j

compute_value :
    (alloc : ℕ → Bool) (code result : List ℕ)
    → 0 < length code
    → alloc (bitmap_size (length code)) ≡ true
    → scan (suc (length code)) code 0 (replicate (bitmap_size (length code)) 0) ≡ some result
    → compute_bitmap alloc code ≡ some (some result)
unfolding compute_bitmap
compute_value alloc code result pos room value =
    let some_code : (length code == 0) ≡ false = ground arith in rw (some_code, room, value) refl

-- For a code that is not empty and shorter than 2^63, and with room for the bitmap, the scan ends; the test with its
-- bitmap accepts exactly the positions within the code at which an instruction begins, counted
-- from position 0 with the data of the push instructions skipped, that is a JUMPDEST.
pub compute_bitmap-is_valid :
    (alloc : ℕ → Bool) (code : List ℕ)
    → 0 < length code
    → length code < 2 ^ 63
    → alloc (bitmap_size (length code)) ≡ true
    → (bitmap : List ℕ) × (compute_bitmap alloc code ≡ some (some bitmap))
      × ((dest : ℕ)
          → (is_valid bitmap (length code) dest ≡ true)
            ↔ ((dest < length code) × (get_or code dest 0 ≡ 0x5b) × Reaches code dest 0))
unfolding is_valid
compute_bitmap-is_valid alloc code pos b room =
    let blank : List ℕ = replicate (bitmap_size (length code)) 0 in
    let valid : IsBitmap (length code) blank = (
      All-replicate IsU8 (bitmap_size (length code)) 0 (omega arith),
      omega (arith, length-replicate {A = ℕ} (bitmap_size (length code)) 0),
    ) in
    let (bitmap, value, marks) = scan-Marks (length code) code 0 blank valid b (omega arith) in
    (
      bitmap,
      compute_value alloc code bitmap pos room value,
      λ dest. elim (Bool-cases (leb (length code) dest)) [
        | inl beyond ↦ rw beyond ((λ t. cc), λ t. absurd (ground (arith, beyond, t.0)))
        | inr inside ↦
            let k : dest < length code = leb→gt _ _ inside in
            rw inside (
              (λ t. elim ((marks dest k).0 ((bit_set_iff bitmap dest).0 t)) [
                | inl old ↦ absurd (omega (arith, old, no_bits (bitmap_size (length code)) dest))
                | inr m ↦ (k, m.0, m.1)
              ]),
              λ t. (bit_set_iff bitmap dest).1 ((marks dest k).1 (inr (t.1, t.2))),
            )
      ],
    )
