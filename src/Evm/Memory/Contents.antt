-- ===== src/Evm/Memory/Contents.antt =====
-- What an expansion does to the bytes of the memory, and to the gas.
use div.Common.{
  ℕ, ◌+◌, ◌-◌, ◌/◌, ◌%◌, ◌^◌, ◌≤◌, ◌<◌, ◌≡◌, inl, inr, refl, ap, ◌∙◌, arith, Bool, true, false,
  some, length, get_or, take, replicate, ltb, leb, ◌==◌, if◌then◌else◌, Bool-cases, leb→le, leb→gt,
  le→ltb, u64_max, length-replicate,
}
use div.Evm.Memory.{EvmMemory, IsValid, round_up_32, expansion_cost, zero_fill, reserve, expand}
use div.Evm.Memory.Cost.{round_up_32_least}
use div.Evm.Memory.Expand.{
  byte, Reserved, reserve-Reserves, get_or-append_zeros, take-zero_fill, length-write_at,
}

-- A memory that covers `covered` bytes in whole words, and reads the same at every index.
pub record Covers (covered : ℕ) (m t : EvmMemory) : Type 0 where
  pub valid : IsValid t
  pub covers : covered ≤ t.size
  pub no_smaller : m.size ≤ t.size
  pub same_bytes : (i : ℕ) → byte t i ≡ byte m i

zero_fill-Covers :
    (new_size : ℕ) (m t : EvmMemory)
    → new_size % 32 ≡ 0
    → m.size ≤ new_size
    → Reserved new_size m t
    → Covers new_size m (zero_fill new_size t)
zero_fill-Covers new_size m t words grows r =
    let old : t.size ≤ new_size = omega (arith, r.same_size) in
    let room : new_size ≤ length t.buffer = omega (arith, r.valid.bytes, r.enough) in
    record {
      valid = record {
        bytes =
            length-write_at t.size (replicate (new_size - t.size) 0) t.buffer
              (omega (arith, length-replicate {A = ℕ} (new_size - t.size) 0))
            ∙ r.valid.bytes;
        in_use = r.enough;
        words = words;
        empty_or_more = r.valid.empty_or_more;
        addressable = r.valid.addressable;
      };
      covers = omega arith;
      no_smaller = grows;
      same_bytes = λ i.
          ap (λ xs. get_or xs i 0) (take-zero_fill new_size t old room)
          ∙ get_or-append_zeros (take t.size t.buffer) (new_size - t.size) i
          ∙ ap (λ xs. get_or xs i 0) r.same_bytes;
    }

module _ (alloc : ℕ → Bool) (fresh : ℕ) where
  pub expand_enough :
      (fuel offset size gas : ℕ) (m : EvmMemory)
      → (size == 0) ≡ false
      → ltb (u64_max - size) offset ≡ false
      → leb (round_up_32 (offset + size)) m.size ≡ true
      → expand alloc fresh fuel offset size gas m
        ≡ some (true, expansion_cost (m.size / 32) (round_up_32 (offset + size) / 32), m)
  unfolding expand
  expand_enough fuel offset size gas m some_bytes fits enough = rw (some_bytes, fits, enough) refl

  expand_more :
      (fuel offset size gas : ℕ) (m : EvmMemory) (r : Bool × EvmMemory)
      → (size == 0) ≡ false
      → ltb (u64_max - size) offset ≡ false
      → leb (round_up_32 (offset + size)) m.size ≡ false
      → reserve alloc fresh fuel (round_up_32 (offset + size)) m ≡ some r
      → expand alloc fresh fuel offset size gas m
        ≡ some (
            if r.0
            then (
              true,
              expansion_cost (m.size / 32) (round_up_32 (offset + size) / 32),
              zero_fill (round_up_32 (offset + size)) r.1,
            )
            else (false, expansion_cost (m.size / 32) (round_up_32 (offset + size) / 32), r.1))
  unfolding expand
  expand_more fuel offset size gas m r some_bytes fits more reserved =
      rw (some_bytes, fits, more, reserved) refl

  -- A range of at least one byte that ends at or below 2 ^ 63, on a valid memory: the expansion ends within 54 doublings. The
  -- gas it reports is that of the words added. If it answers true, the memory covers the range
  -- in whole words, is no smaller than before and reads the same at every index, where what lies
  -- beyond the size reads as 0. It answers false only when the arena refuses memory, and then
  -- leaves the memory as it was.
  pub expand-Covers :
      (offset size gas : ℕ) (m : EvmMemory)
      → IsValid m
      → 0 < size
      → offset + size ≤ 2 ^ 63
      → (ok : Bool) × (t : EvmMemory) × (expand alloc fresh 54 offset size gas m
          ≡ some (ok, expansion_cost (m.size / 32) (round_up_32 (offset + size) / 32), t))
        × (ok ≡ true → Covers (offset + size) m t)
        × (ok ≡ false → (t ≡ m) × ((n : ℕ) × (alloc n ≡ false)))
  expand-Covers offset size gas m v pos b =
      let some_bytes : (size == 0) ≡ false = ground arith in
      let fits : ltb (u64_max - size) offset ≡ false =
        le→ltb (u64_max - size) offset (omega arith) in
      let new_size = round_up_32 (offset + size) in
      let least = round_up_32_least (offset + size) (omega arith) in
      elim (Bool-cases (leb new_size m.size)) [
        | inl enough ↦ (
          true,
          m,
          expand_enough 54 offset size gas m some_bytes fits enough,
          (λ t. record {
            valid = v;
            covers = omega (arith, least, leb→le _ _ enough);
            no_smaller = omega arith;
            same_bytes = λ i. refl;
          }),
          λ t. cc,
        )
        | inr more ↦
            let grows : m.size ≤ new_size = omega (arith, leb→gt _ _ more) in
            let (r, value, granted, denied) =
              reserve-Reserves alloc fresh new_size m v grows (omega (arith, least)) in
            let result = expand_more 54 offset size gas m r some_bytes fits more value in
            elim (Bool-cases r.0) [
              | inl ok ↦
                  let c = zero_fill-Covers new_size m r.1 least.2 grows (granted ok) in
                  (
                    true,
                    zero_fill new_size r.1,
                    result ∙ rw ok refl,
                    (λ t. record {
                      valid = c.valid;
                      covers = omega (arith, least, c.covers);
                      no_smaller = c.no_smaller;
                      same_bytes = c.same_bytes;
                    }),
                    λ t. cc,
                  )
              | inr refused ↦ (false, r.1, result ∙ rw refused refl, (λ t. cc), λ t. denied refused)
            ]
      ]
