-- ===== src/Evm/Memory/Expand.antt =====
-- `evm_memory_expand`: the memory seen as an array of bytes that are 0 beyond its size, which an
-- expansion does not change.
use div.Common.{
  ℕ, zero, suc, ◌+◌, ◌-◌, ◌*◌, ◌^◌, ◌≤◌, ◌<◌, ◌≡◌, inl, inr, refl, sym, ap, ◌∙◌, arith, Bool, true,
  false, List, [], ◌∷◌, ◌++◌, append_assoc, Option, some, length, get_or, take, drop, replicate,
  length-append, length-take, length-drop, length-replicate, take-length-append, ltb, leb, ◌==◌,
  if◌then◌else◌, Bool-cases, ltb→lt, ltb→le, leb→le, le→ltb, u64,
}
use div.Evm.Memory.{EvmMemory, IsValid, double_until, write_at, zero_fill, reallocate, reserve}
use native.Mathlib.Nat.{pow-suc}

-- The byte at an index; those beyond the size read as 0.
abbrev pub byte : EvmMemory → ℕ → ℕ
byte m i = get_or (take m.size m.buffer) i 0

get_or-zeros : (n i : ℕ) → get_or {A = ℕ} (replicate n 0) i 0 ≡ 0
get_or-zeros zero i = refl
get_or-zeros (suc n) zero = refl
get_or-zeros (suc n) (suc i) = get_or-zeros n i

-- Zeros behind a list do not show.
pub get_or-append_zeros : (xs : List ℕ) (n i : ℕ) → get_or (xs ++ replicate n 0) i 0 ≡ get_or xs i 0
get_or-append_zeros [] n i = get_or-zeros n i
get_or-append_zeros (x ∷ xs) n zero = refl
get_or-append_zeros (x ∷ xs) n (suc i) = get_or-append_zeros xs n i

take-prefix : (n : ℕ) (xs ys : List ℕ) → length xs ≡ n → take n (xs ++ ys) ≡ xs
take-prefix n xs ys h = ap (λ t. take t (xs ++ ys)) (sym h) ∙ take-length-append xs ys

pub length-write_at :
    (offset : ℕ) (bytes buffer : List ℕ)
    → offset + length bytes ≤ length buffer
    → length (write_at offset bytes buffer) ≡ length buffer
length-write_at offset bytes buffer h = omega (
  arith,
  length-append (take offset buffer) (bytes ++ drop (offset + length bytes) buffer),
  length-append bytes (drop (offset + length bytes) buffer),
  length-take offset buffer,
  length-drop (offset + length bytes) buffer,
)

-- After the zero fill, the bytes in use are the old ones and zeros.
pub take-zero_fill :
    (new_size : ℕ) (m : EvmMemory)
    → m.size ≤ new_size
    → new_size ≤ length m.buffer
    → take new_size (zero_fill new_size m).buffer
      ≡ take m.size m.buffer ++ replicate (new_size - m.size) 0
take-zero_fill new_size m h k =
    let zeros : List ℕ = replicate (new_size - m.size) 0 in
    let kept : List ℕ = take m.size m.buffer in
    ap (take new_size) (sym (append_assoc kept zeros (drop (m.size + length zeros) m.buffer)))
    ∙ take-prefix new_size (kept ++ zeros) _ (
        omega (
          arith,
          length-append kept zeros,
          length-take m.size m.buffer,
          length-replicate {A = ℕ} (new_size - m.size) 0,
        ))

-- The doubling from `c` ends within `fuel` rounds when that many doublings suffice; it never
-- wraps around for a size of at most 2 ^ 63.
pub double_until-ends :
    (fuel new_size c : ℕ)
    → new_size ≤ 2 ^ 63
    → new_size ≤ c * 2 ^ fuel
    → c < 2 ^ 64
    → (r : ℕ) × (double_until (suc fuel) new_size c ≡ some r)
      × (new_size ≤ r)
      × (c ≤ r)
      × (r < 2 ^ 64)
unfolding double_until
double_until-ends zero new_size c b h w =
    let enough : new_size ≤ c = omega arith in
    (c, rw (le→ltb c new_size enough) refl, enough, omega arith, w)
double_until-ends (suc fuel) new_size c b h w = elim (Bool-cases (ltb c new_size)) [
  | inr enough ↦ (c, rw enough refl, ltb→le _ _ enough, omega arith, w)
  | inl short ↦
      let exact : u64 (c * 2) ≡ 2 * c = omega (arith, ltb→lt _ _ short) in
      let (r, ends, enough, more, bound) =
        double_until-ends fuel new_size (u64 (c * 2)) b
          (omega (
            arith,
            exact,
            ap (λ (t : ℕ). c * t) (pow-suc 2 fuel),
            ap (λ (t : ℕ). t * 2 ^ fuel) exact,
          ))
          (omega arith) in
      (r, rw short ends, enough, omega (arith, exact), bound)
]

-- A buffer with at least `new_size` bytes, and the same contents.
pub record Reserved (new_size : ℕ) (m t : EvmMemory) : Type 0 where
  pub valid : IsValid t
  pub same_size : t.size ≡ m.size
  pub same_bytes : take t.size t.buffer ≡ take m.size m.buffer
  pub enough : new_size ≤ t.capacity

module _ (alloc : ℕ → Bool) (fresh : ℕ) where
  reallocate-Reserved :
      (new_size c : ℕ) (m : EvmMemory)
      → IsValid m
      → m.size ≤ new_size
      → new_size ≤ c
      → 1024 ≤ c
      → c < 2 ^ 64
      → alloc c ≡ true
      → ((reallocate alloc fresh c m).0 ≡ true) × Reserved new_size m (reallocate alloc fresh c m).1
  reallocate-Reserved new_size c m v grows enough least bound room =
      let kept : length (take m.size m.buffer) ≡ m.size =
        omega (arith, length-take m.size m.buffer, v.bytes, v.in_use) in
      rw room (
        refl,
        record {
          valid = record {
            bytes = omega (
              arith,
              length-append (take m.size m.buffer) (replicate (c - m.size) fresh),
              length-replicate (c - m.size) fresh,
              kept,
            );
            in_use = omega arith;
            words = v.words;
            empty_or_more = inr least;
            addressable = bound;
          };
          same_size = refl;
          same_bytes = take-prefix m.size (take m.size m.buffer) _ kept;
          enough = enough;
        },
      )

  -- What `reserve` promises: more capacity and the same contents, or a refusal by the arena.
  abbrev pub Reserves : ℕ → EvmMemory → Option (Bool × EvmMemory) → Type 0
  Reserves new_size m result =
      (r : Bool × EvmMemory) × (result ≡ some r)
      × (r.0 ≡ true → Reserved new_size m r.1)
      × (r.0 ≡ false → (r.1 ≡ m) × ((n : ℕ) × (alloc n ≡ false)))

  reallocate-Reserves :
      (new_size c : ℕ) (m : EvmMemory)
      → IsValid m
      → m.size ≤ new_size
      → new_size ≤ c
      → 1024 ≤ c
      → c < 2 ^ 64
      → Reserves new_size m (some (reallocate alloc fresh c m))
  reallocate-Reserves new_size c m v grows enough least bound = elim (Bool-cases (alloc c)) [
    | inl room ↦ (
      reallocate alloc fresh c m,
      refl,
      (λ t. (reallocate-Reserved new_size c m v grows enough least bound room).1),
      λ t. cc ((reallocate-Reserved new_size c m v grows enough least bound room).0),
    )
    | inr refused ↦ ((false, m), rw refused refl, (λ t. cc), λ t. (refl, (c, refused)))
  ]

  reserve_more :
      (fuel new_size : ℕ) (m : EvmMemory)
      → leb new_size m.capacity ≡ false
      → (c : ℕ) → double_until fuel new_size (if m.capacity == 0 then 1024 else m.capacity) ≡ some c
      → reserve alloc fresh fuel new_size m ≡ some (reallocate alloc fresh c m)
  unfolding reserve
  reserve_more fuel new_size m more c ends = rw (more, ends) refl

  reserve_enough :
      (fuel new_size : ℕ) (m : EvmMemory)
      → leb new_size m.capacity ≡ true
      → reserve alloc fresh fuel new_size m ≡ some (true, m)
  unfolding reserve
  reserve_enough fuel new_size m enough = rw enough refl

  start_bounds :
      (m : EvmMemory)
      → IsValid m
      → (1024 ≤ (if m.capacity == 0 then 1024 else m.capacity))
        × ((if m.capacity == 0 then 1024 else m.capacity) < 2 ^ 64)
  start_bounds m v = ground (arith, v.empty_or_more, v.addressable)

  pub reserve-Reserves :
      (new_size : ℕ) (m : EvmMemory)
      → IsValid m
      → m.size ≤ new_size
      → new_size ≤ 2 ^ 63
      → Reserves new_size m (reserve alloc fresh 54 new_size m)
  reserve-Reserves new_size m v grows b = elim (Bool-cases (leb new_size m.capacity)) [
    | inl enough ↦ (
      (true, m),
      reserve_enough 54 new_size m enough,
      (λ t. record { valid = v; same_size = refl; same_bytes = refl; enough = leb→le _ _ enough }),
      λ t. cc,
    )
    | inr more ↦
        let start = if m.capacity == 0 then 1024 else m.capacity in
        let bounds = start_bounds m v in
        let (c, ends, enough, least, bound) =
          double_until-ends 53 new_size start b (omega (arith, bounds.0)) bounds.1 in
        let (r, value, granted, denied) =
          reallocate-Reserves new_size c m v grows enough (omega (arith, bounds.0)) bound in
        (r, reserve_more 54 new_size m more c ends ∙ value, granted, denied)
  ]
