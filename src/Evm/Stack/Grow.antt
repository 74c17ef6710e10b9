-- ===== src/Evm/Stack/Grow.antt =====
-- Growing keeps the contents, and its loop ends.
use div.Common.{
  ℕ, zero, suc, ◌+◌, ◌-◌, ◌*◌, ◌^◌, ◌≤◌, ◌<◌, ◌≡◌, ◌↔◌, ◌⊎◌, ◌++◌, refl, ap, ◌∙◌, arith, Bool, true,
  false, some, length-append, length-replicate, ltb, leb, if◌then◌else◌, ltb→lt, ltb→le, le→ltb,
  leb→le, leb→gt, u16, Bool-cases, inl, inr, replicate,
}
use div.Uint256.{Uint256}
use div.Evm.Stack.{
  EvmStack, IsValid, sizeof_uint256, grown_capacity, grow, grow_until, has_space, ensure_space,
}
use native.Mathlib.Nat.{one-le-pow, pow-suc}
use div.Evm.Stack.View.{view, slots_down-append}

-- Between two stacks: valid, the same elements, and no fewer slots.
pub record Extends (s t : EvmStack) : Type 0 where
  pub valid : IsValid t
  pub same_top : t.top ≡ s.top
  pub same_view : view t ≡ view s
  pub no_fewer : s.capacity ≤ t.capacity

pub Extends-refl : (s : EvmStack) → IsValid s → Extends s s
Extends-refl s v = record { valid = v; same_top = refl; same_view = refl; no_fewer = omega arith }

pub Extends-trans : {s t u : EvmStack} → Extends s t → Extends t u → Extends s u
Extends-trans h k = record {
  valid = k.valid;
  same_top = k.same_top ∙ h.same_top;
  same_view = k.same_view ∙ h.same_view;
  no_fewer = omega arith;
}

-- The stack with the capacity that `grow` asks for.
abbrev grown : Uint256 → EvmStack → EvmStack
grown fresh s = record s {
  items = s.items ++ replicate (grown_capacity s.capacity - s.capacity) fresh;
  capacity = grown_capacity s.capacity;
}

grown_bound : (c : ℕ) → c ≤ 1024 → grown_capacity c ≤ 1024
grown_bound c h = ground arith

grown-Extends :
    (fresh : Uint256) (s : EvmStack)
    → IsValid s
    → s.capacity < grown_capacity s.capacity
    → Extends s (grown fresh s)
grown-Extends fresh s v h = record {
  valid = record {
    slots = omega (
      arith,
      length-append s.items (replicate (grown_capacity s.capacity - s.capacity) fresh),
      length-replicate (grown_capacity s.capacity - s.capacity) fresh,
    );
    in_use = omega arith;
    some_slots = omega arith;
    bounded = grown_bound s.capacity v.bounded;
  };
  same_top = refl;
  same_view = slots_down-append s.items _ s.top (omega arith);
  no_fewer = omega arith;
}

-- Doubling brings the capacity nearer to the largest.
grown_reach : (c fuel : ℕ) → 1024 ≤ c * 2 ^ suc fuel → c < 1024 → 1024 ≤ grown_capacity c * 2 ^ fuel
grown_reach c fuel h b = elim (Bool-cases (leb 512 c)) [
  | inl half ↦ rw half (omega (arith, one-le-pow fuel 2))
  | inr less ↦
      let exact : u16 (c * 2) ≡ 2 * c = omega (arith, leb→gt 512 c less) in
      rw (less, exact) (omega (arith, ap (λ (t : ℕ). c * t) (pow-suc 2 fuel), exact))
]

module _ (alloc : ℕ → Bool) (fresh : Uint256) where
  -- A successful `grow` keeps the contents and adds slots.
  pub grow-Extends : (s : EvmStack) → IsValid s → Extends s (grow alloc fresh s).1
  unfolding grow
  grow-Extends s v = elim (Bool-cases (leb (grown_capacity s.capacity) s.capacity)) [
    | inl full ↦ rw full (Extends-refl s v)
    | inr more ↦ rw more (elim (Bool-cases (alloc (grown_capacity s.capacity * sizeof_uint256))) [
      | inl room ↦ rw room (grown-Extends fresh s v (ground arith))
      | inr none_left ↦ rw none_left (Extends-refl s v)
    ])
  ]

  -- `grow` succeeds exactly when the stack is below its largest capacity and the arena has room.
  pub grow_iff :
      (s : EvmStack)
      → IsValid s
      → ((grow alloc fresh s).0 ≡ true)
        ↔ ((s.capacity < 1024) × (alloc (grown_capacity s.capacity * sizeof_uint256) ≡ true))
  unfolding grow
  grow_iff s v = ground arith

  grow_until_step :
      (fuel n : ℕ) (s : EvmStack)
      → grow_until alloc fresh (suc fuel) n s ≡ (
          if ltb s.capacity (s.top + n)
          then (if (grow alloc fresh s).0
              then grow_until alloc fresh fuel n (grow alloc fresh s).1
              else some (false, (grow alloc fresh s).1))
          else some (true, s))
  unfolding grow_until
  grow_until_step fuel n s = refl

  grow_capacity :
      (s : EvmStack)
      → (grow alloc fresh s).0 ≡ true
      → (grow alloc fresh s).1.capacity ≡ grown_capacity s.capacity
  unfolding grow
  grow_capacity s h = ground arith

  -- Why there is no room: the bound, or a request that the arena turns down.
  abbrev pub Refused : ℕ → EvmStack → Type 0
  Refused n s = (1024 < s.top + n) ⊎ ((m : ℕ) × (alloc m ≡ false))

  grow-Refused :
      (n : ℕ) (s : EvmStack)
      → IsValid s
      → s.capacity < s.top + n
      → (grow alloc fresh s).0 ≡ false
      → Refused n s
  grow-Refused n s v h failed =
      elim (Bool-cases (alloc (grown_capacity s.capacity * sizeof_uint256))) [
        | inr no_room ↦ inr (grown_capacity s.capacity * sizeof_uint256, no_room)
        | inl room ↦ elim (Bool-cases (ltb s.capacity 1024)) [
          | inl less ↦ cc ((grow_iff s v).1 (ltb→lt _ _ less, room))
          | inr full ↦ inl (omega (arith, ltb→le _ _ full))
        ]
      ]

  abbrev Ends : ℕ → ℕ → EvmStack → Type 0
  Ends fuel n s =
      (r : Bool × EvmStack) × (grow_until alloc fresh fuel n s ≡ some r)
      × Extends s r.1
      × (r.0 ≡ true → s.top + n ≤ r.1.capacity)
      × (r.0 ≡ false → Refused n s)

  loop_enough :
      (fuel n : ℕ) (s : EvmStack) → IsValid s → s.top + n ≤ s.capacity → Ends (suc (suc fuel)) n s
  loop_enough fuel n s v h = (
    (true, s),
    rw (grow_until_step (suc fuel) n s, le→ltb s.capacity (s.top + n) h) refl,
    Extends-refl s v,
    (λ e. h),
    λ e. cc,
  )

  loop_failed :
      (fuel n : ℕ) (s : EvmStack)
      → IsValid s
      → ltb s.capacity (s.top + n) ≡ true
      → (grow alloc fresh s).0 ≡ false
      → Ends (suc (suc fuel)) n s
  loop_failed fuel n s v short failed = (
    (false, (grow alloc fresh s).1),
    rw (grow_until_step (suc fuel) n s, short, failed) refl,
    grow-Extends s v,
    (λ e. cc),
    λ e. grow-Refused n s v (ltb→lt _ _ short) failed,
  )

  -- With a capacity of at least `1024 / 2 ^ fuel` the loop ends, and keeps the contents. It
  -- answers true only with room for `n` more elements.
  grow_until-Extends :
      (fuel n : ℕ) (s : EvmStack)
      → IsValid s
      → 1024 ≤ s.capacity * 2 ^ fuel
      → Ends (suc (suc fuel)) n s
  grow_until-Extends zero n s v h = elim (Bool-cases (ltb s.capacity (s.top + n))) [
    | inr enough ↦ loop_enough zero n s v (ltb→le _ _ enough)
    | inl short ↦ elim (Bool-cases (grow alloc fresh s).0) [
      | inr failed ↦ loop_failed zero n s v short failed
      | inl ok ↦ absurd (omega (arith, ((grow_iff s v).0 ok).0))
    ]
  ]
  grow_until-Extends (suc fuel) n s v h = elim (Bool-cases (ltb s.capacity (s.top + n))) [
    | inr enough ↦ loop_enough (suc fuel) n s v (ltb→le _ _ enough)
    | inl short ↦ elim (Bool-cases (grow alloc fresh s).0) [
      | inr failed ↦ loop_failed (suc fuel) n s v short failed
      | inl ok ↦
          let e = grow-Extends s v in
          let near = grown_reach s.capacity fuel h ((grow_iff s v).0 ok).0 in
          let (r, value, extends, room, refused) =
            grow_until-Extends fuel n (grow alloc fresh s).1 e.valid
              (rw (grow_capacity s ok) near) in
          (
            r,
            rw (grow_until_step (suc (suc fuel)) n s, short, ok) value,
            Extends-trans e extends,
            (λ t. omega (arith, room t, e.same_top)),
            λ t. ground (arith, refused t, e.same_top),
          )
    ]
  ]

  -- `ensure_space` on a valid stack always ends. It keeps the contents and the validity of the stack; it answers
  -- true only with `n` free slots within the bound, and false only when `n` more elements would
  -- pass the bound or the arena refuses memory.
  pub ensure_space-Extends :
      (n : ℕ) (s : EvmStack)
      → IsValid s
      → (r : Bool × EvmStack) × (ensure_space alloc fresh n s ≡ some r)
        × Extends s r.1
        × (r.0 ≡ true → (s.top + n ≤ r.1.capacity) × (s.top + n ≤ 1024))
        × (r.0 ≡ false → Refused n s)
  unfolding ensure_space has_space
  ensure_space-Extends n s v = elim (Bool-cases (leb (s.top + n) 1024)) [
    | inl fits ↦
        let (r, value, extends, room, refused) = grow_until-Extends 10 n s v (omega arith) in
        (r, rw fits value, extends, (λ t. (room t, leb→le _ _ fits)), refused)
    | inr full ↦ ((false, s), rw full refl, Extends-refl s v, (λ t. cc), λ t. inl (leb→gt _ _ full))
  ]
