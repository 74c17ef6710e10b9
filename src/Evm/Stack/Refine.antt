-- ===== src/Evm/Stack/Refine.antt =====
-- The operations on the array are those of a list with a bound of 1024 elements.
use div.Common.{
  ℕ, suc, ◌+◌, ◌-◌, ◌*◌, ◌≤◌, ◌<◌, ◌≡◌, ◌↔◌, ◌⊎◌, inl, inr, refl, sym, ap, ap₂, ◌∙◌, arith, Bool,
  true, false, List, ◌∷◌, length, get_or, set, length-set, leb, if◌then◌else◌, Bool-cases, leb→le,
  leb→gt, lt→leb, get_or-set_self, u16,
}
use div.Uint256.{Uint256, u256_zero}
use div.Evm.Stack.{
  EvmStack, IsValid, slot, below_top, store_top, grow, grown_capacity, sizeof_uint256, push,
  pop_unsafe, peek_unsafe, dup_unsafe, swap_unsafe,
}
use div.Evm.Stack.View.{
  view, slots_down, length-slots_down, slots_down-set_above, slots_down-set_below,
  get_or-slots_down,
}
use div.Evm.Stack.Grow.{grow-Extends, grow_iff}

-- Storing at the top puts one element in front of the list.
pub store_top-view :
    (value : Uint256) (s : EvmStack)
    → IsValid s
    → s.top < s.capacity
    → (view (store_top value s) ≡ value ∷ view s) × IsValid (store_top value s)
store_top-view value s v h =
    let next : u16 (s.top + 1) ≡ suc s.top = omega arith in
    (
      ap (slots_down (set s.items s.top value)) next
          ∙ ap₂ ◌∷◌ (get_or-set_self s.items s.top value u256_zero (omega arith))
              (slots_down-set_above s.items s.top s.top value (omega arith)),
      record {
        slots = length-set s.items s.top value ∙ v.slots;
        in_use = omega arith;
        some_slots = omega arith;
        bounded = omega arith;
      },
    )

-- Popping a valid stack that is not empty takes the first element of the list off, and returns
-- it.
pub pop_unsafe-view :
    (s : EvmStack)
    → IsValid s
    → 0 < s.top
    → (view s ≡ (pop_unsafe s).0 ∷ view (pop_unsafe s).1) × IsValid (pop_unsafe s).1
unfolding pop_unsafe
pop_unsafe-view s v h =
    let last : s.top ≡ suc (below_top s 1) = omega arith in
    (
      ap (slots_down s.items) last,
      record {
        slots = v.slots;
        in_use = omega arith;
        some_slots = omega arith;
        bounded = omega arith;
      },
    )

-- The element at a depth is that of the list.
pub peek_unsafe-view :
    (s : EvmStack) (depth : ℕ)
    → IsValid s
    → depth < s.top
    → peek_unsafe s depth ≡ get_or (view s) depth u256_zero
unfolding peek_unsafe
peek_unsafe-view s depth v h =
    sym (get_or-slots_down s.items s.top depth (below_top s (1 + depth)) (omega arith))

-- `dup_unsafe` on a valid stack with a free slot, and at least `depth` elements, puts the element
-- at index `depth - 1` in front.
pub dup_unsafe-view :
    (depth : ℕ) (s : EvmStack)
    → IsValid s
    → 0 < depth
    → depth ≤ s.top
    → s.top < s.capacity
    → (view (dup_unsafe depth s) ≡ get_or (view s) (depth - 1) u256_zero ∷ view s)
      × IsValid (dup_unsafe depth s)
unfolding dup_unsafe
dup_unsafe-view depth s v pos h room =
    let stored = store_top-view (slot s (below_top s depth)) s v room in
    let found = get_or-slots_down s.items s.top (depth - 1) (below_top s depth) (omega arith) in
    (stored.0 ∙ ap (λ t. t ∷ view s) (sym found), stored.1)

-- The list with its first element and the one at `depth` exchanged.
abbrev pub swap_list : ℕ → List Uint256 → List Uint256
swap_list depth xs = set (set xs 0 (get_or xs depth u256_zero)) depth (get_or xs 0 u256_zero)

-- `swap_unsafe` on a valid stack with more than `depth` elements exchanges the first element of
-- the list and the one at `depth`.
pub swap_unsafe-view :
    (depth : ℕ) (s : EvmStack)
    → IsValid s
    → depth < s.top
    → (view (swap_unsafe depth s) ≡ swap_list depth (view s)) × IsValid (swap_unsafe depth s)
unfolding swap_unsafe
swap_unsafe-view depth s v h =
    let top' = below_top s 1 in
    let deep = below_top s (1 + depth) in
    let items' = set s.items top' (slot s deep) in
    let size : length items' ≡ length s.items = length-set s.items top' (slot s deep) in
    (
      slots_down-set_below items' s.top depth deep (slot s top') (omega arith) (omega arith)
          ∙ ap₂ (λ xs t. set xs depth t)
              (slots_down-set_below s.items s.top 0 top' (slot s deep) (omega arith) (omega arith)
                ∙ ap (λ t. set (view s) 0 t)
                    (sym (get_or-slots_down s.items s.top depth deep (omega arith))))
              (sym (get_or-slots_down s.items s.top 0 top' (omega arith))),
      record {
        slots = length-set items' deep (slot s top') ∙ size ∙ v.slots;
        in_use = omega arith;
        some_slots = omega arith;
        bounded = omega arith;
      },
    )

-- What `push` does to the list, by its answer.
abbrev pub Pushed : Uint256 → EvmStack → Bool × EvmStack → Type 0
Pushed value s (pushed, t) = IsValid t × (view t ≡ (if pushed then value ∷ view s else view s))

push_free :
    (alloc : ℕ → Bool) (fresh value : Uint256) (s : EvmStack)
    → IsValid s
    → s.top < s.capacity
    → push alloc fresh value s ≡ (true, store_top value s)
unfolding push
push_free alloc fresh value s v h =
    rw (lt→leb s.top 1024 (omega arith), lt→leb s.top s.capacity h) refl

push_grown :
    (alloc : ℕ → Bool) (fresh value : Uint256) (s : EvmStack)
    → leb 1024 s.top ≡ false
    → leb s.capacity s.top ≡ true
    → push alloc fresh value s ≡ (
        if (grow alloc fresh s).0
        then (true, store_top value (grow alloc fresh s).1)
        else (false, (grow alloc fresh s).1))
unfolding push
push_grown alloc fresh value s below full = rw (below, full) refl

push_full :
    (alloc : ℕ → Bool) (fresh value : Uint256) (s : EvmStack)
    → leb 1024 s.top ≡ true
    → push alloc fresh value s ≡ (false, s)
unfolding push
push_full alloc fresh value s full = rw full refl

-- A full array grows if the bound and the arena allow it.
grow_forced :
    (alloc : ℕ → Bool) (fresh : Uint256) (s : EvmStack)
    → IsValid s
    → leb s.capacity s.top ≡ true
    → (grow alloc fresh s).0 ≡ false
    → (s.top < 1024)
      × ((s.top < s.capacity) ⊎ (alloc (grown_capacity s.capacity * sizeof_uint256) ≡ true))
    → false ≡ true
grow_forced alloc fresh s v no_slot failed (below, inl free) =
    absurd (omega (arith, leb→le s.capacity s.top no_slot))
grow_forced alloc fresh s v no_slot failed (below, inr room) =
    sym failed ∙ (grow_iff alloc fresh s v).1 (omega (arith, leb→le s.capacity s.top no_slot), room)

-- A growth that succeeds leaves a free slot.
grown_free :
    (alloc : ℕ → Bool) (fresh : Uint256) (s : EvmStack)
    → IsValid s
    → (grow alloc fresh s).0 ≡ true
    → (grow alloc fresh s).1.top < (grow alloc fresh s).1.capacity
unfolding grow
grown_free alloc fresh s v ok = ground arith

-- `push` on a valid stack puts the value in front of the list if it answers true, and otherwise leaves the list.
-- It answers true exactly when the stack holds fewer than 1024 elements and either has a free
-- slot or the arena has room for the larger array.
pub push-view :
    (alloc : ℕ → Bool) (fresh value : Uint256) (s : EvmStack)
    → IsValid s
    → Pushed value s (push alloc fresh value s)
      × (((push alloc fresh value s).0 ≡ true) ↔ (
          (length (view s) < 1024)
          × ((s.top < s.capacity) ⊎ (alloc (grown_capacity s.capacity * sizeof_uint256) ≡ true))))
push-view alloc fresh value s v =
    rw (length-slots_down s.items s.top) (elim (Bool-cases (leb 1024 s.top)) [
      | inl full ↦
          rw (push_full alloc fresh value s full)
            ((v, refl), ((λ e. cc), λ k. absurd (omega (arith, leb→le 1024 s.top full, k.0))))
      | inr below ↦ elim (Bool-cases (leb s.capacity s.top)) [
        | inr free ↦
            let stored = store_top-view value s v (leb→gt _ _ free) in
            rw (push_free alloc fresh value s v (leb→gt _ _ free))
              ((stored.1, stored.0), ((λ e. (leb→gt _ _ below, inl (leb→gt _ _ free))), λ k. refl))
        | inl no_slot ↦
            rw (push_grown alloc fresh value s below no_slot)
              (elim (Bool-cases (grow alloc fresh s).0) [
                | inl ok ↦
                    let e = grow-Extends alloc fresh s v in
                    let stored =
                      store_top-view value (grow alloc fresh s).1 e.valid
                        (grown_free alloc fresh s v ok) in
                    rw ok (
                      (stored.1, stored.0 ∙ ap (λ t. value ∷ t) e.same_view),
                      (
                        (λ t. (leb→gt _ _ below, inr ((grow_iff alloc fresh s v).0 ok).1)),
                        λ k. refl,
                      ),
                    )
                | inr failed ↦
                    let e = grow-Extends alloc fresh s v in
                    rw failed (
                      (e.valid, e.same_view),
                      ((λ t. cc), λ k. grow_forced alloc fresh s v no_slot failed k),
                    )
              ])
      ]
    ])
