-- ===== src/Evm/Stack.antt =====
-- include/div0/evm/stack.h: the operand stack, an array that grows by reallocation in an arena.
-- `alloc n` says whether the arena has `n` bytes, and `fresh` is what new memory holds.
pub mod View
pub mod Grow
pub mod Refine
use div.Common.{
  ℕ, zero, suc, ◌+◌, ◌-◌, ◌*◌, ◌/◌, ◌%◌, ◌^◌, ◌≤◌, ◌<◌, Bool, true, false, List, ◌++◌, Option, none,
  some, ◌≡◌, ltb, leb, if◌then◌else◌, get_or, set, replicate, length, u16,
}
use div.Uint256.{Uint256, u256_zero}

abbrev pub evm_stack_max_depth : ℕ
evm_stack_max_depth = 1024

abbrev pub evm_stack_initial_capacity : ℕ
evm_stack_initial_capacity = 32

abbrev pub sizeof_uint256 : ℕ
sizeof_uint256 = 32

pub record EvmStack : Type 0 where
  pub items : List Uint256
  pub capacity : ℕ
  pub top : ℕ

-- The array has `capacity` slots, of which the first `top` are in use.
pub record IsValid (s : EvmStack) : Type 0 where
  pub slots : length s.items ≡ s.capacity
  pub in_use : s.top ≤ s.capacity
  pub some_slots : 0 < s.capacity
  pub bounded : s.capacity ≤ evm_stack_max_depth

-- The capacity that `grow` asks for.
abbrev pub grown_capacity : ℕ → ℕ
grown_capacity capacity =
    if leb (evm_stack_max_depth / 2) capacity then evm_stack_max_depth else u16 (capacity * 2)

-- `items[top++] = value`, with `top` a uint16_t.
abbrev pub store_top : Uint256 → EvmStack → EvmStack
store_top value s = record s { items = set s.items s.top value; top = u16 (s.top + 1) }

module _ (alloc : ℕ → Bool) (fresh : Uint256) where
  unfoldable pub init : Option EvmStack
  init =
      if alloc (evm_stack_initial_capacity * sizeof_uint256)
      then some (record {
        items = replicate evm_stack_initial_capacity fresh;
        capacity = evm_stack_initial_capacity;
        top = 0;
      })
      else none

  -- `div0_arena_realloc` copies the old slots in front of fresh ones.
  unfoldable pub grow : EvmStack → Bool × EvmStack
  grow s =
      let new_capacity = grown_capacity s.capacity in
      if leb new_capacity s.capacity
      then (false, s)
      else if alloc (new_capacity * sizeof_uint256)
      then (
        true,
        record s {
          items = s.items ++ replicate (new_capacity - s.capacity) fresh;
          capacity = new_capacity;
        },
      )
      else (false, s)

  -- The `while` loop of `ensure_space`; `none` means that the fuel ran out.
  unfoldable pub grow_until : ℕ → ℕ → EvmStack → Option (Bool × EvmStack)
  grow_until zero n s = none
  grow_until (suc fuel) n s =
      let (grown, s') = grow s in
      let rest = grow_until fuel n s' in
      if ltb s.capacity (s.top + n)
      then (if grown then rest else some (false, s'))
      else some (true, s)

  unfoldable pub push : Uint256 → EvmStack → Bool × EvmStack
  push value s =
      if leb evm_stack_max_depth s.top
      then (false, s)
      else if leb s.capacity s.top
      then (let (grown, s') = grow s in if grown then (true, store_top value s') else (false, s'))
      else (true, store_top value s)

abbrev pub size : EvmStack → ℕ
size s = s.top

unfoldable pub is_empty : EvmStack → Bool
is_empty s = leb s.top 0

unfoldable pub has_items : ℕ → EvmStack → Bool
has_items n s = leb n s.top

unfoldable pub has_space : ℕ → EvmStack → Bool
has_space n s = leb (s.top + n) evm_stack_max_depth

module _ (alloc : ℕ → Bool) (fresh : Uint256) where
  -- Eleven doublings reach the largest capacity from any other.
  unfoldable pub ensure_space : ℕ → EvmStack → Option (Bool × EvmStack)
  ensure_space n s = if has_space n s then grow_until alloc fresh 12 n s else some (false, s)

-- A slot of the array; the callers of the unsafe operations keep the index in range.
abbrev pub slot : EvmStack → ℕ → Uint256
slot s i = get_or s.items i u256_zero

-- `top - n` on uint16_t.
abbrev pub below_top : EvmStack → ℕ → ℕ
below_top s n = u16 (s.top + 2 ^ 16 - n)

unfoldable pub push_unsafe : Uint256 → EvmStack → EvmStack
push_unsafe value s = store_top value s

unfoldable pub pop_unsafe : EvmStack → Uint256 × EvmStack
pop_unsafe s = let top' = below_top s 1 in (slot s top', record s { top = top' })

unfoldable pub peek_unsafe : EvmStack → ℕ → Uint256
peek_unsafe s depth = slot s (below_top s (1 + depth))

unfoldable pub dup_unsafe : ℕ → EvmStack → EvmStack
dup_unsafe depth s = record s {
  items = set s.items s.top (slot s (below_top s depth));
  top = u16 (s.top + 1);
}

unfoldable pub swap_unsafe : ℕ → EvmStack → EvmStack
swap_unsafe depth s =
    let tmp = slot s (below_top s 1) in
    let items' = set s.items (below_top s 1) (slot s (below_top s (1 + depth))) in
    record s { items = set items' (below_top s (1 + depth)) tmp }

unfoldable pub clear : EvmStack → EvmStack
clear s = record s { top = 0 }
