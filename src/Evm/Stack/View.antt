-- ===== src/Evm/Stack/View.antt =====
-- The stack as a list, topmost element first.
use div.Common.{
  ℕ, zero, suc, ◌+◌, ◌≤◌, ◌≡◌, refl, ap, ap₂, ◌∙◌, arith, List, [], ◌∷◌, ◌++◌, length, get_or, set,
  get_or-set_ne, get_or-set_self, get_or-append_left,
}
use div.Uint256.{Uint256, u256_zero}
use div.Evm.Stack.{EvmStack}

-- The first `n` slots, the last of them in front.
abbrev pub slots_down : List Uint256 → ℕ → List Uint256
slots_down items zero = []
slots_down items (suc n) = get_or items n u256_zero ∷ slots_down items n

abbrev pub view : EvmStack → List Uint256
view s = slots_down s.items s.top

pub length-slots_down : (items : List Uint256) (n : ℕ) → length (slots_down items n) ≡ n
length-slots_down items zero = refl
length-slots_down items (suc n) = ap suc (length-slots_down items n)

-- Writes from `n` on do not show in the first `n` slots.
pub slots_down-set_above :
    (items : List Uint256) (n i : ℕ) (v : Uint256)
    → n ≤ i
    → slots_down (set items i v) n ≡ slots_down items n
slots_down-set_above items zero i v h = refl
slots_down-set_above items (suc n) i v h =
    ap₂ ◌∷◌ (get_or-set_ne items i n v u256_zero (omega arith))
      (slots_down-set_above items n i v (omega arith))

pub slots_down-append :
    (items more : List Uint256) (n : ℕ)
    → n ≤ length items
    → slots_down (items ++ more) n ≡ slots_down items n
slots_down-append items more zero h = refl
slots_down-append items more (suc n) h =
    ap₂ ◌∷◌ (get_or-append_left items more n u256_zero (omega arith))
      (slots_down-append items more n (omega arith))

-- The element at `depth` of the list is the slot with `depth` slots in use above it.
pub get_or-slots_down :
    (items : List Uint256) (n depth i : ℕ)
    → suc (i + depth) ≡ n
    → get_or (slots_down items n) depth u256_zero ≡ get_or items i u256_zero
get_or-slots_down items zero depth i h = absurd (omega arith)
get_or-slots_down items (suc n) zero i h = ap (λ t. get_or items t u256_zero) (omega arith)
get_or-slots_down items (suc n) (suc depth) i h = get_or-slots_down items n depth i (omega arith)

-- A write to that slot is a write at its depth in the list.
pub slots_down-set_below :
    (items : List Uint256) (n depth i : ℕ) (v : Uint256)
    → suc (i + depth) ≡ n
    → n ≤ length items
    → slots_down (set items i v) n ≡ set (slots_down items n) depth v
slots_down-set_below items zero depth i v h r = absurd (omega arith)
slots_down-set_below items (suc n) zero i v h r =
    let last : i ≡ n = omega arith in
    ap (λ t. slots_down (set items t v) (suc n)) last
    ∙ ap₂ ◌∷◌ (get_or-set_self items n v u256_zero r)
        (slots_down-set_above items n n v (omega arith))
slots_down-set_below items (suc n) (suc depth) i v h r =
    ap₂ ◌∷◌ (get_or-set_ne items i n v u256_zero (omega arith))
      (slots_down-set_below items n depth i v (omega arith) (omega arith))
