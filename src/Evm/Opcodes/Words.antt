-- ===== src/Evm/Opcodes/Words.antt =====
-- The handlers of SUB, MUL and the comparisons, told by the numbers of their operands.
use div.Common.{
  ℕ, ◌+◌, ◌-◌, ◌*◌, ◌%◌, ◌^◌, ◌≤◌, ◌<◌, ◌≡◌, ◌↔◌, refl, sym, arith, Bool, true, false, List, ◌∷◌,
  length, ltb, ◌==◌, All, IsU64, if◌then◌else◌, ==_iff,
}
use mathlib.Core.Path.{subst}
use div.Uint256.{Uint256, IsUint256, Represents, to_nat, u256_mod, gt, eq, slt, sgt}
use div.Uint256.Add.{sub-mod}
use div.Uint256.Mul.{mul-mod}
use div.Uint256.Order.{lt-ltb, lt_iff, eq_iff}
use div.Uint256.Signed.{is_negative_iff}
use div.Evm.Stack.{IsValid}
use div.Evm.Stack.View.{view}
use div.Evm.Frame.{EvmStatus, CallFrame}
use div.Evm.Opcodes.{from_bool, binary_op, op_sub, op_mul, op_lt, op_gt, op_eq, op_slt, op_sgt}
use div.Evm.Opcodes.Binary.{Paid, binary_op-Paid}

-- 1 for a test that holds, 0 for one that does not.
abbrev pub one_if : Bool → ℕ
one_if b = if b then 1 else 0

-- Signed words, in two's complement, compare as the numbers that are 2^255 more modulo 2^256.
abbrev pub biased : Uint256 → ℕ
biased a = (to_nat a + 2 ^ 255) % u256_mod

-- What a handler with two operands does on a frame: with fewer than two elements, or with less gas
-- than its price, it reports so and changes nothing. Otherwise it pays exactly the price and
-- replaces the first two elements by the word of the number that `f` gives for them.
abbrev pub Computes : (Uint256 → Uint256 → ℕ) → ℕ → CallFrame → EvmStatus × CallFrame → Type 0
Computes f price frame r =
    (length (view frame.stack) < 2 → r ≡ (EvmStatus.evm_stack_underflow, frame))
    × (2 ≤ length (view frame.stack) → frame.gas < price → r ≡ (EvmStatus.evm_out_of_gas, frame))
    × ((a b : Uint256) (rest : List Uint256)
        → view frame.stack ≡ a ∷ b ∷ rest
        → price ≤ frame.gas
        → (w : Uint256) × Represents w (f a b) × Paid frame price (w ∷ rest) r)

first_words :
    (a b : Uint256) (xs rest : List Uint256)
    → All IsUint256 xs
    → xs ≡ a ∷ b ∷ rest
    → IsUint256 a × IsUint256 b
first_words a b xs rest words e =
    let ws : All IsUint256 (a ∷ b ∷ rest) = subst (All IsUint256) e words in (ws.0, ws.1.0)

binary_op-Computes :
    (f : Uint256 → Uint256 → Uint256) (g : Uint256 → Uint256 → ℕ)
    → ((a b : Uint256) → IsUint256 a → IsUint256 b → Represents (f a b) (g a b))
    → (price : ℕ) (frame : CallFrame) → IsValid frame.stack
    → IsU64 frame.gas
    → All IsUint256 (view frame.stack)
    → Computes g price frame (binary_op f price frame)
binary_op-Computes f g value price frame v h words =
    let paid = binary_op-Paid f price frame v h in
    (
      paid.0,
      paid.1,
      λ a b rest e rich.
          let ws = first_words a b (view frame.stack) rest words e in
          (f a b, value a b ws.0 ws.1, paid.2 a b rest e rich),
    )

from_bool-Represents : (s t : Bool) → s ≡ t → Represents (from_bool s) (one_if t)
from_bool-Represents true t e =
    rw (← e) (omega arith, (omega arith, omega arith, omega arith, omega arith))
from_bool-Represents false t e =
    rw (← e) (omega arith, (omega arith, omega arith, omega arith, omega arith))

eq-== : (a b : Uint256) → IsUint256 a → IsUint256 b → eq a b ≡ (to_nat a == to_nat b)
eq-== a b p q =
    same_test (eq a b) (to_nat a == to_nat b) (eq_iff a b p q) (==_iff (to_nat a) (to_nat b))
  where
    same_test : {A : Type 0} (s t : Bool) → (s ≡ true) ↔ A → (t ≡ true) ↔ A → s ≡ t
    same_test true t h k = sym (k.1 (h.0 refl))
    same_test false true h k = h.1 (k.0 refl)
    same_test false false h k = refl

slt-ltb : (a b : Uint256) → IsUint256 a → IsUint256 b → slt a b ≡ ltb (biased a) (biased b)
unfolding slt
slt-ltb a b p q = ground (arith, is_negative_iff a p, is_negative_iff b q, lt_iff a b p q)

-- SUB, MUL, LT, GT, EQ, SLT and SGT on a valid stack of words: with fewer than two elements, or
-- with less gas than the price, each reports so and changes nothing. Otherwise it pays exactly the
-- price and replaces the first two elements, the first as the left operand, by the difference
-- modulo 2^256, by the product modulo 2^256, or by 1 where the comparison of their numbers holds and
-- by 0 where it does not; SLT and SGT compare as signed numbers.
pub binary_handlers-Compute :
    (price : ℕ) (frame : CallFrame)
    → IsValid frame.stack
    → IsU64 frame.gas
    → All IsUint256 (view frame.stack)
    → Computes (λ a b. (to_nat a + u256_mod - to_nat b) % u256_mod) price frame (op_sub price frame)
      × Computes (λ a b. to_nat a * to_nat b % u256_mod) price frame (op_mul price frame)
      × Computes (λ a b. one_if (ltb (to_nat a) (to_nat b))) price frame (op_lt price frame)
      × Computes (λ a b. one_if (ltb (to_nat b) (to_nat a))) price frame (op_gt price frame)
      × Computes (λ a b. one_if (to_nat a == to_nat b)) price frame (op_eq price frame)
      × Computes (λ a b. one_if (ltb (biased a) (biased b))) price frame (op_slt price frame)
      × Computes (λ a b. one_if (ltb (biased b) (biased a))) price frame (op_sgt price frame)
unfolding gt sgt
binary_handlers-Compute price frame v h words = (
  binary_op-Computes _ _ sub-mod price frame v h words,
  binary_op-Computes _ _ mul-mod price frame v h words,
  binary_op-Computes _ _ (λ a b p q. from_bool-Represents _ _ (lt-ltb a b p q)) price frame v h
      words,
  binary_op-Computes _ _ (λ a b p q. from_bool-Represents _ _ (lt-ltb b a q p)) price frame v h
      words,
  binary_op-Computes _ _ (λ a b p q. from_bool-Represents _ _ (eq-== a b p q)) price frame v h
      words,
  binary_op-Computes _ _ (λ a b p q. from_bool-Represents _ _ (slt-ltb a b p q)) price frame v h
      words,
  binary_op-Computes _ _ (λ a b p q. from_bool-Represents _ _ (slt-ltb b a q p)) price frame v h
      words,
)
