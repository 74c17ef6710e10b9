-- ===== src/Common/BigEndian.antt =====
-- The number that a list of bytes stands for, highest byte first.
use Prim.Native.Nat.{ℕ, zero, suc, ◌+◌, ◌*◌, ◌^◌, ◌≤◌, ◌<◌}
use mathlib.Core.Path.{◌≡◌, refl, sym, ap, ◌∙◌}
use mathlib.Core.List.{List, [], ◌∷◌, ◌++◌}
use native.Mathlib.Nat.{pow-suc, pow-zero, mul-le-mul_right, pow-le-pow_right}
use native.Mathlib.Omega.{arith}
use div.Common.Lists.{
  length, take, drop, All, replicate, length-append, take-append-drop, length-drop,
}
use div.Common.Words.{IsU8, u64, ◌<<<◌}
use div.Common.Bits.{bit_or_fields}
use div.Common.Modular.{pow_add}
use Prim.Native.Nat.{bit_or}

abbrev pub be : List ℕ → ℕ
be [] = 0
be (x ∷ xs) = x * 256 ^ length xs + be xs

pub be-append : (xs ys : List ℕ) → be (xs ++ ys) ≡ be xs * 256 ^ length ys + be ys
be-append [] ys = omega arith
be-append (x ∷ xs) ys =
    rw (length-append xs ys, pow_add 256 (length xs) (length ys)) (omega (arith, be-append xs ys))

-- The number of a list that is cut behind `n` bytes, with `m` bytes left.
pub be_split :
    (n m : ℕ) (xs : List ℕ) → length xs ≡ n + m → be xs ≡ be (take n xs) * 256 ^ m + be (drop n xs)
be_split n m xs h =
    let left : length (drop n xs) ≡ m = omega (arith, length-drop n xs) in
    ap be (sym (take-append-drop n xs))
    ∙ be-append (take n xs) (drop n xs)
    ∙ ap (λ t. be (take n xs) * 256 ^ t + be (drop n xs)) left

pub be-zeros : (n : ℕ) (xs : List ℕ) → be (replicate n 0 ++ xs) ≡ be xs
be-zeros zero xs = refl
be-zeros (suc n) xs = omega (arith, be-zeros n xs)

pub be-lt : (xs : List ℕ) → All IsU8 xs → be xs < 256 ^ length xs
be-lt [] h = omega arith
be-lt (x ∷ xs) h =
    let top : x * 256 ^ length xs ≤ 255 * 256 ^ length xs =
      mul-le-mul_right {m = x} {n = 255} (256 ^ length xs) (omega (arith, h.0)) in
    omega (arith, be-lt xs h.1, pow-suc 256 (length xs))

-- The loop `acc = (acc << 8) | x` on uint64_t.
unfoldable pub shift_in : ℕ → List ℕ → ℕ
shift_in acc [] = acc
shift_in acc (x ∷ xs) = shift_in (bit_or (u64 (acc <<< 8)) x) xs

-- One round, while the number has room for another byte.
shift_in_round :
    (k acc x : ℕ) → acc < 256 ^ k → k < 8 → IsU8 x → bit_or (u64 (acc <<< 8)) x ≡ acc * 256 + x
shift_in_round k acc x b r h =
    let room : acc < 256 ^ 7 =
      omega (arith, pow-le-pow_right {n = 256} (omega arith) {i = k} {j = 7} (omega arith)) in
    let exact : u64 (acc <<< 8) ≡ acc * 2 ^ 8 = omega arith in
    ap (λ t. bit_or t x) exact ∙ bit_or_fields 8 acc x h

-- Up to eight bytes the loop drops nothing.
pub shift_in-be :
    (k acc : ℕ) (xs : List ℕ)
    → acc < 256 ^ k
    → k + length xs ≤ 8
    → All IsU8 xs
    → shift_in acc xs ≡ acc * 256 ^ length xs + be xs
unfolding shift_in
shift_in-be k acc [] b r h = omega (arith, pow-zero 256)
shift_in-be k acc (x ∷ xs) b r h = rw (shift_in_round k acc x b (omega arith) h.0) (
    omega (
      arith,
      shift_in-be (suc k) (acc * 256 + x) xs (omega (arith, pow-suc 256 k, h.0)) (omega arith) h.1,
      ap (λ (t : ℕ). acc * t) (pow-suc 256 (length xs)),
    ))
