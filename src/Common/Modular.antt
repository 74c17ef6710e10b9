-- ===== src/Common/Modular.antt =====
-- Products and powers modulo a number.
use Prim.Native.Nat.{ℕ, zero, suc, ◌+◌, ◌*◌, ◌/◌, ◌%◌, ◌^◌}
use mathlib.Core.Path.{◌≡◌, refl, sym, ap, ◌∙◌}
use native.Mathlib.Nat.{
  div-add-mod', mul-add-mod_self_right, mul_comm, pow-suc, pow-zero, mul-mod_left,
}
use native.Mathlib.Omega.{arith}

pub mod-mul-mod : (a b m : ℕ) → a % m * b % m ≡ a * b % m
mod-mul-mod a b m =
    let split : a * b ≡ a / m * b * m + a % m * b =
      omega (arith, ap (λ (t : ℕ). t * b) (div-add-mod' a m)) in
    sym (mul-add-mod_self_right (a / m * b) m (a % m * b)) ∙ ap (λ t. t % m) (sym split)

pub mul-mod-mod : (a b m : ℕ) → a * (b % m) % m ≡ a * b % m
mul-mod-mod a b m = rw (mul_comm a (b % m), mod-mul-mod b a m, mul_comm b a) refl

pub pow-mod : (a n m : ℕ) → (a % m) ^ n % m ≡ a ^ n % m
pow-mod a zero m = rw (pow-zero (a % m), pow-zero a) refl
pow-mod a (suc n) m =
    rw (pow-suc (a % m) n, pow-suc a n, ← mod-mul-mod ((a % m) ^ n) (a % m) m, pow-mod a n m)
      (mod-mul-mod (a ^ n) (a % m) m ∙ mul-mod-mod (a ^ n) a m)

pub pow_add : (a m n : ℕ) → a ^ (m + n) ≡ a ^ m * a ^ n
pow_add a zero n =
    let none_more : zero + n ≡ n = omega arith in rw (none_more, pow-zero a) (omega arith)
pow_add a (suc m) n =
    let one_more : suc m + n ≡ suc (m + n) = omega arith in
    rw (one_more, pow-suc a (m + n), pow-suc a m, pow_add a m n) (omega arith)

pub pow_square : (a n : ℕ) → (a * a) ^ n ≡ a ^ (2 * n)
pow_square a zero = pow-zero (a * a) ∙ sym (pow-zero a)
pow_square a (suc n) =
    let two_more : 2 * suc n ≡ suc (suc (2 * n)) = omega arith in
    rw (two_more, pow-suc (a * a) n, pow-suc a (suc (2 * n)), pow-suc a (2 * n), pow_square a n)
      (omega arith)

-- A power of an even number is a multiple of a power of 2.
pow_even : (h n d : ℕ) → (q : ℕ) × ((2 * h) ^ (n + d) ≡ q * 2 ^ n)
pow_even h zero d = ((2 * h) ^ (zero + d), omega arith)
pow_even h (suc n) d =
    let (q, e) = pow_even h n d in
    let one_more : suc n + d ≡ suc (n + d) = omega arith in
    (q * h, rw (one_more, pow-suc (2 * h) (n + d), e, pow-suc 2 n) (omega arith))

pub pow_even_mod : (h n d : ℕ) → (2 * h) ^ (n + d) % 2 ^ n ≡ 0
pow_even_mod h n d = let (q, e) = pow_even h n d in rw e (mul-mod_left q (2 ^ n))
