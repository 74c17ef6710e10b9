-- ===== src/Types/Address.antt =====
-- include/div0/types/address.h and include/div0/types/hash.h: addresses are lists of 20 bytes and
-- hashes are lists of 32 bytes.
use div.Common.{
  ℕ, ◌≡◌, ◌↔◌, ap₂, arith, Bool, true, false, ◌&&◌, List, [], ◌∷◌, ◌==◌, ==_iff, Bool-cases, inl,
  inr, length, replicate,
}

abbrev pub Address : Type 0
Address = List ℕ

abbrev pub Hash : Type 0
Hash = List ℕ

abbrev pub IsAddress : Address → Type 0
IsAddress a = length a ≡ 20

abbrev pub address_zero : Address
address_zero = replicate 20 0

abbrev pub hash_zero : Hash
hash_zero = replicate 32 0

-- `memcmp` finds no difference. Here both arguments have the same length.
unfoldable pub address_equal : Address → Address → Bool
address_equal [] [] = true
address_equal [] (y ∷ ys) = false
address_equal (x ∷ xs) [] = false
address_equal (x ∷ xs) (y ∷ ys) = (x == y) && address_equal xs ys

address_equal-eq : (a b : Address) → address_equal a b ≡ true → a ≡ b
unfolding address_equal
address_equal-eq [] [] h = cc
address_equal-eq [] (y ∷ ys) h = cc
address_equal-eq (x ∷ xs) [] h = cc
address_equal-eq (x ∷ xs) (y ∷ ys) h = elim (Bool-cases (x == y)) [
  | inl same ↦ ap₂ ◌∷◌ ((==_iff x y).0 same) (address_equal-eq xs ys (ground (arith, same, h)))
  | inr other ↦ ground (arith, other, h)
]

address_equal_self : (a : Address) → address_equal a a ≡ true
unfolding address_equal
address_equal_self [] = cc
address_equal_self (x ∷ xs) = ground (arith, address_equal_self xs)

pub address_equal_iff : (a b : Address) → (address_equal a b ≡ true) ↔ (a ≡ b)
address_equal_iff a b = (address_equal-eq a b, λ e. rw e (address_equal_self b))
