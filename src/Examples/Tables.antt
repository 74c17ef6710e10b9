-- ===== src/Examples/Tables.antt =====
-- Stores that satisfy the laws.
use div.Common.{
  ℕ, ◌≤◌, ◌<◌, ◌≡◌, ◌↔◌, refl, sym, ap, ◌∙◌, arith, Bool, true, false, Option, none, some, List, [],
  ◌∷◌, ◌++◌, Bool-cases, inl, inr, if◌then◌else◌, length, length-append, replicate, take, drop,
  length-take, length-replicate, ap₂, zero, suc,
}
use div.Types.Address.{Address, Hash, address_equal, address_equal_iff, hash_zero}
use div.Uint256.{Uint256}
use div.State.Stores.{
  Mpt, IsMpt, Hmap, IsHmap, Hset, IsHset, Stores, IsStores, HasDistinctKeys, SlotKey,
  warm_slot_key_eq, listed, kept_or, written,
}
use div.State.World.Slots.{warm_slot_key_eq_iff}

abbrev function_trie : Mpt (Hash → Option (List ℕ))
function_trie = record {
  create = some (λ j. none);
  get = λ j t. t j;
  insert = λ k v t j. if address_equal k j then some v else t j;
  delete = λ k t j. if address_equal k j then none else t j;
  root_hash = λ t. hash_zero;
  clear = λ t j. none;
}

function_trie-IsMpt : IsMpt function_trie
function_trie-IsMpt = record {
  get_insert = λ k j v t h h' some_bytes. refl;
  get_delete = λ k j t h h'. refl;
  get_create = λ j t e. ap (λ (u : Option (Hash → Option (List ℕ))). at j u) (sym e);
  root_size = λ t. refl;
  get_clear = λ j t. refl;
}
  where
    at : Hash → Option (Hash → Option (List ℕ)) → Option (List ℕ)
    at j none = none
    at j (some t) = t j

abbrev function_map : {K : Type 0} → (K → K → Bool) → (V : Type 0) → Hmap K V (K → Option V)
function_map same V = record {
  get = λ j m. m j;
  insert = λ k v m j. if same k j then some (kept_or (m j) v) else m j;
  write = λ k v m j. if same k j then written (m j) v else m j;
  erase = λ k m j. if same k j then none else m j;
  clear = λ m j. none;
}

function_map-IsHmap :
    {K : Type 0} (same : K → K → Bool) (V : Type 0) → IsHmap same (function_map same V)
function_map-IsHmap same V = record {
  get_insert = λ k j v m. refl;
  get_write = λ k j v m. refl;
  get_erase = λ k j m. refl;
  get_clear = λ j m. refl;
}

module _ {K : Type 0} (same : K → K → Bool) where
  abbrev without : K → List K → List K
  without k [] = []
  without k (x ∷ xs) = let rest = without k xs in if same k x then rest else x ∷ rest

  abbrev list_set : Hset K (List K)
  list_set = record {
    contains = listed same;
    insert = λ k m. if listed same k m then m else k ∷ m;
    erase = without;
    clear = λ m. [];
    elements = λ m. m;
  }

module _ {K : Type 0} (same : K → K → Bool)
    (same_iff : (a b : K) → (same a b ≡ true) ↔ (a ≡ b)) where
  listed-without :
      (k j : K) (m : List K)
      → listed same j (without same k m) ≡ (if same k j then false else listed same j m)
  listed-without k j [] = elim (Bool-cases (same k j)) [ inl e ↦ rw e refl | inr e ↦ rw e refl ]
  listed-without k j (x ∷ xs) =
      let rest = listed-without k j xs in
      elim (Bool-cases (same k x)) [
        | inl here ↦
            let like : same x j ≡ same k j = ap (λ y. same y j) (sym ((same_iff k x).0 here)) in
            rw (here, rest, like)
              (elim (Bool-cases (same k j)) [ inl e ↦ rw e refl | inr e ↦ rw e refl ])
        | inr apart ↦ elim (Bool-cases (same x j)) [
          | inl e ↦
              let other : same k j ≡ false = ap (same k) (sym ((same_iff x j).0 e)) ∙ apart in
              rw (apart, e, other) refl
          | inr e ↦ rw (apart, e) rest
        ]
      ]

  listed-insert :
      (k j : K) (m : List K)
      → listed same j (if listed same k m then m else k ∷ m)
        ≡ (if same k j then true else listed same j m)
  listed-insert k j m = elim (Bool-cases (listed same k m)) [
    | inl known ↦ elim (Bool-cases (same k j)) [
      | inl e ↦ rw (known, e) (ap (λ y. listed same y m) (sym ((same_iff k j).0 e)) ∙ known)
      | inr e ↦ rw (known, e) refl
    ]
    | inr new ↦ rw new refl
  ]

  without_le : (k : K) (m : List K) → length (without same k m) ≤ length m
  without_le k [] = omega arith
  without_le k (x ∷ xs) =
      let rest = without_le k xs in
      elim (Bool-cases (same k x)) [
        | inl here ↦ rw here (omega (arith, rest))
        | inr apart ↦ rw apart (omega (arith, rest))
      ]

  without_less :
      (k : K) (m : List K) → listed same k m ≡ true → length (without same k m) < length m
  without_less k [] h = cc
  without_less k (x ∷ xs) h = elim (Bool-cases (same k x)) [
    | inl here ↦ rw here (omega (arith, without_le k xs))
    | inr apart ↦ elim (Bool-cases (same x k)) [
      | inl e ↦
          let clash : false ≡ true =
            sym apart ∙ ap (same k) ((same_iff x k).0 e) ∙ (same_iff k k).1 refl in
          cc
      | inr e ↦
          let later : listed same k xs ≡ true = sym (rw e refl) ∙ h in
          rw apart (omega (arith, without_less k xs later))
    ]
  ]

  list_set-IsHset : IsHset same (list_set same)
  list_set-IsHset = record {
    contains_insert = listed-insert;
    contains_erase = listed-without;
    contains_clear = λ j m. refl;
    elements = λ k m. refl;
    erase_le = without_le;
    erase_less = without_less;
  }

-- A stand-in for the hash function, which keeps inputs of at most 32 bytes apart.
abbrev padded : List ℕ → Hash
padded bytes = take 32 (bytes ++ replicate 32 0)

padded-length : (bytes : List ℕ) → length (padded bytes) ≡ 32
padded-length bytes = omega (
  arith,
  length-take 32 (bytes ++ replicate 32 0),
  length-append bytes (replicate 32 0),
  length-replicate {A = ℕ} 32 0,
)

same_front :
    (n : ℕ) (a b z : List ℕ)
    → length a ≡ length b
    → length a ≤ n
    → take n (a ++ z) ≡ take n (b ++ z)
    → a ≡ b
same_front n [] [] z e few h = refl
same_front n [] (y ∷ ys) z e few h = absurd (omega (arith, e))
same_front n (x ∷ xs) [] z e few h = absurd (omega (arith, e))
same_front zero (x ∷ xs) (y ∷ ys) z e few h = absurd (omega (arith, few))
same_front (suc n) (x ∷ xs) (y ∷ ys) z e few h =
    let heads : x ≡ y = cc h in
    let tails = same_front n xs ys z (omega (arith, e)) (omega (arith, few)) (ap (drop 1) h) in
    ap₂ ◌∷◌ heads tails

padded-injective :
    (a b : List ℕ) → length a ≡ length b → length a ≤ 32 → padded a ≡ padded b → a ≡ b
padded-injective a b e few h = same_front 32 a b (replicate 32 0) e few h

abbrev pub tables : Stores
tables = record {
  Trie = Hash → Option (List ℕ);
  Tries = Address → Option (Hash → Option (List ℕ));
  Codes = Address → Option (List ℕ);
  Addresses = List Address;
  Slots = List SlotKey;
  Originals = SlotKey → Option Uint256;
  mpt = function_trie;
  tries = function_map address_equal (Hash → Option (List ℕ));
  codes = function_map address_equal (List ℕ);
  addresses = list_set address_equal;
  slots = list_set warm_slot_key_eq;
  originals = function_map warm_slot_key_eq Uint256;
  keccak256 = padded;
  alloc = λ n. true;
}

pub tables-IsStores : IsStores tables
tables-IsStores = record {
  mpt = function_trie-IsMpt;
  tries = function_map-IsHmap address_equal (Hash → Option (List ℕ));
  codes = function_map-IsHmap address_equal (List ℕ);
  addresses = list_set-IsHset address_equal address_equal_iff;
  slots = list_set-IsHset warm_slot_key_eq warm_slot_key_eq_iff;
  originals = function_map-IsHmap warm_slot_key_eq Uint256;
  hash_size = padded-length;
  room = λ n h. refl;
  created = (λ j. none, refl);
}

pub tables-HasDistinctKeys : HasDistinctKeys tables
tables-HasDistinctKeys a b p q e = padded-injective a b (p ∙ sym q) (omega (arith, p)) e
