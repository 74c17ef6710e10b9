-- ===== src/State/Stores.antt =====
-- What the world state stands on: include/div0/trie/mpt.h, the hash tables of the STC library,
-- Keccak-256 and the arena. They are parameters, and `IsStores` has the laws that the world state
-- relies on: for the tables and the hash what their documents say, for the arena that it has room
-- for an account, and for the trie of this program, which is not modelled behind its interface, that
-- it can be made and finds what was inserted. These laws are assumed. That keys do not collide is no
-- law of the stores: where it is needed, it is a hypothesis of its own.
use div.Common.{
  ℕ, ◌≤◌, ◌<◌, ◌≡◌, Bool, true, false, Option, none, some, List, [], ◌∷◌, length, if◌then◌else◌,
}
use div.Types.Address.{Address, Hash, IsAddress, address_equal}
use div.Uint256.{Uint256, eq}

pub record SlotKey : Type 0 where
  pub addr : Address
  pub slot : Uint256

unfoldable pub warm_slot_key_eq : SlotKey → SlotKey → Bool
warm_slot_key_eq a b = if address_equal a.addr b.addr then eq a.slot b.slot else false

-- A trie from keys to values that are not empty. `create` is a new one in a memory backend.
pub record Mpt (T : Type 0) : Type 0 where
  pub create : Option T
  pub get : Hash → T → Option (List ℕ)
  pub insert : Hash → List ℕ → T → T
  pub delete : Hash → T → T
  pub root_hash : T → Hash
  pub clear : T → T

pub record IsMpt {T : Type 0} (mpt : Mpt T) : Type 0 where
  pub get_insert :
      (k j : Hash) (v : List ℕ) (t : T)
      → length k ≡ 32
      → length j ≡ 32
      → 0 < length v
      → mpt.get j (mpt.insert k v t) ≡ (if address_equal k j then some v else mpt.get j t)
  pub get_delete :
      (k j : Hash) (t : T)
      → length k ≡ 32
      → length j ≡ 32
      → mpt.get j (mpt.delete k t) ≡ (if address_equal k j then none else mpt.get j t)
  pub get_create : (j : Hash) (t : T) → mpt.create ≡ some t → mpt.get j t ≡ none
  pub root_size : (t : T) → length (mpt.root_hash t) ≡ 32
  pub get_clear : (j : Hash) (t : T) → mpt.get j (mpt.clear t) ≡ none

-- A hash map. `insert` leaves a key that is there as it is, and `write` stores through the pointer
-- that `get` returns.
pub record Hmap (K V M : Type 0) : Type 0 where
  pub get : K → M → Option V
  pub insert : K → V → M → M
  pub write : K → V → M → M
  pub erase : K → M → M
  pub clear : M → M

abbrev pub kept_or {ℓ} : {V : Type ℓ} → Option V → V → V
kept_or none v = v
kept_or (some w) v = w

abbrev pub written {ℓ} : {V : Type ℓ} → Option V → V → Option V
written none v = none
written (some w) v = some v

pub record IsHmap {K V M : Type 0} (eq_keys : K → K → Bool) (map : Hmap K V M) : Type 0 where
  pub get_insert :
      (k j : K) (v : V) (m : M)
      → map.get j (map.insert k v m)
        ≡ (if eq_keys k j then some (kept_or (map.get j m) v) else map.get j m)
  pub get_write :
      (k j : K) (v : V) (m : M)
      → map.get j (map.write k v m) ≡ (if eq_keys k j then written (map.get j m) v else map.get j m)
  pub get_erase :
      (k j : K) (m : M) → map.get j (map.erase k m) ≡ (if eq_keys k j then none else map.get j m)
  pub get_clear : (j : K) (m : M) → map.get j (map.clear m) ≡ none

pub record Hset (K M : Type 0) : Type 0 where
  pub contains : K → M → Bool
  pub insert : K → M → M
  pub erase : K → M → M
  pub clear : M → M
  pub elements : M → List K

abbrev pub listed {ℓ} : {K : Type ℓ} → (K → K → Bool) → K → List K → Bool
listed eq_keys k [] = false
listed eq_keys k (x ∷ xs) = if eq_keys x k then true else listed eq_keys k xs

pub record IsHset {K M : Type 0} (eq_keys : K → K → Bool) (set : Hset K M) : Type 0 where
  pub contains_insert :
      (k j : K) (m : M)
      → set.contains j (set.insert k m) ≡ (if eq_keys k j then true else set.contains j m)
  pub contains_erase :
      (k j : K) (m : M)
      → set.contains j (set.erase k m) ≡ (if eq_keys k j then false else set.contains j m)
  pub contains_clear : (j : K) (m : M) → set.contains j (set.clear m) ≡ false
  pub elements : (k : K) (m : M) → set.contains k m ≡ listed eq_keys k (set.elements m)
  pub erase_le : (k : K) (m : M) → length (set.elements (set.erase k m)) ≤ length (set.elements m)
  pub erase_less :
      (k : K) (m : M)
      → set.contains k m ≡ true
      → length (set.elements (set.erase k m)) < length (set.elements m)

pub record Stores : Type 1 where
  pub Trie : Type 0
  pub Tries : Type 0
  pub Codes : Type 0
  pub Addresses : Type 0
  pub Slots : Type 0
  pub Originals : Type 0
  pub mpt : Mpt Trie
  pub tries : Hmap Address Trie Tries
  pub codes : Hmap Address (List ℕ) Codes
  pub addresses : Hset Address Addresses
  pub slots : Hset SlotKey Slots
  pub originals : Hmap SlotKey Uint256 Originals
  pub keccak256 : List ℕ → Hash
  pub alloc : ℕ → Bool

-- The hashes of two different addresses differ. Keccak-256 does not promise it: it is what the state
-- trie, whose keys they are, takes for granted.
abbrev pub HasDistinctKeys : Stores → Type 0
HasDistinctKeys e =
    (a b : Address) → IsAddress a → IsAddress b → e.keccak256 a ≡ e.keccak256 b → a ≡ b

-- The trie and the tables work, hashes have 32 bytes, the arena has room for an account, and a trie
-- can be made.
pub record IsStores (e : Stores) : Type 0 where
  pub mpt : IsMpt e.mpt
  pub tries : IsHmap address_equal e.tries
  pub codes : IsHmap address_equal e.codes
  pub addresses : IsHset address_equal e.addresses
  pub slots : IsHset warm_slot_key_eq e.slots
  pub originals : IsHmap warm_slot_key_eq e.originals
  pub hash_size : (bytes : List ℕ) → length (e.keccak256 bytes) ≡ 32
  pub room : (n : ℕ) → n ≤ 128 → e.alloc n ≡ true
  pub created : (t : e.Trie) × (e.mpt.create ≡ some t)
