-- ===== src/State/World/Slots.antt =====
-- Storage is read back as it was written.
use div.Common.{
  ◌≡◌, ◌↔◌, refl, sym, ap, ap₂, ◌∙◌, arith, true, false, Option, none, some, length, ◌==◌,
  Bool-cases, inl, inr, if◌then◌else◌,
}
use div.Types.Address.{Address, address_equal, address_equal_iff}
use div.Uint256.{Uint256, IsUint256, is_zero, eq}
use div.Uint256.Order.{eq-same, eq_self}
use div.Uint256.Bytes.{to_bytes_be}
use div.Rlp.Words.RoundTrip.{word_bytes, from_bytes_be-word_bytes, word_bytes_some}
use div.State.Stores.{Stores, IsStores, SlotKey, warm_slot_key_eq}
use div.State.World.{WorldState, slot_to_key}
use div.State.World.Accounts.{zero_word}
use div.State.World.Storage.{
  opened, get_storage_trie, word_of, slot_of, changed_slot, write_slot, ws_get_storage,
  ws_set_storage, ws_tracked,
}

-- Keys are equal exactly when the code finds them equal.
pub warm_slot_key_eq_iff : (a b : SlotKey) → (warm_slot_key_eq a b ≡ true) ↔ (a ≡ b)
unfolding warm_slot_key_eq
warm_slot_key_eq_iff a b = (same, λ e. ap (λ t. warm_slot_key_eq a t) (sym e) ∙ itself)
  where
    itself : warm_slot_key_eq a a ≡ true
    itself = rw ((address_equal_iff a.addr a.addr).1 refl) (eq_self a.slot)

    same : warm_slot_key_eq a b ≡ true → a ≡ b
    same h = elim (Bool-cases (address_equal a.addr b.addr)) [
      | inl addrs ↦
          let first : a.addr ≡ b.addr = (address_equal_iff a.addr b.addr).0 addrs in
          let slots : eq a.slot b.slot ≡ true = sym (rw addrs refl) ∙ h in
          let second : a.slot ≡ b.slot = eq-same a.slot b.slot slots in
          λ i. record { addr = first i; slot = second i }
      | inr others ↦ let clash : false ≡ true = sym (rw others refl) ∙ h in cc
    ]

abbrev pub slot_key : Address → Uint256 → SlotKey
slot_key addr slot = record { addr = addr; slot = slot }

module _ (e : Stores) (is : IsStores e) where
  same_slot_key :
      (s t : Uint256)
      → (slot_to_key e s ≡ slot_to_key e t → s ≡ t)
      → address_equal (slot_to_key e s) (slot_to_key e t) ≡ eq s t
  same_slot_key s t apart = elim (Bool-cases (eq s t)) [
    | inl same ↦
        ap (λ (x : Uint256). address_equal (slot_to_key e s) (slot_to_key e x))
          (sym (eq-same s t same))
        ∙ (address_equal_iff (slot_to_key e s) (slot_to_key e s)).1 refl
        ∙ sym same
    | inr other ↦ elim (Bool-cases (address_equal (slot_to_key e s) (slot_to_key e t))) [
      | inl collision ↦
          let words : s ≡ t =
            apart ((address_equal_iff (slot_to_key e s) (slot_to_key e t)).0 collision) in
          let itself : eq s t ≡ true = ap (eq s) (sym words) ∙ eq_self s in
          let clash : true ≡ false = sym itself ∙ other in cc
      | inr differ ↦ differ ∙ sym other
    ]
  ]

  word_of-word_bytes : (v : Uint256) → IsUint256 v → word_of e (some (word_bytes v)) ≡ v
  word_of-word_bytes v p = elim (Bool-cases (length (word_bytes v) == 0)) [
    | inl empty ↦ elim (Bool-cases (is_zero v)) [
      | inl nothing ↦ rw empty (zero_word v p nothing)
      | inr something ↦ ground (arith, empty, word_bytes_some v p something)
    ]
    | inr more ↦ rw more (from_bytes_be-word_bytes v p)
  ]

  -- A slot of a trie that was changed.
  slot_of-changed :
      (s t v : Uint256) (storage : e.Trie)
      → (slot_to_key e s ≡ slot_to_key e t → s ≡ t)
      → IsUint256 v
      → slot_of e t (some (changed_slot e s v storage))
        ≡ (if eq s t then v else slot_of e t (some storage))
  slot_of-changed s t v storage apart r =
      let k = slot_to_key e s in
      let j = slot_to_key e t in
      let sizes_k = is.hash_size (to_bytes_be s) in
      let sizes_j = is.hash_size (to_bytes_be t) in
      let keys = same_slot_key s t apart in
      let before = e.mpt.get j storage in
      let deleted : e.mpt.get j (e.mpt.delete k storage) ≡ (if eq s t then none else before) =
        is.mpt.get_delete k j storage sizes_k sizes_j ∙ rw keys refl in
      elim (Bool-cases (is_zero v)) [
        | inl nothing ↦
            rw (nothing, deleted)
              (elim (Bool-cases (eq s t)) [
                | inl same ↦ rw same (zero_word v r nothing)
                | inr other ↦ rw other refl
              ])
        | inr something ↦
            let inserted : e.mpt.get j (e.mpt.insert k (word_bytes v) storage)
                ≡ (if eq s t then some (word_bytes v) else before) =
              is.mpt.get_insert k j (word_bytes v) storage sizes_k sizes_j
                (word_bytes_some v r something)
              ∙ rw keys refl in
            rw (something, inserted)
              (elim (Bool-cases (eq s t)) [
                | inl same ↦ rw same (word_of-word_bytes v r)
                | inr other ↦ rw other refl
              ])
      ]

  -- The trie that a write changes: the one of the address, or a new one.
  abbrev base : Option e.Trie → e.Trie
  base none = is.created.0
  base (some storage) = storage

  slot_of-base :
      (t : Uint256) (found : Option e.Trie) → slot_of e t (some (base found)) ≡ slot_of e t found
  slot_of-base t none =
      ap (word_of e) (is.mpt.get_create (slot_to_key e t) is.created.0 is.created.1)
  slot_of-base t (some storage) = refl

  pub trie_found :
      (a : Address) (ws : WorldState e) (storage : e.Trie)
      → e.tries.get a ws.storage_tries ≡ some storage
      → get_storage_trie e a ws ≡ (some storage, ws)
  unfolding get_storage_trie
  trie_found a ws storage found = ap (λ t. opened e a ws t e.mpt.create) found

  pub trie_missing :
      (a : Address) (ws : WorldState e)
      → e.tries.get a ws.storage_tries ≡ none
      → get_storage_trie e a ws ≡ (
        some is.created.0,
        record ws { storage_tries = e.tries.insert a is.created.0 ws.storage_tries },
      )
  unfolding get_storage_trie
  trie_missing a ws missing = ap₂ (opened e a ws) missing is.created.1

  tries-write_slot :
      (a b : Address) (s v : Uint256) (ws : WorldState e)
      → e.tries.get b (write_slot e a s v (get_storage_trie e a ws)).storage_tries ≡ (
          if address_equal a b
          then some (changed_slot e s v (base (e.tries.get a ws.storage_tries)))
          else e.tries.get b ws.storage_tries)
  tries-write_slot a b s v ws = by_found (e.tries.get a ws.storage_tries) refl
    where
      after : Option e.Trie × WorldState e → Option e.Trie
      after opened = e.tries.get b (write_slot e a s v opened).storage_tries

      by_found :
          (found : Option e.Trie)
          → e.tries.get a ws.storage_tries ≡ found
          → e.tries.get b (write_slot e a s v (get_storage_trie e a ws)).storage_tries ≡ (
              if address_equal a b
              then some (changed_slot e s v (base found))
              else e.tries.get b ws.storage_tries)
      by_found none missing =
          let t0 : e.Trie = is.created.0 in
          let new : e.Trie = changed_slot e s v t0 in
          let inserted = is.tries.get_insert a b t0 ws.storage_tries in
          ap after (trie_missing a ws missing)
          ∙ is.tries.get_write a b new (e.tries.insert a t0 ws.storage_tries)
          ∙ elim (Bool-cases (address_equal a b)) [
            | inl same ↦ rw (inserted, same) refl
            | inr other ↦ rw (inserted, other) refl
          ]
      by_found (some storage) found =
          let new : e.Trie = changed_slot e s v storage in
          ap after (trie_found a ws storage found)
          ∙ is.tries.get_write a b new ws.storage_tries
          ∙ elim (Bool-cases (address_equal a b)) [
            | inl same ↦
                let there : e.tries.get b ws.storage_tries ≡ some storage =
                  ap (λ x. e.tries.get x ws.storage_tries) (sym ((address_equal_iff a b).0 same))
                  ∙ found in
                rw (same, there) refl
            | inr other ↦ rw other refl
          ]

  -- Over stores that keep their laws, where the two slots do not share a key unless they are the
  -- same: a slot is read as it was written last, and no other slot changes.
  pub ws_get_storage-ws_set_storage :
      (a b : Address) (s t v : Uint256) (ws : WorldState e)
      → (slot_to_key e s ≡ slot_to_key e t → s ≡ t)
      → IsUint256 v
      → ws_get_storage e b t (ws_set_storage e a s v ws)
        ≡ (if warm_slot_key_eq (slot_key a s) (slot_key b t) then v else ws_get_storage e b t ws)
  unfolding ws_get_storage ws_set_storage warm_slot_key_eq
  ws_get_storage-ws_set_storage a b s t v ws apart r =
      let found : Option e.Trie = e.tries.get a ws.storage_tries in
      ap (slot_of e t) (tries-write_slot a b s v (ws_tracked e a s v ws))
      ∙ elim (Bool-cases (address_equal a b)) [
        | inl same ↦
            let there : found ≡ e.tries.get b ws.storage_tries =
              ap (λ x. e.tries.get x ws.storage_tries) ((address_equal_iff a b).0 same) in
            rw same
              (slot_of-changed s t v (base found) apart r ∙ rw (slot_of-base t found, there) refl)
        | inr other ↦ rw other refl
      ]
