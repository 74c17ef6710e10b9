-- ===== src/State/World/Erase.antt =====
-- The slots of an account are erased, all of them and no other, in as many rounds as there are.
use div.Common.{
  ℕ, ◌+◌, ◌≤◌, ◌<◌, ◌≡◌, ◌⊎◌, refl, sym, ap, ◌∙◌, arith, Bool, true, false, List, [], ◌∷◌, length,
  Bool-cases, inl, inr, if◌then◌else◌, zero, suc, some,
}
use div.Types.Address.{Address, address_equal}
use div.State.Stores.{Stores, IsStores, SlotKey, warm_slot_key_eq, listed}
use div.State.World.{collect, erase_keys, erase_rounds, erase_slots_for_address}
use div.State.World.Slots.{warm_slot_key_eq_iff}

-- What the buffer of one round holds.
record Collected (room : ℕ) (addr : Address) (keys : List SlotKey) (found : List SlotKey × Bool)
    : Type 0 where
  own : (k : SlotKey) → listed warm_slot_key_eq k found.0 ≡ true → address_equal k.addr addr ≡ true
  there :
      (k : SlotKey)
      → listed warm_slot_key_eq k found.0 ≡ true
      → listed warm_slot_key_eq k keys ≡ true
  complete :
      found.1 ≡ false
      → (k : SlotKey) → listed warm_slot_key_eq k keys ≡ true
      → address_equal k.addr addr ≡ true
      → listed warm_slot_key_eq k found.0 ≡ true
  filled : found.1 ≡ true → 0 < room → 0 < length found.0

-- A key that is equal to the first one, or one of the rest.
listed-cases :
    (k x : SlotKey) (xs : List SlotKey)
    → listed warm_slot_key_eq k (x ∷ xs) ≡ true
    → (x ≡ k) ⊎ ((warm_slot_key_eq x k ≡ false) × (listed warm_slot_key_eq k xs ≡ true))
listed-cases k x xs h = elim (Bool-cases (warm_slot_key_eq x k)) [
  | inl same ↦ inl ((warm_slot_key_eq_iff x k).0 same)
  | inr other ↦
      let rest : listed warm_slot_key_eq k xs ≡ true = sym (rw other refl) ∙ h in inr (other, rest)
]

listed_first : (x : SlotKey) (xs : List SlotKey) → listed warm_slot_key_eq x (x ∷ xs) ≡ true
listed_first x xs = rw ((warm_slot_key_eq_iff x x).1 refl) refl

listed_rest :
    (k x : SlotKey) (xs : List SlotKey)
    → listed warm_slot_key_eq k xs ≡ true
    → listed warm_slot_key_eq k (x ∷ xs) ≡ true
listed_rest k x xs h = elim (Bool-cases (warm_slot_key_eq x k)) [
  | inl same ↦ rw same refl
  | inr other ↦ rw other h
]

collect-Collected :
    (room : ℕ) (addr : Address) (keys : List SlotKey)
    → Collected room addr keys (collect room addr keys)
unfolding collect
collect-Collected room addr [] = record {
  own = λ k h. cc;
  there = λ k h. h;
  complete = λ done k h a. h;
  filled = λ h pos. cc;
}
collect-Collected zero addr (key ∷ keys) = elim (Bool-cases (address_equal key.addr addr)) [
  | inl same ↦ rw same (record {
    own = λ k h. cc;
    there = λ k h. cc;
    complete = λ done k h a. cc;
    filled = λ h pos. absurd (omega (arith, pos));
  })
  | inr other ↦
      let rest = collect-Collected zero addr keys in
      rw other (record {
        own = rest.own;
        there = λ k h. listed_rest k key keys (rest.there k h);
        complete = λ done k h a. elim (listed-cases k key keys h) [
          | inl e ↦
              (let clash : false ≡ true = sym other ∙ ap (λ t. address_equal t.addr addr) e ∙ a in
                cc)
          | inr r ↦ rest.complete done k r.1 a
        ];
        filled = rest.filled;
      })
]
collect-Collected (suc room) addr (key ∷ keys) = elim (Bool-cases (address_equal key.addr addr)) [
  | inl same ↦
      let rest = collect-Collected room addr keys in
      rw same (record {
        own = λ k h. elim (listed-cases k key (collect room addr keys).0 h) [
          | inl e ↦ ap (λ t. address_equal t.addr addr) (sym e) ∙ same
          | inr r ↦ rest.own k r.1
        ];
        there = λ k h. elim (listed-cases k key (collect room addr keys).0 h) [
          | inl e ↦ ap (λ t. listed warm_slot_key_eq t (key ∷ keys)) (sym e) ∙ listed_first key keys
          | inr r ↦ listed_rest k key keys (rest.there k r.1)
        ];
        complete = λ done k h a. elim (listed-cases k key keys h) [
          | inl e ↦
              ap (λ t. listed warm_slot_key_eq t (key ∷ (collect room addr keys).0)) (sym e)
              ∙ listed_first key (collect room addr keys).0
          | inr r ↦ listed_rest k key (collect room addr keys).0 (rest.complete done k r.1 a)
        ];
        filled = λ h pos. omega arith;
      })
  | inr other ↦
      let rest = collect-Collected (suc room) addr keys in
      rw other (record {
        own = rest.own;
        there = λ k h. listed_rest k key keys (rest.there k h);
        complete = λ done k h a. elim (listed-cases k key keys h) [
          | inl e ↦
              (let clash : false ≡ true = sym other ∙ ap (λ t. address_equal t.addr addr) e ∙ a in
                cc)
          | inr r ↦ rest.complete done k r.1 a
        ];
        filled = rest.filled;
      })
]

module _ (e : Stores) (is : IsStores e) where
  contains_keys :
      (keys : List SlotKey) (k : SlotKey) (m : e.Slots)
      → e.slots.contains k (erase_keys e keys m)
        ≡ (if listed warm_slot_key_eq k keys then false else e.slots.contains k m)
  unfolding erase_keys
  contains_keys [] k m = refl
  contains_keys (key ∷ keys) k m =
      let rest = contains_keys keys k (e.slots.erase key m) in
      let erased = is.slots.contains_erase key k m in
      rest
      ∙ rw erased (elim (Bool-cases (warm_slot_key_eq key k)) [
        | inl same ↦ rw same (elim (Bool-cases (listed warm_slot_key_eq k keys)) [
          | inl h ↦ rw h refl
          | inr h ↦ rw h refl
        ])
        | inr other ↦ rw other refl
      ])

  size_keys :
      (keys : List SlotKey) (m : e.Slots)
      → length (e.slots.elements (erase_keys e keys m)) ≤ length (e.slots.elements m)
  unfolding erase_keys
  size_keys [] m = omega arith
  size_keys (key ∷ keys) m =
      omega (arith, size_keys keys (e.slots.erase key m), is.slots.erase_le key m)

  fewer :
      (keys : List SlotKey) (m : e.Slots)
      → 0 < length keys
      → ((k : SlotKey) → listed warm_slot_key_eq k keys ≡ true → e.slots.contains k m ≡ true)
      → length (e.slots.elements (erase_keys e keys m)) < length (e.slots.elements m)
  unfolding erase_keys
  fewer [] m pos h = absurd (omega (arith, pos))
  fewer (key ∷ keys) m pos h = omega (
    arith,
    size_keys keys (e.slots.erase key m),
    is.slots.erase_less key m (h key (listed_first key keys)),
  )

  -- One round leaves the slots of other addresses alone.
  round_others :
      (addr : Address) (k : SlotKey) (m : e.Slots)
      → address_equal k.addr addr ≡ false
      → e.slots.contains k (erase_keys e (collect 64 addr (e.slots.elements m)).0 m)
        ≡ e.slots.contains k m
  round_others addr k m other =
      let keys : List SlotKey = (collect 64 addr (e.slots.elements m)).0 in
      let found = collect-Collected 64 addr (e.slots.elements m) in
      contains_keys keys k m ∙ elim (Bool-cases (listed warm_slot_key_eq k keys)) [
        | inl h ↦ (let clash : false ≡ true = sym other ∙ found.own k h in cc)
        | inr h ↦ rw h refl
      ]

  -- The last round leaves no slot of the address.
  last_round :
      (addr : Address) (k : SlotKey) (m : e.Slots)
      → address_equal k.addr addr ≡ true
      → (collect 64 addr (e.slots.elements m)).1 ≡ false
      → e.slots.contains k (erase_keys e (collect 64 addr (e.slots.elements m)).0 m) ≡ false
  last_round addr k m own done =
      let keys : List SlotKey = (collect 64 addr (e.slots.elements m)).0 in
      let found = collect-Collected 64 addr (e.slots.elements m) in
      contains_keys keys k m ∙ elim (Bool-cases (listed warm_slot_key_eq k keys)) [
        | inl h ↦ rw h refl
        | inr h ↦ rw h (elim (Bool-cases (e.slots.contains k m)) [
          | inl held ↦
              let clash : false ≡ true =
                sym h ∙ found.complete done k (sym (is.slots.elements k m) ∙ held) own in
              cc
          | inr free ↦ free
        ])
      ]

  -- The slots of the address are gone, and all others are as they were.
  abbrev Erased : Address → e.Slots → e.Slots → Type 0
  Erased addr m erased =
      (k : SlotKey)
      → e.slots.contains k erased
        ≡ (if address_equal k.addr addr then false else e.slots.contains k m)

  -- Each round but the last erases a key, so that the loop ends.
  erase_rounds-erases :
      (n : ℕ) (addr : Address) (m : e.Slots)
      → length (e.slots.elements m) < n
      → (erased : e.Slots) × (erase_rounds e n addr m ≡ some erased) × Erased addr m erased
  unfolding erase_rounds
  erase_rounds-erases zero addr m h = absurd (omega (arith, h))
  erase_rounds-erases (suc n) addr m h =
      let keys : List SlotKey = (collect 64 addr (e.slots.elements m)).0 in
      let erased : e.Slots = erase_keys e keys m in
      let found = collect-Collected 64 addr (e.slots.elements m) in
      elim (Bool-cases (collect 64 addr (e.slots.elements m)).1) [
        | inl again ↦
            let less =
              fewer keys m (found.filled again (omega arith))
                (λ j l. is.slots.elements j m ∙ found.there j l) in
            let rest = erase_rounds-erases n addr erased (omega (arith, less, h)) in
            (
              rest.0,
              rw again rest.1,
              λ k. rest.2 k ∙ elim (Bool-cases (address_equal k.addr addr)) [
                | inl own ↦ rw own refl
                | inr other ↦ rw other (round_others addr k m other)
              ],
            )
        | inr done ↦ (
          erased,
          rw done refl,
          λ k. elim (Bool-cases (address_equal k.addr addr)) [
            | inl own ↦ rw own (last_round addr k m own done)
            | inr other ↦ rw other (round_others addr k m other)
          ],
        )
      ]

  -- The loop of `erase_slots_for_address` ends within one round more than there are slots. In the set
  -- at its end no slot of the address is left, and no other one is gone.
  pub erase_slots_for_address-erases :
      (addr : Address) (m : e.Slots)
      → (erase_rounds e (length (e.slots.elements m) + 1) addr m
          ≡ some (erase_slots_for_address e addr m))
        × ((k : SlotKey)
            → e.slots.contains k (erase_slots_for_address e addr m)
              ≡ (if address_equal k.addr addr then false else e.slots.contains k m))
  unfolding erase_slots_for_address
  erase_slots_for_address-erases addr m =
      let ended = erase_rounds-erases (length (e.slots.elements m) + 1) addr m (omega arith) in
      (rw ended.1 refl, λ k. rw ended.1 (ended.2 k))
