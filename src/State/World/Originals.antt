-- ===== src/State/World/Originals.antt =====
-- The original values of slots are kept during a transaction.
use div.Common.{
  ◌≡◌, refl, sym, ap, ap₂, ◌∙◌, Bool, true, false, Option, none, some, List, [], ◌∷◌, Bool-cases,
  inl, inr, if◌then◌else◌, All,
}
use div.Types.Address.{Address}
use div.Uint256.{Uint256, IsUint256}
use div.State.Stores.{Stores, IsStores, SlotKey, warm_slot_key_eq}
use div.State.World.{WorldState, is_some, slot_to_key}
use div.State.World.Storage.{
  get_storage_trie, or_current, write_slot, ws_get_storage, ws_get_original_storage, ws_set_storage,
  ws_tracked, ws_begin_transaction,
}
use div.State.World.Slots.{
  slot_key, warm_slot_key_eq_iff, trie_found, trie_missing, ws_get_storage-ws_set_storage,
}

module _ (e : Stores) where
  -- A write of a word to a slot that does not share its key with the slot `t` unless it is `t`.
  abbrev pub IsWrite : Uint256 → SlotKey × Uint256 → Type 0
  IsWrite t (key, value) =
      (slot_to_key e key.slot ≡ slot_to_key e t → key.slot ≡ t) × IsUint256 value

  -- A sequence of writes.
  abbrev pub write_all : List (SlotKey × Uint256) → WorldState e → WorldState e
  write_all [] ws = ws
  write_all ((key, value) ∷ writes) ws =
      write_all writes (ws_set_storage e key.addr key.slot value ws)

module _ (e : Stores) (is : IsStores e) where
  originals-write_slot :
      (a : Address) (s v : Uint256) (ws : WorldState e)
      → (write_slot e a s v (get_storage_trie e a ws)).original_storage ≡ ws.original_storage
  originals-write_slot a s v ws = by_found (e.tries.get a ws.storage_tries) refl
    where
      after : Option e.Trie × WorldState e → e.Originals
      after found = (write_slot e a s v found).original_storage

      by_found :
          (found : Option e.Trie)
          → e.tries.get a ws.storage_tries ≡ found
          → (write_slot e a s v (get_storage_trie e a ws)).original_storage ≡ ws.original_storage
      by_found none missing = ap after (trie_missing e is a ws missing)
      by_found (some storage) found = ap after (trie_found e is a ws storage found)

  -- A write does not change what was the value of a slot when the transaction began.
  original-ws_set_storage :
      (a b : Address) (s t v : Uint256) (ws : WorldState e)
      → (slot_to_key e s ≡ slot_to_key e t → s ≡ t)
      → IsUint256 v
      → ws_get_original_storage e b t (ws_set_storage e a s v ws) ≡ ws_get_original_storage e b t ws
  unfolding ws_get_original_storage ws_set_storage
  original-ws_set_storage a b s t v ws apart r =
      let k : SlotKey = slot_key a s in
      let j : SlotKey = slot_key b t in
      let o : e.Originals = ws.original_storage in
      ap
        (λ x. or_current e (e.originals.get j x) (ws_get_storage e b t (ws_set_storage e a s v ws)))
        kept
      ∙ elim (Bool-cases (warm_slot_key_eq k j)) [
        | inl same ↦ own same (e.originals.get k o) refl
        | inr other ↦
            let storage : ws_get_storage e b t (ws_set_storage e a s v ws)
                ≡ ws_get_storage e b t ws =
              ws_get_storage-ws_set_storage e is a b s t v ws apart r ∙ rw other refl in
            ap₂ (or_current e) (others other (is_some (e.originals.get k o))) storage
      ]
    where
      tracked : Bool → e.Originals
      tracked known =
          if known
          then ws.original_storage
          else e.originals.insert (slot_key a s) (ws_get_storage e a s ws) ws.original_storage

      kept :
          (ws_set_storage e a s v ws).original_storage
          ≡ tracked (is_some (e.originals.get (slot_key a s) ws.original_storage))
      kept = originals-write_slot a s v (ws_tracked e a s v ws)

      others :
          warm_slot_key_eq (slot_key a s) (slot_key b t) ≡ false
          → (known : Bool)
          → e.originals.get (slot_key b t) (tracked known)
            ≡ e.originals.get (slot_key b t) ws.original_storage
      others other true = refl
      others other false =
          is.originals.get_insert (slot_key a s) (slot_key b t) (ws_get_storage e a s ws)
            ws.original_storage
          ∙ rw other refl

      own :
          warm_slot_key_eq (slot_key a s) (slot_key b t) ≡ true
          → (found : Option Uint256) → e.originals.get (slot_key a s) ws.original_storage ≡ found
          → or_current e
              (e.originals.get (slot_key b t) (tracked (is_some found)))
              (ws_get_storage e b t (ws_set_storage e a s v ws))
            ≡ or_current e
                (e.originals.get (slot_key b t) ws.original_storage)
                (ws_get_storage e b t ws)
      own same none missing =
          let keys : slot_key a s ≡ slot_key b t =
            (warm_slot_key_eq_iff (slot_key a s) (slot_key b t)).0 same in
          let there : e.originals.get (slot_key b t) ws.original_storage ≡ none =
            ap (λ x. e.originals.get x ws.original_storage) (sym keys) ∙ missing in
          let first : e.originals.get (slot_key b t) (tracked false)
              ≡ some (ws_get_storage e a s ws) =
            is.originals.get_insert (slot_key a s) (slot_key b t) (ws_get_storage e a s ws)
              ws.original_storage
            ∙ rw (same, there) refl in
          rw (first, there) (ap (λ x. ws_get_storage e x.addr x.slot ws) keys)
      own same (some first) found =
          let keys : slot_key a s ≡ slot_key b t =
            (warm_slot_key_eq_iff (slot_key a s) (slot_key b t)).0 same in
          let there : e.originals.get (slot_key b t) ws.original_storage ≡ some first =
            ap (λ x. e.originals.get x ws.original_storage) (sym keys) ∙ found in
          rw there refl

  original-write_all :
      (writes : List (SlotKey × Uint256)) (b : Address) (t : Uint256) (ws : WorldState e)
      → All (IsWrite e t) writes
      → ws_get_original_storage e b t (write_all e writes ws) ≡ ws_get_original_storage e b t ws
  original-write_all [] b t ws h = refl
  original-write_all ((key, value) ∷ writes) b t ws h =
      original-write_all writes b t (ws_set_storage e key.addr key.slot value ws) h.1
      ∙ original-ws_set_storage key.addr b key.slot t value ws h.0.0 h.0.1

  -- Over stores that keep their laws, the original value of a slot is, after any writes in a
  -- transaction to slots that do not share its key unless they are that slot, the value that the
  -- slot had when the transaction began.
  pub ws_get_original_storage-write_all :
      (writes : List (SlotKey × Uint256)) (b : Address) (t : Uint256) (ws : WorldState e)
      → All (IsWrite e t) writes
      → ws_get_original_storage e b t (write_all e writes (ws_begin_transaction e ws))
        ≡ ws_get_storage e b t ws
  unfolding ws_get_original_storage ws_get_storage ws_begin_transaction
  ws_get_original_storage-write_all writes b t ws h =
      original-write_all writes b t (ws_begin_transaction e ws) h
      ∙ rw (is.originals.get_clear (slot_key b t) ws.original_storage) refl
