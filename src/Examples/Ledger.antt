-- ===== src/Examples/Ledger.antt =====
-- A state of balances and nonces alone, which keeps the promises of the interface.
use div.Common.{
  ℕ, ◌+◌, ◌-◌, ◌≡◌, ◌≢◌, refl, ◌∙◌, arith, true, false, [], u64_max, ltb, if◌then◌else◌, Bool-cases,
  inl, inr, lt→ltb, le→ltb,
}
use div.Types.Address.{Address, address_equal, address_equal_iff, hash_zero}
use div.Uint256.{Uint256, IsUint256, u256_zero, add, sub, lt}
use div.Uint256.Add.{add-mod, sub-mod}
use div.Uint256.Order.{lt-ltb}
use div.State.Access.{StateAccess, IsLawful}

pub record Ledger : Type 0 where
  pub balances : Address → Uint256
  pub nonces : Address → ℕ

abbrev update {ℓ} : {A : Type ℓ} → (Address → A) → Address → A → Address → A
update f a v b = if address_equal a b then v else f b

abbrev with_balance : Address → Uint256 → Ledger → Ledger
with_balance a v s = record s { balances = update s.balances a v }

abbrev pub ledger_access : StateAccess Ledger
ledger_access = record {
  account_exists = λ a s. true;
  account_is_empty = λ a s. false;
  create_contract = λ a s. s;
  delete_account = λ a s. s;
  get_balance = λ a s. s.balances a;
  set_balance = λ a v s. with_balance a v s;
  add_balance = λ a v s.
      if lt (add (s.balances a) v) (s.balances a)
      then (false, s)
      else (true, with_balance a (add (s.balances a) v) s);
  sub_balance = λ a v s.
      if lt (s.balances a) v then (false, s) else (true, with_balance a (sub (s.balances a) v) s);
  get_nonce = λ a s. s.nonces a;
  set_nonce = λ a n s. record s { nonces = update s.nonces a n };
  increment_nonce = λ a s. (
    s.nonces a,
    if ltb (s.nonces a) (u64_max - 1)
        then record s { nonces = update s.nonces a (s.nonces a + 1) }
        else s,
  );
  get_code = λ a s. [];
  get_code_size = λ a s. 0;
  get_code_hash = λ a s. hash_zero;
  set_code = λ a c s. s;
  get_storage = λ a k s. u256_zero;
  get_original_storage = λ a k s. u256_zero;
  set_storage = λ a k v s. s;
  is_address_warm = λ a s. false;
  warm_address = λ a s. (true, s);
  is_slot_warm = λ a k s. false;
  warm_slot = λ a k s. (true, s);
  begin_transaction = λ s. s;
  snapshot = λ s. (0, s);
  revert_to_snapshot = λ i s. s;
  commit_snapshot = λ i s. s;
  state_root = λ s. (hash_zero, s);
}

abbrev pub IsLedger : Ledger → Type 0
IsLedger s = (a : Address) → IsUint256 (s.balances a)

equal_self : (a : Address) → address_equal a a ≡ true
equal_self a = (address_equal_iff a a).1 refl

differ : (a b : Address) → a ≢ b → address_equal a b ≡ false
differ a b ne = elim (Bool-cases (address_equal a b)) [
  | inl same ↦ absurd (ne ((address_equal_iff a b).0 same))
  | inr other ↦ other
]

with_balance-IsLedger :
    (a : Address) (v : Uint256) (s : Ledger)
    → IsLedger s
    → IsUint256 v
    → IsLedger (with_balance a v s)
with_balance-IsLedger a v s valid p b = elim (Bool-cases (address_equal a b)) [
  | inl same ↦ rw same p
  | inr other ↦ rw other (valid b)
]

pub ledger-IsLawful : IsLawful ledger_access IsLedger
ledger-IsLawful = record {
  balance = λ a s valid. valid a;
  sub_enough = λ a v s valid p w h.
      let enough : lt (s.balances a) v ≡ false =
        lt-ltb (s.balances a) v (valid a) w ∙ le→ltb _ _ h in
      let rest = sub-mod (s.balances a) v (valid a) w in
      rw enough (
        refl,
        (rw (equal_self a) refl, (λ b q ne. rw (differ a b ne) refl), (λ b q. refl), λ b. refl),
        with_balance-IsLedger a (sub (s.balances a) v) s valid rest.1,
      );
  sub_short = λ a v s valid w h.
      let short : lt (s.balances a) v ≡ true = lt-ltb (s.balances a) v (valid a) w ∙ lt→ltb _ _ h in
      rw short refl;
  add_fits = λ a v s valid p w h.
      let sum = add-mod (s.balances a) v (valid a) w in
      let fits : lt (add (s.balances a) v) (s.balances a) ≡ false =
        lt-ltb (add (s.balances a) v) (s.balances a) sum.1 (valid a)
        ∙ le→ltb _ _ (omega (arith, sum.0)) in
      rw fits (
        refl,
        (rw (equal_self a) refl, (λ b q ne. rw (differ a b ne) refl), (λ b q. refl), λ b. refl),
        with_balance-IsLedger a (add (s.balances a) v) s valid sum.1,
      );
  add_codes = λ a v s b. refl;
  add_over = λ a v s valid w h.
      let sum = add-mod (s.balances a) v (valid a) w in
      let over : lt (add (s.balances a) v) (s.balances a) ≡ true =
        lt-ltb (add (s.balances a) v) (s.balances a) sum.1 (valid a)
        ∙ lt→ltb _ _ (omega (arith, sum.0, valid a, w)) in
      rw over refl;
  increment = λ a s valid p. elim (Bool-cases (ltb (s.nonces a) (u64_max - 1))) [
    | inl room ↦ rw room (
      refl,
      (λ b q. refl),
      rw (equal_self a) refl,
      (λ b q ne. rw (differ a b ne) refl),
      valid,
      λ b. refl,
    )
    | inr full ↦ rw full (refl, (λ b q. refl), refl, (λ b q ne. refl), valid, λ b. refl)
  ];
  set_balance = λ a v s valid p w. (
    (rw (equal_self a) refl, (λ b q ne. rw (differ a b ne) refl), (λ b q. refl), λ b. refl),
    with_balance-IsLedger a v s valid w,
  );
  set_nonce = λ a n s valid p small. (
    (λ b q. refl),
    rw (equal_self a) refl,
    (λ b q ne. rw (differ a b ne) refl),
    valid,
    λ b. refl,
  );
  create = λ a s valid p. ((λ b q. refl), refl, (λ b q ne. refl), valid, λ b. refl);
  warm = λ a s valid. ((λ b q. refl), (λ b q. refl), valid, λ b. refl);
  warm_key = λ a k s valid. ((λ b q. refl), (λ b q. refl), valid, λ b. refl);
  begin = λ s valid. ((λ b q. refl), (λ b q. refl), valid, λ b. refl);
  snap = λ s valid. ((λ b q. refl), (λ b q. refl), valid, λ b. refl);
  commit = λ i s valid. ((λ b q. refl), (λ b q. refl), valid, λ b. refl);
}
