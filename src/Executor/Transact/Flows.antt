-- ===== src/Executor/Transact/Flows.antt =====
-- The payments of a transaction: the transfer of its value, the refund and the coinbase.
use div.Common.{
  ℕ, ◌+◌, ◌-◌, ◌*◌, ◌%◌, ◌≤◌, ◌<◌, ◌≡◌, ◌≢◌, refl, sym, ap, ◌∙◌, arith, true, ltb, Bool-cases, inl,
  inr, sub_u64, IsU64, ltb→le,
}
use mathlib.Core.Path.{subst}
use native.Mathlib.Nat.{mul-le-mul_left, mul-le-mul_right, mod-eq_of_lt}
use div.Types.Address.{Address, IsAddress}
use div.Uint256.{Uint256, IsUint256, to_nat, u256_mod, is_zero, sub, mul, from_u64}
use div.Uint256.Add.{add-mod, sub-mod}
use div.Uint256.Mul.{mul-mod}
use div.Uint256.Order.{is_zero_iff}
use div.Transaction.{transaction_gas_limit, transaction_value}
use div.State.Access.{StateAccess, IsLawful, SameCodes}
use div.Executor.{BlockExecutor, BlockTx}
use div.Executor.Transact.{transfer, recipient, settle}

pub charge_split : (p m n : ℕ) → n ≤ m → p * m ≡ p * (m - n) + p * n
charge_split p m n h =
    let whole : m ≡ (m - n) + n = omega arith in omega (arith, ap (λ (t : ℕ). p * t) whole)

pub product_le : (p q m n : ℕ) → p ≤ q → m ≤ n → p * m ≤ q * n
product_le p q m n h k =
    omega (arith, mul-le-mul_right {m = p} {n = q} m h, mul-le-mul_left {m = m} {n = n} q k)

module _ {S : Type 0} (access : StateAccess S) where
  -- The balance as a number.
  abbrev pub funds : Address → S → ℕ
  funds a s = to_nat (access.get_balance a s)

  -- Only the balance of `a` may differ.
  abbrev pub Others : Address → S → S → Type 0
  Others a s s' = (b : Address) → IsAddress b → a ≢ b → funds b s' ≡ funds b s

module _ {S : Type 0} (access : StateAccess S) (Valid : S → Type 0)
    (laws : IsLawful access Valid) where
  pub pays :
      (a : Address) (v : Uint256) (s : S)
      → Valid s
      → IsAddress a
      → IsUint256 v
      → to_nat v ≤ funds access a s
      → ((access.sub_balance a v s).0 ≡ true)
        × (funds access a (access.sub_balance a v s).1 + to_nat v ≡ funds access a s)
        × Others access a s (access.sub_balance a v s).1
        × Valid (access.sub_balance a v s).1
        × SameCodes access s (access.sub_balance a v s).1
  pays a v s valid p w h =
      let paid = laws.sub_enough a v s valid p w h in
      let difference = sub-mod (access.get_balance a s) v (laws.balance a s valid) w in
      (
        paid.0,
        omega (arith, ap to_nat paid.1.0, difference.0, laws.balance a s valid),
        (λ b q ne. ap to_nat (paid.1.1 b q ne)),
        paid.2,
        paid.1.3,
      )

  pub receives :
      (a : Address) (v : Uint256) (s : S)
      → Valid s
      → IsAddress a
      → IsUint256 v
      → funds access a s + to_nat v < u256_mod
      → (funds access a (access.add_balance a v s).1 ≡ funds access a s + to_nat v)
        × Others access a s (access.add_balance a v s).1
        × Valid (access.add_balance a v s).1
  receives a v s valid p w h =
      let added = laws.add_fits a v s valid p w h in
      let sum = add-mod (access.get_balance a s) v (laws.balance a s valid) w in
      (omega (arith, ap to_nat added.1.0, sum.0), (λ b q ne. ap to_nat (added.1.1 b q ne)), added.2)

  -- The three parties of a transaction, and their funds.
  abbrev pub Parties : Address → Address → Address → Type 0
  Parties a b c = (a ≢ b) × (a ≢ c) × (b ≢ c) × IsAddress a × IsAddress b × IsAddress c

  pub transfer-moves :
      (btx : BlockTx) (contract c : Address) (s : S)
      → Valid s
      → Parties btx.sender (recipient btx contract) c
      → IsUint256 (transaction_value btx.tx)
      → to_nat (transaction_value btx.tx) ≤ funds access btx.sender s
      → funds access (recipient btx contract) s + to_nat (transaction_value btx.tx) < u256_mod
      → ((transfer access btx contract s).0 ≡ true)
        × (funds access btx.sender (transfer access btx contract s).1
              + to_nat (transaction_value btx.tx)
            ≡ funds access btx.sender s)
        × (funds access (recipient btx contract) (transfer access btx contract s).1
            ≡ funds access (recipient btx contract) s + to_nat (transaction_value btx.tx))
        × (funds access c (transfer access btx contract s).1 ≡ funds access c s)
        × Valid (transfer access btx contract s).1
  unfolding transfer
  transfer-moves btx contract c s v parties w h room =
      let value : Uint256 = transaction_value btx.tx in
      let to : Address = recipient btx contract in
      let (ab, ac, bc, pa, pb, pc) = parties in
      elim (Bool-cases (is_zero value)) [
        | inl nothing ↦
            let none_moved : to_nat value ≡ 0 = (is_zero_iff value).0 nothing in
            rw nothing (refl, omega (arith, none_moved), omega (arith, none_moved), refl, v)
        | inr something ↦
            let paid = pays btx.sender value s v pa w h in
            let s' : S = (access.sub_balance btx.sender value s).1 in
            let got = receives to value s' paid.3 pb w (omega (arith, paid.2 to pb ab, room)) in
            rw (something, paid.0)
              (
                refl,
                omega (arith, paid.1, got.1 btx.sender pa (λ e. ab (sym e))),
                omega (arith, got.0, paid.2 to pb ab),
                got.1 c pc bc ∙ paid.2 c pc ac,
                got.2,
              )
      ]

  -- A price for some gas, as a word.
  pub product_exact :
      (price : Uint256) (gas : ℕ)
      → IsUint256 price
      → IsU64 gas
      → to_nat price * gas < u256_mod
      → (to_nat (mul price (from_u64 gas)) ≡ to_nat price * gas)
        × IsUint256 (mul price (from_u64 gas))
  product_exact price gas p h fits =
      let word : IsUint256 (from_u64 gas) = (h, omega arith, omega arith, omega arith) in
      let same : to_nat (from_u64 gas) ≡ gas = omega arith in
      let product = mul-mod price (from_u64 gas) p word in
      (product.0 ∙ ap (λ t. to_nat price * t % u256_mod) same ∙ mod-eq_of_lt fits, product.1)

  -- The steps after the run: the sender gets back what the unused gas cost, and the coinbase gets
  -- the part of the price above the base fee.
  pub settle-moves :
      (exec : BlockExecutor) (btx : BlockTx) (price : Uint256) (gas_used : ℕ) (b : Address) (s : S)
      → Valid s
      → Parties btx.sender b exec.block.coinbase
      → IsUint256 price
      → IsUint256 exec.block.base_fee
      → to_nat exec.block.base_fee ≤ to_nat price
      → gas_used ≤ transaction_gas_limit btx.tx
      → IsU64 (transaction_gas_limit btx.tx)
      → funds access btx.sender s + to_nat price * (transaction_gas_limit btx.tx - gas_used)
        < u256_mod
      → funds access exec.block.coinbase s + (to_nat price - to_nat exec.block.base_fee) * gas_used
        < u256_mod
      → (funds access btx.sender (settle access exec btx price gas_used s)
          ≡ funds access btx.sender s + to_nat price * (transaction_gas_limit btx.tx - gas_used))
        × (funds access b (settle access exec btx price gas_used s) ≡ funds access b s)
        × (funds access exec.block.coinbase (settle access exec btx price gas_used s)
            ≡ funds access exec.block.coinbase s
              + (to_nat price - to_nat exec.block.base_fee) * gas_used)
  unfolding settle
  settle-moves exec btx price gas_used b s v parties p q above used h room tip_room =
      let (ab, ac, bc, pa, pb, pc) = parties in
      let a : Address = btx.sender in
      let c : Address = exec.block.coinbase in
      let limit : ℕ = transaction_gas_limit btx.tx in
      let left : ℕ = sub_u64 limit gas_used in
      let exact : left ≡ limit - gas_used = omega arith in
      let tip : Uint256 = sub price exec.block.base_fee in
      let tip_word = sub-mod price exec.block.base_fee p q in
      let tip_exact : to_nat tip ≡ to_nat price - to_nat exec.block.base_fee =
        omega (arith, tip_word.0, p, q) in
      let tip_fits : funds access c s + to_nat tip * gas_used < u256_mod =
        subst (λ t. funds access c s + t * gas_used < u256_mod) (sym tip_exact) tip_room in
      let payment = product_exact tip gas_used tip_word.1 (omega arith) (omega (arith, tip_fits)) in
      let tip_paid : to_nat (mul tip (from_u64 gas_used))
          ≡ (to_nat price - to_nat exec.block.base_fee) * gas_used =
        payment.0 ∙ ap (λ (t : ℕ). t * gas_used) tip_exact in
      elim (Bool-cases (ltb 0 left)) [
        | inl unused ↦
            let back =
              product_exact price left p (omega arith)
                (subst (λ t. to_nat price * t < u256_mod) (sym exact) (omega (arith, room))) in
            let back_exact : to_nat (mul price (from_u64 left))
                ≡ to_nat price * (limit - gas_used) =
              back.0 ∙ ap (λ (t : ℕ). to_nat price * t) exact in
            let s' : S = (access.add_balance a (mul price (from_u64 left)) s).1 in
            let got =
              receives a (mul price (from_u64 left)) s v pa back.1
                (omega (arith, back_exact, room)) in
            let paid =
              receives c (mul tip (from_u64 gas_used)) s' got.2 pc payment.1
                (omega (arith, got.1 c pc ac, tip_paid, tip_room)) in
            rw (unused, settle)
              (
                omega (arith, paid.1 a pa (λ e. ac (sym e)), got.0, back_exact),
                omega (arith, paid.1 b pb (λ e. bc (sym e)), got.1 b pb ab),
                omega (arith, paid.0, got.1 c pc ac, tip_paid),
              )
        | inr all_used ↦
            let nothing : limit - gas_used ≡ 0 = omega (arith, ltb→le _ _ all_used, exact) in
            let free : to_nat price * (limit - gas_used) ≡ 0 =
              ap (λ (t : ℕ). to_nat price * t) nothing ∙ omega arith in
            let paid =
              receives c (mul tip (from_u64 gas_used)) s v pc payment.1
                (omega (arith, tip_paid, tip_room)) in
            rw (all_used, settle)
              (
                omega (arith, paid.1 a pa (λ e. ac (sym e)), free),
                paid.1 b pb (λ e. bc (sym e)),
                omega (arith, paid.0, tip_paid),
              )
      ]
