-- ===== src/Transaction/Price.antt =====
-- The effective price of gas, and the base fee of the block.
use div.Common.{
  ℕ, ◌+◌, ◌%◌, ◌≤◌, ◌<◌, ◌≡◌, arith, Bool, true, false, Bool-cases, inl, inr, min, refl,
}
use div.Uint256.{Uint256, IsUint256, to_nat, u256_mod, add, lt}
use div.Uint256.Add.{add-mod}
use div.Uint256.Order.{lt_iff}
use div.Transaction.{
  Transaction, Eip1559Tx, legacy, eip2930, eip1559, eip4844, eip7702, tx_effective_gas_price,
  transaction_effective_gas_price, transaction_max_fee_per_gas, transaction_value,
}

-- The words that the executor computes with are well formed.
abbrev pub HasWords : Transaction → Type 0
HasWords (legacy tx) = IsUint256 tx.gas_price × IsUint256 tx.value
HasWords (eip2930 tx) = IsUint256 tx.gas_price × IsUint256 tx.value
HasWords (eip1559 tx) =
    IsUint256 tx.max_fee_per_gas × IsUint256 tx.value × IsUint256 tx.max_priority_fee_per_gas
HasWords (eip4844 tx) =
    IsUint256 tx.max_fee_per_gas × IsUint256 tx.value × IsUint256 tx.max_priority_fee_per_gas
HasWords (eip7702 tx) =
    IsUint256 tx.max_fee_per_gas × IsUint256 tx.value × IsUint256 tx.max_priority_fee_per_gas

-- The price is the lesser of the bound and the base fee with the tip, as words.
tx_effective_gas_price-min :
    (max tip base : Uint256)
    → IsUint256 max
    → IsUint256 tip
    → IsUint256 base
    → (to_nat (tx_effective_gas_price max tip base)
        ≡ min (to_nat max) ((to_nat base + to_nat tip) % u256_mod))
      × IsUint256 (tx_effective_gas_price max tip base)
unfolding tx_effective_gas_price
tx_effective_gas_price-min max tip base p q r =
    let sum = add-mod base tip r q in
    let less = lt_iff max (add base tip) p sum.1 in
    elim (Bool-cases (lt max (add base tip))) [
      | inl below ↦ rw below (omega (arith, less.0 below, sum.0), p)
      | inr above ↦ rw above (
        omega (
          arith,
          sum.0,
          not_below (lt max (add base tip)) (to_nat max) (to_nat (add base tip)) above less.1,
        ),
        sum.1,
      )
    ]
  where
    not_below : (b : Bool) (m n : ℕ) → b ≡ false → (m < n → b ≡ true) → n ≤ m
    not_below b m n e h = grind (arith, h)

between :
    (max tip base : Uint256)
    → IsUint256 max
    → IsUint256 tip
    → IsUint256 base
    → to_nat base + to_nat tip < u256_mod
    → to_nat base ≤ to_nat max
    → (to_nat (tx_effective_gas_price max tip base) ≡ min (to_nat max) (to_nat base + to_nat tip))
      × (to_nat base ≤ to_nat (tx_effective_gas_price max tip base))
      × (to_nat (tx_effective_gas_price max tip base) ≤ to_nat max)
between max tip base p q r fits h =
    let price = tx_effective_gas_price-min max tip base p q r in
    (omega (arith, price.0), omega (arith, price.0), omega (arith, price.0))

-- The base fee and the tip of the transaction do not exceed a word.
abbrev pub TipFits : Transaction → Uint256 → Type 0
TipFits (legacy tx) base = Unit
TipFits (eip2930 tx) base = Unit
TipFits (eip1559 tx) base = to_nat base + to_nat tx.max_priority_fee_per_gas < u256_mod
TipFits (eip4844 tx) base = to_nat base + to_nat tx.max_priority_fee_per_gas < u256_mod
TipFits (eip7702 tx) base = to_nat base + to_nat tx.max_priority_fee_per_gas < u256_mod

pub value-IsUint256 : (tx : Transaction) → HasWords tx → IsUint256 (transaction_value tx)
value-IsUint256 (legacy tx) w = w.1
value-IsUint256 (eip2930 tx) w = w.1
value-IsUint256 (eip1559 tx) w = w.1
value-IsUint256 (eip4844 tx) w = w.1
value-IsUint256 (eip7702 tx) w = w.1

pub max_fee-IsUint256 :
    (tx : Transaction) → HasWords tx → IsUint256 (transaction_max_fee_per_gas tx)
max_fee-IsUint256 (legacy tx) w = w.0
max_fee-IsUint256 (eip2930 tx) w = w.0
max_fee-IsUint256 (eip1559 tx) w = w.0
max_fee-IsUint256 (eip4844 tx) w = w.0
max_fee-IsUint256 (eip7702 tx) w = w.0

pub price-IsUint256 :
    (tx : Transaction) (base : Uint256)
    → HasWords tx
    → IsUint256 base
    → IsUint256 (transaction_effective_gas_price tx base)
price-IsUint256 (legacy tx) base w p = w.0
price-IsUint256 (eip2930 tx) base w p = w.0
price-IsUint256 (eip1559 tx) base w p =
    (tx_effective_gas_price-min tx.max_fee_per_gas tx.max_priority_fee_per_gas base w.0 w.2 p).1
price-IsUint256 (eip4844 tx) base w p =
    (tx_effective_gas_price-min tx.max_fee_per_gas tx.max_priority_fee_per_gas base w.0 w.2 p).1
price-IsUint256 (eip7702 tx) base w p =
    (tx_effective_gas_price-min tx.max_fee_per_gas tx.max_priority_fee_per_gas base w.0 w.2 p).1

-- The price that a transaction pays at a base fee, told by numbers: its own price, or the lesser of
-- its bound and the base fee with its tip.
abbrev pub price_of : Transaction → ℕ → ℕ
price_of (legacy tx) base = to_nat tx.gas_price
price_of (eip2930 tx) base = to_nat tx.gas_price
price_of (eip1559 tx) base =
    min (to_nat tx.max_fee_per_gas) (base + to_nat tx.max_priority_fee_per_gas)
price_of (eip4844 tx) base =
    min (to_nat tx.max_fee_per_gas) (base + to_nat tx.max_priority_fee_per_gas)
price_of (eip7702 tx) base =
    min (to_nat tx.max_fee_per_gas) (base + to_nat tx.max_priority_fee_per_gas)

-- Where the base fee and the tip of a transaction with well-formed words fit into a word, the
-- effective gas price of a transaction with a tip is the lesser of its bound and the base fee with
-- the tip, and that of any other its gas price. It lies between the base fee, which the bound of
-- the transaction covers, and that bound.
pub effective_gas_price-exact :
    (tx : Transaction) (base : Uint256)
    → HasWords tx
    → IsUint256 base
    → TipFits tx base
    → to_nat base ≤ to_nat (transaction_max_fee_per_gas tx)
    → (to_nat (transaction_effective_gas_price tx base) ≡ price_of tx (to_nat base))
      × (to_nat base ≤ to_nat (transaction_effective_gas_price tx base))
      × (to_nat (transaction_effective_gas_price tx base) ≤ to_nat (transaction_max_fee_per_gas tx))
effective_gas_price-exact (legacy tx) base w p fits h = (refl, h, omega arith)
effective_gas_price-exact (eip2930 tx) base w p fits h = (refl, h, omega arith)
effective_gas_price-exact (eip1559 tx) base w p fits h =
    between tx.max_fee_per_gas tx.max_priority_fee_per_gas base w.0 w.2 p fits h
effective_gas_price-exact (eip4844 tx) base w p fits h =
    between tx.max_fee_per_gas tx.max_priority_fee_per_gas base w.0 w.2 p fits h
effective_gas_price-exact (eip7702 tx) base w p fits h =
    between tx.max_fee_per_gas tx.max_priority_fee_per_gas base w.0 w.2 p fits h

-- A tip that takes the sum with the base fee beyond a word makes the effective price of a
-- transaction of type 2 fall below the base fee, although its bound covers the base fee.
pub effective_gas_price-wraps :
    (tx : Eip1559Tx) (base : Uint256)
    → HasWords (eip1559 tx)
    → IsUint256 base
    → u256_mod ≤ to_nat base + to_nat tx.max_priority_fee_per_gas
    → to_nat base ≤ to_nat tx.max_fee_per_gas
    → to_nat (transaction_effective_gas_price (eip1559 tx) base) < to_nat base
effective_gas_price-wraps tx base w p over h = omega (
  arith,
  tx_effective_gas_price-min tx.max_fee_per_gas tx.max_priority_fee_per_gas base w.0 w.2 p,
)
