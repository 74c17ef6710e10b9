-- ===== src/State/World/Lawful.antt =====
-- The world state keeps what the table of functions promises of balances and nonces.
use div.Types.Address.{Address}
use div.Uint256.{Uint256}
use div.State.Account.{Account}
use div.State.Stores.{Stores}
