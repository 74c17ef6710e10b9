-- ===== src/Lib.antt =====
-- A model of the core of div0, an execution engine for the Ethereum virtual machine in C, with
-- the theorems that make it correct.
--
-- The parts and how they interact:
--   Uint256   include/div0/types/uint256.h, src/types/uint256.c. The type uint256_t is a record of
--             four limbs, the lowest first, and to_nat is its number; uint256_add is add, and so
--             on for the other functions. Uint256/Bytes has the conversions from and to bytes.
--   Types     Types/Bytes: include/div0/types/bytes.h and src/types/bytes.c, byte strings in an
--             arena, into which the encoders write. Types/Address: include/div0/types/address.h
--             and hash.h, addresses and hashes as lists of bytes.
--   Evm       Evm/Stack: include/div0/evm/stack.h, the operand stack; Evm/Memory:
--             include/div0/evm/memory.h and src/evm/memory.c, the memory of a frame;
--             Evm/Jumpdest: src/evm/jumpdest.h, the analysis of the code for jumps;
--             Evm/Frame: include/div0/evm/call_frame.h and include/div0/evm/status.h;
--             Evm/Opcodes: the handlers under src/evm/opcodes for arithmetic, comparison, stack,
--             push, memory and control flow, and the one of ADD in src/evm/evm.c. The handlers pop
--             and push on the stack of the frame, compute with Uint256, expand the memory and ask
--             Jumpdest. Evm/Env: what an execution is given and what it returns.
--   Rlp       include/div0/rlp and src/rlp. Rlp holds the helpers, Rlp/Encode, Rlp/Decode,
--             Rlp/Words and Rlp/Lists the coders of byte strings, numbers, addresses and lists,
--             and the other modules below it the proofs.
--   Trie      Trie/Nibbles: src/trie/nibbles.c, the nibbles of keys; Trie/HexPrefix:
--             src/trie/hex_prefix.c, their encoding, which Types/Bytes receives.
--   Transaction
--             include/div0/ethereum/transaction: the five types of transactions and the functions
--             that read them; Transaction/Intrinsic: src/executor/intrinsic_gas.c.
--   State     State/Access: include/div0/state/state_access.h, the table of functions behind which
--             the state stands, with the laws that its comments promise; State/Account:
--             src/state/account.c, accounts and their encoding by Rlp; State/Stores: the tries and
--             tables that the world state stands on, as interfaces with the laws that it relies
--             on; State/World:
--             src/state/world_state.c, the accounts of the world state, with State/World/Storage
--             for storage, warm sets and the root, and State/World/Table for its table of
--             functions, which fills the interface of State/Access.
--   Executor  Executor/Validation: src/executor/validation.c; Executor/Transact and
--             Executor/Block: src/executor/block_executor.c, one transaction and the loop over
--             those of a block; Executor/Create: src/executor/address.c, the addresses of new
--             contracts. The executor knows the state by State/Access alone, and the machine as a
--             parameter over the types of Evm/Env.
--   Common    lists, tests, bits, words and powers; Examples applies the theorems to inputs.
--
-- A function that changes an object through a pointer takes the object and returns it, with its
-- answer. Numbers are natural numbers; a word of w bits is reduced modulo 2 ^ w where the code can
-- wrap around. A buffer is the list of its bytes or slots. An arena is the parameter `alloc`, which
-- says whether a request is granted, with the contents of new memory as the parameter `fresh`.
--
-- Loops have fuel where they do not follow the structure of the data, and `none` is a loop that has
-- not ended. The stack doubles at most eleven times, so that 12 rounds suffice; the capacity of the
-- memory reaches 2 ^ 63 from 1024 in 53 doublings, so that 54 rounds suffice; the scan of the code
-- takes at most as many rounds as the code has bytes; an exponent of 256 bits is 0 after 256
-- halvings, so that exponentiation gets 257 rounds; each round but the last of the erasure of an
-- account's slots takes 64 of them away, so that it gets one round more than there are slots.
--
-- The theorems on the world state assume the laws of State/Stores, of the program's own trie among
-- them, and those that speak of several addresses or slots assume that the ones they name do not
-- collide under Keccak-256.
--
-- Not modelled: division and the modular operations on words, the dispatch loop with calls, so that
-- the executor has the machine as the parameter `execute_env`, gas tables, the nodes of the trie,
-- which the interface Mpt stands for, the encoding of transactions and their signatures, the
-- creation and the export of the world state, hexadecimal and JSON text and the command line. The
-- cryptographic functions, the hash tables and the JSON parser are libraries. The variant of byte
-- strings on malloc is left out, since the encoders work in an arena.
pub mod Common
pub mod Uint256
pub mod Types
pub mod Evm
pub mod Rlp
pub mod Trie
pub mod Transaction
pub mod State
pub mod Executor
pub mod Examples
