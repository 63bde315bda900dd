-- ===== src/Lib.antt =====
-- go-chain: a node of a proof-of-work chain. The development models its consensus core, from the
-- bytes of a block to the set of unspent outputs.
--
-- How the parts interact: a block arrives as bytes and is decoded (internal/types). Its transactions
-- are checked against the set of unspent outputs (internal/consensus), which runs the two scripts of
-- every input (internal/script) over a signature hash (internal/crypto). A block that passes is
-- connected to the set (internal/utxo), and disconnected again when internal/chain reorganises. A single
-- transaction waits in the mempool, which checks it against the same set, and the miner builds its
-- blocks from there.
--
-- Files, and the code that they follow:
--   Prelude, KeyMap       shared: tests on numbers, lists, results, and maps with byte keys
--   Types                 internal/types/transaction.go, block.go, hash.go. A reader (io.Reader) is
--                         the bytes that are left; Types/VarInt, Types/Transaction and Types/Block
--                         have an encoder and a decoder each, and their children prove the codecs
--   Crypto                internal/crypto/hash.go, keys.go, merkle.go, target.go. The fuel of the Merkle
--                         loop is the number of hashes, and is enough since a round halves it.
--                         SHA-256, RIPEMD-160 and secp256k1 are the record Primitives, a parameter
--   Script                internal/script/script.go. `run` is the loop of engine.execute, `step` its
--                         switch. The fuel is the length of the script, and is enough since a round
--                         takes a byte at least
--   Utxo                  internal/utxo/utxo.go. A Set is its map; the mutex is left out, and each
--                         method is one step. `Pending` is the local state of Set.ConnectBlock.
--                         Utxo/Codec has the stored forms
--   Params                internal/params/params.go: the fields that consensus reads, and the subsidy
--   Consensus/Transactions  internal/consensus/txvalidation.go: ValidateTransactionInputs in the order
--                         of its loops, and the lock times; Connects relates it to Set.ConnectBlock
--   Consensus/Transactions/Single  ValidateSingleTransaction and CalcTxFee
--   Consensus/Structure   internal/consensus/validation.go: ValidateBlockStructure
--   Consensus/Timestamps  internal/consensus/validation.go: the median time past and the timestamp rules
--   Consensus/Pow         internal/consensus/pow/engine.go over any hasher and retargeter. SealHeader's
--                         iterations are its fuel, as in the source
--   Mempool               internal/mempool/mempool.go: a Mempool is its two maps, its byte count and
--                         its heap. The fuel of each eviction loop is the number of entries, and is
--                         enough since a round takes one. Runs has any sequence of calls
--   Chain/Headers         internal/chain/headers.go: the tree of headers. A node holds its parent, and
--                         pointers are compared by what they reach, as nodes never change. The fuel
--                         of the locator is one more than the best height: a round lowers it
--   Chain/State, Chain/Reorg  internal/chain/chain.go: a Chain is its maps, its tip and its UTXO set, with
--                         the store as two maps whose writes succeed. The fuel of the walk to the fork
--                         is one more than the new height
--   Chain/Process         internal/chain/chain.go: processBlock and processOrphans. The fuel of the
--                         orphan rounds is one more than the pool, and is enough as a round takes one
--   Miner                 internal/miner/miner.go: the coinbase, the transactions and the header of a new
--                         block, and the nonce search. A worker's fuel is the length of its range
--   Difficulty            internal/difficulty: the four retargeters, and Crypto/Target/Compact
--                         BigToCompact of internal/crypto/target.go, where a target is fuel enough for
--                         the count of its bytes
--   TimeAdjust            internal/timeadjust/timeadjust.go: the peers' clock offsets and their median
--   Tests                 runs on concrete inputs
--
-- Numbers are naturals; a uint64 sum keeps its wrap-around, `% 2 ^ 64`. A Go map is an association
-- list. Errors are constructors, without their text; a panic on an index out of range is an error of
-- its own.
--
-- Not modelled: peers and sockets, files and databases, RPC, the wallet, the mining loop,
-- and the start of a chain from the store. The hash functions and the signature scheme are parameters.
pub mod Prelude
pub mod KeyMap
pub mod Types
pub mod Crypto
pub mod Utxo
pub mod Script
pub mod Params
pub mod Consensus
pub mod Miner
pub mod Mempool
pub mod Chain
pub mod Difficulty
pub mod TimeAdjust
mod Tests
