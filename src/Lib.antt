-- ===== src/Lib.antt =====
-- Verification of goquarkchain, the Go implementation of QuarkChain: a root chain, and many shards
-- whose blocks, transactions and cross-shard deposits travel as bytes.
--
-- The parts, and how they interact:
-- * Serialize (serialize/) turns every message, block and transaction into bytes and back.
--   Types holds the Go types that reflection dispatches on, as a universe `Ty` with its values `El`;
--   Buffer is ByteBuffer (bytebuffer.go); Writer is serializer.go, where `serialize` is the function
--   that makeSerializer picks, and a writer appends to a list of bytes; Reader is deserializer.go.
--   Spec says what is accepted, what fits and what comes back; Cursor, Scalars, Prefix, RoundTrip,
--   Totality and Safety hold the proofs. Writers and readers recurse on the type, so no fuel is used.
-- * Common (common/): Words has the 32-bit helpers of utils.go with their wrap-around; Token is
--   token_codec.go. The decoding loop has 12 rounds of fuel, the most that an accepted id needs, and
--   the round trips prove that they are enough.
-- * Account (account/): Branch is branch.go and neighbor.go, Address is address.go. A branch is the
--   word chain id, shard size, shard id; Shards proves what the words mean, Codec the bytes of an
--   address.
-- * Chain (core/rootblockchain.go, with the accessors of core/rawdb it uses): Store is the state of the
--   root chain and its writes; Reorg is WriteBlockWithState and reorg; Rewind is SetHead with
--   loadLastState and Reset; GetAncestor and its kin are in Ancestor. The validator of Core passes the
--   blocks that are written. The loops that walk down take as fuel a bound on the height, which
--   Meeting and Rewind use up on stored blocks at most; the fuel of SetHead bounds its resets.
--   Coinbase is what a root block is paid, over the balances of Types; the validator of Core takes it
--   as its expected coinbase. Canonical, Write, Heaviest, Hashes, Rewound, Counts and Rewards hold the
--   proofs.
-- * Consensus (consensus/ and the proof-of-staked-work part of cluster/config/config.go): Posw
--   has the windows of coinbases with the LRU cache in front of the chain, the adjusted difficulty
--   and the amounts a miner may not send; Difficulty is difficulty.go; Boost the divider of the
--   difficulty over time. Window is about the cache, Quota about stakes.
-- * Core (core/): Gas is gaspool.go and IntrinsicGas; State what a message does to
--   core/state/statedb.go; Message and Transition are state_transition.go, one function per method,
--   with the gas pool and the state passed along; XshardCursor is xshard_tx_cursor.go, whose loop
--   recurses on the minor block headers that are left, and CursorEnd is about its end. Intrinsic,
--   Accounting and Refund hold the proofs.
--   RootValidator and MinorValidator are the two validators and isSameChain, over the lookups of the
--   chain; RootGroups, RootAcceptance and MinorAcceptance say what is accepted, SameChain and Amounts
--   are about isSameChain and compareCoinbaseAmountMap. A log.Crit, which ends the process, is an error.
--   The deposits that a cross-shard message appends are sent to the other shards, whose transitions
--   are the ones with `is_apply_xshard`, one for each deposit that the cursor gives.
-- * Sync (cluster/sync/, and the answers to header requests of cluster/master/handle.go and
--   cluster/slave/api_backend.go): Ancestor is the search for the last common block of root_task.go
--   and minor_task.go, with the downloads it checks; Task is task.go with the closures of both kinds
--   of task, over a chain given by its operations; Queue is sync.go; Server is what a node answers.
--   Both sides meet in Agreement, Meeting and Catchup, where a task runs against a node that answers
--   by Server; Search, Answers and Bound are about any peer. Served is about the server alone. The
--   search has one round of fuel more than there are heights up to its end, the subject of Bound; the
--   loop over batches has one round more than it has hashes; `run` takes its fuel from outside, since a
--   peer may send blocks that lead nowhere, and Catchup asks for one round for every missing block.
-- * Types (core/types/token.go): TokenBalances is the cache of amounts in front of a trie, Entries is
--   about its map; Ledger has the table of amounts that it stands for, with the laws of the trie.
--   BalanceCodec has the bytes of a block header, over the writers and readers of Serialize, and
--   BalanceTrip reads them back.
-- * Config (cluster/config/cluster_config.go and shard_config.go): Shards has the lookups of shards and
--   the checks of initAndValidate on them; Routing and Slaves are about keys and about slaves. The
--   maps are lists of keys and values, gone through in the order of the list.
--
-- A Go pair of a value and an error is `Result`; an error gives up the state with it, except in
-- WriteBlockWithState, where the block that was stored stays. A panic is an error of its own. uint64
-- and uint32 arithmetic keeps its wrap-around where a value could leave the word; a *big.Int is a
-- natural number where the code only holds amounts, and an integer where it may be negative.
--
-- Parameters of the components are the lookups of the databases, the proof-of-work engine, hashes and
-- Merkle roots, the clock, what a peer or a slave answers, and core/vm, as far as the transition calls
-- it: how the EVM runs a message (it returns no more gas than it was given), and the address that its
-- `CreateAddress` gives a new contract. Parameters, since their code is not in the repository, are
-- also the LRU cache (what a key finds after an addition was added or found before), the trie and RLP
-- of go-ethereum, and its gas prices.
--
-- Not modelled: the chains of the shards, databases and tries, the transaction pool, the proof-of-work
-- engines, the import loop and the events of the root chain, the cluster's other network services, p2p
-- and rpc, and types with a Serialize method of their own other than the fixed-size integers and the
-- balances of tokens. They stand on goroutines, disks and the network, or on code of third parties.
pub mod Prelude
pub mod Serialize
pub mod Common
pub mod Account
pub mod Chain
pub mod Consensus
pub mod Core
pub mod Sync
pub mod Types
pub mod Config
