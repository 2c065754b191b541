-- ===== src/Lib.antt =====
-- A peer-to-peer, proof-of-work blockchain for auctions: the core of the crate, and the
-- parts of a node that drive it.
--
-- The program. A node keeps a `Blockchain`: the blocks that it knows, by hash, the chain that it
-- follows, a pool of pending transactions, and a world state of accounts and auctions. A transaction
-- is signed by its sender and carries the nonce of the sender's account. The pool takes it after
-- `add_transaction` has checked it; `propose_block` empties the pool into a block, mined by a search
-- for a nonce; `accept_block` takes the block of a peer. After either, `fix` looks for the longest
-- branch among the known blocks, ties broken by hash, prunes the branches that are beaten for good,
-- and executes the blocks of the chain that have two blocks after them. A node runs tasks over that
-- state: one mines, one stops the auctions whose time has come, one asks a peer for its chain when no
-- block has come for a while, and a loop takes the events of the network; blocks come by gossip, behind a
-- gate that asks the id of their source for a proof of work, or as the answer of a peer. Users bid
-- through a terminal interface that first walks the confirmed blocks of a node.
--
-- The files, and the code that each models, of src/blockchain.rs where no file is named:
--   Transaction        the structs and enums of `mod transaction` and `mod block`
--   Hash               `mod ed25519` and `mod hash`
--   Transaction/Signing  `impl Transaction` and `Hashable for Transaction`
--   Merkle             `mod merkle`
--   Pow                `mod pow`
--   Header, Block      `impl Header` and `impl Block`
--   Pool               `TransactionPool`
--   Blockchain         `struct Blockchain` and `impl WorldState`
--   Blockchain/Execute   `execute_single_transaction`, `execute_transactions`
--   Blockchain/Branch    `find_longest_branch` and the branch map of `fix`
--   Blockchain/Prune     `prune`
--   Blockchain/Fix       `fix`
--   Blockchain/Accept    `accept_block`, `propose_block`, `verify`
--   Blockchain/Mempool   `has_transaction` and `add_transaction` of the chain
--   Blockchain/Valid     the invariant of a chain between two calls
--   Blockchain/Fix/Finality, Blockchain/Accept/Finality  why what is settled stays
--   Blockchain/Execute/Replay, Blockchain/Fix/Replay, Blockchain/Accept/Replay  the world state that the
--                      settled part of a chain leads to from nothing
--   Blockchain/Accept/Converge  nodes that are given the same blocks in different orders
--   Blockchain/Reachable  the ledgers that calls in any order lead to
--   State              src/state.rs: `State` and the handlers of requests, with their messages
--   Runtime            src/runtime.rs: what a node does with a block from a peer
--   Network            src/behaviour.rs: what a node does on each event of its swarm
--   Vm                 src/vm.rs: a round of each task of `run`; Vm/System runs them in any order
--   Vm/Actions         the lines of input of src/vm.rs and the actions of src/node.rs and src/boot.rs
--   Key                src/key.rs: the proof of work of an id, and the key in a file
--   App                src/bin/app.rs: the helpers of the terminal interface; App/Served is what it sees
--   App/Walk           the loops of src/bin/app.rs that ask a node for block after block
--   App/Bidding        `mod bid` of src/bin/app.rs: the form that bids
--   App/Tables, App/Auctions, App/History  `mod available_auctions` and `mod profile_history`
--   PeerEnv            what the network and the keys of nodes take from other packages
--   Env                what comes from other packages, as a record of functions and its laws
--   HashMap, Prelude   the standard library as far as the code uses it
--   Examples           tests and concrete instances, on an `Env` small enough to run
-- The files below a component hold its theorems, and are named for what they prove.
--
-- How the code is modelled. A method that writes to the chain is a function from a state to a result
-- and a state (Prelude/Exec), so that what was written before an error stays written. A `Result`
-- (Prelude/Result) is a value, an error, or a panic; a loop that does not end is a panic too. The
-- chain and the notifiers that its methods are given are one `Ledger`. A `HashMap` is an association
-- list in any order; the theorems ask that no key stands twice. A notifier is its stored permit and
-- its flag. The field `record` of a transaction is `payload`. A nonce of 32 bits wraps around, as in
-- the release build that the Dockerfile makes; the other numbers of the code are only stored and
-- compared, and lengths are taken not to overflow.
--
-- Other packages. Blake2b, hex, JSON, Ed25519 and big integers are the fields of `Env`. `IsLawful`
-- states what a theorem may ask of them: hex decodes what it encodes and refuses a single digit, JSON
-- of the plain structs does not fail, a key verifies what it signs, keys and signatures are read back.
-- Nothing is asked of the hash function: where a collision matters, the theorem names it.
-- A handler of src/state.rs takes the lock of the state several times; its sections are definitions of
-- their own, composed as one call with no other between them, up to the wait for the notifier. So is a round of the task that
-- stops auctions; Vm/System runs each of its auctions as a turn of its own, with whatever it read before.
-- The clock is an argument: one reading, or the list of the readings of a search. What a node asks of
-- its swarm is a list of effects that a handler returns; where a handler reads the state more than once
-- to answer, the reads are taken to see one state, while each section of a task that writes is a step of
-- its own. A node that the interface talks to is a record of answers, so that it may answer anything; a
-- theorem on a node with a given state takes the answers from the handlers. A text area of the interface
-- is its lines, and what it does with a key is a parameter. An unknown status of a response reads as the
-- first one, as in the generated code.
--
-- Fuel. `Merkle.climb` runs on the length of the level, which halves each round. `Pow.mine` runs on
-- the list of clock readings. `find_longest_branch` runs on one more than the number of known blocks,
-- since a path from "0" passes through a block once at most; the walk of `prune` runs on the number of
-- first losers and of known blocks, since each hash is pushed once at most beyond the first ones. The
-- walk of a form or a table runs on one more than the number of confirmed blocks, since it moves one
-- place along the chain in each round. `mine_key` runs on the list of the keys that are generated.
--
-- Not modelled: logging and drawing; the start of processes and the construction of the swarm
-- (src/node.rs, src/boot.rs, src/runtime.rs, src/bin/main.rs and its siblings), which only call other
-- packages; the other screens of src/bin/app.rs and the bots (src/bot); timers and threads, whose effect
-- is that tasks run in any order; `Hashable for Block` and `TransactionPool::get`, which only read.
pub mod Prelude
pub mod HashMap
pub mod Transaction
pub mod Env
pub mod Hash
pub mod Merkle
pub mod Header
pub mod Pow
pub mod Block
pub mod Pool
pub mod Blockchain
pub mod State
pub mod Runtime
pub mod PeerEnv
pub mod Key
pub mod Network
pub mod Vm
pub mod App
pub mod Examples
