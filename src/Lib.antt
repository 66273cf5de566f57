-- ===== src/Lib.antt =====
-- Verification of the bridge: TEENet-io bridge-go-aptos, its Go code.
--
-- The bridge moves money between Bitcoin and a chain with contracts. A deposit on Bitcoin becomes a
-- mint on the chain; a redeem that is requested on the chain is prepared there with the outpoints
-- that are to pay for it, which the vault of UTXOs chooses and locks, and is then paid on Bitcoin. The
-- synchronizers send what they see to the state, which keeps it in a database, and the transaction
-- managers read the state and act.
--
-- What stands where:
--   Vault             btcvault. Utxo is types.go, Storage the statements of sqlite_db.go, Treasury the
--                     methods of TreasureVault in vault.go, and Run any sequence of its calls. The
--                     other modules prove: Selection and Minimal on the choice of UTXOs, Locks,
--                     Exclusive, Linked and Once on the locks, Rounds on the loop that locks, Keys on
--                     the key of the table, Release on expiry, Progress on when a lock succeeds.
--   State             state. Redeem is redeem.go; Tables the rows and their coding (schema.go,
--                     sqlredeem.go, mint.go); RedeemDb is statedb_eth2btc.go and MintDb
--                     statedb_btc2eth.go; Handlers is what Start of state.go does with each event, and
--                     the calls of the Bitcoin side; Numbers the block numbers and the chain id
--                     (statedb.go, state.go, state_eth2btc.go). The other modules prove: Rows,
--                     Lifecycle, Updates, Preparation, Mints and Life on what one event does to the row of a
--                     redeem, History on any sequence of events, Arrival and EitherOrder on the order
--                     of two events, Minted, MintOnce and Deposits on mints, Finalized on the numbers.
--   MgrDb             chaintxmgrdb: the transactions that are monitored. Numbers is on the coding of
--                     ledger numbers, Rows on the key of the table.
--   TxMgr             chaintxmgr. Mints, Prepares and Marking are the three procedures of mgr.go. Laws,
--                     Rules, MintRules, PrepareRules and Run show what every run keeps that each
--                     operation keeps; Tracked, Once and Settled use that. Expected and Marked compare
--                     the marking with a description of one row, Timeouts and Accepted follow.
--   ChainSync         chainsync/syncer.go, and Ranges on the ranges it asks.
--   EthSync           ethsync/synchronizer.go, the older one, and Blocks on the blocks it asks.
--   AptosEvents       aptosman/aptosman.go and sync_worker.go: the reading of events, with the
--                     node's answers as parameters, and Prepared on the preparations.
--   BtcTx             btcman/assembler: the outputs and inputs of transactions. Balance is on what
--                     they pay, DepositData on common/btc2evm_deposit.go.
--   BtcAction         btcaction: the tables of deposits, redeems and other transfers.
--   Withdraw          btctxmanager/withdraw.go, and Once on what it pays.
--   BtcSync           btcsync. Outputs is btcman/utils/adapter.go, Blocks GetBlocks of
--                     btcman/rpc/rpc_client.go, Scan btc_monitor.go, Observers the observers. Heights,
--                     Found and DepositTrip are on what the monitor reads and finds.
--   Agreement         agreement/types.go: the events and outpoints that the parts exchange.
--   BtcUtxo           btcman/utxo: SelectUtxo, the choice of inputs for a Bitcoin transaction.
--   BigInt, Int64     the values of *big.Int, and int64 with its wrap-around, by bit patterns.
--   Go, Sql, Program  errors and panics as values; calls of a database; procedures that work on
--                     several parts, and loops that go on after an error.
--   Prelude           shared names and lemmas.
--
-- A function of the source is a definition with its name, in lower case. A method that changes the
-- database takes a disk to an outcome (a value, an error, or a panic at a nil pointer) and a disk. A
-- disk is the tables and a schedule of faults: each call of the database takes one entry off the
-- schedule, and one whose entry says so fails and changes nothing; past the end no call fails. A
-- SELECT of several rows may also stop early: the source never asks rows.Err(), so it goes on with the
-- rows it has got, without an error (Sql.query_rows). A theorem that takes any disk so holds whichever
-- calls fail or stop; one that needs the rows in full says so. What was written before an error stays
-- written, as in the source, which uses no transactions. A SELECT without ORDER BY gives its rows in
-- the order in which they are stored, but that of GetUnMinted, whose order is a parameter.
--
-- A hash of 32 bytes is the number that its bytes spell; a column of text that holds a hash or an
-- address holds the hash or the bytes that the text spells. A row that breaks a CHECK, UNIQUE or
-- PRIMARY KEY constraint is an error of a plain INSERT and of an UPDATE, and is left out by an INSERT
-- OR IGNORE. A uint64 with its high bit set is refused as an argument of a statement.
--
-- Code outside the repository is a parameter: `order_by_amount` is the order in which SQLite
-- returns the rows of an ORDER BY, and `order_rows` that of the rows of GetUnMinted, of which the
-- theorems assume that it is a permutation;
-- `hex_to_hash` and `bytes_to_hex` are functions of go-ethereum, `trim_prefix` one of Go and
-- `lower` one of SQLite; `now i` is the clock in round i of a loop; `key_eth`, `key_btc` and
-- `key_chain` are Keccak hashes of fixed names. No loop runs on fuel but that of
-- Numbers.first_bytes, which drops one byte in each round: as many rounds as the value of the
-- number are given (see bytes32-fits in Finalized), and EthSync.inspect, which answers false where
-- its fuel runs out.
--
-- What a call of another service is answered is a function of the calls made before (TxMgr.Outside,
-- ChainSync.Outside, EthSync.Outside, Withdraw.Outside), so that a theorem on any such function holds
-- for any sequence of answers, errors included. AptosEvents.Outside has the node's answers, strconv's,
-- big.Int's and go-ethereum's functions on text. The list of calls, the latest first, is not in the source: it is what
-- the theorems count. BtcSync.Outside is the node during one round. Btcd, and the fields of
-- BtcSync.Outside on scripts, are btcd's and go-ethereum's, of which DepositTrip assumes the laws of
-- its Codec. The procedures of TxMgr hold a lock on their database as long as they run, so each is one
-- step; state may change between them.
--
-- Not modelled: logs and text for debugging, JSON, channels (a handler takes the event itself, and
-- the end of Start at the first error is left out: the theorems are on any sequence of handled
-- events; the notices of the monitor are one list, so that a full channel, which lets one overtake
-- another, is left out), waitAndVerifySignature, which nothing calls, the cache of prepared statements
-- in database (a call of it is a call that may fail), the message hashes, the Schnorr operator of
-- btcman/assembler, the older aptossync and ethtxmanager, and the directories that call
-- chains, nodes and signers (etherman, the rest of aptosman, multisig_client, signers, the rest of btcman/rpc), that
-- are generated (contracts, rpc), or that start and show the program (cmd, reporter, logconfig).
pub mod Prelude
pub mod Go
pub mod Int64
pub mod BigInt
pub mod Sql
pub mod Program
pub mod Agreement
pub mod BtcUtxo
pub mod Vault
pub mod MgrDb
pub mod ChainSync
pub mod EthSync
pub mod AptosEvents
pub mod TxMgr
pub mod BtcTx
pub mod BtcAction
pub mod Withdraw
pub mod BtcSync
pub mod State
