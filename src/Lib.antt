-- ===== src/Lib.antt =====
-- mini-crypto-wallet: the wallet service and the blockchain service.
--
-- The wallet service keeps users, balances, a ledger and transfers. The blockchain service accepts
-- the transfers, broadcasts them, and watches the chain for their confirmation and for deposits.
-- The two talk by events: each writes its events to an outbox table in the transaction of the
-- change that they report, and consumes the other's events with a table of processed ones.
--
-- Base: what both share, with no code of the repository behind it. Tests, Int (Python's integers),
-- Text (str and int), Table (a table as the list of its rows), Dict (dict), Slices (slices of
-- lists), Result (exceptions, transactions on a state), Keeps and Reads (what every successful run
-- of a transaction keeps, and what it does not read). `Error` lists the classes of
-- libs/common/src/mcw_common/errors.py.
--
-- Common, libs/common/src/mcw_common: Events (events.py), Assets (assets.py), Money (format_amount
-- of money.py), Outbox (enqueue_event of outbox.py) and Outbox.Relay (its OutboxRelay), Retry
-- (retry.py), Bus (DeliveredEvent, DeadLetter and InMemoryBus of bus.py) and Bus.Consumer (its
-- ConsumerRuntime). Bus.Sound says what the bus owes a group of consumers; Bus.Publishing, Reading,
-- Batch and Handling follow it through publications, reads, claims and a round; Bus.Steps has runs
-- of publications and rounds; Bus.Order is about fresh reads, Bus.Retries about claims and
-- failures. `Handles` is the interface to a service: which events its database records, and that
-- its handlers keep the record. A message id is its number.
--
-- Wallet, services/wallet/wallet_service: Models (models.py: the tables, the unique keys and the
-- check constraints), Ledger (services/ledger.py), Users (services/users.py), Transfers
-- (services/transfers.py), Deposits (services/deposits.py), Dispatcher (consumers/dispatcher.py),
-- Progress (services/progress.py), Idempotency (services/idempotency.py and post_transfer of
-- api/routes.py). Progress.Advances is about a run of the worker. A function of the code with a
-- session becomes a step `Tx WalletDb A`, which returns a value and the new tables, or an error;
-- `atomically` is `async with session.begin()`. A transaction sees what was committed before it,
-- and row locks change no state.
--
-- Ledger.Rows, Round, Laws, Holds and Pair take the posting engine apart, Ledger.Reconcile is its
-- report. Invariant says what holds between two transactions, Transfers.Save, Settle, Fail, Load,
-- Handlers, Insert and Create what the operations on transfers do with it, Kept and Delivery what
-- events do, Frame, Frame.Handlers and Frame.Creation which tables no handler touches. Consumer
-- (worker.py) is about the dispatcher on the bus in memory. Deposits.Once and Idempotency.Replay
-- are about repeated requests, Routes holds the routes for wallets and balances and Routes.Wallets
-- repeats a request for a wallet, Deposits.Effect about the balances after a deposit. Examples and
-- its modules hold concrete databases.
--
-- Blockchain, services/blockchain/blockchain_service: Models (models.py), Transactions and Watcher
-- (services/transactions.py), Addresses (services/addresses.py), Deposits (services/deposits.py).
-- What the chain adapter answers is a parameter: a hash or an exception for a broadcast, a receipt
-- or none for a hash, the logs of a range. Dispatcher (consumers/dispatcher.py) and Consumer
-- (worker.py) accept the transfer requests, Dispatcher.Seen is about the events that it recorded.
-- MockChain (chain/mock.py) is the simulated node, on tables of its own: MockChain itself answers,
-- MockChain.Mining and Reorg change the chain, Balanced and Forks are about its token balances,
-- Heights and Longer about its canonical blocks, Submission about repeated transfers.
-- Transactions.Claims is about the lease of a claim, Deposits.Once and Deposits.Confirm about the
-- detection and the confirmation of deposits.
--
-- Handover puts the two services together: what one writes into a payload, the other reads back.
--
-- Numbers: amounts are Python integers without a bound. Fuel is used in Base.Text alone, where the
-- number itself, plus one, bounds its digits. Times are whole seconds.
--
-- Parameters: the collation of the database in the order of a report, the name hash `uuid5` of
-- event ids, the SHA-256 fingerprint of a request body and the answer to a request for an address.
-- Fresh ids are arguments. The hashes of the simulated chain and the text of an exception are
-- parameters too.
--
-- Not modelled: RedisStreamsBus, which only calls the client of Redis, and on which the services
-- run their consumers (what Redis trims from a stream it drops, so that the theorems on the bus are
-- about InMemoryBus alone); the widths and precision of columns and the foreign keys; the delays
-- between retries; the EVM adapter and the keys, which call web3 and a cipher library;
-- MockChainAdapter, which counts the calls; the HTTP routes but post_transfer, create_wallet,
-- get_wallet and get_balance; parse_amount; the migrations, configuration, logs and metrics.
pub mod Base
pub mod Common
pub mod Wallet
pub mod Blockchain
pub mod Handover
