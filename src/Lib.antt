-- ===== src/Lib.antt =====
-- The relayer of a ZeroPool privacy pool (src/): a server that takes transactions, adds their
-- output commitments to an optimistic Merkle tree at once, and sends them to the pool later from
-- a queue of jobs.
--
-- Parts and files:
--   * src/merkle_tree.rs: `Storage` (Merkle.Storage) keeps nodes, the number of leaves and the
--     historic roots in a Persy database; `MerkleTree` (Merkle.Tree) adds leaves, rolls back and
--     gives proofs. A node that holds the default hash of its depth is not stored.
--   * src/tx_storage.rs: `TxStorage` (TxStorage) keeps the transactions under an index in steps of
--     the stride, and the next index.
--   * src/job_queue.rs: `JobQueue` (JobQueue) keeps jobs, their status and a mapping to them in a
--     Redis server. `JobQueue.Queue` is its abstract view.
--   * src/tx_worker.rs: `prepare_job` and `process_failure` (Worker) call all three: the first adds a
--     leaf and a transaction before the job is queued, the second rolls both back and cancels the
--     later jobs when a job has failed. `process_job` (Worker.Process) waits until the pool comes to
--     the job's index, sends the transaction and stores its hash. Worker.Run composes it with the
--     task of the queue that runs it (`run_job` in JobQueue); Worker.Turns has several jobs at once
--     as a step relation on their phases.
--   * src/tx.rs and the types of transactions: Tx. src/config.rs: Config.
--   * src/backend/mod.rs: the trait `BlockchainBackend` is a record of operations (Backend) over a
--     state of the chain; the mock, EVM and Substrate backends are instances (Backend.Mock).
--     src/backend/near.rs (Backend.Near) and src/backend/waves.rs (Backend.Waves) are modelled as
--     functions over the answers of their nodes, which are parameters.
--   * src/json_api.rs: `validate_tx` (Api) and the handlers (Api.Handlers), which use the worker's
--     `prepare_job`, the queue, the storage and the backend; Api.Submit runs a request and then the worker,
--     Api.Backlog several requests and rounds, and requests that come in between; Api.Traffic any
--     requests that the routes let through, one after another.
--   * src/state.rs: `AppState::init` (State.Init; State.Boot and State.Start say how it ends) and its
--     loop over the transactions fetched from the pool (State); the choice of the
--     backend, with `EvmBackend::new` of src/backend/evm/mod.rs (Backend.Choice), and the keys of the two builds (State.Params).
--   * src/main.rs: `main` (Program) up to the state in which the worker and the server start.
--     Program.Serve and Program.Restart run requests and the worker from there.
-- Not modelled: the building and signing of requests to the chains, the matching of requests with
-- routes and serialisation: they are calls of other crates. The worker and the server
-- run as the requests and rounds that a theorem names; which of their two tasks ends first is left out. The trait object of a backend that was chosen is an
-- argument of `main`, as the loops of the NEAR and Waves backends take a number of rounds.
--
-- Shared modules: Prelude (names and lemmas on numbers, lists and bits), Exec (outcomes: a value, an
-- error or a panic, beside the state that is left; Exec.Results: without a
-- state; Exec.Leads: what an action leaves behind, however it ends), Exec.Disk (a database: its
-- committed tables and which of its next calls fail), Persy, Crates and Redis
-- (other crates, as records of operations and their documented laws), Sample (concrete instances of those, for the examples).
--
-- Numbers are natural numbers; `u64` additions and shifts wrap where they are written with
-- `% 2 ^ 64`. The loops over the depths of the tree are recursion on the depth, so no fuel is
-- needed; the worker loop and `wait` never end by themselves and are modelled by one round. The loop
-- of `process_job` takes a list with what other tasks do in each sleep, so it ends with that list; the
-- loop over the pages of Waves and the one over the status of a NEAR transaction take a number of
-- rounds, with `none` or `false` where they have not ended. The height H of the
-- tree is a parameter; the theorems on writing hold up to 62, where the keys of all
-- nodes fit in 64 bits. Hashes, codecs and the hash function are parameters, and no theorem
-- assumes that the hash function is injective. The expiry of a Redis key, logging and the
-- time between two polls are left out.
pub mod Prelude
pub mod Exec
pub mod Persy
pub mod Crates
pub mod Merkle
pub mod TxStorage
pub mod Redis
pub mod JobQueue
pub mod Tx
pub mod Config
pub mod Backend
pub mod Worker
pub mod Api
pub mod State
pub mod Program
pub mod Sample
