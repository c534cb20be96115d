-- ===== src/Api/Traffic.antt =====
-- Any requests one after another: the routes of src/json_api.rs.
pub mod Enqueue
pub mod Accept
pub mod Healthy
mod Tests
use native.Mathlib.Nat.{mul-le-mul_right}
use mathlib.Core.List.{append-nil, append_assoc}
use zeropool_relayer_rs.Prelude.{
  ℕ, zero, suc, ◌+◌, ◌*◌, ◌^◌, ◌≤◌, ◌<◌, ◌≡◌, refl, sym, ap, ◌∙◌, ◌⊎◌, inl, inr, none, String, List,
  [], ◌∷◌, ◌++◌, length, length-append, replicate, arith,
}
use zeropool_relayer_rs.Exec.{Exec, Outcome, ok, err, panic, pure, ◌>>=◌}
use zeropool_relayer_rs.Exec.Leads.{Leads, Leads-bind, Outcome-cases}
use zeropool_relayer_rs.Exec.Disk.{sound}
use zeropool_relayer_rs.Crates.{Crates}
use zeropool_relayer_rs.Redis.{Redis}
use zeropool_relayer_rs.Merkle.Storage.{Tables}
use zeropool_relayer_rs.Merkle.Tree.{MerkleTree, tree_height}
use zeropool_relayer_rs.Merkle.View.{HasDefaults}
use zeropool_relayer_rs.Merkle.Spec.{Represents, Remembers}
use zeropool_relayer_rs.Merkle.AddLeaf.{add_leaf-Represents}
use zeropool_relayer_rs.Merkle.History.{queries_answer}
use zeropool_relayer_rs.TxStorage.{TxTables, stride}
use zeropool_relayer_rs.TxStorage.Entries.{IsSound}
use zeropool_relayer_rs.TxStorage.Write.{next_of, push_lem}
use zeropool_relayer_rs.JobQueue
use zeropool_relayer_rs.JobQueue.{Codec}
use zeropool_relayer_rs.JobQueue.Queue.{Queue, Shows, enqueue}
use zeropool_relayer_rs.JobQueue.Steps.{push-Shows}
use zeropool_relayer_rs.Tx.{ParsedTxData, TxValidationError}
use zeropool_relayer_rs.Config.{Config}
use zeropool_relayer_rs.Backend.{BlockchainBackend}
use zeropool_relayer_rs.Worker.{Payload, tx_position, prepare_job}
use zeropool_relayer_rs.Worker.Failure.{all_sound, position_lem}
use zeropool_relayer_rs.Worker.Prepare.{InStep, prepare_job-Prepared}
use zeropool_relayer_rs.Worker.Process.{Relayer, on_chain}
use zeropool_relayer_rs.Worker.Await.{relayer}
use zeropool_relayer_rs.Api.{Validation, TxDataRequest, validate_tx}
use zeropool_relayer_rs.Api.Handlers.{
  AppResult, status_code, TxPaginationQuery, CreateTransactionResponse, parse_request, respond,
  enqueue_tx, accept_or_refuse, create_transaction, create_transaction_legacy, get_transactions,
  get_transactions_legacy, job, info,
}
use zeropool_relayer_rs.Api.Lists.{queries_tell_state}

-- The requests that have a route: `GET` and `POST` of `/transactions`, `GET /transactions/v2`,
-- `POST /sendTransactions`, `GET /job/:id` and `GET /info`.
pub data Request (H P : Type 0) : Type 0 where
  list_transactions : TxPaginationQuery → Request H P
  post_transaction : TxDataRequest H P → Request H P
  list_transactions_v2 : TxPaginationQuery → Request H P
  send_transactions : List (TxDataRequest H P) → Request H P
  ask_job : ℕ → Request H P
  ask_info : Request H P

module _ (c : Crates) (r : Redis) {P : Type 0} (b : Codec (Payload c P))
    (bk : BlockchainBackend c P) where
  open r use {Server}

  -- The tree holds these leaves and their historic roots, the storage is sound and not ahead of the tree,
  -- the server stores a queue, and the pool's index and root are these.
  pub record IsHealthy (i rt : ℕ) (leaves : List c.Hash) (s : Relayer c r b bk) : Type 0 where
    pub tables : Tables c
    pub transactions : TxTables c
    pub server : Server
    pub world : bk.World
    pub queue : Queue (Payload c P)
    pub state : s ≡ relayer c r b bk tables transactions server world i rt
    pub represents : Represents c tables leaves
    pub remembers : Remembers c tables leaves
    pub tx_sound : IsSound c transactions
    pub not_ahead : next_of c transactions ≤ length leaves * stride c
    pub shows : Shows r b server queue

  -- The same with at most one leaf more.
  abbrev pub Grown : ℕ → ℕ → List c.Hash → Relayer c r b bk → Type 0
  Grown i rt leaves s = (more : List c.Hash) × (length more ≤ 1) × IsHealthy i rt (leaves ++ more) s

module _ (c : Crates) (r : Redis) {P : Type 0} (b : Codec (Payload c P))
    (bk : BlockchainBackend c P) (config : Config) (tree : MerkleTree c) (v : Validation c.Hash P)
    (to_string : ℕ → String) (show_root : c.Hash → String) where
  -- The status of the answer.
  abbrev pub reply :
      {A : Type 0} → Exec (Relayer c r b bk) (AppResult A) → Exec (Relayer c r b bk) ℕ
  reply m = m >>= λ answer. pure (status_code answer)

  unfoldable pub handle : Request c.Hash P → Exec (Relayer c r b bk) ℕ
  handle (list_transactions pagination) = reply (get_transactions c r b bk pagination)
  handle (post_transaction tx_data) = reply (create_transaction c r b bk tree v config tx_data)
  handle (list_transactions_v2 pagination) = reply (get_transactions_legacy c r b bk pagination)
  handle (send_transactions tx_data) =
      reply (create_transaction_legacy c r b bk tree v config tx_data)
  handle (ask_job id) = reply (job c r b bk id)
  handle ask_info = reply (info c r b bk tree to_string show_root)

  -- One request after another; one that panics is over.
  unfoldable pub handle_all : List (Request c.Hash P) → Relayer c r b bk → Relayer c r b bk
  handle_all [] s = s
  handle_all (request ∷ later) s = handle_all later ((handle request s).1)
