-- ===== src/Api/Handlers.antt =====
-- The handlers of src/json_api.rs over the relayer's state. The encoding of requests and
-- answers is the work of `axum` and `serde`.
use zeropool_relayer_rs.Prelude.{
  ℕ, ◌+◌, ◌*◌, ◌%◌, ◌^◌, Bool, Option, none, some, List, [], ◌∷◌, ◌++◌, String, get_elem?, ltb,
  unwrap_or,
}
use zeropool_relayer_rs.Exec.{Exec, Error, Outcome, ok, err, panic, pure, lift, ◌>>=◌}
use zeropool_relayer_rs.Crates.{Crates}
use zeropool_relayer_rs.Redis.{Redis}
use zeropool_relayer_rs.Merkle.Tree
use zeropool_relayer_rs.Merkle.Tree.{MerkleTree}
use zeropool_relayer_rs.TxStorage.{iter_range}
use zeropool_relayer_rs.JobQueue
use zeropool_relayer_rs.JobQueue.{Codec, JobStatus}
use zeropool_relayer_rs.Tx.{TxValidationError, ParsedTxData}
use zeropool_relayer_rs.Config.{Config}
use zeropool_relayer_rs.Backend.{BlockchainBackend}
use zeropool_relayer_rs.Worker.{Payload, on_tree, on_transactions, on_job_queue, prepare_job}
use zeropool_relayer_rs.Worker.Process.{Relayer, on_app, on_chain}
use zeropool_relayer_rs.Api.{Validation, TxDataRequest, validate_tx}

pub data AppError : Type 0 where
  not_found : AppError
  bad_request : String → AppError
  tx_validation_errors : List TxValidationError → AppError
  internal_server_error : Error → AppError

pub data AppResult (A : Type 0) : Type 0 where
  refused : AppError → AppResult A
  answered : A → AppResult A

unfoldable pub status_code : {A : Type 0} → AppResult A → ℕ
status_code (answered _) = 200
status_code (refused not_found) = 404
status_code (refused (bad_request _)) = 400
status_code (refused (tx_validation_errors _)) = 400
status_code (refused (internal_server_error _)) = 500

-- The `?` of a handler: an error becomes an internal server error.
abbrev pub result_of : {A : Type 0} → Outcome A → Outcome (AppResult A)
result_of (ok a) = ok (answered a)
result_of (err e) = ok (refused (internal_server_error e))
result_of panic = panic

abbrev pub respond : {S A : Type 0} → Exec S A → Exec S (AppResult A)
respond m s = let (o, s') = m s in (result_of o, s')

-- The query of a page: both fields may be missing.
pub record TxPaginationQuery : Type 0 where
  pub offset : Option ℕ
  pub limit : Option ℕ

pub record CreateTransactionResponse : Type 0 where
  pub job_id : ℕ

pub record InfoResponse : Type 0 where
  pub backend : String
  pub api_version : String
  pub root : String
  pub optimistic_root : String
  pub pool_index : String
  pub optimistic_index : String

abbrev pub page_start : TxPaginationQuery → ℕ
page_start pagination = unwrap_or pagination.offset 0

-- `offset + limit * 128` on 64 bits.
abbrev pub page_end : TxPaginationQuery → ℕ
page_end pagination = (page_start pagination + unwrap_or pagination.limit 100 * 128) % 2 ^ 64

abbrev pub data_only : List (ℕ × List ℕ) → List (List ℕ)
data_only [] = []
data_only ((_, data_bytes) ∷ rest) = data_bytes ∷ data_only rest

-- Each transaction with the flag that says whether it is mined.
abbrev pub with_flag : ℕ → List (ℕ × List ℕ) → List (Bool × List ℕ)
with_flag pool_index [] = []
with_flag pool_index ((index, data_bytes) ∷ rest) =
    (ltb index pool_index, data_bytes) ∷ with_flag pool_index rest

-- `inputs[3]`, `inputs[2]` and `inputs[1]` panic where the list is shorter.
abbrev pub parse_inputs :
    {c : Crates} {P : Type 0}
    → TxDataRequest c.Hash P
    → Option c.Hash
    → Option c.Hash
    → Option c.Hash
    → Outcome (ParsedTxData c P)
parse_inputs tx_data none out_commit nullifier = panic
parse_inputs tx_data (some delta) none nullifier = panic
parse_inputs tx_data (some delta) (some out_commit) none = panic
parse_inputs tx_data (some delta) (some out_commit) (some nullifier) = ok (record {
  tx_type = tx_data.tx_type;
  proof = tx_data.proof.proof;
  delta = delta;
  out_commit = out_commit;
  nullifier = nullifier;
  memo = tx_data.memo;
  extra_data = tx_data.extra_data;
})

unfoldable pub parse_request :
    {c : Crates} {P : Type 0} → TxDataRequest c.Hash P → Outcome (ParsedTxData c P)
parse_request tx_data =
    let inputs = tx_data.proof.inputs in
    parse_inputs tx_data (get_elem? inputs 3) (get_elem? inputs 2) (get_elem? inputs 1)

abbrev pub found_status : AppResult (Option JobStatus) → AppResult JobStatus
found_status (refused error) = refused error
found_status (answered none) = refused not_found
found_status (answered (some status)) = answered status

module _ (c : Crates) (r : Redis) {P : Type 0} (b : Codec (Payload c P))
    (bk : BlockchainBackend c P) where
  module _ (tree : MerkleTree c) (v : Validation c.Hash P) (config : Config) where
    -- `prepare_job(..).await?` and `push(..).await?`.
    unfoldable pub enqueue_tx : ParsedTxData c P → Exec (Relayer c r b bk) CreateTransactionResponse
    enqueue_tx tx = do
      payload ← on_app c r b bk (prepare_job c r b tree bk.extract_ciphertext tx)
      job_id ← on_app c r b bk (on_job_queue c r b (JobQueue.push r b payload))
      pure (record { job_id = job_id })

    abbrev pub accept_or_refuse :
        ParsedTxData c P
        → List TxValidationError
        → Exec (Relayer c r b bk) (AppResult CreateTransactionResponse)
    accept_or_refuse tx [] = respond (enqueue_tx tx)
    accept_or_refuse tx (error ∷ errors) = pure (refused (tx_validation_errors (error ∷ errors)))

    unfoldable pub create_transaction :
        TxDataRequest c.Hash P → Exec (Relayer c r b bk) (AppResult CreateTransactionResponse)
    create_transaction tx_data = do
      errors ← (λ s. (validate_tx v config.fee s.pool_index tx_data, s))
      tx ← lift (parse_request tx_data)
      more ← on_chain c r b bk (bk.validate_tx tx)
      accept_or_refuse tx (errors ++ more)

    unfoldable pub create_transaction_legacy :
        List (TxDataRequest c.Hash P)
        → Exec (Relayer c r b bk) (AppResult CreateTransactionResponse)
    create_transaction_legacy [] = pure (refused (bad_request "No transaction data provided"))
    create_transaction_legacy (tx_data ∷ []) = create_transaction tx_data
    create_transaction_legacy (_ ∷ _ ∷ _) =
        pure (refused (bad_request "Can only process one transaction at a time"))

  unfoldable pub get_transactions :
      TxPaginationQuery → Exec (Relayer c r b bk) (AppResult (List (List ℕ)))
  get_transactions pagination = respond (do
    txs ←
        on_app c r b bk (
          on_transactions c r b (iter_range c (page_start pagination) (some (page_end pagination))))
    pure (data_only txs))

  -- The flag and the bytes, which the source prints as one text.
  unfoldable pub get_transactions_legacy :
      TxPaginationQuery → Exec (Relayer c r b bk) (AppResult (List (Bool × List ℕ)))
  get_transactions_legacy pagination = respond (do
    pool_index ← (λ s. (ok s.pool_index, s))
    txs ←
        on_app c r b bk (
          on_transactions c r b (iter_range c (page_start pagination) (some (page_end pagination))))
    pure (with_flag pool_index txs))

  unfoldable pub job : ℕ → Exec (Relayer c r b bk) (AppResult JobStatus)
  job id = do
    status ← respond (on_app c r b bk (on_job_queue c r b (JobQueue.job_status r b id)))
    pure (found_status status)

  -- The texts of the numbers and of the root are calls of `Display`.
  unfoldable pub info :
      MerkleTree c
      → (ℕ → String)
      → (c.Hash → String)
      → Exec (Relayer c r b bk) (AppResult InfoResponse)
  info tree to_string show_root = respond (do
    s ← (λ s. (ok s, s))
    optimistic_root ← on_app c r b bk (on_tree c r b (Tree.root c tree))
    num_leaves ← on_app c r b bk (on_tree c r b (Tree.num_leaves c tree))
    pure (record {
      backend = bk.name;
      api_version = "3";
      root = to_string s.pool_root;
      optimistic_root = show_root optimistic_root;
      pool_index = to_string s.pool_index;
      optimistic_index = to_string ((num_leaves * 128) % 2 ^ 64);
    }))
