-- ===== src/Worker/Process.antt =====
-- `process_job` of src/tx_worker.rs. While it sleeps or waits for the chain, other tasks run: what they
-- do to the state is an argument.
use zeropool_relayer_rs.Prelude.{
  ℕ, ◌+◌, ◌%◌, ◌^◌, Bool, true, false, String, List, [], ◌∷◌, ◌==◌, if◌then◌else◌,
}
use zeropool_relayer_rs.Exec.{Exec, Outcome, ok, job_cancelled, pure, raise, lift, ◌>>=◌, ◌>>◌}
use zeropool_relayer_rs.Crates.{Crates}
use zeropool_relayer_rs.Redis.{Redis}
use zeropool_relayer_rs.TxStorage
use zeropool_relayer_rs.TxStorage.{stride}
use zeropool_relayer_rs.JobQueue.{Codec, Job, add_job_mapping, is_job_cancelled}
use zeropool_relayer_rs.Tx.{TxData}
use zeropool_relayer_rs.Config.{Config, token_id}
use zeropool_relayer_rs.Backend.{BlockchainBackend}
use zeropool_relayer_rs.Worker.{
  Payload, TreePub, TreeSec, AppState, on_transactions, on_job_queue, tx_position,
}

-- The prover, the `Display` of `u64` and the `U256` of a field element. A prover that panics is a
-- failed join of its blocking task.
pub record Tools (c : Crates) (P : Type 0) : Type 0 where
  pub mock_proof : P
  pub prove_tree : TreePub c → TreeSec c → Outcome P
  pub to_string : ℕ → String
  pub to_u256 : c.Hash → ℕ

-- It is the turn of the job at this index.
abbrev pub is_turn : (c : Crates) → ℕ → ℕ → Bool
is_turn c pool_index commit_index = pool_index == tx_position c commit_index

-- `pool_index += TX_SIZE`.
abbrev pub next_pool_index : Crates → ℕ → ℕ
next_pool_index c pool_index = (pool_index + stride c) % 2 ^ 64

module _ (c : Crates) (r : Redis) {P : Type 0} (b : Codec (Payload c P))
    (bk : BlockchainBackend c P) where
  open bk use {World}

  -- All of `AppState` that changes: the stores, the pool behind the backend, and the two locks.
  pub record Relayer : Type 0 where
    pub app : AppState c r b
    pub chain : World
    pub pool_index : ℕ
    pub pool_root : ℕ

  abbrev pub on_app : {A : Type 0} → Exec (AppState c r b) A → Exec Relayer A
  on_app m s = let (o, a) = m s.app in (o, record s { app = a })

  abbrev pub on_chain : {A : Type 0} → Exec World A → Exec Relayer A
  on_chain m s = let (o, w) = m s.chain in (o, record s { chain = w })

  module _ (tools : Tools c P) (config : Config) where
    abbrev pub tree_proof_of : Payload c P → Outcome P
    tree_proof_of payload =
        if config.mock_prover
        then ok tools.mock_proof
        else tools.prove_tree payload.tree_pub payload.tree_sec

    abbrev pub full_tx : Payload c P → P → TxData c P
    full_tx payload tree_proof =
        let tx = payload.tx in
        record {
          tx_type = tx.tx_type;
          delta = tx.delta;
          token_id = token_id config.backend;
          out_commit = tx.out_commit;
          nullifier = tx.nullifier;
          proof = tx.proof;
          root_after = payload.tree_pub.root_after;
          tree_proof = tree_proof;
          memo = tx.memo;
          extra_data = tx.extra_data;
        }

    -- One round of the loop: an error if the job is cancelled, else whether it is its turn.
    unfoldable pub poll : ℕ → ℕ → Exec Relayer Bool
    poll job_id commit_index = do
      is_cancelled ← on_app (on_job_queue c r b (is_job_cancelled r b job_id))
      if is_cancelled then raise job_cancelled else λ s.
          (ok (is_turn c s.pool_index commit_index), s)

    -- The loop, with what other tasks do in each sleep; `false` where it still waits after them.
    unfoldable pub await_turn : ℕ → ℕ → List (Relayer → Relayer) → Exec Relayer Bool
    await_turn job_id commit_index [] = poll job_id commit_index
    await_turn job_id commit_index (others ∷ later) = do
      ready ← poll job_id commit_index
      if ready then pure true else (λ s. await_turn job_id commit_index later (others s))

    -- From the turn on. Other tasks run while the backend sends.
    unfoldable pub send_and_store : Payload c P → P → (Relayer → Relayer) → Exec Relayer (Unit {0})
    send_and_store payload tree_proof others = do
      tx_hash ← on_chain (bk.send_tx (full_tx payload tree_proof))
      (λ s. (ok tt, others s))
      text ← lift (bk.extract_ciphertext payload.tx.memo payload.tx.tx_type)
      on_app (
          on_transactions c r b (
            TxStorage.set c (tx_position c payload.next_commit_index) payload.tx.out_commit tx_hash
              text))
      λ s. (
        ok tt,
        record s {
          pool_index = next_pool_index c s.pool_index;
          pool_root = tools.to_u256 payload.tree_pub.root_after;
        },
      )

    -- `true` where the job is done, `false` where it still waits for its turn.
    unfoldable pub process_job :
        Job (Payload c P) → List (Relayer → Relayer) → (Relayer → Relayer) → Exec Relayer Bool
    process_job job sleeps others = do
      let payload = job.payload
      on_app (
          on_job_queue c r b
            (add_job_mapping r b job.id (tools.to_string payload.next_commit_index)))
      tree_proof ← lift (tree_proof_of payload)
      ready ← await_turn job.id payload.next_commit_index sleeps
      if ready then (do send_and_store payload tree_proof others; pure true) else pure false
