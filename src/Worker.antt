-- ===== src/Worker.antt =====
-- src/tx_worker.rs: what a transaction does to the tree, the transaction storage and the queue.
pub mod Failure
pub mod Prepare
pub mod Process
pub mod Await
pub mod Sending
pub mod Turns
pub mod Positions
pub mod Run
pub mod Round
mod Tests
use zeropool_relayer_rs.Prelude.{
  ℕ, ◌+◌, ◌-◌, ◌*◌, ◌%◌, ◌^◌, Bool, Option, List, replicate, drop, length, ltb, leb, if◌then◌else◌,
}
use zeropool_relayer_rs.Exec.{Exec, Outcome, ok, panic, pure, lift, ◌>>=◌, ◌>>◌}
use zeropool_relayer_rs.Exec.Disk.{Disk}
use zeropool_relayer_rs.Crates.{Crates}
use zeropool_relayer_rs.Redis.{Redis}
use zeropool_relayer_rs.Merkle.Storage.{Tables}
use zeropool_relayer_rs.Merkle.Tree
use zeropool_relayer_rs.Merkle.Tree.{MerkleTree, MerkleProof}
use zeropool_relayer_rs.TxStorage
use zeropool_relayer_rs.TxStorage.{TxTables, stride}
use zeropool_relayer_rs.JobQueue.{Codec, Job, cancel_jobs_after}
use zeropool_relayer_rs.Tx.{TxType, ParsedTxData}

module _ (c : Crates) where
  open c use {Hash}

  pub record TreePub : Type 0 where
    pub root_before : Hash
    pub root_after : Hash
    pub leaf : Hash

  pub record TreeSec : Type 0 where
    pub proof_filled : MerkleProof c
    pub proof_free : MerkleProof c
    pub prev_leaf : Hash

  pub record Payload (P : Type 0) : Type 0 where
    pub tx : ParsedTxData c P
    pub tree_pub : TreePub
    pub tree_sec : TreeSec
    pub next_commit_index : ℕ
    pub prev_commit_index : ℕ

  -- A `u64` product and sum of the release build.
  abbrev pub tx_position : ℕ → ℕ
  tx_position commit_index = (commit_index * stride c) % 2 ^ 64

  abbrev pub rollback_target : ℕ → ℕ
  rollback_target prev_commit_index =
      if ltb 0 prev_commit_index then (prev_commit_index + 1) % 2 ^ 64 else 0

  module _ (r : Redis) {P : Type 0} (b : Codec (Payload P)) where
    open r use {Server}

    -- The fields of `AppState` that these functions use.
    pub record AppState : Type 0 where
      pub tree : Disk (Tables c)
      pub transactions : Disk (TxTables c)
      pub job_queue : Disk Server

    abbrev pub on_tree : {A : Type 0} → Exec (Disk (Tables c)) A → Exec AppState A
    on_tree m s = let (o, d) = m s.tree in (o, record s { tree = d })

    abbrev pub on_transactions : {A : Type 0} → Exec (Disk (TxTables c)) A → Exec AppState A
    on_transactions m s = let (o, d) = m s.transactions in (o, record s { transactions = d })

    abbrev pub on_job_queue : {A : Type 0} → Exec (Disk Server) A → Exec AppState A
    on_job_queue m s = let (o, d) = m s.job_queue in (o, record s { job_queue = d })

    module _ (tree : MerkleTree c) where
      -- The backend's way to find the ciphertext in a memo is a parameter.
      unfoldable pub prepare_job :
          (List ℕ → TxType → Outcome (List ℕ)) → ParsedTxData c P → Exec AppState (Payload P)
      prepare_job extract tx = do
        root_before ← on_tree (Tree.root c tree)
        next_commit_index ← on_tree (Tree.num_leaves c tree)
        let prev_commit_index = next_commit_index - 1
        on_tree (Tree.add_leaf c tree tx.out_commit)
        ciphertext ← lift (extract tx.memo tx.tx_type)
        on_transactions (
            TxStorage.push c (tx_position next_commit_index) tx.out_commit (replicate 32 0)
              ciphertext)
        root_after ← on_tree (Tree.root c tree)
        proof_filled ← on_tree (Tree.zp_merkle_proof c tree prev_commit_index)
        proof_free ← on_tree (Tree.zp_merkle_proof c tree next_commit_index)
        prev_leaf ← on_tree (Tree.leaf c tree prev_commit_index)
        pure (record {
          tx = tx;
          tree_pub = record {
            root_before = root_before;
            root_after = root_after;
            leaf = tx.out_commit;
          };
          tree_sec = record {
            proof_filled = proof_filled;
            proof_free = proof_free;
            prev_leaf = prev_leaf;
          };
          next_commit_index = next_commit_index;
          prev_commit_index = prev_commit_index;
        })

      unfoldable pub process_failure : Job (Payload P) → Exec AppState (Unit {0})
      process_failure job = do
        let target = rollback_target job.payload.prev_commit_index
        on_transactions (TxStorage.rollback c (tx_position target))
        on_tree (Tree.rollback c tree target)
        on_job_queue (cancel_jobs_after r b job.id)
