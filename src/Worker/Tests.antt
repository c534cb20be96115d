-- ===== src/Worker/Tests.antt =====
-- Examples for src/tx_worker.rs over the sample crates: three deposits, one after another.
mod Running
use zeropool_relayer_rs.Prelude.{
  ℕ, ◌+◌, ◌*◌, ◌^◌, ◌<◌, ◌↔◌, true, ◌≡◌, ◌≤◌, refl, none, List, [], ◌∷◌, arith,
}
use zeropool_relayer_rs.Exec.{ok, err, panic, invalid_index}
use zeropool_relayer_rs.Sample.{sample, sample_redis, Memory}
use zeropool_relayer_rs.Sample.Payloads.{payload_codec}
use zeropool_relayer_rs.Sample.Relayer.{
  one, tree, defaults, small, server, no_jobs, no_jobs_Shows, with_memo, tx, start, ciphertext,
  tools, config, pool,
}
use zeropool_relayer_rs.Merkle.Storage.{Tables}
use zeropool_relayer_rs.Merkle.Tree.{MerkleTree, tree_height}
use zeropool_relayer_rs.Merkle.View.{HasDefaults}
use zeropool_relayer_rs.Merkle.Spec.{Represents}
use zeropool_relayer_rs.Merkle.Open.{opened, initial, opened-HasDefaults, open_tree-Represents}
use zeropool_relayer_rs.TxStorage.{fresh}
use zeropool_relayer_rs.TxStorage.Entries.{fresh-IsSound}
use zeropool_relayer_rs.JobQueue.{Job}
use zeropool_relayer_rs.JobQueue.Queue.{Queue, Shows}
use zeropool_relayer_rs.Worker.{Payload, prepare_job, tx_position}
use zeropool_relayer_rs.Worker.Failure.{
  all_sound, RolledBack, process_failure-RolledBack, process_failure_first,
}
use zeropool_relayer_rs.Worker.Process.{is_turn, next_pool_index}
use zeropool_relayer_rs.Worker.Positions.{positions_exact}
use zeropool_relayer_rs.State.{tx_index}
use zeropool_relayer_rs.Worker.Prepare.{InStep, Prepared, prepare_job-Prepared, short_memo}
use zeropool_relayer_rs.Tx.{ParsedTxData, TxType, deposit, withdraw}
use zeropool_relayer_rs.Backend.{extract_ciphertext_from_memo}

abbrev two :
    Prepared sample sample_redis payload_codec tree defaults one.tree_after one.transactions_after
      server
      (11 ∷ [])
      one.in_step
      extract_ciphertext_from_memo
      (tx 22)
      (9 ∷ [])
two =
    prepare_job-Prepared sample sample_redis payload_codec tree defaults one.tree_after
      one.transactions_after server (11 ∷ []) one.in_step extract_ciphertext_from_memo (tx 22)
      (9 ∷ []) ciphertext (omega arith) small (omega arith)

prepare_job-Prepared_example :
    Prepared sample sample_redis payload_codec tree defaults two.tree_after two.transactions_after
      server
      (11 ∷ 22 ∷ [])
      two.in_step
      extract_ciphertext_from_memo
      (tx 33)
      (9 ∷ [])
prepare_job-Prepared_example =
    prepare_job-Prepared sample sample_redis payload_codec tree defaults two.tree_after
      two.transactions_after server (11 ∷ 22 ∷ []) two.in_step extract_ciphertext_from_memo (tx 33)
      (9 ∷ []) ciphertext (omega arith) small (omega arith)

abbrev pub three :
    Prepared sample sample_redis payload_codec tree defaults two.tree_after two.transactions_after
      server
      (11 ∷ 22 ∷ [])
      two.in_step
      extract_ciphertext_from_memo
      (tx 33)
      (9 ∷ [])
three =
    prepare_job-Prepared sample sample_redis payload_codec tree defaults two.tree_after
      two.transactions_after server (11 ∷ 22 ∷ []) two.in_step extract_ciphertext_from_memo (tx 33)
      (9 ∷ []) ciphertext (omega arith) small (omega arith)

-- The jobs of the second and the third transaction.
abbrev job_two : Job (Payload sample ℕ)
job_two = record { id = 2; payload = two.payload }

abbrev pub job_three : Job (Payload sample ℕ)
job_three = record { id = 3; payload = three.payload }

process_failure-RolledBack_example :
    RolledBack sample sample_redis payload_codec tree defaults three.tree_after
      (11 ∷ 22 ∷ 33 ∷ [])
      three.transactions_after
      server
      no_jobs
      job_three
      three.in_step.transactions
      no_jobs_Shows
      2
      (11 ∷ 22 ∷ [])
process_failure-RolledBack_example =
    process_failure-RolledBack sample sample_redis payload_codec tree defaults three.tree_after
      (11 ∷ 22 ∷ 33 ∷ []) three.transactions_after server no_jobs job_three
      three.in_step.transactions no_jobs_Shows 2 three.prev_index (omega arith) (omega arith)
      (omega arith) small (omega arith) three.in_step.represents three.in_step.remembers

process_failure_first_example :
    RolledBack sample sample_redis payload_codec tree defaults two.tree_after
      (11 ∷ 22 ∷ [])
      two.transactions_after
      server
      no_jobs
      job_two
      two.in_step.transactions
      no_jobs_Shows
      0
      []
process_failure_first_example =
    process_failure_first sample sample_redis payload_codec tree defaults two.tree_after
      (11 ∷ 22 ∷ []) two.transactions_after server no_jobs job_two two.in_step.transactions
      no_jobs_Shows two.prev_index

abbrev short_tx : ParsedTxData sample ℕ
short_tx = with_memo withdraw (0 ∷ 0 ∷ 0 ∷ 0 ∷ 0 ∷ 0 ∷ 0 ∷ 1 ∷ []) 44

short_memo_example :
    (t1 t2 : Tables sample) × (prepare_job sample sample_redis payload_codec tree
        extract_ciphertext_from_memo short_tx
        (all_sound sample sample_redis payload_codec one.tree_after one.transactions_after server)
      ≡ (panic, all_sound sample sample_redis payload_codec t1 one.transactions_after server))
    × Represents sample t1 (11 ∷ 44 ∷ [])
    × (prepare_job sample sample_redis payload_codec tree extract_ciphertext_from_memo
          (tx 55)
          (all_sound sample sample_redis payload_codec t1 one.transactions_after server)
        ≡ (
          err (invalid_index (1 * 128) ((1 + 1) * 128)),
          all_sound sample sample_redis payload_codec t2 one.transactions_after server,
        ))
short_memo_example =
    short_memo sample sample_redis payload_codec tree defaults one.tree_after one.transactions_after
      server (11 ∷ []) one.in_step short_tx (tx 55) (9 ∷ []) (omega arith) ciphertext (omega arith)
      small (omega arith) (omega arith)

positions_exact_example :
    (tx_position sample 3 ≡ 384)
    × (tx_position sample 3 + 128 < 2 ^ 64)
    × (tx_index sample 3 ≡ tx_position sample 3)
    × (next_pool_index sample (tx_position sample 3) ≡ tx_position sample 4)
    × ((is_turn sample (tx_position sample 2) 3 ≡ true) ↔ (◌≡◌ {A = ℕ} 2 3))
positions_exact_example =
    positions_exact sample (omega arith) (omega arith) 2 3 (omega arith) (omega arith)
