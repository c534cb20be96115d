-- ===== src/Worker/Run.antt =====
-- A job from the queue to its end: the task that `start` of src/job_queue.rs spawns, with the handlers
-- `process_job` and `process_failure` of src/tx_worker.rs.
use zeropool_relayer_rs.Prelude.{
  Option, none, some, ℕ, ◌-◌, ◌*◌, ◌^◌, ◌≤◌, ◌<◌, ◌≡◌, refl, true, false, List, length, take,
}
use zeropool_relayer_rs.Exec.{Error, Exec, ok, err, pure, ◌>>=◌}
use zeropool_relayer_rs.Crates.{Crates}
use zeropool_relayer_rs.Redis.{Redis}
use zeropool_relayer_rs.Merkle.Storage.{Tables}
use zeropool_relayer_rs.Merkle.Tree.{MerkleTree, tree_height}
use zeropool_relayer_rs.Merkle.View.{HasDefaults}
use zeropool_relayer_rs.Merkle.Spec.{Represents, Remembers}
use zeropool_relayer_rs.TxStorage.{TxTables, stride}
use zeropool_relayer_rs.TxStorage.Entries.{IsSound}
use zeropool_relayer_rs.TxStorage.Remove.{IsRollback}
use zeropool_relayer_rs.JobQueue.{Codec, Job, RedisAct, take_job, completed, failed, run_job}
use zeropool_relayer_rs.JobQueue.Queue.{Queue, Shows, mark, cancel_later}
use zeropool_relayer_rs.JobQueue.Steps.{finish_job-Shows}
use zeropool_relayer_rs.Config.{Config}
use zeropool_relayer_rs.Backend.{BlockchainBackend}
use zeropool_relayer_rs.Worker.{Payload, on_job_queue, process_failure}
use zeropool_relayer_rs.Worker.Failure.{process_failure-RolledBack}
use zeropool_relayer_rs.Worker.Process.{Tools, Relayer, on_app, process_job}
use zeropool_relayer_rs.Worker.Await.{relayer}
use zeropool_relayer_rs.Worker.Sending.{Others}

module _ (c : Crates) (r : Redis) {P : Type 0} (b : Codec (Payload c P))
    (bk : BlockchainBackend c P) (tools : Tools c P) (config : Config) (tree : MerkleTree c) where
  open r use {Server}

  abbrev pub on_queue : RedisAct r b (Unit {0}) → Exec (Relayer c r b bk) (Unit {0})
  on_queue m = on_app c r b bk (on_job_queue c r b m)

  -- The worker's task for a job.
  unfoldable pub run_tx :
      List (Others c r b bk tools config)
      → Others c r b bk tools config
      → Job (Payload c P)
      → Exec (Relayer c r b bk) (Unit {0})
  run_tx sleeps others =
      run_job r b on_queue (λ j. process_job c r b bk tools config j sleeps others)
        (λ j. on_app c r b bk (process_failure c r b tree j))

  abbrev pub run_taken :
      List (Others c r b bk tools config)
      → Others c r b bk tools config
      → Option (Job (Payload c P))
      → Exec (Relayer c r b bk) (Unit {0})
  run_taken sleeps others none = pure tt
  run_taken sleeps others (some job) = run_tx sleeps others job

  -- A round of the worker loop and the task that it spawns, up to the end of the task.
  unfoldable pub worker_round :
      List (Others c r b bk tools config)
      → Others c r b bk tools config
      → Exec (Relayer c r b bk) (Unit {0})
  unfolding run_tx
  worker_round sleeps others = do
    taken ← on_app c r b bk (on_job_queue c r b (take_job r b))
    run_taken sleeps others taken

  module _ (job : Job (Payload c P)) (sleeps : List (Others c r b bk tools config))
      (others : Others c r b bk tools config) (start : Relayer c r b bk) (t : Tables c)
      (x : TxTables c) (sv : Server) (w : bk.World) (i root : ℕ) (q : Queue (Payload c P))
      (shows : Shows r b sv q) where
    -- Where the handler ends well in a state whose server stores a queue, the job becomes completed.
    pub run_tx_completes :
        process_job c r b bk tools config job sleeps others start
          ≡ (ok true, relayer c r b bk t x sv w i root)
        → (sv' : Server) × (run_tx sleeps others job start
            ≡ (ok tt, relayer c r b bk t x sv' w i root))
          × Shows r b sv' (mark job.id completed q)
    unfolding run_tx run_job
    run_tx_completes done =
        let (sv', run, shown) = finish_job-Shows r b sv q shows job.id true in
        (sv', rw (done, run) refl, shown)

    -- The handler of a job ends with an error, in a state whose stores have no faults, whose tree
    -- holds a list of leaves and its historic roots and is not full, whose transaction storage is
    -- sound and whose server stores a queue; the job is at index n, above one and below the number
    -- of leaves, its position fits in 64 bits, and the height is at most 62. Then the worker's
    -- task ends well, with the first n leaves, the transactions below the position, the later
    -- waiting jobs failed and the job failed.
    pub run_tx-rolls_back :
        (defaults : HasDefaults c tree) (leaves : List c.Hash) (n : ℕ) (e : Error)
        → process_job c r b bk tools config job sleeps others start
          ≡ (err e, relayer c r b bk t x sv w i root)
        → job.payload.prev_commit_index ≡ n - 1
        → 1 < n
        → n < length leaves
        → length leaves < 2 ^ tree_height c
        → tree_height c ≤ 62
        → n * stride c < 2 ^ 64
        → IsSound c x
        → Represents c t leaves
        → Remembers c t leaves
        → (t' : Tables c) × (x' : TxTables c) × (sv' : Server) × (run_tx sleeps others job start
            ≡ (ok tt, relayer c r b bk t' x' sv' w i root))
          × Represents c t' (take n leaves)
          × IsRollback c x (n * stride c) x'
          × Shows r b sv' (mark job.id failed (cancel_later job.id q))
    unfolding run_tx run_job
    run_tx-rolls_back defaults leaves n e gave_up prev above lower room small bound tx_sound rep
          rem =
        let back =
          process_failure-RolledBack c r b tree defaults t leaves x sv q job tx_sound shows n prev
            above lower room small bound rep rem in
        let (sv', run, shown) =
          finish_job-Shows r b back.server_after (cancel_later job.id q) back.queue_after job.id
            false in
        (
          back.tree_after,
          back.transactions_after,
          sv',
          rw (gave_up, back.run, run) refl,
          back.leaves_after,
          back.transactions,
          shown,
        )
