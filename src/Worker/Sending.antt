-- ===== src/Worker/Sending.antt =====
-- How `process_job` of src/tx_worker.rs ends: it sends and stores, or it gives up.
use native.Mathlib.Nat.{mul-mod_left}
use zeropool_relayer_rs.Prelude.{ℕ, ◌*◌, ◌^◌, ◌<◌, ◌≡◌, refl, Bool, true, List, ◌++◌}
use zeropool_relayer_rs.Exec.{Error, Outcome, ok, err, job_cancelled}
use zeropool_relayer_rs.Exec.Disk.{io}
use zeropool_relayer_rs.Crates.{Crates}
use zeropool_relayer_rs.Redis.{Redis, job_mapping}
use zeropool_relayer_rs.Merkle.Storage.{Tables}
use zeropool_relayer_rs.TxStorage.{TxTables, stride, record_bytes}
use zeropool_relayer_rs.TxStorage.Entries.{IsSound}
use zeropool_relayer_rs.TxStorage.Write.{IsWrite, set_lem}
use zeropool_relayer_rs.JobQueue.{Codec, Job, add_job_mapping}
use zeropool_relayer_rs.Config.{Config}
use zeropool_relayer_rs.Backend.{BlockchainBackend}
use zeropool_relayer_rs.Worker.{Payload}
use zeropool_relayer_rs.Worker.Failure.{position_lem}
use zeropool_relayer_rs.Worker.Process.{
  Tools, Relayer, tree_proof_of, full_tx, next_pool_index, send_and_store, process_job,
}
use zeropool_relayer_rs.Worker.Await.{
  relayer, Finds, FindsCancelled, Waits, await_turn_lem, its_turn, is_over,
}

module _ (c : Crates) (r : Redis) {P : Type 0} (b : Codec (Payload c P))
    (bk : BlockchainBackend c P) (tools : Tools c P) (config : Config) where
  open r use {Server}

  abbrev pub Others : Type 0
  Others = Relayer c r b bk → Relayer c r b bk

  -- The server with the mapping from the commit index to the job.
  abbrev pub with_mapping : Job (Payload c P) → Server → Server
  with_mapping job sv =
      r.set_ex (job_mapping (tools.to_string job.payload.next_commit_index)) (b.id_bytes job.id) sv

  module _ (job : Job (Payload c P)) (tree_proof : P)
      (proved : tree_proof_of c r b bk tools config job.payload ≡ ok tree_proof) (t : Tables c)
      (x : TxTables c) (sv : Server) (w : bk.World) (i root : ℕ) (sleeps rest : List Others)
      (others : Others) (s' : Relayer c r b bk)
      (waits : Waits c r b bk tools config job.id job.payload.next_commit_index sleeps
        (relayer c r b bk t x (with_mapping job sv) w i root)
        s') where
    abbrev run : Outcome Bool × Relayer c r b bk
    run =
        process_job c r b bk tools config job (sleeps ++ rest) others
          (relayer c r b bk t x sv w i root)

    -- The ways in which a job gives up at the end of its wait, with its error and the last state.
    pub data GivesUp : Error → Relayer c r b bk → Type 0 where
      is_cancelled :
          FindsCancelled c r b bk tools config job.id job.payload.next_commit_index s'
          → GivesUp job_cancelled s'
      send_failed :
          (e : Error) (w' : bk.World)
          → Finds c r b bk tools config job.id job.payload.next_commit_index true s'
          → bk.send_tx (full_tx c r b bk tools config job.payload tree_proof) s'.chain ≡ (err e, w')
          → GivesUp e (record s' { chain = w' })

    -- The proof of a job is made, and its wait leads to a state whose stores have no faults, where
    -- it is cancelled, or where it is its turn and the pool refuses the transaction. Then
    -- `process_job` ends with the error, has only added the mapping before the wait, and has
    -- changed nothing after the wait but the pool.
    pub process_job-GivesUp :
        (e : Error) (last : Relayer c r b bk) → GivesUp e last → run ≡ (err e, last)
    unfolding process_job send_and_store add_job_mapping io
    process_job-GivesUp _ _ (is_cancelled f) =
        rw
          (
            proved,
            await_turn_lem c r b bk tools config job.id job.payload.next_commit_index
                (err job_cancelled) sleeps rest _ s' waits (is_over f),
          )
          refl
    process_job-GivesUp _ _ (send_failed e w' f fails) =
        rw
          (
            proved,
            await_turn_lem c r b bk tools config job.id job.payload.next_commit_index (ok true)
                sleeps rest _ s' waits (its_turn f),
            fails,
          )
          refl

    -- The proof of a job is made, its wait leads to a state whose stores have no faults, where the
    -- job is not cancelled and it is its turn, the pool accepts the transaction, other tasks lead
    -- to a state without faults whose transaction storage is sound, the memo has a ciphertext and
    -- the position fits in 64 bits. Then `process_job` succeeds: the transaction is written at its
    -- position with the hash that the pool gave, the pool index moves on by the stride, the pool
    -- root becomes the root after the transaction, and all else is as the other tasks left it.
    pub process_job_sends :
        (tx_hash text : List ℕ) (w' : bk.World) (t2 : Tables c) (x2 : TxTables c) (sv2 : Server)
        (w2 : bk.World) (i2 root2 : ℕ)
        → Finds c r b bk tools config job.id job.payload.next_commit_index true s'
        → bk.send_tx (full_tx c r b bk tools config job.payload tree_proof) s'.chain
          ≡ (ok tx_hash, w')
        → others (record s' { chain = w' }) ≡ relayer c r b bk t2 x2 sv2 w2 i2 root2
        → bk.extract_ciphertext job.payload.tx.memo job.payload.tx.tx_type ≡ ok text
        → IsSound c x2
        → job.payload.next_commit_index * stride c < 2 ^ 64
        → (x3 : TxTables c) × (run ≡ (
          ok true,
          relayer c r b bk t2 x3 sv2 w2
              (next_pool_index c i2)
              (tools.to_u256 job.payload.tree_pub.root_after),
        ))
          × IsWrite c x2
              (job.payload.next_commit_index * stride c)
              (record_bytes c job.payload.tx.out_commit tx_hash text)
              x3
    unfolding process_job send_and_store add_job_mapping io
    process_job_sends tx_hash text w' t2 x2 sv2 w2 i2 root2 f sent moved extracted tx_sound bound =
        let n : ℕ = job.payload.next_commit_index in
        let ready =
          await_turn_lem c r b bk tools config job.id n (ok true) sleeps rest _ s' waits
            (its_turn f) in
        let (x3, written, w3) =
          (set_lem c x2 tx_sound (n * stride c) job.payload.tx.out_commit tx_hash text).0
            (mul-mod_left n (stride c)) in
        (
          x3,
          rw (proved, ready, sent, moved, extracted, position_lem c r b n bound, written) refl,
          w3,
        )
