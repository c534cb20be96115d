-- ===== src/Backend/MockPool.antt =====
-- The worker of src/tx_worker.rs over the pool of src/backend/mock.rs.
use mathlib.Core.List.{append-nil}
use zeropool_relayer_rs.Prelude.{
  ℕ, ◌+◌, ◌*◌, ◌%◌, ◌^◌, ◌<◌, ◌≡◌, refl, sym, ap, ◌∙◌, true, List, [],
}
use zeropool_relayer_rs.Exec.{ok}
use zeropool_relayer_rs.Crates.{Crates}
use zeropool_relayer_rs.Redis.{Redis}
use zeropool_relayer_rs.Merkle.Storage.{Tables}
use zeropool_relayer_rs.TxStorage.{TxTables, stride, record_bytes}
use zeropool_relayer_rs.TxStorage.Entries.{IsSound}
use zeropool_relayer_rs.TxStorage.Write.{IsWrite}
use zeropool_relayer_rs.JobQueue.{Codec, Job}
use zeropool_relayer_rs.Config.{Config}
use zeropool_relayer_rs.Backend.{BlockchainBackend, extract_ciphertext_from_memo}
use zeropool_relayer_rs.Backend.Mock.{MockTools, mock_backend}
use zeropool_relayer_rs.Worker.{Payload}
use zeropool_relayer_rs.Worker.Process.{Tools, Relayer, tree_proof_of, process_job}
use zeropool_relayer_rs.Worker.Await.{relayer, Finds, Waits}
use zeropool_relayer_rs.Worker.Sending.{Others, with_mapping, process_job_sends}

module _ (c : Crates) (r : Redis) {P : Type 0} (b : Codec (Payload c P)) (m : MockTools c P)
    (tools : Tools c P) (config : Config) where
  open r use {Server}

  abbrev bk : BlockchainBackend c P
  bk = mock_backend c P m

  -- Where the relayer's index is that of the mock pool when the turn of a job comes, no other task runs
  -- while it is sent, and the stride is 128, the two are equal again after the job.
  pub mock_pool-in_step :
      (job : Job (Payload c P)) (tree_proof : P) (t : Tables c) (x : TxTables c) (sv : Server)
      (w i root : ℕ) (sleeps : List (Others c r b bk tools config)) (t' : Tables c)
      (x' : TxTables c) (sv' : Server) (i' root' : ℕ) (text : List ℕ)
      → tree_proof_of c r b bk tools config job.payload ≡ ok tree_proof
      → Waits c r b bk tools config job.id job.payload.next_commit_index sleeps
          (relayer c r b bk t x (with_mapping c r b bk tools config job sv) w i root)
          (relayer c r b bk t' x' sv' i' i' root')
      → Finds c r b bk tools config job.id job.payload.next_commit_index true
          (relayer c r b bk t' x' sv' i' i' root')
      → extract_ciphertext_from_memo job.payload.tx.memo job.payload.tx.tx_type ≡ ok text
      → IsSound c x'
      → stride c ≡ 128
      → job.payload.next_commit_index * stride c < 2 ^ 64
      → (x3 : TxTables c) × (process_job c r b bk tools config job sleeps
            (λ s. s)
            (relayer c r b bk t x sv w i root)
          ≡ (
            ok true,
            relayer c r b bk t' x3 sv'
                ((i' + 128) % 2 ^ 64)
                ((i' + 128) % 2 ^ 64)
                (tools.to_u256 job.payload.tree_pub.root_after),
          ))
        × IsWrite c x'
            (job.payload.next_commit_index * stride c)
            (record_bytes c job.payload.tx.out_commit (m.to_be_bytes ((i' + 128) % 2 ^ 64)) text)
            x3
  mock_pool-in_step job tree_proof t x sv w i root sleeps t' x' sv' i' root' text proved waits finds
        extracted tx_sound wide bound =
      let after : ℕ = (i' + 128) % 2 ^ 64 in
      let last : ℕ = tools.to_u256 job.payload.tree_pub.root_after in
      let start : Relayer c r b bk = relayer c r b bk t x sv w i root in
      let (x3, run, written) =
        process_job_sends c r b bk tools config job tree_proof proved t x sv w i root sleeps []
          (λ s. s) _ waits (m.to_be_bytes after) text after t' x' sv' after i' root' finds refl refl
          extracted tx_sound bound in
      (
        x3,
        ap (λ l. process_job c r b bk tools config job l (λ s. s) start) (sym (append-nil sleeps))
            ∙ run
            ∙ ap (λ k. (ok true, relayer c r b bk t' x3 sv' after ((i' + k) % 2 ^ 64) last)) wide,
        written,
      )
