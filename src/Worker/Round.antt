-- ===== src/Worker/Round.antt =====
-- A round of the worker: the first job of the queue of src/job_queue.rs, run by the handlers of
-- src/tx_worker.rs to its end, where its turn has come.
use zeropool_relayer_rs.Prelude.{
  ℕ, ◌*◌, ◌^◌, ◌<◌, ◌≡◌, refl, ap, ◌∙◌, true, some, List, [], ◌∷◌, ==_iff,
}
use zeropool_relayer_rs.Exec.{ok}
use zeropool_relayer_rs.Exec.Disk.{sound}
use zeropool_relayer_rs.Crates.{Crates}
use zeropool_relayer_rs.Redis.{Redis}
use zeropool_relayer_rs.Merkle.Storage.{Tables}
use zeropool_relayer_rs.Merkle.Tree.{MerkleTree}
use zeropool_relayer_rs.TxStorage.{TxTables, stride, record_bytes}
use zeropool_relayer_rs.TxStorage.Entries.{IsSound}
use zeropool_relayer_rs.TxStorage.Write.{IsWrite}
use zeropool_relayer_rs.JobQueue.{Codec, Job, take_job, in_progress, completed}
use zeropool_relayer_rs.JobQueue.Queue.{Queue, Shows, mark, link, first, start_first}
use zeropool_relayer_rs.JobQueue.Steps.{take_job-Shows, link-Shows}
use zeropool_relayer_rs.Config.{Config}
use zeropool_relayer_rs.Backend.{BlockchainBackend}
use zeropool_relayer_rs.Worker.{Payload}
use zeropool_relayer_rs.Worker.Process.{Tools, tree_proof_of, full_tx, is_turn, next_pool_index}
use zeropool_relayer_rs.Worker.Await.{relayer, Finds, arrived}
use zeropool_relayer_rs.Worker.Sending.{with_mapping, process_job_sends}
use zeropool_relayer_rs.Worker.Run.{worker_round, run_tx_completes}

module _ (c : Crates) (r : Redis) {P : Type 0} (b : Codec (Payload c P))
    (bk : BlockchainBackend c P) (tools : Tools c P) (config : Config) (tree : MerkleTree c) where
  open r use {Server}

  -- The queue after the job was taken, linked to its index and completed.
  abbrev pub done_queue :
      Job (Payload c P) → List (Job (Payload c P)) → Queue (Payload c P) → Queue (Payload c P)
  done_queue j rest q = mark j.id completed (
      link j.id (tools.to_string j.payload.next_commit_index)
        (mark j.id in_progress (record q { waiting = rest })))

  pub worker_round-completes :
      (j : Job (Payload c P)) (rest : List (Job (Payload c P))) (q : Queue (Payload c P))
      (tree_proof : P) (t : Tables c) (x : TxTables c) (sv : Server) (w w' : bk.World) (i root : ℕ)
      (tx_hash text : List ℕ)
      → Shows r b sv q
      → q.waiting ≡ j ∷ rest
      → tree_proof_of c r b bk tools config j.payload ≡ ok tree_proof
      → is_turn c i j.payload.next_commit_index ≡ true
      → bk.send_tx (full_tx c r b bk tools config j.payload tree_proof) w ≡ (ok tx_hash, w')
      → bk.extract_ciphertext j.payload.tx.memo j.payload.tx.tx_type ≡ ok text
      → IsSound c x
      → j.payload.next_commit_index * stride c < 2 ^ 64
      → (x' : TxTables c) × (sv' : Server) × (worker_round c r b bk tools config tree []
            (λ s. s)
            (relayer c r b bk t x sv w i root)
          ≡ (
            ok tt,
            relayer c r b bk t x' sv' w'
                (next_pool_index c i)
                (tools.to_u256 j.payload.tree_pub.root_after),
          ))
        × IsWrite c x
            (j.payload.next_commit_index * stride c)
            (record_bytes c j.payload.tx.out_commit tx_hash text)
            x'
        × Shows r b sv' (done_queue j rest q)
  unfolding worker_round
  worker_round-completes j rest q tree_proof t x sv w w' i root tx_hash text shows front proved turn
        sent extracted tx_sound bound =
      let (sv1, take, shows1) = take_job-Shows r b sv q shows in
      let took : take_job r b (sound sv) ≡ (ok (some j), sound sv1) =
        take ∙ ap (λ l. (ok (first l), sound sv1)) front in
      let started : Queue (Payload c P) = mark j.id in_progress (record q { waiting = rest }) in
      let shows2 : Shows r b sv1 started = rw (← ap (λ l. start_first l q) front) shows1 in
      let linked : Queue (Payload c P) =
        link j.id (tools.to_string j.payload.next_commit_index) started in
      let sv2 : Server = with_mapping c r b bk tools config j sv1 in
      let shows3 : Shows r b sv2 linked =
        link-Shows r b sv1 started shows2 j.id (tools.to_string j.payload.next_commit_index) in
      let finds : Finds c r b bk tools config j.id j.payload.next_commit_index true
          (relayer c r b bk t x sv2 w i root) =
        record {
          queue = linked;
          calm = record {
            tables = t;
            transactions = x;
            server = sv2;
            state = refl;
            shows = shows3;
          };
          not_cancelled = rw ((==_iff j.id j.id).1 refl) refl;
          turn_is = turn;
        } in
      let (x', run, written) =
        process_job_sends c r b bk tools config j tree_proof proved t x sv1 w i root [] [] (λ s. s)
          _ arrived tx_hash text w' t x sv2 w' i root finds sent refl extracted tx_sound bound in
      let (sv3, ends, shown) =
        run_tx_completes c r b bk tools config tree j [] (λ s. s)
          (relayer c r b bk t x sv1 w i root) t x' sv2 w' (next_pool_index c i)
          (tools.to_u256 j.payload.tree_pub.root_after) linked shows3 run in
      (x', sv3, rw (took, ends) refl, written, shown)
