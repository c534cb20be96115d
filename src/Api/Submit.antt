-- ===== src/Api/Submit.antt =====
-- A transaction from the request to the pool: `create_transaction` of src/json_api.rs, then a round of
-- the worker of src/job_queue.rs with the handlers of src/tx_worker.rs.
use zeropool_relayer_rs.Prelude.{
  ℕ, ◌+◌, ◌*◌, ◌%◌, ◌^◌, ◌≤◌, ◌<◌, ◌≡◌, refl, sym, ap, ◌∙◌, true, some, List, [], ◌∷◌, ◌++◌, ==_iff,
  length, length-append, arith,
}
use zeropool_relayer_rs.Exec.{Exec, ok, ◌>>◌, bind_ok}
use zeropool_relayer_rs.Crates.{Crates}
use zeropool_relayer_rs.Redis.{Redis}
use zeropool_relayer_rs.Merkle.Storage.{Tables}
use zeropool_relayer_rs.Merkle.Tree.{MerkleTree, tree_height}
use zeropool_relayer_rs.Merkle.View.{HasDefaults}
use zeropool_relayer_rs.Merkle.Spec.{root_of}
use zeropool_relayer_rs.TxStorage.{TxTables, stride, record_bytes}
use zeropool_relayer_rs.TxStorage.Entries.{entry}
use zeropool_relayer_rs.TxStorage.Write.{IsWrite}
use zeropool_relayer_rs.JobQueue.{Codec, Job, completed}
use zeropool_relayer_rs.JobQueue.Queue.{Queue, Shows, enqueue}
use zeropool_relayer_rs.Tx.{ParsedTxData, TxData}
use zeropool_relayer_rs.Config.{Config}
use zeropool_relayer_rs.Backend.{BlockchainBackend}
use zeropool_relayer_rs.Worker.{Payload}
use zeropool_relayer_rs.Worker.Failure.{position_lem}
use zeropool_relayer_rs.Worker.Prepare.{InStep, next_position}
use zeropool_relayer_rs.Worker.Process.{Tools, Relayer, tree_proof_of, is_turn}
use zeropool_relayer_rs.Worker.Await.{relayer}
use zeropool_relayer_rs.Worker.Run.{worker_round}
use zeropool_relayer_rs.Worker.Round.{done_queue, worker_round-completes}
use zeropool_relayer_rs.Api.{Validation, TxDataRequest, validate_tx}
use zeropool_relayer_rs.Api.Handlers.{parse_request, create_transaction}
use zeropool_relayer_rs.Api.Create.{create_transaction_accepts}

module _ (c : Crates) (r : Redis) {P : Type 0} (b : Codec (Payload c P)) where
  -- A write over the last transaction keeps the tree and the storage in step.
  rewritten-InStep :
      (t : Tables c) (x x' : TxTables c) (leaves : List c.Hash) (h : c.Hash) (buf : List ℕ) (k : ℕ)
      → InStep c r b t x (leaves ++ h ∷ [])
      → IsWrite c x k buf x'
      → k ≡ length leaves * stride c
      → length leaves * stride c + stride c < 2 ^ 64
      → InStep c r b t x' (leaves ++ h ∷ [])
  rewritten-InStep t x x' leaves h buf k step w there bound = record {
    represents = step.represents;
    remembers = step.remembers;
    transactions = w.sound_after;
    next =
        w.next
        ∙ ap (λ z. (z + stride c) % 2 ^ 64) there
        ∙ next_position (length leaves) (stride c) bound
        ∙ ap (λ z. z * stride c) (sym (length-append leaves (h ∷ [])));
  }

module _ (c : Crates) (r : Redis) {P : Type 0} (b : Codec (Payload c P))
    (bk : BlockchainBackend c P) (tools : Tools c P) (config : Config) (tree : MerkleTree c)
    (v : Validation c.Hash P) where
  open r use {Server}

  -- A request, and then the worker's task.
  abbrev pub submit_and_run : TxDataRequest c.Hash P → Exec (Relayer c r b bk) (Unit {0})
  submit_and_run tx_data =
      create_transaction c r b bk tree v config tx_data
      >> worker_round c r b bk tools config tree [] (λ s. s)

  -- A relayer without waiting jobs is in step with the pool: its tree holds a list of leaves and
  -- its historic roots, its transaction storage is sound with the index of the next leaf as its
  -- next, and that index is the pool's. The server stores a queue, a request is valid for the
  -- relayer and the backend, its memo has a ciphertext, the tree is not full and of a height of at
  -- most 62, the positions fit in 64 bits, the tree proof is made, the pool accepts the
  -- transaction, and no call fails. Then `create_transaction` and a round of the worker, run one
  -- after the other, succeed; tree, storage and pool index are in step again with the commitment
  -- as a further leaf, the pool root is the root of the leaves, the transaction is stored with the
  -- hash that the pool gave, no job waits, and the job of the request is completed.
  pub create_transaction-worker_round :
      (defaults : HasDefaults c tree) (t : Tables c) (x : TxTables c) (sv : Server)
      (w w1 w2 : bk.World) (rt : ℕ) (leaves : List c.Hash) (q : Queue (Payload c P))
      (tx_data : TxDataRequest c.Hash P) (tx : ParsedTxData c P) (text tx_hash : List ℕ)
      → InStep c r b t x leaves
      → Shows r b sv q
      → q.waiting ≡ []
      → validate_tx v config.fee (length leaves * stride c) tx_data ≡ ok []
      → parse_request tx_data ≡ ok tx
      → bk.validate_tx tx w ≡ (ok [], w1)
      → bk.extract_ciphertext tx.memo tx.tx_type ≡ ok text
      → length leaves < 2 ^ tree_height c
      → tree_height c ≤ 62
      → length leaves * stride c + stride c < 2 ^ 64
      → ((payload : Payload c P)
          → (tree_proof : P) × (tree_proof_of c r b bk tools config payload ≡ ok tree_proof))
      → ((full : TxData c P) → bk.send_tx full w1 ≡ (ok tx_hash, w2))
      → (t' : Tables c) × (x' : TxTables c) × (sv' : Server) × (q' : Queue (Payload c P))
        × (submit_and_run tx_data (relayer c r b bk t x sv w (length leaves * stride c) rt) ≡ (
          ok tt,
          relayer c r b bk t' x' sv' w2
              (length (leaves ++ tx.out_commit ∷ []) * stride c)
              (tools.to_u256 (root_of c (leaves ++ tx.out_commit ∷ []))),
        ))
        × InStep c r b t' x' (leaves ++ tx.out_commit ∷ [])
        × (entry c x' (length leaves * stride c) ≡ some (record_bytes c tx.out_commit tx_hash text))
        × Shows r b sv' q'
        × (q'.waiting ≡ [])
        × (q'.status (q.counter + 1) ≡ some completed)
  create_transaction-worker_round defaults t x sv w w1 w2 rt leaves q tx_data tx text tx_hash step
        shows idle valid parsed asked extracted room small bound proves sends =
      let n : ℕ = length leaves in
      let i : ℕ = n * stride c in
      let more : List c.Hash = leaves ++ tx.out_commit ∷ [] in
      let longer : length more ≡ n + 1 = length-append leaves (tx.out_commit ∷ []) in
      let (t1, x1, sv1, payload, accepted, step1, written1, shows1, index, same_tx, root_after) =
        create_transaction_accepts c r b bk tree v config defaults t x sv w w1 i rt leaves q tx_data
          tx text step shows valid parsed asked extracted room small bound in
      let j : Job (Payload c P) = record { id = q.counter + 1; payload = payload } in
      let q1 : Queue (Payload c P) = enqueue payload q in
      let (tree_proof, proved) = proves payload in
      let here : i < 2 ^ 64 = omega (arith, bound) in
      let turn : is_turn c i payload.next_commit_index ≡ true =
        ap (λ k. is_turn c i k) index ∙ (==_iff i _).1 (sym (position_lem c r b n here)) in
      let in_range : payload.next_commit_index * stride c < 2 ^ 64 = rw index here in
      let text_there = ap (λ z. bk.extract_ciphertext z.memo z.tx_type) same_tx ∙ extracted in
      let (x2, sv2, run, written, shows2) =
        worker_round-completes c r b bk tools config tree j [] q1 tree_proof t1 x1 sv1 w1 w2 i rt
          tx_hash text shows1 (ap (λ l. l ++ j ∷ []) idle) proved turn (sends _) text_there
          step1.transactions in_range in
      let position : (i + stride c) % 2 ^ 64 ≡ length more * stride c =
        next_position n (stride c) bound ∙ ap (λ k. k * stride c) (sym longer) in
      let there : payload.next_commit_index * stride c ≡ i = ap (λ k. k * stride c) index in
      (
        t1,
        x2,
        sv2,
        done_queue c r b bk tools config tree j [] q1,
        bind_ok (create_transaction c r b bk tree v config tx_data)
              (λ _. worker_round c r b bk tools config tree [] (λ s. s))
              (relayer c r b bk t x sv w i rt) accepted
            ∙ run
            ∙ ap
                (λ k. (
                  ok tt,
                  relayer c r b bk t1 x2 sv2 w2 k (tools.to_u256 payload.tree_pub.root_after),
                ))
                position
            ∙ ap
                (λ h.
                  (ok tt, relayer c r b bk t1 x2 sv2 w2 (length more * stride c) (tools.to_u256 h)))
                root_after,
        rewritten-InStep c r b t1 x1 x2 leaves tx.out_commit _ _ step1 written there bound,
        ap (λ k. entry c x2 k) (sym there)
            ∙ written.entries (payload.next_commit_index * stride c)
            ∙ rw
                ((==_iff (payload.next_commit_index * stride c)
                    (payload.next_commit_index * stride c)).1
                  refl)
                (ap (λ z. some (record_bytes c z.out_commit tx_hash text)) same_tx),
        shows2,
        refl,
        rw ((==_iff (q.counter + 1) (q.counter + 1)).1 refl) refl,
      )
