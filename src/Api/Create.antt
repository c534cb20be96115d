-- ===== src/Api/Create.antt =====
-- `create_transaction` of src/json_api.rs: what a request that is refused and one that is accepted does
-- to the relayer.
use zeropool_relayer_rs.Prelude.{
  ℕ, ◌+◌, ◌*◌, ◌^◌, ◌≤◌, ◌<◌, ◌≡◌, ◌≢◌, refl, List, [], ◌∷◌, ◌++◌, some, replicate, get_elem?,
  length,
}
use zeropool_relayer_rs.Exec.{ok}
use zeropool_relayer_rs.Crates.{Crates}
use zeropool_relayer_rs.Redis.{Redis}
use zeropool_relayer_rs.Merkle.Storage.{Tables}
use zeropool_relayer_rs.Merkle.Tree.{MerkleTree, tree_height}
use zeropool_relayer_rs.Merkle.View.{HasDefaults}
use zeropool_relayer_rs.Merkle.Spec.{root_of}
use zeropool_relayer_rs.TxStorage.{TxTables, stride, record_bytes}
use zeropool_relayer_rs.TxStorage.Write.{IsWrite}
use zeropool_relayer_rs.JobQueue.{Codec}
use zeropool_relayer_rs.JobQueue.Queue.{Queue, Shows, enqueue}
use zeropool_relayer_rs.JobQueue.Steps.{push-Shows}
use zeropool_relayer_rs.Tx.{TxValidationError, ParsedTxData}
use zeropool_relayer_rs.Config.{Config}
use zeropool_relayer_rs.Backend.{BlockchainBackend}
use zeropool_relayer_rs.Worker.{Payload}
use zeropool_relayer_rs.Worker.Prepare.{InStep, prepare_job-Prepared}
use zeropool_relayer_rs.Worker.Process.{Relayer}
use zeropool_relayer_rs.Worker.Await.{relayer}
use zeropool_relayer_rs.Api.{Validation, TxDataRequest, validate_tx}
use zeropool_relayer_rs.Api.Validate.{IsValid, validate_tx_lem}
use zeropool_relayer_rs.Api.Handlers.{
  refused, answered, tx_validation_errors, parse_request, enqueue_tx, create_transaction,
}

module _ (c : Crates) (r : Redis) {P : Type 0} (b : Codec (Payload c P))
    (bk : BlockchainBackend c P) (tree : MerkleTree c) (v : Validation c.Hash P)
    (config : Config) where
  open r use {Server}

  some_errors :
      (errors : List TxValidationError) (tx : ParsedTxData c P) (tx_data : TxDataRequest c.Hash P)
      (s : Relayer c r b bk) (more : List TxValidationError) (w' : bk.World)
      → validate_tx v config.fee s.pool_index tx_data ≡ ok errors
      → parse_request tx_data ≡ ok tx
      → bk.validate_tx tx s.chain ≡ (ok more, w')
      → errors ≢ []
      → create_transaction c r b bk tree v config tx_data s
        ≡ (ok (refused (tx_validation_errors (errors ++ more))), record s { chain = w' })
  unfolding create_transaction
  some_errors [] tx tx_data s more w' e1 e2 e3 ne = absurd (ne refl)
  some_errors (error ∷ errors) tx tx_data s more w' e1 e2 e3 ne = rw (e1, e2, e3) refl

  -- A request has a memo of at least eight bytes and the four inputs, and it is not valid for the
  -- pool index and the fee. Then `create_transaction` answers with a list of errors that begins
  -- with those of its own validation, which are not none, and it changes nothing but what the
  -- validation of the backend does to the pool.
  pub create_transaction_refuses :
      (s : Relayer c r b bk) (tx_data : TxDataRequest c.Hash P) (tx : ParsedTxData c P)
      (delta : c.Hash) (more : List TxValidationError) (w' : bk.World)
      → 8 ≤ length tx_data.memo
      → get_elem? tx_data.proof.inputs 3 ≡ some delta
      → parse_request tx_data ≡ ok tx
      → ((fee : ℕ)
          → v.read_u64 tx_data.memo ≡ some fee
          → ¬ IsValid v config.fee s.pool_index tx_data fee delta)
      → bk.validate_tx tx s.chain ≡ (ok more, w')
      → (errors : List TxValidationError) × (create_transaction c r b bk tree v config tx_data s
          ≡ (ok (refused (tx_validation_errors (errors ++ more))), record s { chain = w' }))
        × (validate_tx v config.fee s.pool_index tx_data ≡ ok errors)
        × (errors ≢ [])
  create_transaction_refuses s tx_data tx delta more w' long input parsed invalid asked =
      let (fee, errors, read, run, iff) =
        (validate_tx_lem v config.fee s.pool_index tx_data).2 delta long input in
      let ne : errors ≢ [] = λ e. invalid fee read (iff.0 e) in
      (errors, some_errors errors tx tx_data s more w' run parsed asked ne, run, ne)

  -- The tree and the transaction storage of the relayer are in step, the server stores a queue,
  -- neither validation finds an error, the memo has a ciphertext, the tree is not full and of a
  -- height of at most 62, the positions fit in 64 bits, and no call fails. Then
  -- `create_transaction` answers with the next job id; the tree and the storage are in step again
  -- with the commitment as a further leaf, the transaction is written at its position with 32 zero
  -- bytes for the hash, and the queue has a pending job at its end, whose payload has the
  -- transaction, the index of the new leaf and the root of the leaves.
  pub create_transaction_accepts :
      (defaults : HasDefaults c tree) (t : Tables c) (x : TxTables c) (sv : Server)
      (w w' : bk.World) (i rt : ℕ) (leaves : List c.Hash) (q : Queue (Payload c P))
      (tx_data : TxDataRequest c.Hash P) (tx : ParsedTxData c P) (text : List ℕ)
      → InStep c r b t x leaves
      → Shows r b sv q
      → validate_tx v config.fee i tx_data ≡ ok []
      → parse_request tx_data ≡ ok tx
      → bk.validate_tx tx w ≡ (ok [], w')
      → bk.extract_ciphertext tx.memo tx.tx_type ≡ ok text
      → length leaves < 2 ^ tree_height c
      → tree_height c ≤ 62
      → length leaves * stride c + stride c < 2 ^ 64
      → (t' : Tables c) × (x' : TxTables c) × (sv' : Server) × (payload : Payload c P)
        × (create_transaction c r b bk tree v config tx_data (relayer c r b bk t x sv w i rt) ≡ (
          ok (answered (record { job_id = q.counter + 1 })),
          relayer c r b bk t' x' sv' w' i rt,
        ))
        × InStep c r b t' x' (leaves ++ tx.out_commit ∷ [])
        × IsWrite c x
            (length leaves * stride c)
            (record_bytes c tx.out_commit (replicate 32 0) text)
            x'
        × Shows r b sv' (enqueue payload q)
        × (payload.next_commit_index ≡ length leaves)
        × (payload.tx ≡ tx)
        × (payload.tree_pub.root_after ≡ root_of c (leaves ++ tx.out_commit ∷ []))
  unfolding create_transaction enqueue_tx
  create_transaction_accepts defaults t x sv w w' i rt leaves q tx_data tx text step shows valid
        parsed asked extracted room small bound =
      let p =
        prepare_job-Prepared c r b tree defaults t x sv leaves step bk.extract_ciphertext tx text
          extracted room small bound in
      let (sv', pushed, shown) = push-Shows r b sv q shows p.payload in
      (
        p.tree_after,
        p.transactions_after,
        sv',
        p.payload,
        rw (valid, parsed, asked, p.run, pushed) refl,
        p.in_step,
        p.written,
        shown,
        p.next_index,
        p.same_tx,
        p.root_after,
      )
