-- ===== src/Api/Backlog.antt =====
-- Several requests one after another (src/json_api.rs), then as many rounds of the worker
-- (src/job_queue.rs, src/tx_worker.rs): the programs, and the jobs that wait in between.
pub mod Submit
pub mod Drain
pub mod Pipeline
pub mod Behind
pub mod Late
mod Tests
use zeropool_relayer_rs.Prelude.{
  ℕ, zero, suc, ◌+◌, ◌≡◌, refl, sym, ap, ◌∙◌, List, [], ◌∷◌, ◌++◌, length, arith,
}
use mathlib.Core.List.{append-nil, append_assoc}
use zeropool_relayer_rs.Exec.{Exec, Outcome, ok, pure, ◌>>◌}
use zeropool_relayer_rs.Crates.{Crates}
use zeropool_relayer_rs.Redis.{Redis}
use zeropool_relayer_rs.Merkle.Tree.{MerkleTree}
use zeropool_relayer_rs.Merkle.Spec.{root_of}
use zeropool_relayer_rs.JobQueue.{Codec, Job}
use zeropool_relayer_rs.Tx.{ParsedTxData, TxData}
use zeropool_relayer_rs.Config.{Config}
use zeropool_relayer_rs.Backend.{BlockchainBackend}
use zeropool_relayer_rs.Worker.{Payload}
use zeropool_relayer_rs.Worker.Process.{Tools, Relayer, tree_proof_of}
use zeropool_relayer_rs.Worker.Run.{worker_round}
use zeropool_relayer_rs.Api.{Validation, TxDataRequest, validate_tx}
use zeropool_relayer_rs.Api.Handlers.{parse_request, create_transaction}

module _ (c : Crates) (r : Redis) {P : Type 0} (b : Codec (Payload c P))
    (bk : BlockchainBackend c P) (tools : Tools c P) (config : Config) (tree : MerkleTree c)
    (v : Validation c.Hash P) where
  -- One request after another.
  unfoldable pub submit_all : List (TxDataRequest c.Hash P) → Exec (Relayer c r b bk) (Unit {0})
  submit_all [] = pure tt
  submit_all (tx_data ∷ later) =
      create_transaction c r b bk tree v config tx_data >> submit_all later

  -- As many rounds of the worker, in which nothing else runs.
  unfoldable pub run_rounds : ℕ → Exec (Relayer c r b bk) (Unit {0})
  run_rounds zero = pure tt
  run_rounds (suc rounds) = worker_round c r b bk tools config tree [] (λ s. s) >> run_rounds rounds

  -- A pool that accepts what it is sent, with a prover that does not fail.
  pub record IsWilling : Type 0 where
    pub validates : (tx : ParsedTxData c P) (w : bk.World) → bk.validate_tx tx w ≡ (ok [], w)
    pub proves :
        (payload : Payload c P)
        → (tree_proof : P) × (tree_proof_of c r b bk tools config payload ≡ ok tree_proof)
    pub sends :
        (full : TxData c P) (w : bk.World)
        → (tx_hash : List ℕ) × (w' : bk.World) × (bk.send_tx full w ≡ (ok tx_hash, w'))

  -- A request without errors at this index of the pool, with its transaction.
  pub record IsAccepted (pool_index : ℕ) (tx_data : TxDataRequest c.Hash P) (tx : ParsedTxData c P)
      : Type 0 where
    pub valid : validate_tx v config.fee pool_index tx_data ≡ ok []
    pub parsed : parse_request tx_data ≡ ok tx
    pub text : List ℕ
    pub extracted : bk.extract_ciphertext tx.memo tx.tx_type ≡ ok text

  -- Requests without errors, with the commitments of their transactions.
  pub data Accepted (pool_index : ℕ) : List (TxDataRequest c.Hash P) → List c.Hash → Type 0 where
    no_request : Accepted pool_index [] []
    request :
        (tx_data : TxDataRequest c.Hash P) (later : List (TxDataRequest c.Hash P))
        (tx : ParsedTxData c P) (commits : List c.Hash)
        → IsAccepted pool_index tx_data tx
        → Accepted pool_index later commits
        → Accepted pool_index (tx_data ∷ later) (tx.out_commit ∷ commits)

  -- The job of the leaf that comes after these leaves.
  pub record IsNextJob (before : List c.Hash) (id : ℕ) (j : Job (Payload c P)) (h : c.Hash)
      : Type 0 where
    pub same_id : j.id ≡ id
    pub index : j.payload.next_commit_index ≡ length before
    pub root_after : j.payload.tree_pub.root_after ≡ root_of c (before ++ h ∷ [])
    pub text : List ℕ
    pub extracted : bk.extract_ciphertext j.payload.tx.memo j.payload.tx.tx_type ≡ ok text

  -- Jobs in order, from an id on, for the leaves that come after these.
  pub data Lined : List c.Hash → ℕ → List (Job (Payload c P)) → List c.Hash → Type 0 where
    none_left : {before : List c.Hash} {id : ℕ} → Lined before id [] []
    in_line :
        {before : List c.Hash} {id : ℕ} (j : Job (Payload c P)) (jobs : List (Job (Payload c P)))
        (h : c.Hash) (hs : List c.Hash)
        → IsNextJob before id j h
        → Lined (before ++ h ∷ []) (id + 1) jobs hs
        → Lined before id (j ∷ jobs) (h ∷ hs)

  pub Lined-append :
      {before hs : List c.Hash} {id : ℕ} {jobs : List (Job (Payload c P))} (j : Job (Payload c P))
      (h : c.Hash)
      → Lined before id jobs hs
      → IsNextJob (before ++ hs) (id + length jobs) j h
      → Lined before id (jobs ++ j ∷ []) (hs ++ h ∷ [])
  Lined-append {before} {id = id} j h none_left last =
      let here : IsNextJob before id j h =
        rw (← append-nil before, ← (let e : id + 0 ≡ id = omega arith in e)) last in
      in_line j [] h [] here none_left
  Lined-append {before} {id = id} j h (in_line j' jobs h' hs first rest) last =
      let e : id + 1 + length jobs ≡ id + suc (length jobs) = omega arith in
      in_line j' (jobs ++ j ∷ []) h' (hs ++ h ∷ []) first
        (Lined-append j h rest (rw (append_assoc before (h' ∷ []) hs, e) last))

  pub Lined-length :
      {before hs : List c.Hash} {id : ℕ} {jobs : List (Job (Payload c P))}
      → Lined before id jobs hs
      → length jobs ≡ length hs
  Lined-length none_left = refl
  Lined-length (in_line j jobs h hs first rest) = ap suc (Lined-length rest)

  pub Accepted-length :
      {i : ℕ} {all : List (TxDataRequest c.Hash P)} {commits : List c.Hash}
      → Accepted i all commits
      → length all ≡ length commits
  Accepted-length no_request = refl
  Accepted-length (request tx_data later tx commits first rest) = ap suc (Accepted-length rest)
