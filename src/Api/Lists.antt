-- ===== src/Api/Lists.antt =====
-- The queries of src/json_api.rs: the lists of transactions, the status of a job, and the state.
use zeropool_relayer_rs.Prelude.{
  ℕ, ◌+◌, ◌*◌, ◌%◌, ◌^◌, ◌<◌, ◌≤◌, ◌≡◌, refl, ap, inl, inr, Bool, true, false, Bool-cases, ltb,
  Option, none, some, unwrap_or, List, [], ◌∷◌, map, String, length, arith,
}
use zeropool_relayer_rs.Exec.{ok}
use zeropool_relayer_rs.Crates.{Crates}
use zeropool_relayer_rs.Redis.{Redis}
use zeropool_relayer_rs.Merkle.Storage.{Tables}
use zeropool_relayer_rs.Merkle.Tree.{MerkleTree}
use zeropool_relayer_rs.Merkle.View.{HasDefaults}
use zeropool_relayer_rs.Merkle.Spec.{Represents, root_of}
use zeropool_relayer_rs.Merkle.History.{queries_answer}
use zeropool_relayer_rs.JobQueue.Queue.{Queue, Shows}
use zeropool_relayer_rs.JobQueue.Steps.{job_status-Shows}
use zeropool_relayer_rs.TxStorage.{TxTables}
use zeropool_relayer_rs.TxStorage.Entries.{IsSound}
use zeropool_relayer_rs.TxStorage.Range.{IsListing, iter_range_lem}
use zeropool_relayer_rs.JobQueue.{Codec, JobStatus}
use zeropool_relayer_rs.Backend.{BlockchainBackend}
use zeropool_relayer_rs.Worker.{Payload}
use zeropool_relayer_rs.Worker.Await.{relayer}
use zeropool_relayer_rs.Api.Handlers.{
  AppResult, answered, refused, not_found, TxPaginationQuery, data_only, with_flag,
  get_transactions, get_transactions_legacy, found_status, job, info,
}

-- An optional number, with what it stands for where it is missing.
pub data Means (default : ℕ) : Option ℕ → ℕ → Type 0 where
  missing : Means default none default
  given : (n : ℕ) → Means default (some n) n

pub meaning : (default : ℕ) (o : Option ℕ) → (n : ℕ) × Means default o n
meaning default none = (default, missing)
meaning default (some n) = (n, given n)

-- Transactions with the flag of those below an index.
pub data Flagged (pool_index : ℕ) : List (ℕ × List ℕ) → List (Bool × List ℕ) → Type 0 where
  no_entry : Flagged pool_index [] []
  mined :
      (index : ℕ) (data_bytes : List ℕ) (txs : List (ℕ × List ℕ)) (shown : List (Bool × List ℕ))
      → index < pool_index
      → Flagged pool_index txs shown
      → Flagged pool_index ((index, data_bytes) ∷ txs) ((true, data_bytes) ∷ shown)
  not_mined :
      (index : ℕ) (data_bytes : List ℕ) (txs : List (ℕ × List ℕ)) (shown : List (Bool × List ℕ))
      → pool_index ≤ index
      → Flagged pool_index txs shown
      → Flagged pool_index ((index, data_bytes) ∷ txs) ((false, data_bytes) ∷ shown)

-- The answer to a question for a job with this status.
pub data StatusAnswer : Option JobStatus → AppResult JobStatus → Type 0 where
  unknown_job : StatusAnswer none (refused not_found)
  known_job : (status : JobStatus) → StatusAnswer (some status) (answered status)

found_status-StatusAnswer :
    (status : Option JobStatus) → StatusAnswer status (found_status (answered status))
found_status-StatusAnswer none = unknown_job
found_status-StatusAnswer (some status) = known_job status

with_flag-Flagged :
    (pool_index : ℕ) (txs : List (ℕ × List ℕ)) → Flagged pool_index txs (with_flag pool_index txs)
with_flag-Flagged pool_index [] = no_entry
with_flag-Flagged pool_index ((index, data_bytes) ∷ txs) =
    let rest = with_flag-Flagged pool_index txs in
    let shown : List (Bool × List ℕ) = with_flag pool_index txs in
    elim (Bool-cases (ltb index pool_index)) [
      | inl e ↦ rw e (mined index data_bytes txs shown (ground (arith, e)) rest)
      | inr e ↦ rw e (not_mined index data_bytes txs shown (ground (arith, e)) rest)
    ]

data_only-map : (txs : List (ℕ × List ℕ)) → data_only txs ≡ map (λ tx. tx.1) txs
data_only-map [] = refl
data_only-map ((index, data_bytes) ∷ txs) = ap (λ l. data_bytes ∷ l) (data_only-map txs)

meant : (default : ℕ) {o : Option ℕ} {n : ℕ} → Means default o n → unwrap_or o default ≡ n
meant default missing = refl
meant default (given n) = refl

module _ (c : Crates) (r : Redis) {P : Type 0} (b : Codec (Payload c P))
    (bk : BlockchainBackend c P) (tree : MerkleTree c) where
  -- Where the tree holds a list of leaves, the transaction storage is sound, the server stores a
  -- queue and no call fails, the queries change nothing. Both lists of transactions show, in
  -- ascending order, exactly the stored transactions with an index from the offset, or from 0
  -- where it is missing, up to the offset and 128 times the limit on 64 bits, where a missing
  -- limit is 100. The legacy list has each of them with a flag, which is set for the indexes below
  -- the pool's and for no other. A job with a status in the queue is answered with that status,
  -- and any other as not found. The state is answered with the roots of the pool and of the
  -- leaves, the index of the pool, and 128 times the number of leaves on 64 bits.
  pub queries_tell_state :
      (defaults : HasDefaults c tree) (t : Tables c) (x : TxTables c) (sv : r.Server) (w : bk.World)
      (i rt : ℕ) (leaves : List c.Hash) (q : Queue (Payload c P)) (pagination : TxPaginationQuery)
      (lo count id : ℕ) (to_string : ℕ → String) (show_root : c.Hash → String)
      → Represents c t leaves
      → IsSound c x
      → Shows r b sv q
      → Means 0 pagination.offset lo
      → Means 100 pagination.limit count
      → (txs : List (ℕ × List ℕ)) × (shown : List (Bool × List ℕ)) × (answer : AppResult JobStatus)
        × IsListing c x lo (some ((lo + count * 128) % 2 ^ 64)) txs
        × (get_transactions c r b bk pagination (relayer c r b bk t x sv w i rt)
            ≡ (ok (answered (map (λ tx. tx.1) txs)), relayer c r b bk t x sv w i rt))
        × Flagged i txs shown
        × (get_transactions_legacy c r b bk pagination (relayer c r b bk t x sv w i rt)
            ≡ (ok (answered shown), relayer c r b bk t x sv w i rt))
        × StatusAnswer (q.status id) answer
        × (job c r b bk id (relayer c r b bk t x sv w i rt)
            ≡ (ok answer, relayer c r b bk t x sv w i rt))
        × (info c r b bk tree to_string show_root (relayer c r b bk t x sv w i rt) ≡ (
          ok (
              answered (record {
                backend = bk.name;
                api_version = "3";
                root = to_string rt;
                optimistic_root = show_root (root_of c leaves);
                pool_index = to_string i;
                optimistic_index = to_string ((length leaves * 128) % 2 ^ 64);
              })),
          relayer c r b bk t x sv w i rt,
        ))
  unfolding get_transactions get_transactions_legacy job info
  queries_tell_state defaults t x sv w i rt leaves q pagination lo count id to_string show_root rep
        tx_sound shows from size =
      let start = meant 0 from in
      let many = meant 100 size in
      let (txs, run, listing) =
        iter_range_lem c x lo (some ((lo + count * 128) % 2 ^ 64)) tx_sound in
      let answers = queries_answer c tree defaults t leaves rep in
      (
        txs,
        with_flag i txs,
        found_status (answered (q.status id)),
        listing,
        rw (start, many, run, data_only-map txs) refl,
        with_flag-Flagged i txs,
        rw (start, many, run) refl,
        found_status-StatusAnswer (q.status id),
        rw ((job_status-Shows r b sv q shows id).0) refl,
        rw (answers.0, answers.1) refl,
      )
