-- ===== src/Worker/Failure.antt =====
-- `process_failure` of src/tx_worker.rs where no call fails.
use zeropool_relayer_rs.Prelude.{
  ℕ, ◌-◌, ◌*◌, ◌^◌, ◌≤◌, ◌<◌, ◌≡◌, refl, ap, ◌∙◌, List, [], length, take, arith,
}
use zeropool_relayer_rs.Exec.{Exec, ok, bind_ok}
use zeropool_relayer_rs.Exec.Disk.{Disk, sound}
use zeropool_relayer_rs.Crates.{Crates}
use zeropool_relayer_rs.Redis.{Redis}
use zeropool_relayer_rs.Merkle.Storage.{Tables}
use zeropool_relayer_rs.Merkle.Tree.{MerkleTree, tree_height}
use zeropool_relayer_rs.Merkle.Keys.{pow_le}
use zeropool_relayer_rs.Merkle.View.{HasDefaults}
use zeropool_relayer_rs.Merkle.Spec.{Represents, Remembers}
use zeropool_relayer_rs.Merkle.History.{rollback-history, rollback_to_zero}
use zeropool_relayer_rs.TxStorage.{TxTables, stride}
use zeropool_relayer_rs.TxStorage.Entries.{IsSound}
use zeropool_relayer_rs.TxStorage.Remove.{IsRollback, rollback-IsRollback}
use zeropool_relayer_rs.JobQueue.{Codec, Job, cancel_jobs_after}
use zeropool_relayer_rs.JobQueue.Queue.{Queue, Shows, cancel_later}
use zeropool_relayer_rs.JobQueue.Cancel.{cancel_jobs_after-Shows}
use zeropool_relayer_rs.Worker.{
  Payload, AppState, on_tree, on_transactions, on_job_queue, tx_position, rollback_target,
  process_failure,
}
use zeropool_relayer_rs.TxStorage
use native.Mathlib.Nat.{mul-mod_left, zero-mul}
use zeropool_relayer_rs.Merkle.Tree

module _ (c : Crates) (r : Redis) {P : Type 0} (b : Codec (Payload c P)) where
  open r use {Server}

  -- A state without faults.
  abbrev pub all_sound : Tables c → TxTables c → Server → AppState c r b
  all_sound t x s = record { tree = sound t; transactions = sound x; job_queue = sound s }

  module _ (t : Tables c) (x : TxTables c) (s : Server) where
    pub on_tree_ok :
        {A : Type 0} (m : Exec (Disk (Tables c)) A) {a : A} {t' : Tables c}
        → m (sound t) ≡ (ok a, sound t')
        → on_tree c r b m (all_sound t x s) ≡ (ok a, all_sound t' x s)
    on_tree_ok m run = rw run refl

    pub on_transactions_ok :
        {A : Type 0} (m : Exec (Disk (TxTables c)) A) {a : A} {x' : TxTables c}
        → m (sound x) ≡ (ok a, sound x')
        → on_transactions c r b m (all_sound t x s) ≡ (ok a, all_sound t x' s)
    on_transactions_ok m run = rw run refl

    pub on_job_queue_ok :
        {A : Type 0} (m : Exec (Disk Server) A) {a : A} {s' : Server}
        → m (sound s) ≡ (ok a, sound s')
        → on_job_queue c r b m (all_sound t x s) ≡ (ok a, all_sound t x s')
    on_job_queue_ok m run = rw run refl

  -- The three rollbacks one after the other.
  failure_steps :
      (tree : MerkleTree c) (t t' : Tables c) (x x' : TxTables c) (s s' : Server)
      (job : Job (Payload c P)) (target : ℕ)
      → rollback_target c job.payload.prev_commit_index ≡ target
      → TxStorage.rollback c (tx_position c target) (sound x) ≡ (ok tt, sound x')
      → Tree.rollback c tree target (sound t) ≡ (ok tt, sound t')
      → cancel_jobs_after r b job.id (sound s) ≡ (ok tt, sound s')
      → process_failure c r b tree job (all_sound t x s) ≡ (ok tt, all_sound t' x' s')
  unfolding process_failure
  failure_steps tree t t' x x' s s' job target e run1 run2 run3 = rw e (
      bind_ok (on_transactions c r b (TxStorage.rollback c (tx_position c target))) _
        (all_sound t x s)
        (on_transactions_ok t x s (TxStorage.rollback c (tx_position c target)) run1)
      ∙ bind_ok (on_tree c r b (Tree.rollback c tree target)) _ (all_sound t x' s)
          (on_tree_ok t x' s (Tree.rollback c tree target) run2)
      ∙ on_job_queue_ok t' x' s (cancel_jobs_after r b job.id) run3)

  target_above : (n : ℕ) → 1 < n → n < 2 ^ 64 → rollback_target c (n - 1) ≡ n
  target_above n above small = ground arith

  pub position_lem : (n : ℕ) → n * stride c < 2 ^ 64 → tx_position c n ≡ n * stride c
  position_lem n small = omega (arith, small)

  module _ (tree : MerkleTree c) (defaults : HasDefaults c tree) (t : Tables c)
      (leaves : List c.Hash) (x : TxTables c) (s : Server) (q : Queue (Payload c P))
      (job : Job (Payload c P)) (tx_sound : IsSound c x) (shows : Shows r b s q) where
    -- What a handled failure leaves behind.
    pub record RolledBack (n : ℕ) (kept : List c.Hash) : Type 0 where
      pub tree_after : Tables c
      pub transactions_after : TxTables c
      pub server_after : Server
      pub run :
          process_failure c r b tree job (all_sound t x s)
          ≡ (ok tt, all_sound tree_after transactions_after server_after)
      pub leaves_after : Represents c tree_after kept
      pub transactions : IsRollback c x (n * stride c) transactions_after
      pub queue_after : Shows r b server_after (cancel_later job.id q)

    -- The tree holds a list of leaves and its historic roots and is not full, the transaction
    -- storage is sound, the server stores a queue, the height is at most 62, and no call fails.
    -- The failure of the job at index n, where n is above one and below the number of leaves, and
    -- its position fits in 64 bits, leaves the tree with the first n leaves and the transactions
    -- below its position, and marks the later waiting jobs as failed.
    pub process_failure-RolledBack :
        (n : ℕ)
        → job.payload.prev_commit_index ≡ n - 1
        → 1 < n
        → n < length leaves
        → length leaves < 2 ^ tree_height c
        → tree_height c ≤ 62
        → n * stride c < 2 ^ 64
        → Represents c t leaves
        → Remembers c t leaves
        → RolledBack n (take n leaves)
    process_failure-RolledBack n prev above lower room small bound rep rem =
        let (t', run_tree, rep', older, left, stale) =
          rollback-history c tree defaults t leaves small n rep rem (omega arith) lower room in
        let (x', run_tx, dropped) =
          (rollback-IsRollback c x tx_sound (n * stride c)).0 (mul-mod_left n (stride c)) in
        let (s', run_queue, shown) = cancel_jobs_after-Shows r b s q job.id shows in
        record {
          tree_after = t';
          transactions_after = x';
          server_after = s';
          run =
              failure_steps tree t t' x x' s s' job n
                (ap (λ k. rollback_target c k) prev
                  ∙ target_above n above (omega (arith, pow_le (tree_height c) 62 small)))
                (ap (λ k. TxStorage.rollback c k (sound x)) (position_lem n bound) ∙ run_tx)
                run_tree run_queue;
          leaves_after = rep';
          transactions = dropped;
          queue_after = shown;
        }

    -- Where the transaction storage is sound, the server stores a queue and no call fails, the
    -- failure of a job whose index before is 0, which holds for the job at index 0 and for the one
    -- at index 1, empties the tree and the transaction storage, and marks the later waiting jobs
    -- as failed.
    pub process_failure_first : job.payload.prev_commit_index ≡ 0 → RolledBack 0 []
    process_failure_first prev =
        let (t', run_tree, rep', rest) = rollback_to_zero c tree t in
        let (x', run_tx, dropped) =
          (rollback-IsRollback c x tx_sound (0 * stride c)).0 (mul-mod_left 0 (stride c)) in
        let (s', run_queue, shown) = cancel_jobs_after-Shows r b s q job.id shows in
        record {
          tree_after = t';
          transactions_after = x';
          server_after = s';
          run =
              failure_steps tree t t' x x' s s' job 0 (ap (λ k. rollback_target c k) prev)
                (ap (λ k. TxStorage.rollback c k (sound x))
                    (position_lem 0 (omega (arith, zero-mul (stride c))))
                  ∙ run_tx)
                run_tree run_queue;
          leaves_after = rep';
          transactions = dropped;
          queue_after = shown;
        }
