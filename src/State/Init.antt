-- ===== src/State/Init.antt =====
-- `AppState::init` of src/state.rs after the backend is made: opening the files, comparing the
-- relayer's index with the pool's, and the three ways on. Reading the proving keys, and the roots that are
-- only logged, are left out.
use zeropool_relayer_rs.Prelude.{ℕ, ◌*◌, ◌%◌, ◌^◌, Option, none, some, ltb, if◌then◌else◌}
use zeropool_relayer_rs.Exec.{Exec, Outcome, ok, err, root_not_available, pure, lift, ◌>>=◌, ◌>>◌}
use zeropool_relayer_rs.Exec.Disk.{Disk}
use zeropool_relayer_rs.Crates.{Crates}
use zeropool_relayer_rs.Redis.{Redis}
use zeropool_relayer_rs.Merkle.Storage.{Tables}
use zeropool_relayer_rs.Merkle.Tree
use zeropool_relayer_rs.Merkle.Tree.{MerkleTree, open_or_create, open_tree}
use zeropool_relayer_rs.TxStorage.{TxTables, fresh, stride, open_storage}
use zeropool_relayer_rs.JobQueue.{Codec}
use zeropool_relayer_rs.Backend.{BlockchainBackend}
use zeropool_relayer_rs.Worker.{Payload, AppState, on_tree}
use zeropool_relayer_rs.State.{sync_loop}

-- The file of a database; `none` where there is none yet.
abbrev pub opened_file : {T : Type 0} → (Option T → T) → Disk (Option T) → Disk T
opened_file open_with d = record { tables = open_with d.tables; faults = d.faults }

-- `ok_or_else`.
abbrev pub available : Option ℕ → Outcome ℕ
available none = err root_not_available
available (some root) = ok root

module _ (c : Crates) (r : Redis) {P : Type 0} (b : Codec (Payload c P))
    (bk : BlockchainBackend c P) where
  open r use {Server}
  open bk use {World}

  -- The files and the pool as `init` meets them.
  pub record Files : Type 0 where
    pub transactions : Disk (Option (TxTables c))
    pub tree : Disk (Option (Tables c))
    pub job_queue : Disk Server
    pub chain : World

  -- The opened stores and the pool.
  pub record Boot : Type 0 where
    pub app : AppState c r b
    pub chain : World

  -- What `init` puts into the new `AppState`, besides the stores.
  pub record Started : Type 0 where
    pub tree : MerkleTree c
    pub pool_index : ℕ
    pub pool_root : ℕ

  abbrev pub boot : Files → Boot
  boot files = record {
    app = record {
      tree = opened_file (open_or_create c) files.tree;
      transactions = opened_file (open_storage c) files.transactions;
      job_queue = files.job_queue;
    };
    chain = files.chain;
  }

  abbrev pub in_app : {A : Type 0} → Exec (AppState c r b) A → Exec Boot A
  in_app m s = let (o, a) = m s.app in (o, record s { app = a })

  abbrev pub in_chain : {A : Type 0} → Exec World A → Exec Boot A
  in_chain m s = let (o, w) = m s.chain in (o, record s { chain = w })

  -- `clear_and_open` of both files: each is removed and opened again.
  abbrev pub cleared : AppState c r b → AppState c r b
  cleared a = record a {
    transactions = record (a.transactions) { tables = fresh c };
    tree = record (a.tree) { tables = open_or_create c none };
  }

  -- The relayer is ahead of the pool.
  unfoldable pub reinitialize : Exec Boot (MerkleTree c)
  reinitialize = do
    (λ s. (ok tt, record s { app = cleared s.app }))
    in_app (on_tree c r b (open_tree c))

  -- The relayer is behind the pool.
  unfoldable pub catch_up : MerkleTree c → ℕ → Exec Boot (MerkleTree c)
  catch_up tree relayer_index = do
    all_txs ← in_chain bk.fetch_latest_transactions
    in_app (sync_loop c r b tree bk.parse_calldata bk.extract_ciphertext relayer_index 0 all_txs)
    pure tree

  unfoldable pub bring_up : MerkleTree c → ℕ → ℕ → Exec Boot (MerkleTree c)
  bring_up tree relayer_index pool_index =
      if ltb pool_index relayer_index
      then reinitialize
      else if ltb relayer_index pool_index
      then catch_up tree relayer_index
      else pure tree

  unfoldable pub start : Exec Boot Started
  start = do
    tree ← in_app (on_tree c r b (open_tree c))
    pool_index ← in_chain bk.get_pool_index
    found ← in_chain (bk.get_merkle_root pool_index)
    pool_root ← lift (available found)
    num_leaves ← in_app (on_tree c r b (Tree.num_leaves c tree))
    tree' ← bring_up tree ((num_leaves * stride c) % 2 ^ 64) pool_index
    pure (record { tree = tree'; pool_index = pool_index; pool_root = pool_root })

  unfoldable pub init : Files → Outcome Started × Boot
  unfolding start
  init files = start (boot files)
