-- ===== src/State/Boot.antt =====
-- `AppState::init` of src/state.rs from the opened files on, where the relayer is at the index of the pool
-- or behind it.
use zeropool_relayer_rs.Prelude.{
  ℕ, ◌+◌, ◌*◌, ◌%◌, ◌^◌, ◌≤◌, ◌<◌, ◌≡◌, refl, ap, ◌∙◌, true, false, ltb, some, List, [], ◌∷◌, ◌++◌,
  length, arith,
}
use native.Mathlib.Nat.{mul-le-mul_right}
use zeropool_relayer_rs.Exec.{ok}
use zeropool_relayer_rs.Exec.Disk.{sound}
use zeropool_relayer_rs.Crates.{Crates}
use zeropool_relayer_rs.Redis.{Redis}
use zeropool_relayer_rs.Merkle.Storage.{Tables}
use zeropool_relayer_rs.Merkle.Tree.{MerkleTree, tree_height, open_tree}
use zeropool_relayer_rs.Merkle.Spec.{Remembers}
use zeropool_relayer_rs.Merkle.Open.{opened, opened-HasDefaults}
use zeropool_relayer_rs.Merkle.History.{queries_answer, get_root-found}
use zeropool_relayer_rs.TxStorage.{TxTables, stride}
use zeropool_relayer_rs.JobQueue.{Codec}
use zeropool_relayer_rs.Tx.{TxCalldata}
use zeropool_relayer_rs.Backend.{BlockchainBackend}
use zeropool_relayer_rs.Worker.{Payload}
use zeropool_relayer_rs.Worker.Failure.{all_sound}
use zeropool_relayer_rs.Worker.Prepare.{InStep, next_product}
use zeropool_relayer_rs.State.{tx_index, sync_loop}
use zeropool_relayer_rs.State.Sync.{Parses, sync_loop-InStep}
use zeropool_relayer_rs.State.Init.{Files, Boot, Started, bring_up, catch_up, start}

module _ (c : Crates) where
  -- Opening a file that remembers its root 0 changes nothing.
  pub reopen :
      (t : Tables c) (leaves : List c.Hash)
      → Remembers c t leaves
      → open_tree c (sound t) ≡ (ok (opened c), sound t)
  unfolding open_tree
  reopen t leaves m =
      rw
        (
          (opened-HasDefaults c).at 0 (omega arith),
          get_root-found c t 0 _ (m.roots_at 0 (omega arith)),
        )
        refl

  pub position_bound : (n : ℕ) → n * stride c < 2 ^ 64 → (n * stride c) % 2 ^ 64 ≡ n * stride c
  position_bound n bound = omega (arith, bound)

module _ (c : Crates) (r : Redis) {P : Type 0} (b : Codec (Payload c P))
    (bk : BlockchainBackend c P) where
  open r use {Server}

  -- Existing files on disks without faults.
  abbrev pub files_of : Tables c → TxTables c → Server → bk.World → Files c r b bk
  files_of t x sv w = record {
    transactions = record { tables = some x; faults = [] };
    tree = record { tables = some t; faults = [] };
    job_queue = sound sv;
    chain = w;
  }

  abbrev pub booted : Tables c → TxTables c → Server → bk.World → Boot c r b bk
  booted t x sv w = record { app = all_sound c r b t x sv; chain = w }

  abbrev pub started : ℕ → ℕ → Started c r b bk
  started pool_index pool_root = record {
    tree = opened c;
    pool_index = pool_index;
    pool_root = pool_root;
  }

  -- The transactions below the relayer's index are skipped.
  pub sync_loop-skip :
      (n : ℕ) (old all_txs : List TxCalldata) (tree : MerkleTree c) (i : ℕ) (t : Tables c)
      (x : TxTables c) (sv : Server)
      → i + length old ≡ n
      → 0 < stride c
      → n * stride c < 2 ^ 64
      → sync_loop c r b tree bk.parse_calldata bk.extract_ciphertext
          (n * stride c)
          i
          (old ++ all_txs)
          (all_sound c r b t x sv)
        ≡ sync_loop c r b tree bk.parse_calldata bk.extract_ciphertext
            (n * stride c)
            n
            all_txs
            (all_sound c r b t x sv)
  unfolding sync_loop
  sync_loop-skip n [] all_txs tree i t x sv e positive bound =
      let same : i ≡ n = omega (arith, e) in
      ap
        (λ k.
          sync_loop c r b tree bk.parse_calldata bk.extract_ciphertext (n * stride c) k all_txs
            (all_sound c r b t x sv))
        same
  sync_loop-skip n (tx ∷ old) all_txs tree i t x sv e positive bound =
      let below : (i + 1) * stride c ≤ n * stride c =
        mul-le-mul_right {m = i + 1} {n = n} (stride c) (omega (arith, e)) in
      let skipped : ltb (tx_index c i) (n * stride c) ≡ true =
        ground (arith, below, next_product i (stride c), positive, bound) in
      rw skipped
        (sync_loop-skip n old all_txs tree (i + 1) t x sv (omega (arith, e)) positive bound)

  module _ (t0 t : Tables c) (x : TxTables c) (sv : Server) (w w1 w2 w3 : bk.World)
      (leaves : List c.Hash) (p rt : ℕ) (opens : open_tree c (sound t0) ≡ (ok (opened c), sound t))
      (step : InStep c r b t x leaves) where
    -- The relayer is at the pool's index.
    pub start_stays :
        bk.get_pool_index w ≡ (ok p, w1)
        → bk.get_merkle_root p w1 ≡ (ok (some rt), w2)
        → p ≡ length leaves * stride c
        → p < 2 ^ 64
        → start c r b bk (booted t0 x sv w) ≡ (ok (started p rt), booted t x sv w2)
    unfolding start bring_up
    start_stays pool root level p_bound =
        let n : ℕ = length leaves in
        let answers = queries_answer c (opened c) (opened-HasDefaults c) t leaves step.represents in
        let here : n * stride c < 2 ^ 64 = omega (arith, level, p_bound) in
        let not_ahead : ltb p (n * stride c) ≡ false = ground (arith, level) in
        let not_behind : ltb (n * stride c) p ≡ false = ground (arith, level) in
        rw (opens, pool, root, answers.1, position_bound c n here, not_ahead, not_behind) refl

    -- The relayer is behind the pool.
    pub start_catches_up :
        (old all_txs : List TxCalldata) (commits : List c.Hash) (small : tree_height c ≤ 62)
        → bk.get_pool_index w ≡ (ok p, w1)
        → bk.get_merkle_root p w1 ≡ (ok (some rt), w2)
        → length leaves * stride c < p
        → p < 2 ^ 64
        → bk.fetch_latest_transactions w2 ≡ (ok (old ++ all_txs), w3)
        → length old ≡ length leaves
        → Parses c r b
            (opened c)
            (opened-HasDefaults c)
            small
            bk.parse_calldata
            bk.extract_ciphertext
            sv
            all_txs
            commits
        → 0 < stride c
        → length leaves + length commits ≤ 2 ^ tree_height c
        → 2 ^ tree_height c * stride c + stride c < 2 ^ 64
        → (t' : Tables c) × (x' : TxTables c) × (start c r b bk (booted t0 x sv w)
            ≡ (ok (started p rt), booted t' x' sv w3))
          × InStep c r b t' x' (leaves ++ commits)
    unfolding start bring_up catch_up
    start_catches_up old all_txs commits small pool root behind p_bound fetched same parses positive
          room bound =
        let n : ℕ = length leaves in
        let answers = queries_answer c (opened c) (opened-HasDefaults c) t leaves step.represents in
        let here : n * stride c < 2 ^ 64 = omega (arith, behind, p_bound) in
        let not_ahead : ltb p (n * stride c) ≡ false = ground (arith, behind) in
        let is_behind : ltb (n * stride c) p ≡ true = ground (arith, behind) in
        let (t', x', run, step') =
          sync_loop-InStep c r b (opened c) (opened-HasDefaults c) small bk.parse_calldata
            bk.extract_ciphertext sv all_txs commits leaves (n * stride c) t x step parses
            (omega arith) room bound in
        let whole =
          sync_loop-skip n old all_txs (opened c) 0 t x sv (omega (arith, same)) positive here
          ∙ run in
        (
          t',
          x',
          rw
              (
                opens,
                pool,
                root,
                answers.1,
                position_bound c n here,
                not_ahead,
                is_behind,
                fetched,
                whole,
              )
              refl,
          step',
        )
