-- ===== src/State/Start.antt =====
-- `AppState::init` of src/state.rs: how it ends where the relayer is behind the pool, and where it is
-- ahead.
use zeropool_relayer_rs.Prelude.{
  ℕ, suc, unwrap_or, ◌+◌, ◌*◌, ◌^◌, ◌≤◌, ◌<◌, ◌≡◌, refl, ap, true, ltb, none, some, List, [], ◌∷◌,
  ◌++◌, length, arith,
}
use native.Mathlib.Nat.{mul-le-mul_right}
use zeropool_relayer_rs.Exec.{ok}
use zeropool_relayer_rs.Exec.Disk.{sound}
use zeropool_relayer_rs.Crates.{Crates}
use zeropool_relayer_rs.Redis.{Redis}
use zeropool_relayer_rs.Merkle.Storage.{Tables}
use zeropool_relayer_rs.Merkle.Tree.{tree_height, open_or_create}
use zeropool_relayer_rs.Merkle.Open.{opened, initial, opened-HasDefaults, open_tree-Represents}
use zeropool_relayer_rs.Merkle.History.{queries_answer}
use zeropool_relayer_rs.TxStorage.Entries.{fresh-IsSound}
use zeropool_relayer_rs.TxStorage.Write.{next_of}
use zeropool_relayer_rs.TxStorage.{TxTables, fresh, stride, open_storage}
use zeropool_relayer_rs.JobQueue.{Codec}
use zeropool_relayer_rs.Tx.{TxCalldata}
use zeropool_relayer_rs.Backend.{BlockchainBackend}
use zeropool_relayer_rs.Worker.{Payload}
use zeropool_relayer_rs.Worker.Prepare.{InStep}
use zeropool_relayer_rs.State.Sync.{Parses, none_left, one_more}
use zeropool_relayer_rs.State.Boot.{
  reopen, position_bound, files_of, booted, started, start_stays, start_catches_up,
}
use zeropool_relayer_rs.State.Init.{Files, bring_up, reinitialize, start, init}

module _ (c : Crates) (r : Redis) {P : Type 0} (b : Codec (Payload c P))
    (bk : BlockchainBackend c P) where
  open r use {Server}

  module _ (t : Tables c) (x : TxTables c) (sv : Server) (w w1 w2 w3 : bk.World)
      (leaves : List c.Hash) (p rt : ℕ) (step : InStep c r b t x leaves) where
    -- The files hold a tree with its historic roots and a transaction storage in step with it, the
    -- relayer's index is below the pool's, the pool has a root, and it gives as many transactions
    -- as the tree has leaves and further ones, which parse and whose memos have a ciphertext;
    -- there is room for them, the height is at most 62, the stride is positive, the pool's index
    -- and the positions fit in 64 bits, and no call fails. Then `init` succeeds with the index and
    -- the root of the pool, and the tree and the storage are in step with the commitments of the
    -- further transactions as further leaves.
    pub init_catches_up :
        (old all_txs : List TxCalldata) (commits : List c.Hash) (small : tree_height c ≤ 62)
        → bk.get_pool_index w ≡ (ok p, w1)
        → bk.get_merkle_root p w1 ≡ (ok (some rt), w2)
        → length leaves * stride c < p
        → p < 2 ^ 64
        → bk.fetch_latest_transactions w2 ≡ (ok (old ++ all_txs), w3)
        → length old ≡ length leaves
        → Parses c r b
            (opened c)
            (opened-HasDefaults c)
            small
            bk.parse_calldata
            bk.extract_ciphertext
            sv
            all_txs
            commits
        → 0 < stride c
        → length leaves + length commits ≤ 2 ^ tree_height c
        → 2 ^ tree_height c * stride c + stride c < 2 ^ 64
        → (t' : Tables c) × (x' : TxTables c) × (init c r b bk (files_of c r b bk t x sv w)
            ≡ (ok (started c r b bk p rt), booted c r b bk t' x' sv w3))
          × InStep c r b t' x' (leaves ++ commits)
    unfolding init open_storage
    init_catches_up =
        start_catches_up c r b bk t t x sv w w1 w2 w3 leaves p rt (reopen c t leaves step.remembers)
          step

    -- The files hold a tree with its historic roots and a transaction storage in step with it, the
    -- relayer's index is above the pool's and fits in 64 bits, the pool has a root, and no call
    -- fails. Then `init` succeeds with the index and the root of the pool and with an empty tree
    -- and an empty storage, whatever the pool has: it fetches nothing.
    pub init_starts_over :
        bk.get_pool_index w ≡ (ok p, w1)
        → bk.get_merkle_root p w1 ≡ (ok (some rt), w2)
        → p < length leaves * stride c
        → length leaves * stride c < 2 ^ 64
        → init c r b bk (files_of c r b bk t x sv w)
          ≡ (ok (started c r b bk p rt), booted c r b bk (initial c) (fresh c) sv w2)
    unfolding init start bring_up reinitialize open_storage
    init_starts_over pool root ahead bound =
        let n : ℕ = length leaves in
        let answers = queries_answer c (opened c) (opened-HasDefaults c) t leaves step.represents in
        let is_ahead : ltb p (n * stride c) ≡ true = ground (arith, ahead) in
        rw
          (
            reopen c t leaves step.remembers,
            pool,
            root,
            answers.1,
            position_bound c n bound,
            is_ahead,
            (open_tree-Represents c).0,
          )
          refl

  -- No files yet.
  abbrev pub no_files : Server → bk.World → Files c r b bk
  no_files sv w = record {
    transactions = record { tables = none; faults = [] };
    tree = record { tables = none; faults = [] };
    job_queue = sound sv;
    chain = w;
  }

  -- What a relayer without transactions fetches: nothing where the pool has none.
  pub data Fetches (w2 : bk.World) : List TxCalldata → bk.World → Type 0 where
    nothing_sent : Fetches w2 [] w2
    fetched :
        (tx : TxCalldata) (all_txs : List TxCalldata) (w3 : bk.World)
        → bk.fetch_latest_transactions w2 ≡ (ok (tx ∷ all_txs), w3)
        → Fetches w2 (tx ∷ all_txs) w3

  initial-InStep : InStep c r b (initial c) (fresh c) []
  initial-InStep = record {
    represents = (open_tree-Represents c).2;
    remembers = (open_tree-Represents c).3;
    transactions = fresh-IsSound c;
    next =
        let empty : next_of c (fresh c) ≡ 0 =
          ap (λ found. unwrap_or found 0)
            (c.tx_meta.one-put "next_index" "next_index" 0 c.tx_meta.empty) in
        omega (arith, empty);
  }

  module _ (sv : Server) (w w1 w2 : bk.World) (p rt : ℕ) (small : tree_height c ≤ 62) where
    Parses-length :
        (all_txs : List TxCalldata) (commits : List c.Hash)
        → Parses c r b
            (opened c)
            (opened-HasDefaults c)
            small
            bk.parse_calldata
            bk.extract_ciphertext
            sv
            all_txs
            commits
        → length all_txs ≡ length commits
    Parses-length _ _ none_left = refl
    Parses-length _ _ (one_more tx all_txs d text commits parsed extracted rest) =
        ap suc (Parses-length all_txs commits rest)

    pub init_first :
        (all_txs : List TxCalldata) (commits : List c.Hash) (w3 : bk.World)
        → bk.get_pool_index w ≡ (ok p, w1)
        → bk.get_merkle_root p w1 ≡ (ok (some rt), w2)
        → p ≡ length commits * stride c
        → Fetches w2 all_txs w3
        → Parses c r b
            (opened c)
            (opened-HasDefaults c)
            small
            bk.parse_calldata
            bk.extract_ciphertext
            sv
            all_txs
            commits
        → 0 < stride c
        → length commits ≤ 2 ^ tree_height c
        → 2 ^ tree_height c * stride c + stride c < 2 ^ 64
        → (t' : Tables c) × (x' : TxTables c) × (init c r b bk (no_files sv w)
            ≡ (ok (started c r b bk p rt), booted c r b bk t' x' sv w3))
          × InStep c r b t' x' commits
    unfolding init open_storage
    init_first _ _ w3 pool root same nothing_sent none_left positive room bound = (
      initial c,
      fresh c,
      start_stays c r b bk (open_or_create c none) (initial c) (fresh c) sv w w1 w2 w2 [] p rt
          ((open_tree-Represents c).0) initial-InStep pool root same (omega (arith, same)),
      initial-InStep,
    )
    init_first _ commits w3 pool root same (fetched tx later _ answer) parses positive room bound =
        let some_commits : suc (length later) ≡ length commits = Parses-length _ commits parses in
        let above =
          mul-le-mul_right {m = 1} {n = length commits} (stride c) (omega (arith, some_commits)) in
        let below = mul-le-mul_right {m = length commits} {n = 2 ^ tree_height c} (stride c) room in
        start_catches_up c r b bk (open_or_create c none) (initial c) (fresh c) sv w w1 w2 w3 [] p
          rt ((open_tree-Represents c).0) initial-InStep [] (tx ∷ later) commits small pool root
          (omega (arith, same, above, positive)) (omega (arith, same, below, bound)) answer refl
          parses positive (omega (arith, room)) bound
