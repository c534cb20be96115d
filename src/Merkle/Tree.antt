-- ===== src/Merkle/Tree.antt =====
-- `MerkleTree` of src/merkle_tree.rs. A subtree without leaves is not stored: its root is the
-- default hash of its depth. The database is the state; the struct holds the default hashes.
use zeropool_relayer_rs.Prelude.{
  ℕ, zero, suc, ◌+◌, ◌-◌, ◌/◌, ◌%◌, ◌^◌, bit_and, bit_xor, Bool, Option, none, some, List, [], ◌∷◌,
  ◌==◌, leb, shr, take, get_elem?, unwrap_or, if◌then◌else◌,
}
use zeropool_relayer_rs.Exec.{rollback_too_high, pure, raise, expect, unwrap, ◌>>=◌, ◌>>◌}
use zeropool_relayer_rs.Exec.Disk.{begin, commit}
use zeropool_relayer_rs.Crates.{Crates}
use zeropool_relayer_rs.Merkle.Storage.{
  Tables, Act, fresh, clear, set_num_leaves_tx, set_num_leaves, get_num_leaves, set_tx, get, get_tx,
  delete_tx, add_root, get_root, delete_roots_tx,
}

-- `index + 1` on a `u64`.
abbrev pub next_u64 : ℕ → ℕ
next_u64 index = (index + 1) % 2 ^ 64

module _ (c : Crates) where
  open c use {Hash, zero_hash, hash_eq, poseidon, height, outplusonelog}

  -- `const H`.
  abbrev pub tree_height : ℕ
  tree_height = height - outplusonelog

  pub record MerkleTree : Type 0 where
    pub default_nodes : List Hash

  -- The loop that fills the vector of default hashes from its end; the list is the filled part.
  unfoldable pub fill_default_nodes : ℕ → List Hash → List Hash
  fill_default_nodes zero filled = filled
  fill_default_nodes (suc i) [] = []
  fill_default_nodes (suc i) (t ∷ filled) = fill_default_nodes i (poseidon t t ∷ t ∷ filled)

  unfoldable pub initial_default_nodes : List Hash
  initial_default_nodes = take (tree_height + 1) (fill_default_nodes height (zero_hash ∷ []))

  -- `Persy::open_or_create_with`: the initial tables are written only into a new file.
  abbrev pub open_or_create : Option (Tables c) → Tables c
  open_or_create none = fresh c
  open_or_create (some t) = t

  -- `MerkleTree::open` on the tables of the opened file.
  unfoldable pub open_tree : Act c MerkleTree
  unfolding initial_default_nodes
  open_tree = do
    default_root ← expect (get_elem? initial_default_nodes 0)
    first ← get_root c 0
    elim first [ none ↦ add_root c 0 default_root | some _ ↦ pure tt ]
    pure (record { default_nodes = initial_default_nodes })

  -- `poseidon` of a node and its sibling, the left one first.
  abbrev pub parent_hash : ℕ → Hash → Hash → Hash
  parent_hash cur_index cur_hash sibling_hash =
      if bit_and cur_index 1 == 0
      then poseidon cur_hash sibling_hash
      else poseidon sibling_hash cur_hash

  module _ (tree : MerkleTree) where
    -- `self.default_nodes[depth as usize]`.
    abbrev pub default_node : ℕ → Act c Hash
    default_node depth = expect (get_elem? tree.default_nodes depth)

    -- `unwrap_or_else(|| self.default_nodes[depth])`.
    unfoldable pub found_or_default : ℕ → Option Hash → Act c Hash
    found_or_default depth none = default_node depth
    found_or_default depth (some h) = pure h

    -- A node inside a transaction, with the default of its depth.
    abbrev pub node_or_default : Tables c → ℕ → ℕ → Act c Hash
    node_or_default tx depth index = do
      found ← get_tx c tx depth index
      dflt ← default_node depth
      pure (unwrap_or found dflt)

    -- Writes a computed node: a default hash is not stored.
    unfoldable pub put_node : Tables c → ℕ → ℕ → Hash → Act c (Tables c)
    put_node tx depth index hash = do
      dflt ← default_node depth
      if hash_eq hash dflt then delete_tx c tx depth index else set_tx c tx depth index hash

    -- The loop of `set_node`, from `depth` up to the root; `i` counts its rounds.
    unfoldable pub set_node_loop : ℕ → ℕ → ℕ → Hash → Tables c → Act c (Tables c)
    set_node_loop index i zero cur_hash tx = pure tx
    set_node_loop index i (suc parent_depth) cur_hash tx = do
      let cur_index = shr index i
      sibling_hash ← node_or_default tx (suc parent_depth) (bit_xor cur_index 1)
      let hash = parent_hash cur_index cur_hash sibling_hash
      tx' ← put_node tx parent_depth (cur_index / 2) hash
      set_node_loop index (i + 1) parent_depth hash tx'

    unfoldable pub set_node : ℕ → ℕ → Hash → Act c (Unit {0})
    set_node depth index hash = do
      tx ← begin
      tx₁ ← set_tx c tx depth index hash
      tx₂ ← set_node_loop index 0 depth hash tx₁
      commit tx₂

    unfoldable pub root : Act c Hash
    root = do found ← get c 0 0; found_or_default 0 found

    unfoldable pub get_node : ℕ → ℕ → Act c (Option Hash)
    get_node depth index = get c depth index

    unfoldable pub get_node_with_default : ℕ → ℕ → Act c Hash
    get_node_with_default depth index = do found ← get c depth index; found_or_default depth found

    unfoldable pub leaf : ℕ → Act c Hash
    leaf index = do found ← get c tree_height index; found_or_default tree_height found

    unfoldable pub historic_root : ℕ → Act c (Option Hash)
    historic_root index = get_root c index

    unfoldable pub num_leaves : Act c ℕ
    num_leaves = unwrap (get_num_leaves c)

    unfoldable pub set_leaf : ℕ → Hash → Act c (Unit {0})
    set_leaf index hash = do
      set_node tree_height index hash
      found ← get_node tree_height index
      elim found [ none ↦ set_num_leaves c (next_u64 index) | some _ ↦ pure tt ]
      add_root c index hash

    unfoldable pub add_leaf : Hash → Act c (Unit {0})
    add_leaf hash = do
      index ← get_num_leaves c
      set_node tree_height index hash
      set_num_leaves c (next_u64 index)
      new_root ← root
      add_root c (next_u64 index) new_root

    -- `for i in from..from + count { delete_tx(depth, i) }`.
    unfoldable pub delete_from : Tables c → ℕ → ℕ → ℕ → Act c (Tables c)
    delete_from tx depth i zero = pure tx
    delete_from tx depth i (suc count) = do
      tx' ← delete_tx c tx depth i
      delete_from tx' depth (i + 1) count

    -- The loop of `rollback`; `h` counts its rounds.
    unfoldable pub rollback_loop : ℕ → ℕ → ℕ → ℕ → Tables c → Act c (Tables c)
    rollback_loop index old_num_leaves h zero tx = pure tx
    rollback_loop index old_num_leaves h (suc parent_depth) tx = do
      let cur_index = shr index h
      let cur_num_leaves = shr old_num_leaves h
      tx₁ ← delete_from tx (suc parent_depth) (cur_index + 1) (cur_num_leaves - cur_index)
      current ← node_or_default tx₁ (suc parent_depth) cur_index
      sibling ← node_or_default tx₁ (suc parent_depth) (bit_xor cur_index 1)
      let hash =
          if bit_and cur_index 1 == 1 then poseidon sibling current else poseidon current sibling
      tx₂ ← put_node tx₁ parent_depth (cur_index / 2) hash
      rollback_loop index old_num_leaves (h + 1) parent_depth tx₂

    unfoldable pub rollback_to : ℕ → ℕ → Act c (Unit {0})
    rollback_to index old_num_leaves = do
      tx ← begin
      tx₁ ← delete_roots_tx c tx index (old_num_leaves - index)
      tx₂ ← set_num_leaves_tx c tx₁ index
      tx₃ ← delete_tx c tx₂ tree_height index
      tx₄ ← rollback_loop index old_num_leaves 0 tree_height tx₃
      commit tx₄

    -- `MerkleTree::rollback`; its part after the two guards is `rollback_to`.
    unfoldable pub rollback : ℕ → Act c (Unit {0})
    rollback index = if index == 0 then (do clear c; set_num_leaves c 0) else (do
      old_num_leaves ← get_num_leaves c
      if leb old_num_leaves index
          then raise rollback_too_high
          else rollback_to index old_num_leaves)

    -- The items of the iterator `merkle_proof` in order, collected up to the first error.
    unfoldable pub merkle_proof_loop : ℕ → ℕ → ℕ → Act c (List Hash)
    merkle_proof_loop index i zero = pure []
    merkle_proof_loop index i (suc depth) = do
      sibling ← get_node_with_default (suc depth) (bit_xor (shr index i) 1)
      rest ← merkle_proof_loop index (i + 1) depth
      pure (sibling ∷ rest)

    unfoldable pub merkle_proof : ℕ → Act c (List Hash)
    unfolding merkle_proof_loop
    merkle_proof index = merkle_proof_loop index 0 tree_height

  -- `(0..count).rev().map(|i| (index >> i) & 1 == 1)`.
  unfoldable pub path_bits : ℕ → ℕ → List Bool
  path_bits index zero = []
  path_bits index (suc i) = (bit_and (shr index i) 1 == 1) ∷ path_bits index i

  pub record MerkleProof : Type 0 where
    pub sibling : List Hash
    pub path : List Bool

  unfoldable pub zp_merkle_proof : MerkleTree → ℕ → Act c MerkleProof
  unfolding merkle_proof path_bits
  zp_merkle_proof tree index = do
    leaves ← merkle_proof tree index
    pure (record { sibling = leaves; path = path_bits index tree_height })
