-- ===== src/Merkle/Open.antt =====
-- `MerkleTree::open` of src/merkle_tree.rs on a disk without faults: the default hashes, and the
-- tree in a new file.
use zeropool_relayer_rs.Prelude.{
  ℕ, zero, suc, ◌+◌, ◌-◌, ◌*◌, ◌≤◌, ◌≡◌, ap, sym, ◌∙◌, none, some, List, [], ◌∷◌, get_elem?,
  get_elem?-take, arith,
}
use zeropool_relayer_rs.Exec.{ok}
use zeropool_relayer_rs.Exec.Disk.{sound}
use zeropool_relayer_rs.Crates.{Crates}
use zeropool_relayer_rs.Merkle.Storage.{Tables, fresh, get_root, add_root}
use zeropool_relayer_rs.Merkle.Tree.{
  MerkleTree, tree_height, fill_default_nodes, initial_default_nodes, open_or_create, open_tree,
}
use zeropool_relayer_rs.Merkle.View.{
  empty_hash, default_hash, default_hash-children, value, HasDefaults,
}
use zeropool_relayer_rs.Merkle.Spec.{root_of, Represents, Remembers, value-root}

module _ (c : Crates) where
  open c use {Hash, zero_hash, poseidon, height, outplusonelog, to_string}

  fill_default_nodes_lem :
      (i : ℕ) (filled : List Hash)
      → i ≤ height
      → ((k : ℕ) → i + k ≤ height → get_elem? filled k ≡ some (default_hash c (i + k)))
      → (j : ℕ) → j ≤ height
      → get_elem? (fill_default_nodes c i filled) j ≡ some (default_hash c j)
  unfolding fill_default_nodes
  fill_default_nodes_lem zero filled hi h j hj =
      let e : 0 + j ≡ j = omega arith in h j (omega arith) ∙ ap (λ x. some (default_hash c x)) e
  fill_default_nodes_lem (suc i) [] hi h j hj = absurd (cc (h 0 (omega arith)))
  fill_default_nodes_lem (suc i) (t ∷ filled) hi h j hj =
      fill_default_nodes_lem i (poseidon t t ∷ t ∷ filled) (omega arith) (longer t filled h) j hj
    where
      longer :
          (t : Hash) (filled : List Hash)
          → ((k : ℕ)
              → suc i + k ≤ height
              → get_elem? (t ∷ filled) k ≡ some (default_hash c (suc i + k)))
          → (k : ℕ) → i + k ≤ height
          → get_elem? (poseidon t t ∷ t ∷ filled) k ≡ some (default_hash c (i + k))
      longer t filled h zero hk =
          let a : suc i + 0 ≡ suc i = omega arith in
          let b : i + 0 ≡ i = omega arith in
          cc (
            h 0 (omega arith),
            default_hash-children c i hi,
            ap (default_hash c) a,
            ap (default_hash c) b,
          )
      longer t filled h (suc k) hk =
          let e : suc i + k ≡ i + suc k = omega arith in
          h k (omega arith) ∙ ap (λ x. some (default_hash c x)) e

  abbrev pub opened : MerkleTree c
  opened = record { default_nodes = initial_default_nodes c }

  -- The default hashes of an opened tree are the roots of the empty subtrees.
  pub opened-HasDefaults : HasDefaults c opened
  unfolding initial_default_nodes
  opened-HasDefaults = record {
    at = λ d hd.
        get_elem?-take (tree_height c + 1) (fill_default_nodes c height (zero_hash ∷ [])) d
          (omega arith)
        ∙ fill_default_nodes_lem height (zero_hash ∷ []) (omega arith) base d (omega arith);
  }
    where
      base :
          (k : ℕ)
          → height + k ≤ height
          → get_elem? (zero_hash ∷ []) k ≡ some (default_hash c (height + k))
      base zero hk =
          let e : height - (height + 0) ≡ 0 = omega arith in unfold default_hash empty_hash in rw e
      base (suc k) hk = absurd (omega arith)

  -- The tables of a new file after `open`.
  abbrev pub initial : Tables c
  initial = record (fresh c) { roots = c.roots.put 0 (to_string (default_hash c 0)) c.roots.empty }

  fresh-value : (d i : ℕ) → value c initial d i ≡ default_hash c d
  unfolding value
  fresh-value d i = rw (c.data_index.one-empty)

  -- The tables of a new or cleared file hold the tree without leaves.
  pub empty-Represents :
      (meta : c.meta_index.Table) (roots : c.roots.Table)
      → c.meta_index.one "num_leaves" meta ≡ some 0
      → Represents c (record (fresh c) { meta_index = meta; roots = roots }) []
  unfolding value
  empty-Represents meta roots e = record {
    readable = record { reads = λ k b h. absurd (cc (c.data_index.one-empty k, h)) };
    merkle = record {
      at = λ e j he hj. cc (
        fresh-value e j,
        fresh-value (suc e) (2 * j),
        fresh-value (suc e) (2 * j + 1),
        default_hash-children c e (omega arith),
      );
    };
    count = e;
    at = λ j hj. fresh-value (tree_height c) j;
  }

  initial-Represents : Represents c initial []
  initial-Represents =
      empty-Represents (fresh c).meta_index initial.roots
        (c.meta_index.one-put "num_leaves" "num_leaves" 0 c.meta_index.empty)

  empty_root : root_of c [] ≡ default_hash c 0
  empty_root = sym (value-root c initial [] initial-Represents) ∙ fresh-value 0 0

  -- Opening a new file, where no I/O call fails, gives a tree whose default hash at each depth is
  -- that of a subtree of free leaves; the database holds the tree without leaves and its root.
  pub open_tree-Represents :
      (open_tree c (sound (open_or_create c none)) ≡ (ok opened, sound initial))
      × HasDefaults c opened
      × Represents c initial []
      × Remembers c initial []
  unfolding open_tree get_root add_root
  open_tree-Represents = (
    rw (opened-HasDefaults.at 0 (omega arith), c.roots.one-empty),
    opened-HasDefaults,
    initial-Represents,
    record {
      roots_at = λ k hk.
          let z : k ≡ 0 = omega arith in
          rw z (c.roots.one-put 0 0 _ _ ∙ ap (λ h. some (to_string h)) (sym empty_root));
    },
  )
