-- ===== src/Merkle/Atomic.antt =====
-- `set_node` and `rollback` of src/merkle_tree.rs under any I/O faults: each is one transaction.
use zeropool_relayer_rs.Prelude.{
  ℕ, zero, suc, ◌+◌, ◌-◌, ◌/◌, ◌≡◌, refl, bit_xor, shr, Bool, true, false, Option, none, some,
  get_elem?, unwrap_or, arith, if◌then◌else◌, ◌==◌, leb, ◌<◌,
}
use zeropool_relayer_rs.Exec.{ok, expect, raise, rollback_too_high}
use zeropool_relayer_rs.Exec.Disk.{
  io, io-Reads, Reads, Reads-pure, Reads-bind, begin-Reads, IsAtomic, IsAtomic-bind,
  commit-IsAtomic, raise-IsAtomic,
}
use zeropool_relayer_rs.Crates.{Crates}
use zeropool_relayer_rs.Merkle.Storage.{
  Tables, set_tx, get_tx, delete_tx, set_num_leaves_tx, get_num_leaves, delete_root_tx,
  delete_roots_tx,
}
use zeropool_relayer_rs.Merkle.Tree.{
  MerkleTree, tree_height, default_node, node_or_default, put_node, set_node_loop, set_node,
  delete_from, rollback_loop, rollback_to, rollback,
}

module _ (c : Crates) where
  open c use {Hash, hash_eq, poseidon}

  expect-Reads : {A : Type 0} (o : Option A) → Reads {T = Tables c} (expect o)
  expect-Reads none = record { at = λ d. refl }
  expect-Reads (some a) = record { at = λ d. refl }

  set_tx-Reads : (tx : Tables c) (d i : ℕ) (h : Hash) → Reads (set_tx c tx d i h)
  unfolding set_tx
  set_tx-Reads tx d i h = record { at = λ s. ground arith }

  delete_tx-Reads : (tx : Tables c) (d i : ℕ) → Reads (delete_tx c tx d i)
  unfolding delete_tx
  delete_tx-Reads tx d i = record { at = λ s. ground arith }

  get_tx-Reads : (tx : Tables c) (d i : ℕ) → Reads (get_tx c tx d i)
  unfolding get_tx
  get_tx-Reads tx d i = record { at = λ s. ground arith }

  set_num_leaves_tx-Reads : (tx : Tables c) (i : ℕ) → Reads (set_num_leaves_tx c tx i)
  unfolding set_num_leaves_tx
  set_num_leaves_tx-Reads tx i = record { at = λ s. ground arith }

  get_num_leaves-Reads : Reads (get_num_leaves c)
  unfolding get_num_leaves
  get_num_leaves-Reads = Reads-bind io _ io-Reads (λ _. record {
    at = λ d. (expect-Reads (c.meta_index.one "num_leaves" d.tables.meta_index)).at d;
  })

  delete_root_tx-Reads : (tx : Tables c) (i : ℕ) → Reads (delete_root_tx c tx i)
  unfolding delete_root_tx
  delete_root_tx-Reads tx i = record { at = λ s. ground arith }

  delete_roots_tx-Reads : (tx : Tables c) (i count : ℕ) → Reads (delete_roots_tx c tx i count)
  unfolding delete_roots_tx
  delete_roots_tx-Reads tx i zero = Reads-pure (ok tx)
  delete_roots_tx-Reads tx i (suc count) =
      Reads-bind (delete_root_tx c tx i) _ (delete_root_tx-Reads tx i)
        (λ tx'. delete_roots_tx-Reads tx' (i + 1) count)

  module _ (tree : MerkleTree c) where
    default_node-Reads : (d : ℕ) → Reads (default_node c tree d)
    default_node-Reads d = expect-Reads (get_elem? tree.default_nodes d)

    node_or_default-Reads : (tx : Tables c) (d i : ℕ) → Reads (node_or_default c tree tx d i)
    node_or_default-Reads tx d i = Reads-bind (get_tx c tx d i) _ (get_tx-Reads tx d i) (λ found.
        Reads-bind (default_node c tree d) _ (default_node-Reads d)
          (λ h. Reads-pure (ok (unwrap_or found h))))

    choose-Reads :
        (b : Bool) (tx : Tables c) (d i : ℕ) (h : Hash)
        → Reads (if b then delete_tx c tx d i else set_tx c tx d i h)
    choose-Reads true tx d i h = delete_tx-Reads tx d i
    choose-Reads false tx d i h = set_tx-Reads tx d i h

    put_node-Reads : (tx : Tables c) (d i : ℕ) (h : Hash) → Reads (put_node c tree tx d i h)
    unfolding put_node
    put_node-Reads tx d i h =
        Reads-bind (default_node c tree d) _ (default_node-Reads d)
          (λ dflt. choose-Reads (hash_eq h dflt) tx d i h)

    set_node_loop-Reads :
        (index i d : ℕ) (h : Hash) (tx : Tables c) → Reads (set_node_loop c tree index i d h tx)
    unfolding set_node_loop
    set_node_loop-Reads index i zero h tx = Reads-pure (ok tx)
    set_node_loop-Reads index i (suc d) h tx =
        Reads-bind (node_or_default c tree tx (suc d) (bit_xor (shr index i) 1)) _
          (node_or_default-Reads tx (suc d) (bit_xor (shr index i) 1))
          (λ s.
            Reads-bind (put_node c tree tx d (shr index i / 2) _) _
              (put_node-Reads tx d (shr index i / 2) _)
              (λ tx'. set_node_loop-Reads index (i + 1) d _ tx'))

    -- Whatever I/O call fails, a `set_node` that does not succeed leaves the committed tables as
    -- they were.
    pub set_node-IsAtomic : (d i : ℕ) (h : Hash) → IsAtomic (set_node c tree d i h)
    unfolding set_node
    set_node-IsAtomic d i h = IsAtomic-bind _ _ begin-Reads (λ tx.
        IsAtomic-bind _ _ (set_tx-Reads tx d i h)
          (λ tx'. IsAtomic-bind _ _ (set_node_loop-Reads i 0 d h tx') commit-IsAtomic))

    delete_from-Reads : (tx : Tables c) (d i count : ℕ) → Reads (delete_from c tree tx d i count)
    unfolding delete_from
    delete_from-Reads tx d i zero = Reads-pure (ok tx)
    delete_from-Reads tx d i (suc count) =
        Reads-bind (delete_tx c tx d i) _ (delete_tx-Reads tx d i)
          (λ tx'. delete_from-Reads tx' d (i + 1) count)

    rollback_loop-Reads :
        (index old h d : ℕ) (tx : Tables c) → Reads (rollback_loop c tree index old h d tx)
    unfolding rollback_loop
    rollback_loop-Reads index old h zero tx = Reads-pure (ok tx)
    rollback_loop-Reads index old h (suc d) tx =
        Reads-bind _ _ (delete_from-Reads tx (suc d) (shr index h + 1) (shr old h - shr index h))
          (λ a. Reads-bind _ _ (node_or_default-Reads a (suc d) (shr index h)) (λ current.
            Reads-bind _ _ (node_or_default-Reads a (suc d) (bit_xor (shr index h) 1)) (λ sibling.
              Reads-bind _ _ (put_node-Reads a d (shr index h / 2) _)
                (λ b. rollback_loop-Reads index old (h + 1) d b))))

    rollback_to-IsAtomic : (index old : ℕ) → IsAtomic (rollback_to c tree index old)
    unfolding rollback_to
    rollback_to-IsAtomic index old = IsAtomic-bind _ _ begin-Reads (λ a.
        IsAtomic-bind _ _ (delete_roots_tx-Reads a index (old - index)) (λ b.
          IsAtomic-bind _ _ (set_num_leaves_tx-Reads b index) (λ e.
            IsAtomic-bind _ _ (delete_tx-Reads e (tree_height c) index) (λ f.
              IsAtomic-bind _ _ (rollback_loop-Reads index old 0 (tree_height c) f)
                commit-IsAtomic))))

    guarded-IsAtomic :
        (b : Bool) (index old : ℕ)
        → IsAtomic (if b then raise rollback_too_high else rollback_to c tree index old)
    guarded-IsAtomic true index old = raise-IsAtomic rollback_too_high
    guarded-IsAtomic false index old = rollback_to-IsAtomic index old

    -- Whatever I/O call fails, a `rollback` of the tree to a positive index that does not succeed
    -- leaves the committed tables as they were.
    pub rollback-IsAtomic : (index : ℕ) → 0 < index → IsAtomic (rollback c tree index)
    unfolding rollback
    rollback-IsAtomic index pos =
        let positive : (index == 0) ≡ false = ground arith in
        rw positive (
          IsAtomic-bind _ _ get_num_leaves-Reads
            (λ old. guarded-IsAtomic (leb old index) index old))
