-- ===== src/Merkle/View.antt =====
-- What the tables of a tree say of each node (src/merkle_tree.rs): the stored hash, or the default
-- hash of its depth. Reads and writes inside a transaction on a disk without faults, by this view.
use zeropool_relayer_rs.Prelude.{
  ℕ, zero, suc, ◌-◌, ◌≤◌, ◌<◌, ◌≡◌, ◌≢◌, refl, sym, ◌∙◌, inl, inr, false, Option, none, some, List,
  ◌==◌, ==_iff, unwrap_or, get_elem?, arith, Bool-cases, if◌then◌else◌,
}
use zeropool_relayer_rs.Exec.{ok, ◌>>=◌}
use zeropool_relayer_rs.Exec.Disk.{sound}
use zeropool_relayer_rs.Crates.{Crates}
use zeropool_relayer_rs.Merkle.Storage.{Tables, key, decode, get, get_tx, set_tx, delete_tx}
use zeropool_relayer_rs.Merkle.Tree.{
  MerkleTree, tree_height, found_or_default, node_or_default, put_node, root, leaf,
  get_node_with_default,
}

module _ (c : Crates) where
  open c use {Hash, zero_hash, hash_eq, hash_eq_iff, poseidon, to_vec, try_from_slice, height}

  -- The root of a subtree of `n` levels with no leaves.
  unfoldable pub empty_hash : ℕ → Hash
  empty_hash zero = zero_hash
  empty_hash (suc n) = poseidon (empty_hash n) (empty_hash n)

  unfoldable pub default_hash : ℕ → Hash
  default_hash depth = empty_hash (height - depth)

  abbrev pub decoded_or : Option (List ℕ) → Hash → Hash
  decoded_or none dflt = dflt
  decoded_or (some data_bytes) dflt = unwrap_or (try_from_slice data_bytes) dflt

  unfoldable pub value : Tables c → ℕ → ℕ → Hash
  value t depth index =
      decoded_or (c.data_index.one (key depth index) t.data_index) (default_hash depth)

  -- Every stored node decodes.
  pub record IsReadable (t : Tables c) : Type 0 where
    pub reads :
        (k : ℕ) (data_bytes : List ℕ)
        → c.data_index.one k t.data_index ≡ some data_bytes
        → (h : Hash) × (try_from_slice data_bytes ≡ some h)

  pub record HasDefaults (tree : MerkleTree c) : Type 0 where
    pub at : (d : ℕ) → d ≤ tree_height c → get_elem? tree.default_nodes d ≡ some (default_hash d)

  pub default_hash-children :
      (d : ℕ) → d < height → default_hash d ≡ poseidon (default_hash (suc d)) (default_hash (suc d))
  unfolding default_hash
  default_hash-children d h =
      let e : height - d ≡ suc (height - suc d) = omega arith in rw e (unfold empty_hash in refl)

  decode_lem :
      (o : Option (List ℕ)) (dflt : Hash)
      → ((b : List ℕ) → o ≡ some b → (h : Hash) × (try_from_slice b ≡ some h))
      → (found : Option Hash) × (decode c o ≡ ok found) × (unwrap_or found dflt ≡ decoded_or o dflt)
  unfolding decode
  decode_lem none dflt h = (none, refl, refl)
  decode_lem (some b) dflt h = let (v, e) = h b refl in (some v, rw (e, decode), rw e)

  abbrev pub removed : Tables c → ℕ → ℕ → Tables c
  removed tx d i = record tx { data_index = c.data_index.remove (key d i) tx.data_index }

  abbrev pub stored : Tables c → ℕ → ℕ → Hash → Tables c
  stored tx d i h = record tx { data_index = c.data_index.put (key d i) (to_vec h) tx.data_index }

  -- What `put_node` writes.
  abbrev pub written : Tables c → ℕ → ℕ → Hash → Tables c
  written tx d i h = if hash_eq h (default_hash d) then removed tx d i else stored tx d i h

  module _ (tree : MerkleTree c) (defaults : HasDefaults tree) (t : Tables c) where
    pub node_or_default_lem :
        (tx : Tables c) (d i : ℕ)
        → IsReadable tx
        → d ≤ tree_height c
        → node_or_default c tree tx d i (sound t) ≡ (ok (value tx d i), sound t)
    unfolding get_tx value
    node_or_default_lem tx d i r h =
        let (found, e, v) =
          decode_lem (c.data_index.one (key d i) tx.data_index) (default_hash d)
            (r.reads (key d i)) in
        rw (e, defaults.at d h, ← v)

    found_or_default_lem :
        (d : ℕ) (found : Option Hash)
        → d ≤ tree_height c
        → found_or_default c tree d found (sound t)
          ≡ (ok (unwrap_or found (default_hash d)), sound t)
    unfolding found_or_default
    found_or_default_lem d none h = rw (defaults.at d h)
    found_or_default_lem d (some v) h = refl

    -- A read with the default of its depth, outside a transaction.
    get_or_default_lem :
        (d i : ℕ)
        → IsReadable t
        → d ≤ tree_height c
        → (get c d i >>= found_or_default c tree d) (sound t) ≡ (ok (value t d i), sound t)
    unfolding get value
    get_or_default_lem d i r h =
        let (found, e, v) =
          decode_lem (c.data_index.one (key d i) t.data_index) (default_hash d)
            (r.reads (key d i)) in
        rw e (rw (← v) (found_or_default_lem d found h))

    pub get_node_with_default_lem :
        (d i : ℕ)
        → IsReadable t
        → d ≤ tree_height c
        → get_node_with_default c tree d i (sound t) ≡ (ok (value t d i), sound t)
    unfolding get_node_with_default
    get_node_with_default_lem d i r h = get_or_default_lem d i r h

    pub root_lem : IsReadable t → root c tree (sound t) ≡ (ok (value t 0 0), sound t)
    unfolding root
    root_lem r = get_or_default_lem 0 0 r (omega arith)

    pub leaf_lem :
        (i : ℕ) → IsReadable t → leaf c tree i (sound t) ≡ (ok (value t (tree_height c) i), sound t)
    unfolding leaf
    leaf_lem i r = get_or_default_lem (tree_height c) i r (omega arith)

    pub put_node_lem :
        (tx : Tables c) (d i : ℕ) (h : Hash)
        → d ≤ tree_height c
        → put_node c tree tx d i h (sound t) ≡ (ok (written tx d i h), sound t)
    unfolding put_node set_tx delete_tx
    put_node_lem tx d i h le = elim (Bool-cases (hash_eq h (default_hash d))) [
      | inl same ↦ rw (defaults.at d le, same)
      | inr new ↦ rw (defaults.at d le, new)
    ]

  module _ (tx : Tables c) (d i : ℕ) where
    pub value-stored_self : (h : Hash) → value (stored tx d i h) d i ≡ h
    unfolding value
    value-stored_self h =
        rw (c.data_index.one-put, (==_iff (key d i) (key d i)).1 refl)
          (rw (c.try_from_slice-to_vec))

    pub value-removed_self : value (removed tx d i) d i ≡ default_hash d
    unfolding value
    value-removed_self = rw (c.data_index.one-remove, (==_iff (key d i) (key d i)).1 refl)

    pub value-written_self : (h : Hash) → value (written tx d i h) d i ≡ h
    value-written_self h = elim (Bool-cases (hash_eq h (default_hash d))) [
      | inl same ↦ rw same (value-removed_self ∙ sym ((hash_eq_iff h (default_hash d)).0 same))
      | inr new ↦ rw new (value-stored_self h)
    ]

    other_key : (e j : ℕ) → key d i ≢ key e j → (key d i == key e j) ≡ false
    other_key e j ne = ground (arith, ==_iff (key d i) (key e j))

    pub value-stored_ne :
        (h : Hash) (e j : ℕ) → key d i ≢ key e j → value (stored tx d i h) e j ≡ value tx e j
    unfolding value
    value-stored_ne h e j ne = rw (c.data_index.one-put, other_key e j ne)

    pub value-removed_ne : (e j : ℕ) → key d i ≢ key e j → value (removed tx d i) e j ≡ value tx e j
    unfolding value
    value-removed_ne e j ne = rw (c.data_index.one-remove, other_key e j ne)

    pub value-written_ne :
        (h : Hash) (e j : ℕ) → key d i ≢ key e j → value (written tx d i h) e j ≡ value tx e j
    value-written_ne h e j ne = elim (Bool-cases (hash_eq h (default_hash d))) [
      | inl same ↦ rw same (value-removed_ne e j ne)
      | inr new ↦ rw new (value-stored_ne h e j ne)
    ]

    pub IsReadable-stored : (h : Hash) → IsReadable tx → IsReadable (stored tx d i h)
    IsReadable-stored h r = record {
      reads = λ k b e. elim (Bool-cases (key d i == k)) [
        | inl same ↦ (
          h,
          cc (
            c.data_index.one-put k (key d i) (to_vec h) tx.data_index,
            same,
            e,
            c.try_from_slice-to_vec h,
          ),
        )
        | inr other ↦
            r.reads k b (cc (c.data_index.one-put k (key d i) (to_vec h) tx.data_index, other, e))
      ];
    }

    pub IsReadable-removed : IsReadable tx → IsReadable (removed tx d i)
    IsReadable-removed r = record {
      reads = λ k b e. elim (Bool-cases (key d i == k)) [
        | inl same ↦ absurd (cc (c.data_index.one-remove k (key d i) tx.data_index, same, e))
        | inr other ↦ r.reads k b (cc (c.data_index.one-remove k (key d i) tx.data_index, other, e))
      ];
    }

    pub IsReadable-written : (h : Hash) → IsReadable tx → IsReadable (written tx d i h)
    IsReadable-written h r = elim (Bool-cases (hash_eq h (default_hash d))) [
      | inl same ↦ rw same (IsReadable-removed r)
      | inr new ↦ rw new (IsReadable-stored h r)
    ]
