-- ===== src/Merkle/History.antt =====
-- The queries and the guards of the tree of src/merkle_tree.rs, and its historic roots after a
-- rollback, on a disk without faults.
use zeropool_relayer_rs.Prelude.{
  ℕ, ◌+◌, ◌-◌, ◌^◌, ◌≤◌, ◌<◌, ◌≡◌, refl, ap, ◌∙◌, none, some, List, [], length, take, leb, false,
  true, ◌==◌, arith,
}
use zeropool_relayer_rs.Exec.{ok, err, expect, rollback_too_high}
use zeropool_relayer_rs.Exec.Disk.{sound}
use zeropool_relayer_rs.Crates.{Crates}
use zeropool_relayer_rs.Merkle.Storage.{
  Tables, fresh, clear, set_num_leaves, get_num_leaves, get_root, parse_root,
}
use zeropool_relayer_rs.Merkle.Tree.{
  MerkleTree, tree_height, root, leaf, num_leaves, historic_root, rollback,
}
use zeropool_relayer_rs.Merkle.View.{HasDefaults, root_lem, leaf_lem}
use zeropool_relayer_rs.Merkle.Spec.{leaf_at, root_of, Represents, Remembers, value-root}
use zeropool_relayer_rs.Merkle.Open.{empty-Represents}
use zeropool_relayer_rs.Merkle.RollbackRoots.{one-cut_roots_in, one-cut_roots_out}
use zeropool_relayer_rs.Merkle.RollbackTo.{rollback_lem}

module _ (c : Crates) where
  open c use {Hash, to_string, from_str, from_str-to_string}

  pub get_root-found :
      (t : Tables c) (k : ℕ) (h : Hash)
      → c.roots.one k t.roots ≡ some (to_string h)
      → get_root c k (sound t) ≡ (ok (some h), sound t)
  unfolding get_root
  get_root-found t k h e = rw e (rw (from_str-to_string h, parse_root))

  get_root-missing :
      (t : Tables c) (k : ℕ)
      → c.roots.one k t.roots ≡ none
      → get_root c k (sound t) ≡ (ok none, sound t)
  unfolding get_root
  get_root-missing t k e = rw e

  module _ (tree : MerkleTree c) (defaults : HasDefaults c tree) (t : Tables c)
      (leaves : List Hash) where
    -- Where the database holds the tree over a list of leaves and no I/O call fails, the root, the
    -- number of leaves and every leaf within the height of the tree are those of the list, and the
    -- queries change nothing.
    pub queries_answer :
        Represents c t leaves
        → (root c tree (sound t) ≡ (ok (root_of c leaves), sound t))
          × (num_leaves c tree (sound t) ≡ (ok (length leaves), sound t))
          × ((i : ℕ)
              → i < 2 ^ tree_height c
              → leaf c tree i (sound t) ≡ (ok (leaf_at c leaves i), sound t))
    unfolding num_leaves get_num_leaves
    queries_answer r = (
      root_lem c tree defaults t r.readable ∙ ap (λ h. (ok h, sound t)) (value-root c t leaves r),
      rw (r.count, expect),
      λ i hi. leaf_lem c tree defaults t i r.readable ∙ ap (λ h. (ok h, sound t)) (r.at i hi),
    )

    -- The historic root k is the root of the first k leaves.
    pub historic_root-Remembers :
        (k : ℕ)
        → Remembers c t leaves
        → k ≤ length leaves
        → historic_root c tree k (sound t) ≡ (ok (some (root_of c (take k leaves))), sound t)
    unfolding historic_root
    historic_root-Remembers k m h = get_root-found t k (root_of c (take k leaves)) (m.roots_at k h)

    -- Where the database holds a tree and no I/O call fails, a rollback to the number of leaves or
    -- above, other than zero, ends with an error and changes nothing.
    pub rollback_refused :
        (n : ℕ)
        → Represents c t leaves
        → 0 < n
        → length leaves ≤ n
        → rollback c tree n (sound t) ≡ (err rollback_too_high, sound t)
    unfolding rollback get_num_leaves
    rollback_refused n r pos h =
        let positive : (n == 0) ≡ false = ground arith in
        let above : leb (length leaves) n ≡ true = ground arith in rw (positive, r.count, above)

    module _ (small : tree_height c ≤ 62) (n : ℕ) (r : Represents c t leaves)
        (m : Remembers c t leaves) (pos : 0 < n) (lower : n < length leaves)
        (room : length leaves < 2 ^ tree_height c) where
      -- Where no I/O call fails and the height is at most 62, a rollback of a tree that is not
      -- full to fewer leaves, at least one, keeps the first n leaves and the historic roots below
      -- n. It drops the historic root n, which is the root of the tree that it leaves, and it
      -- keeps the historic root of the tree with all the old leaves.
      pub rollback-history :
          (t' : Tables c) × (rollback c tree n (sound t) ≡ (ok tt, sound t'))
          × Represents c t' (take n leaves)
          × ((k : ℕ)
              → k < n
              → historic_root c tree k (sound t')
                ≡ (ok (some (root_of c (take k leaves))), sound t'))
          × (historic_root c tree n (sound t') ≡ (ok none, sound t'))
          × (historic_root c tree (length leaves) (sound t')
              ≡ (ok (some (root_of c (take (length leaves) leaves))), sound t'))
      unfolding historic_root
      rollback-history =
          let (t', run, rest) = rollback_lem c small tree defaults t leaves n r lower room pos in
          let kept =
            λ (k : ℕ) (hk : k ≤ length leaves) (out : ¬ ((n ≤ k) × (k < n + (length leaves - n)))).
              get_root-found t' k (root_of c (take k leaves)) (
                ap (λ x. c.roots.one k x) rest.1
                ∙ one-cut_roots_out c t.roots n (length leaves - n) k out
                ∙ m.roots_at k hk) in
          (
            t',
            run,
            rest.0,
            λ k hk. kept k (omega arith) (λ s. omega (arith, s.0)),
            get_root-missing t' n (
                ap (λ x. c.roots.one n x) rest.1
                ∙ one-cut_roots_in c t.roots n (length leaves - n) n (omega arith) (omega arith)),
            kept (length leaves) (omega arith) (λ s. omega (arith, s.1)),
          )

  -- A rollback to zero, where no I/O call fails, leaves the tree without leaves and without any
  -- historic root, also the root 0 that `open` adds.
  pub rollback_to_zero :
      (tree : MerkleTree c) (t : Tables c)
      → (t' : Tables c) × (rollback c tree 0 (sound t) ≡ (ok tt, sound t'))
        × Represents c t' []
        × ((k : ℕ) → historic_root c tree k (sound t') ≡ (ok none, sound t'))
  unfolding rollback clear set_num_leaves historic_root
  rollback_to_zero tree t =
      let meta = c.meta_index.put "num_leaves" 0 (fresh c).meta_index in
      (
        record (fresh c) { meta_index = meta },
        refl,
        empty-Represents c meta c.roots.empty
            (c.meta_index.one-put "num_leaves" "num_leaves" 0 (fresh c).meta_index),
        λ k. get_root-missing _ k (c.roots.one-empty k),
      )
