-- ===== src/Merkle/Grow.antt =====
-- A tree of src/merkle_tree.rs over its life: opened on a new file, then one `add_leaf` after another.
use mathlib.Core.List.{append-nil, append_assoc}
use zeropool_relayer_rs.Prelude.{
  ℕ, ◌+◌, ◌^◌, ◌≤◌, ◌≡◌, refl, ◌∙◌, none, some, List, [], ◌∷◌, ◌++◌, length, take, length-append,
  arith,
}
use zeropool_relayer_rs.Exec.{ok, pure, ◌>>◌, bind_ok}
use zeropool_relayer_rs.Exec.Disk.{sound}
use zeropool_relayer_rs.Crates.{Crates}
use zeropool_relayer_rs.Merkle.Storage.{Tables, Act}
use zeropool_relayer_rs.Merkle.Tree.{
  MerkleTree, tree_height, open_or_create, open_tree, add_leaf, root, num_leaves, historic_root,
}
use zeropool_relayer_rs.Merkle.View.{HasDefaults}
use zeropool_relayer_rs.Merkle.Spec.{root_of, Represents, Remembers}
use zeropool_relayer_rs.Merkle.Open.{opened, initial, open_tree-Represents}
use zeropool_relayer_rs.Merkle.AddLeaf.{add_leaf-Represents}
use zeropool_relayer_rs.Merkle.History.{queries_answer, historic_root-Remembers}

module _ (c : Crates) where
  open c use {Hash}

  -- One `add_leaf` after another.
  abbrev pub add_leaves : MerkleTree c → List Hash → Act c (Unit {0})
  add_leaves tree [] = pure tt
  add_leaves tree (h ∷ hs) = add_leaf c tree h >> add_leaves tree hs

  add_leaves-Represents :
      (small : tree_height c ≤ 62) (tree : MerkleTree c) (defaults : HasDefaults c tree)
      (hs leaves : List Hash) (t : Tables c)
      → length leaves + length hs ≤ 2 ^ tree_height c
      → Represents c t leaves
      → Remembers c t leaves
      → (t' : Tables c) × (add_leaves tree hs (sound t) ≡ (ok tt, sound t'))
        × Represents c t' (leaves ++ hs)
        × Remembers c t' (leaves ++ hs)
  add_leaves-Represents small tree defaults [] leaves t room r m =
      (t, refl, rw (append-nil leaves) r, rw (append-nil leaves) m)
  add_leaves-Represents small tree defaults (h ∷ hs) leaves t room r m =
      let (t1, run1, r1, m1) =
        add_leaf-Represents c small tree defaults leaves (omega arith) t h r m in
      let (t2, run2, r2, m2) =
        add_leaves-Represents small tree defaults hs (leaves ++ h ∷ []) t1
          (omega (arith, length-append leaves (h ∷ []))) r1 m1 in
      (
        t2,
        bind_ok (add_leaf c tree h) _ (sound t) run1 ∙ run2,
        rw (← append_assoc leaves (h ∷ []) hs) r2,
        rw (← append_assoc leaves (h ∷ []) hs) m2,
      )

  -- A new file is opened and leaves are added one by one, where no I/O call fails, the height is
  -- at most 62 and the tree has room for the leaves. Every call succeeds, the root and the number
  -- of leaves are those of the whole list, and the historic root k is the root over the first k
  -- leaves.
  pub open-add-query :
      (hs : List Hash)
      → tree_height c ≤ 62
      → length hs ≤ 2 ^ tree_height c
      → (tree : MerkleTree c) × (t0 t : Tables c) × (open_tree c (sound (open_or_create c none))
          ≡ (ok tree, sound t0))
        × (add_leaves tree hs (sound t0) ≡ (ok tt, sound t))
        × (root c tree (sound t) ≡ (ok (root_of c hs), sound t))
        × (num_leaves c tree (sound t) ≡ (ok (length hs), sound t))
        × ((k : ℕ)
            → k ≤ length hs
            → historic_root c tree k (sound t) ≡ (ok (some (root_of c (take k hs))), sound t))
  open-add-query hs small room =
      let (opens, defaults, r0, m0) = open_tree-Represents c in
      let (t, run, r, m) =
        add_leaves-Represents small (opened c) defaults hs [] (initial c) (omega (arith, room)) r0
          m0 in
      let answers = queries_answer c (opened c) defaults t hs r in
      (
        opened c,
        initial c,
        t,
        opens,
        run,
        answers.0,
        answers.1,
        λ k hk. historic_root-Remembers c (opened c) defaults t hs k m hk,
      )
