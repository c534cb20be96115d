-- ===== src/Merkle/Spec.antt =====
-- The abstract view of a tree of src/merkle_tree.rs: the list of its leaves. `root_of` is the root of
-- the full binary hash tree over them, by recursion from the top; the free places hold the
-- default hash.
use zeropool_relayer_rs.Prelude.{
  ℕ, zero, suc, ◌+◌, ◌*◌, ◌^◌, ◌≤◌, ◌<◌, ◌≡◌, some, List, length, take, get_elem?, unwrap_or, arith,
}
use zeropool_relayer_rs.Crates.{Crates}
use zeropool_relayer_rs.Merkle.Storage.{Tables}
use zeropool_relayer_rs.Merkle.Tree.{tree_height}
use zeropool_relayer_rs.Merkle.View.{default_hash, value, IsReadable}
use zeropool_relayer_rs.Merkle.Consistent.{double_lt, IsMerkle}

module _ (c : Crates) where
  open c use {Hash, poseidon, to_string}

  -- The root of the subtree of `k` levels over the leaves from `i * 2 ^ k` on.
  pub subtree : (ℕ → Hash) → ℕ → ℕ → Hash
  subtree f zero i = f i
  subtree f (suc k) i = poseidon (subtree f k (2 * i)) (subtree f k (2 * i + 1))

  abbrev pub leaf_at : List Hash → ℕ → Hash
  leaf_at leaves j = unwrap_or (get_elem? leaves j) (default_hash c (tree_height c))

  pub root_of : List Hash → Hash
  root_of leaves = subtree (leaf_at leaves) (tree_height c) 0

  -- The database holds the tree over these leaves.
  pub record Represents (t : Tables c) (leaves : List Hash) : Type 0 where
    pub readable : IsReadable c t
    pub merkle : IsMerkle c t
    pub count : c.meta_index.one "num_leaves" t.meta_index ≡ some (length leaves)
    pub at : (j : ℕ) → j < 2 ^ tree_height c → value c t (tree_height c) j ≡ leaf_at leaves j

  -- The database has the root after each number of leaves so far.
  pub record Remembers (t : Tables c) (leaves : List Hash) : Type 0 where
    pub roots_at :
        (k : ℕ)
        → k ≤ length leaves
        → c.roots.one k t.roots ≡ some (to_string (root_of (take k leaves)))

  pub value-eq-subtree :
      (t : Tables c) (f : ℕ → Hash)
      → IsMerkle c t
      → ((j : ℕ) → j < 2 ^ tree_height c → value c t (tree_height c) j ≡ f j)
      → (k d i : ℕ) → d + k ≡ tree_height c
      → i < 2 ^ d
      → value c t d i ≡ subtree f k i
  unfolding subtree
  value-eq-subtree t f m leaves zero d i e hi =
      let top : d ≡ tree_height c = omega arith in rw top (leaves i (rw top at hi))
  value-eq-subtree t f m leaves (suc k) d i e hi = cc (
    m.at d i (omega arith) hi,
    value-eq-subtree t f m leaves k (suc d) (2 * i) (omega arith) (omega (arith, double_lt d i hi)),
    value-eq-subtree t f m leaves k (suc d) (2 * i + 1) (omega arith) (double_lt d i hi),
  )

  -- The node at the root is the root over the leaves.
  pub value-root :
      (t : Tables c) (leaves : List Hash) → Represents t leaves → value c t 0 0 ≡ root_of leaves
  unfolding root_of
  value-root t leaves r =
      value-eq-subtree t (leaf_at leaves) r.merkle r.at (tree_height c) 0 0 (omega arith)
        (omega arith)
