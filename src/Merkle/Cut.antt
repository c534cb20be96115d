-- ===== src/Merkle/Cut.antt =====
-- The range deletion of `rollback` (src/merkle_tree.rs) on a disk without faults.
use zeropool_relayer_rs.Prelude.{
  ℕ, zero, suc, ◌+◌, ◌^◌, ◌≤◌, ◌<◌, ◌≡◌, refl, ◌∙◌, ◌⊎◌, inl, inr, arith,
}
use zeropool_relayer_rs.Exec.{ok}
use zeropool_relayer_rs.Exec.Disk.{sound}
use zeropool_relayer_rs.Crates.{Crates}
use zeropool_relayer_rs.Merkle.Storage.{Tables, delete_tx}
use zeropool_relayer_rs.Merkle.Tree.{MerkleTree, tree_height, delete_from}
use zeropool_relayer_rs.Merkle.View.{
  default_hash, value, removed, IsReadable, value-removed_self, value-removed_ne,
  IsReadable-removed,
}
use zeropool_relayer_rs.Merkle.Consistent.{key_ne}

module _ (c : Crates) where
  -- The `count` nodes of depth `d` from `i` on are deleted.
  pub cut : Tables c → ℕ → ℕ → ℕ → Tables c
  cut tx d i zero = tx
  cut tx d i (suc count) = cut (removed c tx d i) d (i + 1) count

  pub delete_from_lem :
      (tree : MerkleTree c) (t tx : Tables c) (d i count : ℕ)
      → delete_from c tree tx d i count (sound t) ≡ (ok (cut tx d i count), sound t)
  unfolding delete_from cut delete_tx
  delete_from_lem tree t tx d i zero = refl
  delete_from_lem tree t tx d i (suc count) =
      delete_from_lem tree t (removed c tx d i) d (i + 1) count

  pub IsReadable-cut :
      (tx : Tables c) (d i count : ℕ) → IsReadable c tx → IsReadable c (cut tx d i count)
  unfolding cut
  IsReadable-cut tx d i zero r = r
  IsReadable-cut tx d i (suc count) r =
      IsReadable-cut (removed c tx d i) d (i + 1) count (IsReadable-removed c tx d i r)

  pub meta-cut : (tx : Tables c) (d i count : ℕ) → (cut tx d i count).meta_index ≡ tx.meta_index
  unfolding cut
  meta-cut tx d i zero = refl
  meta-cut tx d i (suc count) = meta-cut (removed c tx d i) d (i + 1) count

  pub roots-cut : (tx : Tables c) (d i count : ℕ) → (cut tx d i count).roots ≡ tx.roots
  unfolding cut
  roots-cut tx d i zero = refl
  roots-cut tx d i (suc count) = roots-cut (removed c tx d i) d (i + 1) count

  module _ (small : tree_height c ≤ 62) (d : ℕ) (hd : d ≤ tree_height c) where
    -- A node outside of the range keeps its value.
    pub value-cut_out :
        (tx : Tables c) (i count e j : ℕ)
        → i + count ≤ 2 ^ d
        → e ≤ tree_height c
        → j < 2 ^ e
        → ¬ ((d ≡ e) × (i ≤ j) × (j < i + count))
        → value c (cut tx d i count) e j ≡ value c tx e j
    unfolding cut
    value-cut_out tx i zero e j fits he hj out = refl
    value-cut_out tx i (suc count) e j fits he hj out =
        value-cut_out (removed c tx d i) (i + 1) count e j (omega arith) he hj
          (λ s. out (s.0, omega (arith, s.1), omega (arith, s.2)))
        ∙ value-removed_ne c tx d i e j (
            key_ne c small d e i j hd he (omega arith) hj
              (λ s. out (s.0, omega (arith, s.1), omega (arith, s.1))))

    at_or_after : (i j : ℕ) → i ≤ j → (i ≡ j) ⊎ (i + 1 ≤ j)
    at_or_after i j h = omega arith

    -- A node in the range has the default hash.
    pub value-cut_in :
        (tx : Tables c) (i count j : ℕ)
        → i + count ≤ 2 ^ d
        → i ≤ j
        → j < i + count
        → value c (cut tx d i count) d j ≡ default_hash c d
    unfolding cut
    value-cut_in tx i zero j fits lo hi = absurd (omega arith)
    value-cut_in tx i (suc count) j fits lo hi = elim (at_or_after i j lo) [
      | inl e ↦
          value-cut_out (removed c tx d i) (i + 1) count d j (omega arith) hd (omega arith)
            (λ s. absurd (omega (arith, s.1)))
          ∙ rw (← e) (value-removed_self c tx d i)
      | inr later ↦
          value-cut_in (removed c tx d i) (i + 1) count j (omega arith) later (omega arith)
    ]
