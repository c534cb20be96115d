-- ===== src/Merkle/RollbackLoop.antt =====
-- The whole loop of `rollback` (src/merkle_tree.rs) on a disk without faults.
use zeropool_relayer_rs.Prelude.{
  ℕ, zero, suc, ◌+◌, ◌-◌, ◌/◌, ◌^◌, ◌≤◌, ◌<◌, ◌≡◌, refl, ap, ◌∙◌, bit_xor, shr, shr-suc, arith,
}
use zeropool_relayer_rs.Exec.{ok, bind_ok}
use zeropool_relayer_rs.Exec.Disk.{sound}
use zeropool_relayer_rs.Crates.{Crates}
use zeropool_relayer_rs.Merkle.Storage.{Tables}
use zeropool_relayer_rs.Merkle.Tree.{
  MerkleTree, tree_height, node_or_default, put_node, delete_from, rollback_loop,
}
use zeropool_relayer_rs.Merkle.View.{
  default_hash, value, IsReadable, HasDefaults, node_or_default_lem, put_node_lem,
}
use zeropool_relayer_rs.Merkle.Consistent.{half_lt, IsMerkle}
use zeropool_relayer_rs.Merkle.Cut.{delete_from_lem, IsReadable-cut, meta-cut, roots-cut}
use zeropool_relayer_rs.Merkle.Insert.{meta-written, roots-written}
use zeropool_relayer_rs.Merkle.Rollback.{sibling_order, IsCut, tx₁, path_hash, tx₂, round}

module _ (c : Crates) where
  open c use {Hash}

  -- A hash tree with the wanted leaves, the other indexes as in `tx`.
  pub record IsRolledBack (goal : ℕ → Hash) (tx tx' : Tables c) : Type 0 where
    pub readable : IsReadable c tx'
    pub merkle : IsMerkle c tx'
    pub leaves : (j : ℕ) → j < 2 ^ tree_height c → value c tx' (tree_height c) j ≡ goal j
    pub meta : tx'.meta_index ≡ tx.meta_index
    pub roots : tx'.roots ≡ tx.roots

  IsRolledBack-end :
      (old : ℕ) (goal : ℕ → Hash) (tx : Tables c) (cur : ℕ)
      → IsCut c old goal tx 0 cur
      → IsRolledBack goal tx tx
  IsRolledBack-end old goal tx cur k = record {
    readable = k.readable;
    merkle = record {
      at = λ e j he hj.
          k.consistent e j he hj (λ s. omega (arith, s.1, rw s.0 at hj))
            (λ s. absurd (omega (arith, s.0)));
    };
    leaves = λ j hj. k.leaves j hj (λ s. omega (arith, s.1, rw (← s.0) at hj));
    meta = refl;
    roots = refl;
  }

  module _ (small : tree_height c ≤ 62) (tree : MerkleTree c) (defaults : HasDefaults c tree)
      (t : Tables c) (index old : ℕ) (goal : ℕ → Hash)
      (free : (j : ℕ) → index < j → goal j ≡ default_hash c (tree_height c)) where
    pub rollback_loop_lem :
        (d h : ℕ) (tx : Tables c)
        → h + d ≡ tree_height c
        → shr index h ≤ shr old h
        → shr old h < 2 ^ d
        → IsCut c old goal tx d (shr index h)
        → (tx' : Tables c) × (rollback_loop c tree index old h d tx (sound t) ≡ (ok tx', sound t))
          × IsRolledBack goal tx tx'
    unfolding rollback_loop
    rollback_loop_lem zero h tx e le lt k = (tx, refl, IsRolledBack-end old goal tx (shr index h) k)
    rollback_loop_lem (suc d) h tx e le lt k =
        let cur = shr index h in
        let last = shr old h in
        let hd : suc d ≤ tree_height c = omega arith in
        let hc : cur < 2 ^ suc d = omega arith in
        let el : last ≡ shr old (tree_height c - suc d) = ap (λ x. shr old x) (omega arith) in
        let a = tx₁ c small old goal tx d cur k hd hc last el lt le in
        let b = tx₂ c small old goal tx d cur k hd hc last el lt le in
        let ra = IsReadable-cut c tx (suc d) (cur + 1) (last - cur) k.readable in
        let next = round c small old goal tx d cur k hd hc last el lt le (λ j top right.
          free j (omega (arith, (let z : h ≡ 0 = omega arith in ap (λ x. shr index x) z)))) in
        let (tx', run, re) =
          rollback_loop_lem d (h + 1) b (omega arith)
            (omega (arith, shr-suc index h, shr-suc old h)) (rw (shr-suc old h) (half_lt d last lt))
            (rw (shr-suc index h) next) in
        (
          tx',
          bind_ok (delete_from c tree tx (suc d) (cur + 1) (last - cur)) _ (sound t)
                (delete_from_lem c tree t tx (suc d) (cur + 1) (last - cur))
              ∙ bind_ok (node_or_default c tree a (suc d) cur) _ (sound t)
                  (node_or_default_lem c tree defaults t a (suc d) cur ra hd)
              ∙ bind_ok (node_or_default c tree a (suc d) (bit_xor cur 1)) _ (sound t)
                  (node_or_default_lem c tree defaults t a (suc d) (bit_xor cur 1) ra hd)
              ∙ rw (sibling_order c cur (value c a (suc d) cur) (value c a (suc d) (bit_xor cur 1)))
                  (bind_ok
                      (put_node c tree a d (cur / 2)
                        (path_hash c small old goal tx d cur k hd hc last el lt le))
                      _ (sound t)
                      (put_node_lem c tree defaults t a d (cur / 2)
                        (path_hash c small old goal tx d cur k hd hc last el lt le) (omega arith))
                    ∙ run),
          record {
            readable = re.readable;
            merkle = re.merkle;
            leaves = re.leaves;
            meta =
                re.meta
                ∙ meta-written c a d (cur / 2) _
                ∙ meta-cut c tx (suc d) (cur + 1) (last - cur);
            roots =
                re.roots
                ∙ roots-written c a d (cur / 2) _
                ∙ roots-cut c tx (suc d) (cur + 1) (last - cur);
          },
        )
