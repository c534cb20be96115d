-- ===== src/Merkle/RollbackRoots.antt =====
-- What `rollback` does to the historic roots (src/merkle_tree.rs).
use zeropool_relayer_rs.Prelude.{
  ℕ, zero, suc, ◌+◌, ◌≤◌, ◌<◌, ◌≡◌, refl, ◌∙◌, inl, inr, Bool-cases, false, none, ◌==◌, ==_iff,
  arith,
}
use zeropool_relayer_rs.Exec.{ok}
use zeropool_relayer_rs.Exec.Disk.{sound}
use zeropool_relayer_rs.Crates.{Crates}
use zeropool_relayer_rs.Merkle.Storage.{Tables, delete_roots_tx}

module _ (c : Crates) where
  pub cut_roots : c.roots.Table → ℕ → ℕ → c.roots.Table
  cut_roots roots i zero = roots
  cut_roots roots i (suc count) = cut_roots (c.roots.remove i roots) (i + 1) count

  pub delete_roots_tx_lem :
      (t tx : Tables c) (i count : ℕ)
      → delete_roots_tx c tx i count (sound t)
        ≡ (ok (record tx { roots = cut_roots tx.roots i count }), sound t)
  unfolding delete_roots_tx cut_roots
  delete_roots_tx_lem t tx i zero = refl
  delete_roots_tx_lem t tx i (suc count) =
      delete_roots_tx_lem t (record tx { roots = c.roots.remove i tx.roots }) (i + 1) count

  pub one-cut_roots_out :
      (roots : c.roots.Table) (i count k : ℕ)
      → ¬ ((i ≤ k) × (k < i + count))
      → c.roots.one k (cut_roots roots i count) ≡ c.roots.one k roots
  unfolding cut_roots
  one-cut_roots_out roots i zero k out = refl
  one-cut_roots_out roots i (suc count) k out =
      one-cut_roots_out (c.roots.remove i roots) (i + 1) count k
        (λ s. out (omega (arith, s.0), omega (arith, s.1)))
      ∙ rw (c.roots.one-remove, differ)
    where
      differ : (i == k) ≡ false
      differ = elim (Bool-cases (i == k)) [
        | inl e ↦ absurd (out (omega (arith, (==_iff i k).0 e), omega (arith, (==_iff i k).0 e)))
        | inr e ↦ e
      ]

  pub one-cut_roots_in :
      (roots : c.roots.Table) (i count k : ℕ)
      → i ≤ k
      → k < i + count
      → c.roots.one k (cut_roots roots i count) ≡ none
  unfolding cut_roots
  one-cut_roots_in roots i zero k lo hi = absurd (omega arith)
  one-cut_roots_in roots i (suc count) k lo hi = elim (Bool-cases (i == k)) [
    | inl e ↦
        one-cut_roots_out (c.roots.remove i roots) (i + 1) count k
          (λ s. omega (arith, s.0, (==_iff i k).0 e))
        ∙ rw (c.roots.one-remove, e)
    | inr ne ↦
        one-cut_roots_in (c.roots.remove i roots) (i + 1) count k (ground arith) (omega arith)
  ]
