-- ===== src/Merkle/RollbackTo.antt =====
-- `rollback` of src/merkle_tree.rs against the list of leaves.
use zeropool_relayer_rs.Prelude.{
  ℕ, zero, suc, ◌+◌, ◌-◌, ◌*◌, ◌/◌, ◌^◌, ◌≤◌, ◌<◌, ◌≡◌, refl, ap, sym, ◌∙◌, ◌⊎◌, inl, inr, some,
  List, length, take, length-take, get_elem?-take, get_elem?-past, unwrap_or, shr, shr-suc, leb,
  arith, ◌==◌, false,
}
use zeropool_relayer_rs.Exec.{ok, bind_ok}
use zeropool_relayer_rs.Exec.Disk.{sound, begin, commit}
use zeropool_relayer_rs.Crates.{Crates}
use zeropool_relayer_rs.Merkle.Storage.{
  Tables, get_num_leaves, set_num_leaves_tx, delete_tx, delete_roots_tx,
}
use zeropool_relayer_rs.Merkle.Tree.{MerkleTree, tree_height, rollback_loop, rollback_to, rollback}
use zeropool_relayer_rs.Merkle.View.{
  default_hash, default_hash-children, value, removed, HasDefaults, value-removed_self,
  value-removed_ne, IsReadable-removed,
}
use zeropool_relayer_rs.Merkle.Consistent.{double_lt, key_ne}
use zeropool_relayer_rs.Merkle.Rollback.{IsCut}
use zeropool_relayer_rs.Merkle.RollbackLoop.{rollback_loop_lem}
use zeropool_relayer_rs.Merkle.RollbackRoots.{cut_roots, delete_roots_tx_lem}
use zeropool_relayer_rs.Merkle.Spec.{leaf_at, Represents}

not_right : {n : ℕ} (j : ℕ) → ¬ (n < j) → j ≤ n
not_right j ne = omega arith

module _ (c : Crates) where
  open c use {Hash, height, outplusonelog_le}

  leaf_at-past :
      (leaves : List Hash) (j : ℕ)
      → length leaves ≤ j
      → leaf_at c leaves j ≡ default_hash c (tree_height c)
  leaf_at-past leaves j h = rw (get_elem?-past leaves j h)

  -- Right of the last leaf every node has the default hash.
  beyond_leaves :
      (t : Tables c) (leaves : List Hash)
      → Represents c t leaves
      → (k e j : ℕ) → e + k ≡ tree_height c
      → j < 2 ^ e
      → shr (length leaves) k < j
      → value c t e j ≡ default_hash c e
  beyond_leaves t leaves r zero e j s hj out =
      let top : e ≡ tree_height c = omega arith in
      rw top (r.at j (rw top at hj) ∙ leaf_at-past leaves j (omega arith))
  beyond_leaves t leaves r (suc k) e j s hj out =
      let half = shr-suc (length leaves) k in
      let one_more : suc k ≡ k + 1 = omega arith in
      let out' : shr (length leaves) k / 2 < j = rw (one_more, half) at out in
      cc (
        r.merkle.at e j (omega arith) hj,
        beyond_leaves t leaves r k (suc e) (2 * j) (omega arith) (omega (arith, double_lt e j hj))
            (omega arith),
        beyond_leaves t leaves r k (suc e) (2 * j + 1) (omega arith) (double_lt e j hj)
            (omega arith),
        default_hash-children c e (omega arith),
      )

  module _ (small : tree_height c ≤ 62) (tree : MerkleTree c) (defaults : HasDefaults c tree)
      (t : Tables c) (leaves : List Hash) (n : ℕ) (r : Represents c t leaves)
      (lower : n < length leaves) (room : length leaves < 2 ^ tree_height c) where
    abbrev pub unrooted : Tables c
    unrooted = record t {
      meta_index = c.meta_index.put "num_leaves" n t.meta_index;
      roots = cut_roots c t.roots n (length leaves - n);
    }

    abbrev start : Tables c
    start = removed c unrooted (tree_height c) n

    same :
        (e j : ℕ)
        → e ≤ tree_height c
        → j < 2 ^ e
        → ¬ ((tree_height c ≡ e) × (n ≡ j))
        → value c start e j ≡ value c t e j
    unfolding value
    same e j he hj ne =
        value-removed_ne c unrooted (tree_height c) n e j
          (key_ne c small (tree_height c) e n j (omega arith) he (omega arith) hj ne)

    leaf_goal :
        (j : ℕ)
        → j < 2 ^ tree_height c
        → j ≤ n
        → value c start (tree_height c) j ≡ leaf_at c (take n leaves) j
    leaf_goal j hj le = elim (le_cases j le) [
      | inl lt ↦
          same (tree_height c) j (omega arith) hj (λ s. omega (arith, s.1))
          ∙ r.at j hj
          ∙ ap (λ o. unwrap_or o (default_hash c (tree_height c)))
              (sym (get_elem?-take n leaves j lt))
      | inr e ↦ rw e (
          value-removed_self c unrooted (tree_height c) n
          ∙ sym
              (leaf_at-past (take n leaves) n (omega (arith, length-take n leaves (omega arith)))))
    ]
      where
        le_cases : (j : ℕ) → j ≤ n → (j < n) ⊎ (j ≡ n)
        le_cases j h = omega arith

    start-IsCut :
        IsCut c (length leaves) (leaf_at c (take n leaves)) start (tree_height c) (shr n 0)
    start-IsCut =
        let zero_shift : shr n 0 ≡ n = omega arith in
        rw zero_shift (record {
          readable = record { reads = (IsReadable-removed c t (tree_height c) n r.readable).reads };
          consistent = λ e j he hj right up. cc (
            r.merkle.at e j he hj,
            same e j (omega arith) hj (λ s. omega (arith, s.0)),
            same (suc e) (2 * j) he (omega (arith, double_lt e j hj))
                (λ s. up (sym s.0, omega (arith, s.1))),
            same (suc e) (2 * j + 1) he (double_lt e j hj) (λ s. up (sym s.0, omega (arith, s.1))),
          );
          below = λ j h hj lo. absurd (omega arith);
          beyond = λ e j he hj out.
              same e j he hj (λ s.
                let top : tree_height c - e ≡ 0 = omega (arith, s.0) in
                omega (arith, s.1, ap (λ x. shr (length leaves) x) top))
              ∙ beyond_leaves t leaves r (tree_height c - e) e j (omega arith) hj out;
          leaves = λ j hj ne. leaf_goal j hj (not_right j (λ lt. ne (refl, lt)));
        })

    -- The part of `rollback` after its guards, and what its tables hold.
    pub rollback_to_lem :
        (t' : Tables c) × (rollback_to c tree n (length leaves) (sound t) ≡ (ok tt, sound t'))
        × (Represents c t' (take n leaves) × (t'.roots ≡ cut_roots c t.roots n (length leaves - n)))
    unfolding rollback_to set_num_leaves_tx delete_tx begin commit
    rollback_to_lem =
        let (t', run, re) =
          rollback_loop_lem c small tree defaults t n (length leaves) (leaf_at c (take n leaves))
            (λ j h.
              leaf_at-past (take n leaves) j (omega (arith, length-take n leaves (omega arith))))
            (tree_height c) 0 start (omega arith) (omega arith) (omega arith) start-IsCut in
        (
          t',
          bind_ok (delete_roots_tx c t n (length leaves - n)) _ (sound t)
                (delete_roots_tx_lem c t t n (length leaves - n))
              ∙ bind_ok (rollback_loop c tree n (length leaves) 0 (tree_height c) start) _ (sound t)
                  run,
          (
            record {
              readable = re.readable;
              merkle = re.merkle;
              count = rw (re.meta) (
                  c.meta_index.one-put "num_leaves" "num_leaves" n t.meta_index
                  ∙ ap (λ k. some k) (sym (length-take n leaves (omega arith))));
              at = re.leaves;
            },
            re.roots,
          ),
        )

    -- `rollback` to a smaller, positive number of leaves.
    pub rollback_lem :
        0 < n
        → (t' : Tables c) × (rollback c tree n (sound t) ≡ (ok tt, sound t'))
          × (Represents c t' (take n leaves)
              × (t'.roots ≡ cut_roots c t.roots n (length leaves - n)))
    unfolding rollback get_num_leaves
    rollback_lem pos =
        let (t', run, rest) = rollback_to_lem in
        let positive : (n == 0) ≡ false = ground arith in
        let below : leb (length leaves) n ≡ false = ground arith in
        (t', rw (positive, r.count, below) run, rest)
