-- ===== src/Merkle/Insert.antt =====
-- `set_node` and `add_leaf` of src/merkle_tree.rs on a disk without faults.
use zeropool_relayer_rs.Prelude.{
  ℕ, zero, suc, ◌+◌, ◌*◌, ◌/◌, ◌^◌, ◌≤◌, ◌<◌, ◌≡◌, refl, sym, ◌∙◌, bit_xor, shr, shr-suc, arith,
}
use zeropool_relayer_rs.Exec.{ok, bind_ok}
use zeropool_relayer_rs.Exec.Disk.{begin, commit, sound}
use zeropool_relayer_rs.Crates.{Crates}
use zeropool_relayer_rs.Merkle.Storage.{Tables, set_tx}
use zeropool_relayer_rs.Merkle.Tree.{
  MerkleTree, tree_height, parent_hash, node_or_default, put_node, set_node_loop, set_node,
}
use zeropool_relayer_rs.Merkle.View.{
  value, stored, written, IsReadable, HasDefaults, node_or_default_lem, put_node_lem,
  value-stored_self, value-stored_ne, value-written_self, value-written_ne, IsReadable-stored,
  IsReadable-written,
}
use zeropool_relayer_rs.Merkle.Consistent.{
  double_lt, half_lt, IsMerkle, IsMerkleAbove, parent_hash_lem, key_ne, written-IsConsistentAt,
}

module _ (c : Crates) where
  open c use {Hash, poseidon, hash_eq}

  pub meta-written :
      (tx : Tables c) (d p : ℕ) (h : Hash) → (written c tx d p h).meta_index ≡ tx.meta_index
  meta-written tx d p h = ground arith

  pub roots-written : (tx : Tables c) (d p : ℕ) (h : Hash) → (written c tx d p h).roots ≡ tx.roots
  roots-written tx d p h = ground arith

  -- `tx'` is a hash tree over the leaves of `tx`, and differs from it in inner nodes only.
  pub record IsRehash (tx tx' : Tables c) : Type 0 where
    pub readable : IsReadable c tx'
    pub merkle : IsMerkle c tx'
    pub leaves :
        (j : ℕ)
        → j < 2 ^ tree_height c
        → value c tx' (tree_height c) j ≡ value c tx (tree_height c) j
    pub meta : tx'.meta_index ≡ tx.meta_index
    pub roots : tx'.roots ≡ tx.roots

  module _ (small : tree_height c ≤ 62) (tree : MerkleTree c) (defaults : HasDefaults c tree) where
    stored-IsMerkleAbove :
        (tx : Tables c) (n : ℕ) (h : Hash)
        → n < 2 ^ tree_height c
        → IsMerkle c tx
        → IsMerkleAbove c (stored c tx (tree_height c) n h) (tree_height c) n
    stored-IsMerkleAbove tx n h hn m = record {
      at = λ e j he hj up.
          let same =
            λ (d i : ℕ) (hd : d ≤ tree_height c) (hi : i < 2 ^ d)
                (ne : ¬ ((tree_height c ≡ d) × (n ≡ i))).
              value-stored_ne c tx (tree_height c) n h d i
                (key_ne c small (tree_height c) d n i (omega arith) hd hn hi ne) in
          cc (
            m.at e j he hj,
            same e j (omega arith) hj (λ s. absurd (omega (arith, s.0))),
            same (suc e) (2 * j) he (omega (arith, double_lt e j hj))
                (λ s. up (sym s.0, omega (arith, s.1))),
            same (suc e) (2 * j + 1) he (double_lt e j hj) (λ s. up (sym s.0, omega (arith, s.1))),
          );
    }

    module _ (t : Tables c) (index : ℕ) where
      -- The loop recomputes the path from node (d, index >> i) to the root.
      pub set_node_loop_lem :
          (d i : ℕ) (cur_hash : Hash) (tx : Tables c)
          → d ≤ tree_height c
          → shr index i < 2 ^ d
          → IsReadable c tx
          → cur_hash ≡ value c tx d (shr index i)
          → IsMerkleAbove c tx d (shr index i)
          → (tx' : Tables c) × (set_node_loop c tree index i d cur_hash tx (sound t)
              ≡ (ok tx', sound t))
            × IsRehash tx tx'
      unfolding set_node_loop
      set_node_loop_lem zero i cur_hash tx hd hp r eh m = (
        tx,
        refl,
        record {
          readable = r;
          merkle = record { at = λ e j he hj. m.at e j he hj (λ s. absurd (omega (arith, s.0))) };
          leaves = λ j hj. refl;
          meta = refl;
          roots = refl;
        },
      )
      set_node_loop_lem (suc d) i cur_hash tx hd hp r eh m =
          let p = shr index i in
          let sib = bit_xor p 1 in
          let h = parent_hash c p cur_hash (value c tx (suc d) sib) in
          let tx₁ = written c tx d (p / 2) h in
          let eh' : h
              ≡ poseidon (value c tx (suc d) (2 * (p / 2))) (value c tx (suc d) (2 * (p / 2) + 1)) =
            rw eh (parent_hash_lem c (λ k. value c tx (suc d) k) p) in
          let half : shr index (i + 1) ≡ p / 2 = shr-suc index i in
          let above : IsMerkleAbove c tx₁ d (p / 2) = record {
            at = λ e j he hj up.
                written-IsConsistentAt c small tx d (p / 2) h hd (half_lt d p hp) eh' e j he hj up
                  (λ ne. m.at e j he hj (λ s. ne (omega (arith, s.0), s.1)));
          } in
          let (tx', run, re) =
            set_node_loop_lem d (i + 1) h tx₁ (omega arith) (rw half (half_lt d p hp))
              (IsReadable-written c tx d (p / 2) h r)
              (rw half (sym (value-written_self c tx d (p / 2) h))) (rw half above) in
          (
            tx',
            bind_ok (node_or_default c tree tx (suc d) sib) _ (sound t)
                  (node_or_default_lem c tree defaults t tx (suc d) sib r hd)
                ∙ bind_ok (put_node c tree tx d (p / 2) h) _ (sound t)
                    (put_node_lem c tree defaults t tx d (p / 2) h (omega arith))
                ∙ run,
            record {
              readable = re.readable;
              merkle = re.merkle;
              leaves = λ j hj.
                  re.leaves j hj
                  ∙ value-written_ne c tx d (p / 2) h (tree_height c) j (
                      key_ne c small d (tree_height c) (p / 2) j (omega arith) (omega arith)
                        (half_lt d p hp) hj (λ s. absurd (omega (arith, s.0))));
              meta = re.meta ∙ meta-written tx d (p / 2) h;
              roots = re.roots ∙ roots-written tx d (p / 2) h;
            },
          )

    pub set_node_lem :
        (t : Tables c) (n : ℕ) (h : Hash)
        → n < 2 ^ tree_height c
        → IsReadable c t
        → IsMerkle c t
        → (tx' : Tables c) × (set_node c tree (tree_height c) n h (sound t) ≡ (ok tt, sound tx'))
          × IsRehash (stored c t (tree_height c) n h) tx'
    unfolding set_node set_tx begin commit
    set_node_lem t n h hn r m =
        let tx = stored c t (tree_height c) n h in
        let start : shr n 0 ≡ n = omega arith in
        let (tx', run, re) =
          set_node_loop_lem t n (tree_height c) 0 h tx (omega arith) (rw start hn)
            (IsReadable-stored c t (tree_height c) n h r)
            (rw start (sym (value-stored_self c t (tree_height c) n h)))
            (rw start (stored-IsMerkleAbove t n h hn m)) in
        (tx', bind_ok (set_node_loop c tree n 0 (tree_height c) h tx) _ (sound t) run, re)
