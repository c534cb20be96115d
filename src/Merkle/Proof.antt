-- ===== src/Merkle/Proof.antt =====
-- `zp_merkle_proof` of src/merkle_tree.rs on a disk without faults. `proof_root` is what a verifier
-- computes from a leaf, its siblings from the bottom up, and the turns in the same order.
use mathlib.Core.List.{reverse-append}
use zeropool_relayer_rs.Prelude.{
  ℕ, zero, suc, ◌+◌, ◌/◌, ◌^◌, ◌≤◌, ◌<◌, ◌≡◌, refl, ap, sym, ◌∙◌, bit_and, bit_xor, shr, shr-suc,
  Bool, List, [], ◌∷◌, ◌++◌, reverse, ◌==◌, arith, if◌then◌else◌,
}
use zeropool_relayer_rs.Exec.{ok, bind_ok}
use zeropool_relayer_rs.Exec.Disk.{sound}
use zeropool_relayer_rs.Crates.{Crates}
use zeropool_relayer_rs.Merkle.Storage.{Tables}
use zeropool_relayer_rs.Merkle.Tree.{
  MerkleTree, MerkleProof, tree_height, get_node_with_default, merkle_proof_loop, path_bits,
  zp_merkle_proof,
}
use zeropool_relayer_rs.Merkle.View.{value, IsReadable, HasDefaults, get_node_with_default_lem}
use zeropool_relayer_rs.Merkle.Consistent.{half_lt, IsMerkle, parent_hash_lem}
use zeropool_relayer_rs.Merkle.Rollback.{sibling_order}
use zeropool_relayer_rs.Merkle.Spec.{root_of, leaf_at, Represents, value-root}

-- The turns from the bottom up: bit `i` first.
turns : ℕ → ℕ → ℕ → List Bool
turns index i zero = []
turns index i (suc n) = (bit_and (shr index i) 1 == 1) ∷ turns index (i + 1) n

turns-snoc :
    (index i n : ℕ)
    → turns index i (suc n) ≡ turns index i n ++ (bit_and (shr index (i + n)) 1 == 1) ∷ []
unfolding turns
turns-snoc index i zero =
    let e : i + 0 ≡ i = omega arith in ap (λ x. (bit_and (shr index x) 1 == 1) ∷ []) (sym e)
turns-snoc index i (suc n) =
    let e : i + 1 + n ≡ i + suc n = omega arith in
    ap (λ l. (bit_and (shr index i) 1 == 1) ∷ l)
      (turns-snoc index (i + 1) n
        ∙ ap (λ x. turns index (i + 1) n ++ (bit_and (shr index x) 1 == 1) ∷ []) e)

module _ (c : Crates) where
  open c use {Hash, poseidon}

  pub proof_root : Hash → List Hash → List Bool → Hash
  proof_root h [] turns = h
  proof_root h (s ∷ siblings) [] = h
  proof_root h (s ∷ siblings) (right ∷ turns) =
      proof_root (if right then poseidon s h else poseidon h s) siblings turns

  reverse-path_bits : (index n : ℕ) → turns index 0 n ≡ reverse (path_bits c index n)
  unfolding turns path_bits
  reverse-path_bits index zero = refl
  reverse-path_bits index (suc n) =
      let e : 0 + n ≡ n = omega arith in
      turns-snoc index 0 n
      ∙ rw (e, reverse-path_bits index n)
          (sym (reverse-append ((bit_and (shr index n) 1 == 1) ∷ []) (path_bits c index n)))

  siblings : Tables c → ℕ → ℕ → ℕ → List Hash
  siblings t index i zero = []
  siblings t index i (suc d) =
      value c t (suc d) (bit_xor (shr index i) 1) ∷ siblings t index (i + 1) d

  module _ (tree : MerkleTree c) (defaults : HasDefaults c tree) (t : Tables c) where
    merkle_proof_loop_lem :
        (index i d : ℕ)
        → IsReadable c t
        → d ≤ tree_height c
        → merkle_proof_loop c tree index i d (sound t) ≡ (ok (siblings t index i d), sound t)
    unfolding merkle_proof_loop siblings
    merkle_proof_loop_lem index i zero r h = refl
    merkle_proof_loop_lem index i (suc d) r h =
        bind_ok (get_node_with_default c tree (suc d) (bit_xor (shr index i) 1)) _ (sound t)
          (get_node_with_default_lem c tree defaults t (suc d) (bit_xor (shr index i) 1) r h)
        ∙ bind_ok (merkle_proof_loop c tree index (i + 1) d) _ (sound t)
            (merkle_proof_loop_lem index (i + 1) d r (omega arith))

    proof_root-path :
        (index i d : ℕ)
        → IsMerkle c t
        → d ≤ tree_height c
        → shr index i < 2 ^ d
        → proof_root (value c t d (shr index i)) (siblings t index i d) (turns index i d)
          ≡ value c t 0 0
    unfolding proof_root siblings turns
    proof_root-path index i zero m h lt = let e : shr index i ≡ 0 = omega arith in rw e
    proof_root-path index i (suc d) m h lt =
        let p = shr index i in
        let half : shr index (i + 1) ≡ p / 2 = shr-suc index i in
        let up = m.at d (p / 2) h (half_lt d p lt) in
        let step : (if bit_and p 1 == 1
              then poseidon (value c t (suc d) (bit_xor p 1)) (value c t (suc d) p)
              else poseidon (value c t (suc d) p) (value c t (suc d) (bit_xor p 1)))
            ≡ value c t d (shr index (i + 1)) =
          sibling_order c p (value c t (suc d) p) (value c t (suc d) (bit_xor p 1))
          ∙ parent_hash_lem c (λ k. value c t (suc d) k) p
          ∙ sym up
          ∙ ap (λ k. value c t d k) (sym half) in
        ap (λ x. proof_root x (siblings t index (i + 1) d) (turns index (i + 1) d)) step
        ∙ proof_root-path index (i + 1) d m (omega arith) (rw half (half_lt d p lt))

    -- Where the database holds the tree over a list of leaves, the height is at most 62 and no I/O
    -- call fails, the proof for any leaf gives the root of the list, if the turns of its path are
    -- read from the end.
    pub proof_root-zp_merkle_proof :
        (leaves : List Hash) (index : ℕ)
        → Represents c t leaves
        → index < 2 ^ tree_height c
        → (p : MerkleProof c) × (zp_merkle_proof c tree index (sound t) ≡ (ok p, sound t))
          × (proof_root (leaf_at c leaves index) p.sibling (reverse p.path) ≡ root_of c leaves)
    unfolding zp_merkle_proof
    proof_root-zp_merkle_proof leaves index r h =
        let start : shr index 0 ≡ index = omega arith in
        (
          record {
            sibling = siblings t index 0 (tree_height c);
            path = path_bits c index (tree_height c);
          },
          bind_ok (merkle_proof_loop c tree index 0 (tree_height c)) _ (sound t)
              (merkle_proof_loop_lem index 0 (tree_height c) r.readable (omega arith)),
          rw (← reverse-path_bits index (tree_height c), ← r.at index h)
              (ap
                  (λ k.
                    proof_root (value c t (tree_height c) k) (siblings t index 0 (tree_height c))
                      (turns index 0 (tree_height c)))
                  (sym start)
                ∙ proof_root-path index 0 (tree_height c) r.merkle (omega arith) (rw start h)
                ∙ value-root c t leaves r),
        )
