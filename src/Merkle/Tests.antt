-- ===== src/Merkle/Tests.antt =====
-- Examples for src/merkle_tree.rs over the sample crates: a tree with room for four leaves.
use zeropool_relayer_rs.Prelude.{
  ℕ, suc, ◌+◌, ◌^◌, ◌≤◌, ◌<◌, ◌^◌, ◌≤◌, ◌<◌, ◌≡◌, none, some, List, [], ◌∷◌, take, reverse, arith,
}
use zeropool_relayer_rs.Exec.{ok}
use zeropool_relayer_rs.Exec.Disk.{sound, IsAtomic}
use zeropool_relayer_rs.Sample.{sample}
use zeropool_relayer_rs.Merkle.Storage.{Tables}
use zeropool_relayer_rs.Merkle.Storage.{key}
use zeropool_relayer_rs.Merkle.Keys.{key_numbers}
use zeropool_relayer_rs.Merkle.Tree.{
  MerkleTree, MerkleProof, tree_height, set_node, add_leaf, root, num_leaves, historic_root,
  rollback, zp_merkle_proof, open_tree, open_or_create,
}
use zeropool_relayer_rs.Merkle.View.{HasDefaults}
use zeropool_relayer_rs.Merkle.Spec.{leaf_at, root_of, Represents, Remembers}
use zeropool_relayer_rs.Merkle.Open.{opened, initial, opened-HasDefaults, open_tree-Represents}
use zeropool_relayer_rs.Merkle.AddLeaf.{add_leaf-Represents}
use zeropool_relayer_rs.Merkle.History.{rollback-history, rollback_to_zero}
use zeropool_relayer_rs.Merkle.Grow.{add_leaves, open-add-query}
use zeropool_relayer_rs.Merkle.Proof.{proof_root, proof_root-zp_merkle_proof}
use zeropool_relayer_rs.Merkle.Atomic.{set_node-IsAtomic, rollback-IsAtomic}

abbrev tree : MerkleTree sample
tree = opened sample

abbrev empty_tables : Tables sample
empty_tables = initial sample

abbrev small : tree_height sample ≤ 62
small = omega arith

abbrev defaults : HasDefaults sample tree
defaults = opened-HasDefaults sample

-- What a call of `add_leaf` gives: the tables, and what they hold.
abbrev Added : Tables sample → ℕ → List ℕ → Type 0
Added t h leaves =
    (t' : Tables sample) × (add_leaf sample tree h (sound t) ≡ (ok tt, sound t'))
    × Represents sample t' leaves
    × Remembers sample t' leaves

abbrev with_one : Added empty_tables 11 (11 ∷ [])
with_one =
    add_leaf-Represents sample small tree defaults [] (omega arith) empty_tables 11
      (open_tree-Represents sample).2 (open_tree-Represents sample).3

abbrev with_two : Added with_one.0 22 (11 ∷ 22 ∷ [])
with_two =
    add_leaf-Represents sample small tree defaults (11 ∷ []) (omega arith) with_one.0 22 with_one.2
      with_one.3

add_leaf-Represents_example : Added with_two.0 33 (11 ∷ 22 ∷ 33 ∷ [])
add_leaf-Represents_example =
    add_leaf-Represents sample small tree defaults (11 ∷ 22 ∷ []) (omega arith) with_two.0 33
      with_two.2 with_two.3

abbrev two : List ℕ
two = 11 ∷ 22 ∷ []

open-add-query_example :
    (tree : MerkleTree sample) × (t0 t : Tables sample) × (open_tree sample
        (sound (open_or_create sample none))
      ≡ (ok tree, sound t0))
    × (add_leaves sample tree two (sound t0) ≡ (ok tt, sound t))
    × (root sample tree (sound t) ≡ (ok (root_of sample two), sound t))
    × (num_leaves sample tree (sound t) ≡ (ok 2, sound t))
    × ((k : ℕ)
        → k ≤ 2
        → historic_root sample tree k (sound t)
          ≡ (ok (some (root_of sample (take k two))), sound t))
open-add-query_example = open-add-query sample two small (omega arith)

rollback-history_example :
    (t' : Tables sample) × (rollback sample tree 1 (sound with_two.0) ≡ (ok tt, sound t'))
    × Represents sample t' (11 ∷ [])
    × ((k : ℕ)
        → k < 1
        → historic_root sample tree k (sound t')
          ≡ (ok (some (root_of sample (take k two))), sound t'))
    × (historic_root sample tree 1 (sound t') ≡ (ok none, sound t'))
    × (historic_root sample tree 2 (sound t') ≡ (ok (some (root_of sample two)), sound t'))
rollback-history_example =
    rollback-history sample tree defaults with_two.0 two small 1 with_two.2 with_two.3 (omega arith)
      (omega arith) (omega arith)

rollback_to_zero_example :
    (t' : Tables sample) × (rollback sample tree 0 (sound with_two.0) ≡ (ok tt, sound t'))
    × Represents sample t' []
    × ((k : ℕ) → historic_root sample tree k (sound t') ≡ (ok none, sound t'))
rollback_to_zero_example = rollback_to_zero sample tree with_two.0

proof_root-zp_merkle_proof_example :
    (p : MerkleProof sample) × (zp_merkle_proof sample tree 1 (sound with_two.0)
      ≡ (ok p, sound with_two.0))
    × (proof_root sample (leaf_at sample two 1) p.sibling (reverse p.path) ≡ root_of sample two)
proof_root-zp_merkle_proof_example =
    proof_root-zp_merkle_proof sample tree defaults with_two.0 two 1 with_two.2 (omega arith)

set_node-IsAtomic_example : IsAtomic (set_node sample tree 2 1 5)
set_node-IsAtomic_example = set_node-IsAtomic sample tree 2 1 5

rollback-IsAtomic_example : IsAtomic (rollback sample tree 1)
rollback-IsAtomic_example = rollback-IsAtomic sample tree 1 (omega arith)

key_numbers_example :
    (key 1 1 + 1 < 2 ^ suc 2)
    × (key 1 1 ≡ key 2 0 → (◌≡◌ {A = ℕ} 1 2) × (◌≡◌ {A = ℕ} 1 0))
    × ((g : ℕ) × (n : ℕ) × (g ≤ 2) × (n < 2 ^ g) × (key g n ≡ 6))
key_numbers_example =
    key_numbers 2 1 2 1 0 6 (omega arith) (omega arith) (omega arith) (omega arith) (omega arith)
      (omega arith)
