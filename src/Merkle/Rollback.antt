-- ===== src/Merkle/Rollback.antt =====
-- The loop of `rollback` (src/merkle_tree.rs) on a disk without faults: level by level it deletes
-- what lies right of the path to `index` and recomputes the path.
use zeropool_relayer_rs.Prelude.{
  ℕ, suc, ◌+◌, ◌-◌, ◌*◌, ◌/◌, ◌^◌, ◌≤◌, ◌<◌, ◌≡◌, ap, sym, ◌∙◌, ◌⊎◌, inl, inr, bit_and, bit_xor,
  bit_and-one, shr, shr-suc, Bool-cases, arith, if◌then◌else◌, ◌==◌, ◌&&◌, ltb,
}
use zeropool_relayer_rs.Crates.{Crates}
use zeropool_relayer_rs.Merkle.Storage.{Tables}
use zeropool_relayer_rs.Merkle.Tree.{tree_height, parent_hash}
use zeropool_relayer_rs.Merkle.View.{
  default_hash, default_hash-children, value, written, IsReadable, value-written_ne,
  IsReadable-written,
}
use zeropool_relayer_rs.Merkle.Consistent.{
  double_lt, half_lt, IsConsistentAt, parent_hash_lem, key_ne, written-IsConsistentAt,
}
use zeropool_relayer_rs.Merkle.Cut.{cut, IsReadable-cut, value-cut_in, value-cut_out}

module _ (c : Crates) where
  open c use {Hash, poseidon, height, outplusonelog}

  -- The two ways in which the source orders a node and its sibling agree.
  pub sibling_order :
      (i : ℕ) (h s : Hash)
      → (if bit_and i 1 == 1 then poseidon s h else poseidon h s) ≡ parent_hash c i h s
  sibling_order i h s = ground (arith, bit_and-one i)

  -- The state of the loop before level `d`, whose node on the path is `cur`; `goal` is the wanted
  -- content of the leaves.
  pub record IsCut (old : ℕ) (goal : ℕ → Hash) (tx : Tables c) (d cur : ℕ) : Type 0 where
    pub readable : IsReadable c tx
    pub consistent :
        (e j : ℕ)
        → e < tree_height c
        → j < 2 ^ e
        → ¬ ((e ≡ d) × (cur < j))
        → ¬ ((suc e ≡ d) × (j ≡ cur / 2))
        → IsConsistentAt c tx e j
    pub below :
        (j : ℕ)
        → suc d ≤ tree_height c
        → j < 2 ^ suc d
        → 2 * cur + 2 ≤ j
        → value c tx (suc d) j ≡ default_hash c (suc d)
    pub beyond :
        (e j : ℕ)
        → e ≤ d
        → j < 2 ^ e
        → shr old (tree_height c - e) < j
        → value c tx e j ≡ default_hash c e
    pub leaves :
        (j : ℕ)
        → j < 2 ^ tree_height c
        → ¬ ((d ≡ tree_height c) × (cur < j))
        → value c tx (tree_height c) j ≡ goal j

  module _ (small : tree_height c ≤ 62) (old : ℕ) (goal : ℕ → Hash) where
    -- One round: the nodes right of the path go, then the parent is recomputed.
    module _ (tx : Tables c) (d cur : ℕ) (k : IsCut old goal tx (suc d) cur)
        (hd : suc d ≤ tree_height c) (hc : cur < 2 ^ suc d) (last : ℕ)
        (el : last ≡ shr old (tree_height c - suc d)) (hl : last < 2 ^ suc d)
        (hcl : cur ≤ last) where
      abbrev pub tx₁ : Tables c
      tx₁ = cut c tx (suc d) (cur + 1) (last - cur)

      kept :
          (e j : ℕ)
          → e ≤ tree_height c
          → j < 2 ^ e
          → ¬ ((suc d ≡ e) × (cur < j))
          → value c tx₁ e j ≡ value c tx e j
      kept e j he hj ne =
          value-cut_out c small (suc d) hd tx (cur + 1) (last - cur) e j (omega arith) he hj
            (λ s. ne (s.0, omega (arith, s.1)))

      in_or_beyond : (j : ℕ) → cur < j → (j < cur + 1 + (last - cur)) ⊎ (last < j)
      in_or_beyond j h = omega arith

      gone : (j : ℕ) → j < 2 ^ suc d → cur < j → value c tx₁ (suc d) j ≡ default_hash c (suc d)
      gone j hj right = elim (in_or_beyond j right) [
        | inl deleted ↦
            value-cut_in c small (suc d) hd tx (cur + 1) (last - cur) j (omega arith) (omega arith)
              deleted
        | inr after ↦
            value-cut_out c small (suc d) hd tx (cur + 1) (last - cur) (suc d) j (omega arith) hd hj
              (λ s. absurd (omega (arith, s.2)))
            ∙ k.beyond (suc d) j (omega arith) hj (omega (arith, el))
      ]

      consistent₁ :
          (e j : ℕ)
          → e < tree_height c
          → j < 2 ^ e
          → ¬ ((e ≡ d) × (cur / 2 ≤ j))
          → IsConsistentAt c tx₁ e j
      consistent₁ e j he hj ne = elim (Bool-cases ((e == suc d) && ltb cur j)) [
        | inl right ↦
            let a : suc d ≡ e = ground arith in
            let b : cur < j = ground arith in
            let below' = λ (i : ℕ) (hi : i < 2 ^ suc (suc d)) (lo : 2 * cur + 2 ≤ i).
              kept (suc (suc d)) i (omega arith) hi (λ s. absurd (omega (arith, s.0)))
              ∙ k.below i (omega arith) hi lo in
            let hj' : j < 2 ^ suc d = rw a hj in
            rw (← a) (
              cc (
                gone j hj' b,
                default_hash-children c (suc d) (omega arith),
                below' (2 * j) (omega (arith, double_lt (suc d) j hj')) (omega arith),
                below' (2 * j + 1) (double_lt (suc d) j hj') (omega arith),
              ))
        | inr left ↦
            let out : ¬ ((suc d ≡ e) × (cur < j)) = λ s. ground (arith, s.0, s.1) in
            cc (
              k.consistent e j he hj (λ s. out (sym s.0, s.1))
                  (λ s. ne (omega (arith, s.0), omega (arith, s.1))),
              kept e j (omega arith) hj out,
              kept (suc e) (2 * j) he (omega (arith, double_lt e j hj))
                  (λ s. ne (omega (arith, s.0), omega (arith, s.1))),
              kept (suc e) (2 * j + 1) he (double_lt e j hj)
                  (λ s. ne (omega (arith, s.0), omega (arith, s.1))),
            )
      ]

      abbrev pub path_hash : Hash
      path_hash = parent_hash c cur (value c tx₁ (suc d) cur) (value c tx₁ (suc d) (bit_xor cur 1))

      abbrev pub tx₂ : Tables c
      tx₂ = written c tx₁ d (cur / 2) path_hash

      not_path :
          (e j : ℕ)
          → e ≤ tree_height c
          → j < 2 ^ e
          → ¬ ((d ≡ e) × (cur / 2 ≡ j))
          → value c tx₂ e j ≡ value c tx₁ e j
      not_path e j he hj ne =
          value-written_ne c tx₁ d (cur / 2) path_hash e j
            (key_ne c small d e (cur / 2) j (omega arith) he (half_lt d cur hc) hj ne)

      shift : shr old (tree_height c - d) ≡ last / 2
      shift =
          let e : tree_height c - d ≡ tree_height c - suc d + 1 = omega arith in
          rw e (shr-suc old (tree_height c - suc d) ∙ ap (λ x. x / 2) (sym el))

      right_leaf :
          ((j : ℕ) → suc d ≡ tree_height c → cur < j → goal j ≡ default_hash c (tree_height c))
          → (j : ℕ) → j < 2 ^ tree_height c
          → suc d ≡ tree_height c
          → cur < j
          → value c tx₁ (tree_height c) j ≡ goal j
      right_leaf free j hj top right =
          rw (← top) (gone j (rw top hj) right) ∙ sym (free j top right)

      leaf₁ :
          ((j : ℕ) → suc d ≡ tree_height c → cur < j → goal j ≡ default_hash c (tree_height c))
          → (j : ℕ) → j < 2 ^ tree_height c
          → value c tx₁ (tree_height c) j ≡ goal j
      leaf₁ free j hj = elim (Bool-cases ((suc d == tree_height c) && ltb cur j)) [
        | inl right ↦ right_leaf free j hj (ground arith) (ground arith)
        | inr left ↦
            let out : ¬ ((suc d ≡ tree_height c) × (cur < j)) = λ s. ground (arith, s.0, s.1) in
            kept (tree_height c) j (omega arith) hj out ∙ k.leaves j hj out
      ]

      pub round :
          ((j : ℕ) → suc d ≡ tree_height c → cur < j → goal j ≡ default_hash c (tree_height c))
          → IsCut old goal tx₂ d (cur / 2)
      round free = record {
        readable =
            IsReadable-written c tx₁ d (cur / 2) path_hash
              (IsReadable-cut c tx (suc d) (cur + 1) (last - cur) k.readable);
        consistent = λ e j he hj right up.
            written-IsConsistentAt c small tx₁ d (cur / 2) path_hash hd (half_lt d cur hc)
              (parent_hash_lem c (λ i. value c tx₁ (suc d) i) cur) e j he hj up
              (λ ne. consistent₁ e j he hj (λ s. ground (arith, s.0, s.1, ne, right)));
        below = λ j h hj lo.
            not_path (suc d) j h hj (λ s. absurd (omega (arith, s.0))) ∙ gone j hj (omega arith);
        beyond = λ e j he hj out.
            not_path e j (omega arith) hj
              (λ s. omega (arith, s.1, shift, ap (λ x. shr old (tree_height c - x)) s.0))
            ∙ kept e j (omega arith) hj (λ s. absurd (omega (arith, s.0)))
            ∙ k.beyond e j (omega arith) hj out;
        leaves = λ j hj _.
            not_path (tree_height c) j (omega arith) hj (λ s. absurd (omega (arith, s.0)))
            ∙ leaf₁ free j hj;
      }
