-- ===== src/Merkle/Consistent.antt =====
-- When the stored nodes form a hash tree (src/merkle_tree.rs): each inner node is the hash of its
-- two children. One write of a recomputed parent moves the only exception one level up.
use native.Mathlib.Nat.{pow-suc}
use zeropool_relayer_rs.Prelude.{
  ℕ, suc, ◌+◌, ◌*◌, ◌/◌, ◌%◌, ◌^◌, ◌≤◌, ◌<◌, ◌≡◌, ◌≢◌, ap, sym, ◌∙◌, inl, inr, bit_and, bit_xor,
  bit_and-one, bit_xor-one, ◌==◌, ==_iff, Bool-cases, arith, ◌&&◌,
}
use zeropool_relayer_rs.Crates.{Crates}
use zeropool_relayer_rs.Merkle.Storage.{Tables, key}
use zeropool_relayer_rs.Merkle.Keys.{key_injective}
use zeropool_relayer_rs.Merkle.Tree.{tree_height, parent_hash}
use zeropool_relayer_rs.Merkle.View.{value, written, value-written_self, value-written_ne}

pub double_lt : (d p : ℕ) → p < 2 ^ d → 2 * p + 1 < 2 ^ suc d
double_lt d p h = omega (arith, pow-suc 2 d)

pub half_lt : (d p : ℕ) → p < 2 ^ suc d → p / 2 < 2 ^ d
half_lt d p h = omega (arith, pow-suc 2 d)

module _ (c : Crates) where
  open c use {Hash, poseidon}

  abbrev pub IsConsistentAt : Tables c → ℕ → ℕ → Type 0
  IsConsistentAt t e j =
      value c t e j ≡ poseidon (value c t (suc e) (2 * j)) (value c t (suc e) (2 * j + 1))

  pub record IsMerkle (t : Tables c) : Type 0 where
    pub at : (e j : ℕ) → e < tree_height c → j < 2 ^ e → IsConsistentAt t e j

  -- All inner nodes but the parent of node (d, i) are right.
  pub record IsMerkleAbove (t : Tables c) (d i : ℕ) : Type 0 where
    pub at :
        (e j : ℕ)
        → e < tree_height c
        → j < 2 ^ e
        → ¬ ((suc e ≡ d) × (j ≡ i / 2))
        → IsConsistentAt t e j

  pub parent_hash_lem :
      (f : ℕ → Hash) (i : ℕ)
      → parent_hash c i (f i) (f (bit_xor i 1)) ≡ poseidon (f (2 * (i / 2))) (f (2 * (i / 2) + 1))
  parent_hash_lem f i = elim (Bool-cases (bit_and i 1 == 0)) [
    | inl even ↦
        let low : i % 2 ≡ 0 = sym (bit_and-one i) ∙ (==_iff (bit_and i 1) 0).0 even in
        let a : i ≡ 2 * (i / 2) = omega arith in
        let b : bit_xor i 1 ≡ 2 * (i / 2) + 1 = omega (arith, bit_xor-one i) in
        rw even (cc (ap f a, ap f b))
    | inr odd ↦
        let low : i % 2 ≡ 1 = ground (arith, bit_and-one i) in
        let a : i ≡ 2 * (i / 2) + 1 = omega arith in
        let b : bit_xor i 1 ≡ 2 * (i / 2) = omega (arith, bit_xor-one i) in
        rw odd (cc (ap f a, ap f b))
  ]

  module _ (small : tree_height c ≤ 62) where
    pub key_ne :
        (d e i j : ℕ)
        → d ≤ tree_height c
        → e ≤ tree_height c
        → i < 2 ^ d
        → j < 2 ^ e
        → ¬ ((d ≡ e) × (i ≡ j))
        → key d i ≢ key e j
    key_ne d e i j hd he hi hj ne same =
        ne (key_injective d e i j (omega arith) (omega arith) hi hj same)

    -- Where a node was right before node (d, p) is recomputed, it is right afterwards, but for
    -- the parent of (d, p).
    pub written-IsConsistentAt :
        (tx : Tables c) (d p : ℕ) (h : Hash)
        → d < tree_height c
        → p < 2 ^ d
        → h ≡ poseidon (value c tx (suc d) (2 * p)) (value c tx (suc d) (2 * p + 1))
        → (e j : ℕ) → e < tree_height c
        → j < 2 ^ e
        → ¬ ((suc e ≡ d) × (j ≡ p / 2))
        → (¬ ((e ≡ d) × (j ≡ p)) → IsConsistentAt tx e j)
        → IsConsistentAt (written c tx d p h) e j
    written-IsConsistentAt tx d p h hd hp eh e j he hj up old =
        let left : value c (written c tx d p h) (suc e) (2 * j) ≡ value c tx (suc e) (2 * j) =
          value-written_ne c tx d p h (suc e) (2 * j) (
            key_ne d (suc e) p (2 * j) (omega arith) he hp (omega (arith, double_lt e j hj))
              (λ s. up (sym s.0, omega (arith, s.1)))) in
        let right : value c (written c tx d p h) (suc e) (2 * j + 1)
            ≡ value c tx (suc e) (2 * j + 1) =
          value-written_ne c tx d p h (suc e) (2 * j + 1) (
            key_ne d (suc e) p (2 * j + 1) (omega arith) he hp (double_lt e j hj)
              (λ s. up (sym s.0, omega (arith, s.1)))) in
        elim (Bool-cases ((e == d) && (j == p))) [
          | inl here ↦
              let a : e ≡ d = ground arith in
              let b : j ≡ p = ground arith in
              cc (a, b, value-written_self c tx d p h, eh, left, right)
          | inr there ↦
              let ne : ¬ ((e ≡ d) × (j ≡ p)) = λ s. ground (arith, s.0, s.1) in
              cc (
                value-written_ne c tx d p h e j
                    (key_ne d e p j (omega arith) (omega arith) hp hj (λ s. ne (sym s.0, sym s.1))),
                old ne,
                left,
                right,
              )
        ]
