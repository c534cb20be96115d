-- ===== src/Merkle/Keys.antt =====
-- The keys of `Storage` (src/merkle_tree.rs): in a tree of at most 62 levels each node has a key of
-- its own, and no step of the computation wraps.
use native.Mathlib.Nat.{pow-le-pow_right, pow-suc, one-le-pow}
use zeropool_relayer_rs.Prelude.{
  ℕ, zero, suc, ◌+◌, ◌-◌, ◌%◌, ◌^◌, ◌≤◌, ◌<◌, ◌≡◌, ap, ◌⊎◌, inl, inr, arith,
}
use zeropool_relayer_rs.Merkle.Storage.{shl_one, key}

pub pow_pos : (d : ℕ) → 1 ≤ 2 ^ d
pow_pos d = one-le-pow d 2 (omega arith)

pub pow_le : (d e : ℕ) → d ≤ e → 2 ^ d ≤ 2 ^ e
pow_le d e h = pow-le-pow_right (omega arith) h

shl_one_lem : (d : ℕ) → d ≤ 62 → shl_one d ≡ 2 ^ d
shl_one_lem d h = let small : d % 64 ≡ d = omega arith in rw small (omega (arith, pow_le d 62 h))

-- The key of a node is its place in the numbering of the nodes level by level.
pub key_lem : (d i : ℕ) → d ≤ 62 → i < 2 ^ d → key d i ≡ 2 ^ d - 1 + i
unfolding key
key_lem d i hd hi = omega (arith, shl_one_lem d hd, pow_le d 62 hd, pow_pos d)

key-lt_of_lt : (d e i j : ℕ) → e ≤ 62 → d < e → i < 2 ^ d → j < 2 ^ e → key d i < key e j
key-lt_of_lt d e i j he lt hi hj = omega (
  arith,
  key_lem d i (omega arith) hi,
  key_lem e j he hj,
  pow_le (suc d) e lt,
  pow-suc 2 d,
  pow_pos d,
)

compare_depths : (d e : ℕ) → (d < e) ⊎ ((d ≡ e) ⊎ (e < d))
compare_depths d e = omega arith

-- Down to depth 62, two nodes of the tree with the same key are the same node.
pub key_injective :
    (d e i j : ℕ) → d ≤ 62 → e ≤ 62 → i < 2 ^ d → j < 2 ^ e → key d i ≡ key e j → (d ≡ e) × (i ≡ j)
key_injective d e i j hd he hi hj same = elim (compare_depths d e) [
  | inl lt ↦ absurd (omega (arith, key-lt_of_lt d e i j he lt hi hj))
  | inr (inl eq) ↦
      (eq, omega (arith, key_lem d i hd hi, key_lem e j he hj, ap (λ k. 2 ^ k) eq, pow_pos d))
  | inr (inr gt) ↦ absurd (omega (arith, key-lt_of_lt e d j i hd gt hj hi))
]

le_or_lt : (m n : ℕ) → (m ≤ n) ⊎ (n < m)
le_or_lt m n = omega arith

-- Below the keys of a level stand those of the levels above it.
node_of :
    (d k : ℕ)
    → d ≤ 62
    → k + 1 < 2 ^ suc d
    → (e : ℕ) × (i : ℕ) × (e ≤ d) × (i < 2 ^ e) × (key e i ≡ k)
node_of zero k hd h =
    let here : key 0 0 ≡ k = omega (arith, key_lem 0 0 (omega arith) (omega arith), h) in
    (0, 0, omega arith, omega arith, here)
node_of (suc d) k hd h =
    let double = pow-suc 2 (suc d) in
    elim (le_or_lt (2 ^ suc d) (k + 1)) [
      | inl above ↦
          let i : ℕ = k + 1 - 2 ^ suc d in
          let inside : i < 2 ^ suc d = omega (arith, h, double, above) in
          (suc d, i, omega arith, inside, omega (arith, key_lem (suc d) i hd inside, above))
      | inr below ↦
          let (e, i, he, hi, same) = node_of d k (omega (arith, hd)) below in
          (e, i, omega (arith, he), hi, same)
    ]

-- In a tree of a depth d of at most 62, the key of every node is below 2^(d+1) - 1, two nodes with
-- the same key are the same node, and every number below 2^(d+1) - 1 is the key of a node.
pub key_numbers :
    (d e f i j k : ℕ)
    → d ≤ 62
    → e ≤ d
    → f ≤ d
    → i < 2 ^ e
    → j < 2 ^ f
    → k + 1 < 2 ^ suc d
    → (key e i + 1 < 2 ^ suc d)
      × (key e i ≡ key f j → (e ≡ f) × (i ≡ j))
      × ((g : ℕ) × (n : ℕ) × (g ≤ d) × (n < 2 ^ g) × (key g n ≡ k))
key_numbers d e f i j k hd he hf hi hj hk = (
  omega (
    arith,
    key_lem e i (omega (arith, hd, he)) hi,
    pow_le (suc e) (suc d) (omega (arith, he)),
    pow-suc 2 e,
    pow_pos e,
    hi,
  ),
  key_injective e f i j (omega (arith, hd, he)) (omega (arith, hd, hf)) hi hj,
  node_of d k hd hk,
)
