-- ===== src/Worker/Positions.antt =====
-- The positions of leaves in src/tx_worker.rs and src/state.rs, computed on 64 bits.
use native.Mathlib.Nat.{mul-le-mul_right}
use zeropool_relayer_rs.Prelude.{
  ℕ, ◌+◌, ◌*◌, ◌^◌, ◌≤◌, ◌<◌, ◌≡◌, ◌↔◌, ◌⊎◌, inl, inr, refl, sym, ap, ◌∙◌, true, ==_iff, arith,
}
use zeropool_relayer_rs.Crates.{Crates}
use zeropool_relayer_rs.Merkle.Tree.{tree_height}
use zeropool_relayer_rs.TxStorage.{stride}
use zeropool_relayer_rs.Worker.{tx_position}
use zeropool_relayer_rs.Worker.Prepare.{next_product, next_position}
use zeropool_relayer_rs.Worker.Process.{is_turn, next_pool_index}
use zeropool_relayer_rs.State.{tx_index}

compare : (m n : ℕ) → (m < n) ⊎ ((m ≡ n) ⊎ (n < m))
compare m n = omega arith

module _ (c : Crates) (positive : 0 < stride c)
    (bound : 2 ^ tree_height c * stride c + stride c < 2 ^ 64) where
  exact : (n : ℕ) → n ≤ 2 ^ tree_height c → tx_position c n ≡ n * stride c
  exact n room =
      let below = mul-le-mul_right {m = n} {n = 2 ^ tree_height c} (stride c) room in
      omega (arith, below, bound)

  increasing : (m n : ℕ) → m < n → m * stride c < n * stride c
  increasing m n h =
      let more = mul-le-mul_right {m = m + 1} {n = n} (stride c) (omega (arith, h)) in
      omega (arith, more, next_product m (stride c), positive)

  product_injective : (m n : ℕ) → m * stride c ≡ n * stride c → m ≡ n
  product_injective m n same = elim (compare m n) [
    | inl lt ↦ absurd (omega (arith, same, increasing m n lt))
    | inr (inl eq) ↦ eq
    | inr (inr gt) ↦ absurd (omega (arith, same, increasing n m gt))
  ]

  -- Where the stride is positive and the positions of a full tree fit in 64 bits, the position of
  -- a leaf is its index times the stride, without a wrap, also with a further stride; `init` and
  -- the worker compute the same one; a step of the pool index from the position of a leaf leads to
  -- that of the next; and at the position of a leaf it is the turn of the job of that leaf only.
  pub positions_exact :
      (m n : ℕ)
      → m < 2 ^ tree_height c
      → n < 2 ^ tree_height c
      → (tx_position c n ≡ n * stride c)
        × (tx_position c n + stride c < 2 ^ 64)
        × (tx_index c n ≡ tx_position c n)
        × (next_pool_index c (tx_position c n) ≡ tx_position c (n + 1))
        × ((is_turn c (tx_position c m) n ≡ true) ↔ (m ≡ n))
  positions_exact m n hm hn =
      let here : tx_position c n ≡ n * stride c = exact n (omega (arith, hn)) in
      let there : tx_position c m ≡ m * stride c = exact m (omega (arith, hm)) in
      let next : tx_position c (n + 1) ≡ (n + 1) * stride c = exact (n + 1) (omega (arith, hn)) in
      let below = mul-le-mul_right {m = n} {n = 2 ^ tree_height c} (stride c) (omega (arith, hn)) in
      let turn = ==_iff (tx_position c m) (tx_position c n) in
      (
        here,
        omega (arith, here, below, bound),
        refl,
        ap (next_pool_index c) here
            ∙ next_position n (stride c) (omega (arith, below, bound))
            ∙ sym next,
        (
          λ mine. product_injective m n (sym there ∙ turn.0 mine ∙ here),
          λ same. turn.1 (ap (tx_position c) same),
        ),
      )
