-- ===== src/State/Sync.antt =====
-- The loop of `AppState::init` (src/state.rs) over the fetched transactions, where no call fails.
use mathlib.Core.List.{append-nil, append_assoc}
use native.Mathlib.Nat.{mul-le-mul_right, mul-mod_left}
use zeropool_relayer_rs.Prelude.{
  ℕ, ◌+◌, ◌*◌, ◌^◌, ◌≤◌, ◌<◌, ◌≡◌, refl, sym, ap, ◌∙◌, false, ltb, List, [], ◌∷◌, ◌++◌, length,
  length-append, arith,
}
use zeropool_relayer_rs.Exec.{Outcome, ok, bind_ok}
use zeropool_relayer_rs.Crates.{Crates}
use zeropool_relayer_rs.Redis.{Redis}
use zeropool_relayer_rs.Merkle.Storage.{Tables}
use zeropool_relayer_rs.Merkle.Tree.{MerkleTree, tree_height}
use zeropool_relayer_rs.Merkle.View.{HasDefaults}
use zeropool_relayer_rs.Merkle.AddLeaf.{add_leaf-Represents}
use zeropool_relayer_rs.TxStorage.{TxTables, stride}
use zeropool_relayer_rs.TxStorage.Write.{set_lem}
use zeropool_relayer_rs.JobQueue.{Codec}
use zeropool_relayer_rs.Worker.{Payload}
use zeropool_relayer_rs.Worker.Failure.{all_sound}
use zeropool_relayer_rs.Worker.Prepare.{InStep, next_product, next_position}
use zeropool_relayer_rs.State.{tx_index, add_fetched, sync_loop}
use zeropool_relayer_rs.Tx.{TxType, TxCalldata, TxData}

module _ (c : Crates) (r : Redis) {P : Type 0} (b : Codec (Payload c P)) (tree : MerkleTree c)
    (defaults : HasDefaults c tree) (small : tree_height c ≤ 62)
    (parse_calldata : List ℕ → Outcome (TxData c P)) (extract : List ℕ → TxType → Outcome (List ℕ))
    (s : r.Server) where
  -- The fetched transactions parse, and these are their commitments.
  pub data Parses : List TxCalldata → List c.Hash → Type 0 where
    none_left : Parses [] []
    one_more :
        (tx : TxCalldata) (all_txs : List TxCalldata) (d : TxData c P) (text : List ℕ)
        (commits : List c.Hash)
        → parse_calldata tx.calldata ≡ ok d
        → extract d.memo d.tx_type ≡ ok text
        → Parses all_txs commits
        → Parses (tx ∷ all_txs) (d.out_commit ∷ commits)

  add_fetched-InStep :
      (t : Tables c) (x : TxTables c) (leaves : List c.Hash) (tx : TxCalldata) (d : TxData c P)
      (text : List ℕ)
      → InStep c r b t x leaves
      → parse_calldata tx.calldata ≡ ok d
      → extract d.memo d.tx_type ≡ ok text
      → length leaves < 2 ^ tree_height c
      → length leaves * stride c + stride c < 2 ^ 64
      → (t' : Tables c) × (x' : TxTables c) × (add_fetched c r b tree parse_calldata extract
            (length leaves)
            tx
            (all_sound c r b t x s)
          ≡ (ok tt, all_sound c r b t' x' s))
        × InStep c r b t' x' (leaves ++ d.out_commit ∷ [])
  unfolding add_fetched
  add_fetched-InStep t x leaves tx d text step parsed extracted room bound =
      let n : ℕ = length leaves in
      let longer : length (leaves ++ d.out_commit ∷ []) ≡ n + 1 =
        length-append leaves (d.out_commit ∷ []) in
      let (t', added, rep, rem) =
        add_leaf-Represents c small tree defaults leaves room t d.out_commit step.represents
          step.remembers in
      let (x', written, w) =
        (set_lem c x step.transactions (n * stride c) d.out_commit tx.hash text).0
          (mul-mod_left n (stride c)) in
      let position : tx_index c n ≡ n * stride c = omega (arith, bound) in
      (
        t',
        x',
        rw (parsed, added, extracted, position, written) refl,
        record {
          represents = rep;
          remembers = rem;
          transactions = w.sound_after;
          next = w.next ∙ next_position n (stride c) bound ∙ ap (λ k. k * stride c) (sym longer);
        },
      )

  not_skipped :
      (n : ℕ)
      → n * stride c + stride c < 2 ^ 64
      → (relayer_index : ℕ) → relayer_index ≤ n * stride c
      → ltb (tx_index c n) relayer_index ≡ false
  not_skipped n bound relayer_index low =
      let position : tx_index c n ≡ n * stride c = omega (arith, bound) in
      rw position (ground (arith, low))

  -- The tree holds a list of leaves and its historic roots, the transaction storage is sound and
  -- its next index is that of the next leaf, the height is at most 62, the fetched transactions
  -- parse and their memos have a ciphertext, there is room for them, the positions fit in 64 bits,
  -- and no call fails. Then the loop of `init`, from the number of leaves on and with a relayer
  -- index that is not above it, skips nothing and succeeds, and all this holds again with the
  -- commitments of the fetched transactions as further leaves.
  pub sync_loop-InStep :
      (all_txs : List TxCalldata) (commits leaves : List c.Hash) (relayer_index : ℕ) (t : Tables c)
      (x : TxTables c)
      → InStep c r b t x leaves
      → Parses all_txs commits
      → relayer_index ≤ length leaves * stride c
      → length leaves + length commits ≤ 2 ^ tree_height c
      → 2 ^ tree_height c * stride c + stride c < 2 ^ 64
      → (t' : Tables c) × (x' : TxTables c) × (sync_loop c r b tree parse_calldata extract
            relayer_index
            (length leaves)
            all_txs
            (all_sound c r b t x s)
          ≡ (ok tt, all_sound c r b t' x' s))
        × InStep c r b t' x' (leaves ++ commits)
  unfolding sync_loop
  sync_loop-InStep _ _ leaves relayer_index t x step none_left low room bound =
      (t, x, refl, rw (append-nil leaves) step)
  sync_loop-InStep _ _ leaves relayer_index t x step
        (one_more tx all_txs d text commits parsed extracted rest) low room bound =
      let n : ℕ = length leaves in
      let more : List c.Hash = leaves ++ d.out_commit ∷ [] in
      let longer : length more ≡ n + 1 = length-append leaves (d.out_commit ∷ []) in
      let below : n * stride c ≤ 2 ^ tree_height c * stride c =
        mul-le-mul_right {m = n} {n = 2 ^ tree_height c} (stride c) (omega (arith, room)) in
      let grown : length more * stride c ≡ n * stride c + stride c =
        ap (λ k. k * stride c) longer ∙ next_product n (stride c) in
      let here : ltb (tx_index c n) relayer_index ≡ false =
        not_skipped n (omega (arith, below, bound)) relayer_index low in
      let (t1, x1, run1, step1) =
        add_fetched-InStep t x leaves tx d text step parsed extracted (omega (arith, room))
          (omega (arith, below, bound)) in
      let (t2, x2, run2, step2) =
        sync_loop-InStep all_txs commits more relayer_index t1 x1 step1 rest
          (omega (arith, low, grown)) (omega (arith, longer, room)) bound in
      let again =
        ap
          (λ k.
            sync_loop c r b tree parse_calldata extract relayer_index k all_txs
              (all_sound c r b t1 x1 s))
          (sym longer)
        ∙ run2 in
      (
        t2,
        x2,
        rw here (
            bind_ok (add_fetched c r b tree parse_calldata extract n tx)
              (λ _. sync_loop c r b tree parse_calldata extract relayer_index (n + 1) all_txs)
              (all_sound c r b t x s) run1
            ∙ again),
        rw (← append_assoc leaves (d.out_commit ∷ []) commits) step2,
      )
