-- ===== src/State.antt =====
-- src/state.rs: how `AppState::init` brings the relayer's state up to the pool.
pub mod Sync
pub mod Init
pub mod Boot
pub mod Start
pub mod Params
mod Tests
use zeropool_relayer_rs.Prelude.{
  ℕ, ◌+◌, ◌*◌, ◌%◌, ◌^◌, Option, none, List, [], ◌∷◌, ltb, if◌then◌else◌,
}
use zeropool_relayer_rs.Exec.{Exec, Outcome, pure, lift, ◌>>=◌, ◌>>◌}
use zeropool_relayer_rs.Crates.{Crates}
use zeropool_relayer_rs.Redis.{Redis}
use zeropool_relayer_rs.Merkle.Tree
use zeropool_relayer_rs.Merkle.Tree.{MerkleTree}
use zeropool_relayer_rs.TxStorage
use zeropool_relayer_rs.TxStorage.{stride}
use zeropool_relayer_rs.JobQueue.{Codec}
use zeropool_relayer_rs.Worker.{Payload, AppState, on_tree, on_transactions}
use zeropool_relayer_rs.Tx.{TxType, TxCalldata, TxData}

module _ (c : Crates) where
  -- `i * TX_INDEX_STRIDE` on 64 bits.
  abbrev pub tx_index : ℕ → ℕ
  tx_index i = (i * stride c) % 2 ^ 64

  module _ (r : Redis) {P : Type 0} (b : Codec (Payload c P)) (tree : MerkleTree c)
      (parse_calldata : List ℕ → Outcome (TxData c P))
      (extract : List ℕ → TxType → Outcome (List ℕ)) where
    -- One fetched transaction that is not skipped.
    unfoldable pub add_fetched : ℕ → TxCalldata → Exec (AppState c r b) (Unit {0})
    add_fetched i tx = do
      tx_data ← lift (parse_calldata tx.calldata)
      on_tree c r b (Tree.add_leaf c tree tx_data.out_commit)
      text ← lift (extract tx_data.memo tx_data.tx_type)
      on_transactions c r b (TxStorage.set c (tx_index i) tx_data.out_commit tx.hash text)

    -- The loop over the fetched transactions; those below the relayer's index are skipped.
    unfoldable pub sync_loop : ℕ → ℕ → List TxCalldata → Exec (AppState c r b) (Unit {0})
    sync_loop relayer_index i [] = pure tt
    sync_loop relayer_index i (tx ∷ all_txs) =
        (if ltb (tx_index i) relayer_index then pure tt else add_fetched i tx)
        >> sync_loop relayer_index (i + 1) all_txs
