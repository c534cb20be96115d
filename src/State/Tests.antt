-- ===== src/State/Tests.antt =====
-- An example for src/state.rs over the sample crates: two fetched transactions and a new file.
use zeropool_relayer_rs.Prelude.{ℕ, some, ◌≡◌, refl, [], ◌∷◌, arith}
use zeropool_relayer_rs.Exec.{ok}
use zeropool_relayer_rs.Sample.{sample, sample_redis}
use zeropool_relayer_rs.Sample.Payloads.{payload_codec}
use zeropool_relayer_rs.Sample.Relayer.{server, one}
use zeropool_relayer_rs.Sample.Fetched.{parse, whole_memo, fetched_two}
use zeropool_relayer_rs.Merkle.Open.{initial}
use zeropool_relayer_rs.TxStorage.{fresh}
use zeropool_relayer_rs.State.Init.{init}
use zeropool_relayer_rs.State.Boot.{files_of, booted, started}
use zeropool_relayer_rs.State.Start.{init_starts_over}
use zeropool_relayer_rs.Backend.{BlockchainBackend}

-- A pool at this index, with two transactions.
abbrev pool_at : ℕ → BlockchainBackend sample ℕ
pool_at pool_index = record {
  World = ℕ;
  name = "sample";
  fetch_latest_transactions = λ w. (ok fetched_two, w);
  validate_tx = λ tx w. (ok [], w);
  send_tx = λ tx w. (ok [], w);
  get_pool_index = λ w. (ok pool_index, w);
  get_merkle_root = λ index w. (ok (some 77), w);
  parse_calldata = parse;
  extract_ciphertext = whole_memo;
  parse_hash = λ text. ok [];
  format_hash = λ tx_hash. "";
}

init_starts_over_example :
    init sample sample_redis payload_codec (pool_at 0) (
      files_of sample sample_redis payload_codec
        (pool_at 0)
        one.tree_after
        one.transactions_after
        server
        0)
    ≡ (
      ok (started sample sample_redis payload_codec (pool_at 0) 0 77),
      booted sample sample_redis payload_codec (pool_at 0) (initial sample) (fresh sample) server 0,
    )
init_starts_over_example =
    init_starts_over sample sample_redis payload_codec (pool_at 0) one.tree_after
      one.transactions_after server 0 0 0 0 (11 ∷ []) 0 77 one.in_step refl refl (omega arith)
      (omega arith)
