-- ===== src/Api/Traffic/Tests.antt =====
-- Examples for the routes of src/json_api.rs: two deposits, a request with an invalid proof, one with a
-- memo that is too short, and queries.
use zeropool_relayer_rs.Prelude.{ℕ, String, ◌≤◌, refl, List, [], ◌∷◌, length, arith}
use zeropool_relayer_rs.Sample.{sample, sample_redis}
use zeropool_relayer_rs.Sample.Payloads.{payload_codec}
use zeropool_relayer_rs.Sample.Relayer.{
  tree, defaults, small, server, no_jobs, no_jobs_Shows, start, pool, config,
}
use zeropool_relayer_rs.Sample.Requests.{sample_rules, with_proof}
use zeropool_relayer_rs.Merkle.Open.{initial}
use zeropool_relayer_rs.TxStorage.{fresh}
use zeropool_relayer_rs.Worker.Process.{Relayer}
use zeropool_relayer_rs.Worker.Await.{relayer}
use zeropool_relayer_rs.Api.{TxDataRequest}
use zeropool_relayer_rs.Api.Traffic.{
  IsHealthy, Request, post_transaction, send_transactions, ask_job, handle_all,
}
use zeropool_relayer_rs.Api.Traffic.Healthy.{handle_all-IsHealthy}

abbrev empty_relayer : Relayer sample sample_redis payload_codec pool
empty_relayer =
    relayer sample sample_redis payload_codec pool (initial sample) (fresh sample) server 0 0 0

abbrev empty_IsHealthy : IsHealthy sample sample_redis payload_codec pool 0 0 [] empty_relayer
empty_IsHealthy = record {
  tables = initial sample;
  transactions = fresh sample;
  server = server;
  world = 0;
  queue = no_jobs;
  state = refl;
  represents = start.represents;
  remembers = start.remembers;
  tx_sound = start.transactions;
  not_ahead = omega arith;
  shows = no_jobs_Shows;
}

abbrev no_memo : TxDataRequest ℕ ℕ
no_memo = record (with_proof 1) { memo = [] }

abbrev traffic : List (Request ℕ ℕ)
traffic =
    post_transaction (with_proof 1)
    ∷ ask_job 1
    ∷ post_transaction no_memo
    ∷ send_transactions (with_proof 0 ∷ [])
    ∷ []

abbrev digits : ℕ → String
digits _ = "n"

handle_all-IsHealthy_example :
    (more : List ℕ) × (length more ≤ 4)
    × IsHealthy sample sample_redis payload_codec pool 0 0 more (
        handle_all sample sample_redis payload_codec pool config tree sample_rules digits digits
          traffic empty_relayer)
handle_all-IsHealthy_example =
    handle_all-IsHealthy sample sample_redis payload_codec pool config tree sample_rules digits
      digits 0 0 defaults small (omega arith) traffic [] empty_relayer empty_IsHealthy (omega arith)
