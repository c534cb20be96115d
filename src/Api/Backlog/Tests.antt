-- ===== src/Api/Backlog/Tests.antt =====
-- Examples for src/json_api.rs and src/tx_worker.rs: a batch of deposits to the empty pool, and deposits
-- that come while it is sent.
use zeropool_relayer_rs.Prelude.{ℕ, ◌+◌, ◌≡◌, ◌<◌, refl, some, [], ◌∷◌, arith}
use zeropool_relayer_rs.Exec.{ok, ◌>>◌}
use zeropool_relayer_rs.Sample.{sample, sample_redis, Memory}
use zeropool_relayer_rs.Sample.Payloads.{payload_codec}
use zeropool_relayer_rs.Sample.Relayer.{
  tree, defaults, small, server, no_jobs, no_jobs_Shows, start, pool, config, tools,
}
use zeropool_relayer_rs.Sample.Requests.{
  sample_rules, with_proof, parsed_tx, with_proof_parsed, five_left,
}
use zeropool_relayer_rs.Merkle.Open.{initial}
use zeropool_relayer_rs.Merkle.Storage.{Tables}
use zeropool_relayer_rs.Merkle.Spec.{Represents}
use zeropool_relayer_rs.TxStorage.{TxTables, fresh}
use zeropool_relayer_rs.TxStorage.Write.{next_of}
use zeropool_relayer_rs.JobQueue.{completed}
use zeropool_relayer_rs.JobQueue.Queue.{Queue, Shows}
use zeropool_relayer_rs.Worker.{Payload}
use zeropool_relayer_rs.Worker.Prepare.{InStep}
use zeropool_relayer_rs.Api.{validate_tx, has_invalid_values}
use zeropool_relayer_rs.Api.Backlog.{
  IsWilling, IsAccepted, Accepted, no_request, request, submit_all, run_rounds,
}
use zeropool_relayer_rs.Api.Backlog.Pipeline.{relayer_at, submit_all-run_rounds}
use zeropool_relayer_rs.Api.Backlog.Behind.{refused_at}
use zeropool_relayer_rs.Api.Backlog.Late.{late_requests, late_requests_fail}

no_errors_0 : validate_tx sample_rules 5 0 (with_proof 1) ≡ ok []
unfolding validate_tx has_invalid_values
no_errors_0 = refl

no_errors_128 : validate_tx sample_rules 5 128 (with_proof 1) ≡ ok []
unfolding validate_tx has_invalid_values
no_errors_128 = refl

no_errors_256 : validate_tx sample_rules 5 256 (with_proof 1) ≡ ok []
unfolding validate_tx has_invalid_values
no_errors_256 = refl

abbrev willing : IsWilling sample sample_redis payload_codec pool tools config tree sample_rules
willing = record {
  validates = λ tx w. refl;
  proves = λ payload. (0, refl);
  sends = λ full w. (_, _, refl);
}

abbrev accepted :
    (index : ℕ)
    → validate_tx sample_rules 5 index (with_proof 1) ≡ ok []
    → IsAccepted sample sample_redis payload_codec pool tools config tree sample_rules index
        (with_proof 1)
        (parsed_tx 1)
accepted index valid = record {
  valid = valid;
  parsed = with_proof_parsed 1;
  text = 5 ∷ [];
  extracted = five_left;
}

abbrev batch :
    Accepted sample sample_redis payload_codec pool tools config tree sample_rules 0
      (with_proof 1 ∷ with_proof 1 ∷ [])
      (22 ∷ 22 ∷ [])
batch =
    request (with_proof 1) (with_proof 1 ∷ []) (parsed_tx 1) (22 ∷ []) (accepted 0 no_errors_0)
      (request (with_proof 1) [] (parsed_tx 1) [] (accepted 0 no_errors_0) no_request)

submit_all-run_rounds_example :
    (t' : Tables sample) × (x' : TxTables sample) × (sv' : Memory) × (q' : Queue (Payload sample ℕ))
    × (w' : ℕ) × ((submit_all sample sample_redis payload_codec pool tools config tree sample_rules
              (with_proof 1 ∷ with_proof 1 ∷ [])
            >> run_rounds sample sample_redis payload_codec pool tools config tree sample_rules 2)
          (relayer_at sample sample_redis payload_codec pool tools config tree sample_rules
            (initial sample)
            (fresh sample)
            server
            0
            [])
        ≡ (
          ok tt,
          relayer_at sample sample_redis payload_codec pool tools config tree sample_rules t' x' sv'
              w'
              (22 ∷ 22 ∷ []),
        ))
    × InStep sample sample_redis payload_codec t' x' (22 ∷ 22 ∷ [])
    × Shows sample_redis payload_codec sv' q'
    × (q'.waiting ≡ [])
    × ((k : ℕ) → k < 2 → q'.status (0 + 1 + k) ≡ some completed)
submit_all-run_rounds_example =
    submit_all-run_rounds sample sample_redis payload_codec pool tools config tree sample_rules
      defaults small (omega arith) willing (with_proof 1 ∷ with_proof 1 ∷ []) (22 ∷ 22 ∷ []) []
      (initial sample) (fresh sample) server no_jobs 0 start no_jobs_Shows refl batch (omega arith)

late_requests_fail_example :
    (t' : Tables sample) × (x' : TxTables sample) × (sv' : Memory) × (w' : ℕ) × (late_requests
        sample sample_redis payload_codec pool tools config tree sample_rules
        (with_proof 1)
        (with_proof 1)
        (with_proof 1)
        (with_proof 1)
        (relayer_at sample sample_redis payload_codec pool tools config tree sample_rules
          (initial sample)
          (fresh sample)
          server
          0
          [])
      ≡ (
        ok (
          refused_at sample sample_redis payload_codec pool tools config tree sample_rules 128 256,
          refused_at sample sample_redis payload_codec pool tools config tree sample_rules 256 384,
        ),
        relayer_at sample sample_redis payload_codec pool tools config tree sample_rules t' x' sv'
            w'
            (22 ∷ 22 ∷ []),
      ))
    × Represents sample t' (22 ∷ 22 ∷ 22 ∷ 22 ∷ [])
    × (next_of sample x' ≡ 256)
late_requests_fail_example =
    late_requests_fail sample sample_redis payload_codec pool tools config tree sample_rules
      defaults small (omega arith) willing [] (initial sample) (fresh sample) server no_jobs 0
      (with_proof 1) (with_proof 1) (with_proof 1) (with_proof 1) (parsed_tx 1) (parsed_tx 1)
      (parsed_tx 1) (parsed_tx 1) start no_jobs_Shows refl (accepted 0 no_errors_0)
      (accepted 0 no_errors_0) (accepted 128 no_errors_128) (accepted 256 no_errors_256)
      (omega arith) (omega arith)
