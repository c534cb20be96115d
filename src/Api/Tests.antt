-- ===== src/Api/Tests.antt =====
-- Examples for src/json_api.rs: numbers as field elements, a delta that moves nothing, and the number
-- of bytes as the fee that is read.
use zeropool_relayer_rs.Prelude.{
  ℕ, String, ◌+◌, ◌≢◌, refl, ◌++◌, replicate, arith, ◌≡◌, ◌≤◌, ◌<◌, ◌↔◌, true, Bool, none, some,
  map, ◌==◌, if◌then◌else◌, List, [], ◌∷◌, length, get_elem?,
}
use zeropool_relayer_rs.Exec.{ok, panic}
use zeropool_relayer_rs.Sample.{sample, sample_redis, Memory}
use zeropool_relayer_rs.Sample.Payloads.{payload_codec}
use zeropool_relayer_rs.Sample.Relayer.{
  tree, defaults, small, server, no_jobs, no_jobs_Shows, one, pool, config,
}
use zeropool_relayer_rs.Sample.Requests.{
  read_length, long_enough, sample_rules, with_proof, parsed_tx, with_proof_parsed, five_left,
}
use zeropool_relayer_rs.Merkle.Storage.{Tables}
use zeropool_relayer_rs.Merkle.Spec.{root_of}
use zeropool_relayer_rs.TxStorage.{TxTables, record_bytes}
use zeropool_relayer_rs.TxStorage.Range.{IsListing}
use zeropool_relayer_rs.TxStorage.Write.{IsWrite}
use zeropool_relayer_rs.JobQueue.{JobStatus}
use zeropool_relayer_rs.JobQueue.Queue.{Shows, enqueue}
use zeropool_relayer_rs.Worker.{Payload}
use zeropool_relayer_rs.Worker.Prepare.{InStep}
use zeropool_relayer_rs.Worker.Process.{Relayer}
use zeropool_relayer_rs.Worker.Await.{relayer}
use zeropool_relayer_rs.Api.Handlers.{
  AppResult, answered, refused, job, info, tx_validation_errors, create_transaction,
  TxPaginationQuery, get_transactions, get_transactions_legacy,
}
use zeropool_relayer_rs.Api.Create.{create_transaction_accepts, create_transaction_refuses}
use zeropool_relayer_rs.Api.Lists.{Flagged, StatusAnswer, missing, given, queries_tell_state}
use zeropool_relayer_rs.Api.{Validation, TxDataRequest, validate_tx, has_invalid_values}
use zeropool_relayer_rs.Api.Validate.{IsValid, validate_tx_lem}
use zeropool_relayer_rs.Tx.{deposit, TxValidationError}

abbrev rules : Validation ℕ Bool
rules = record {
  verify = λ p inputs. p;
  parse_delta = λ d. record { token_amount = d; energy_amount = 0; transfer_index = 0 };
  read_u64 = read_length;
  read_u64-short = λ memo h. rw h;
  read_u64-long = long_enough;
}

abbrev request : TxDataRequest ℕ Bool
request = record {
  tx_type = deposit;
  proof = record { proof = true; inputs = 1 ∷ 2 ∷ 3 ∷ 70 ∷ [] };
  memo = 0 ∷ 0 ∷ 0 ∷ 0 ∷ 0 ∷ 0 ∷ 0 ∷ 9 ∷ [];
  extra_data = [];
}

validate_tx_lem_example :
    (length request.memo < 8 → validate_tx rules 5 128 request ≡ panic)
    × (get_elem? request.proof.inputs 3 ≡ none → validate_tx rules 5 128 request ≡ panic)
    × ((delta : ℕ)
        → 8 ≤ length request.memo
        → get_elem? request.proof.inputs 3 ≡ some delta
        → (fee : ℕ) × (errors : List TxValidationError) × (read_length request.memo ≡ some fee)
          × (validate_tx rules 5 128 request ≡ ok errors)
          × ((errors ≡ []) ↔ IsValid rules 5 128 request fee delta))
validate_tx_lem_example = validate_tx_lem rules 5 128 request

no_errors : validate_tx sample_rules 5 128 (with_proof 1) ≡ ok []
unfolding validate_tx has_invalid_values
no_errors = refl

abbrev one_stored : Relayer sample sample_redis payload_codec pool
one_stored =
    relayer sample sample_redis payload_codec pool one.tree_after one.transactions_after server 128
      128 0

create_transaction_accepts_example :
    (t' : Tables sample) × (x' : TxTables sample) × (sv' : Memory) × (payload : Payload sample ℕ)
    × (create_transaction sample sample_redis payload_codec pool tree sample_rules config
          (with_proof 1)
          one_stored
        ≡ (
          ok (answered (record { job_id = 0 + 1 })),
          relayer sample sample_redis payload_codec pool t' x' sv' 128 128 0,
        ))
    × InStep sample sample_redis payload_codec t' x' (11 ∷ 22 ∷ [])
    × IsWrite sample one.transactions_after 128
        (record_bytes sample 22 (replicate 32 0) (5 ∷ []))
        x'
    × Shows sample_redis payload_codec sv' (enqueue payload no_jobs)
    × (payload.next_commit_index ≡ 1)
    × (payload.tx ≡ parsed_tx 1)
    × (payload.tree_pub.root_after ≡ root_of sample (11 ∷ 22 ∷ []))
create_transaction_accepts_example =
    create_transaction_accepts sample sample_redis payload_codec pool tree sample_rules config
      defaults one.tree_after one.transactions_after server 128 128 128 0 (11 ∷ []) no_jobs
      (with_proof 1) (parsed_tx 1) (5 ∷ []) one.in_step no_jobs_Shows no_errors
      (with_proof_parsed 1) refl five_left (omega arith) small (omega arith)

not_verified :
    (fee : ℕ)
    → read_length (with_proof 0).memo ≡ some fee
    → ¬ IsValid sample_rules 5 128 (with_proof 0) fee 70
unfolding IsValid
not_verified fee e valid = absurd (cc (valid.0))

create_transaction_refuses_example :
    (errors : List TxValidationError) × (create_transaction sample sample_redis payload_codec pool
        tree sample_rules config
        (with_proof 0)
        one_stored
      ≡ (ok (refused (tx_validation_errors (errors ++ []))), one_stored))
    × (validate_tx sample_rules 5 128 (with_proof 0) ≡ ok errors)
    × (errors ≢ [])
create_transaction_refuses_example =
    create_transaction_refuses sample sample_redis payload_codec pool tree sample_rules config
      one_stored (with_proof 0) (parsed_tx 0) 70 [] 128 (omega arith) refl (with_proof_parsed 0)
      not_verified refl

abbrev first_page : TxPaginationQuery
first_page = record { offset = none; limit = some 2 }

abbrev digits : ℕ → String
digits n = if n == 128 then "128" else if n == 0 then "0" else "?"

queries_tell_state_example :
    (txs : List (ℕ × List ℕ)) × (shown : List (Bool × List ℕ)) × (answer : AppResult JobStatus)
    × IsListing sample one.transactions_after 0 (some 256) txs
    × (get_transactions sample sample_redis payload_codec pool first_page one_stored
        ≡ (ok (answered (map (λ tx. tx.1) txs)), one_stored))
    × Flagged 128 txs shown
    × (get_transactions_legacy sample sample_redis payload_codec pool first_page one_stored
        ≡ (ok (answered shown), one_stored))
    × StatusAnswer none answer
    × (job sample sample_redis payload_codec pool 7 one_stored ≡ (ok answer, one_stored))
    × (info sample sample_redis payload_codec pool tree digits digits one_stored ≡ (
      ok (
          answered (record {
            backend = "mock";
            api_version = "3";
            root = "0";
            optimistic_root = digits (root_of sample (11 ∷ []));
            pool_index = "128";
            optimistic_index = "128";
          })),
      one_stored,
    ))
queries_tell_state_example =
    queries_tell_state sample sample_redis payload_codec pool tree defaults one.tree_after
      one.transactions_after server 128 128 0 (11 ∷ []) no_jobs first_page 0 2 7 digits digits
      one.in_step.represents one.in_step.transactions no_jobs_Shows missing (given 2)
