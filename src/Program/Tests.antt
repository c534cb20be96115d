-- ===== src/Program/Tests.antt =====
-- Examples for src/main.rs: a start behind the pool with a batch of deposits after it, and a start with a
-- job that waits since the last run.
use text.Mathlib.Text.{◌==◌ as str_eq}
use zeropool_relayer_rs.Prelude.{
  ℕ, ◌+◌, ◌*◌, ◌^◌, ◌≡◌, ◌<◌, refl, true, none, some, String, List, [], ◌∷◌, ◌==◌, if◌then◌else◌,
  arith,
}
use zeropool_relayer_rs.Exec.{Outcome, ok}
use zeropool_relayer_rs.Sample.{sample, sample_redis, Memory}
use zeropool_relayer_rs.Sample.Payloads.{payload_codec}
use zeropool_relayer_rs.Sample.Relayer.{small, server, no_jobs, no_jobs_Shows, start, one, tools}
use zeropool_relayer_rs.Sample.Requests.{sample_rules, with_proof, parsed_tx, with_proof_parsed}
use zeropool_relayer_rs.Sample.Fetched.{
  parse, whole_memo, tx_of, fetched_two, fetched_two_Parses, one_left,
}
use zeropool_relayer_rs.Merkle.Storage.{Tables}
use zeropool_relayer_rs.Merkle.Spec.{root_of}
use zeropool_relayer_rs.Merkle.Open.{opened, initial, opened-HasDefaults}
use zeropool_relayer_rs.TxStorage.{TxTables, fresh, stride}
use zeropool_relayer_rs.Merkle.Tree.{tree_height}
use zeropool_relayer_rs.JobQueue.Queue.{Queue}
use zeropool_relayer_rs.Config
use zeropool_relayer_rs.Config.{Config, Environment, mock, backend_of}
use zeropool_relayer_rs.Backend.{BlockchainBackend}
use zeropool_relayer_rs.Backend.Choice.{ChainCrates, Chosen, chosen_mock, new_backend}
use zeropool_relayer_rs.Worker.{Payload}
use zeropool_relayer_rs.Worker.Await.{relayer}
use zeropool_relayer_rs.State.Params.{Groth16Crates, Groth16Params, groth16_params}
use zeropool_relayer_rs.State.Init.{Files}
use zeropool_relayer_rs.State.Boot.{files_of}
use zeropool_relayer_rs.State.Start.{no_files, fetched}
use zeropool_relayer_rs.Api.{TxDataRequest, validate_tx, has_invalid_values}
use zeropool_relayer_rs.Api.Backlog.{
  IsWilling, IsAccepted, Accepted, no_request, request, submit_all,
}
use zeropool_relayer_rs.Api.Backlog.Submit.{IsLined, submit_all-IsLined}
use zeropool_relayer_rs.Api.Backlog.Pipeline.{idle-IsLined}
use zeropool_relayer_rs.Program.{Machine, Serving}
use zeropool_relayer_rs.Program.Ready.{IsReady, serving_at}
use zeropool_relayer_rs.Program.Serve.{Session, main-submit_all, main-no_files}

abbrev environment : Environment
environment = record {
  var = λ name. if str_eq name "BACKEND" then some "mock" else some "1";
  parse_u16 = λ _. some 8000;
  parse_u64 = λ _. some 5;
  parse_bool = λ _. some true;
  evm_config = λ _. none;
  near_config = λ _. none;
  waves_config = λ _. none;
}

abbrev config : Config
config = record { port = 8000; backend = mock; redis_url = "1"; fee = 5; mock_prover = true }

abbrev crates : ChainCrates sample ℕ
crates = record {
  evm = record {
    Transport = String;
    Address = String;
    Contract = String;
    SecretKey = String;
    transport = ok;
    parse_address = some;
    pool_contract = λ transport address. ok address;
    token_contract = λ transport address. ok address;
    parse_key = some;
  };
  near = record {
    Signer = String;
    secret_key = λ account text. some text;
    read = parse;
    bs58_decode = λ _. none;
    bs58_encode = λ _. "";
  };
  waves = record {
    PrivateKey = String;
    Address = String;
    from_seed = λ text nonce. some text;
    from_string = some;
    get_height = λ _. ok 0;
    get_balance = λ profile address. ok 0;
    read = parse;
    bs58_decode = λ _. none;
    bs58_encode = λ _. "";
  };
}

-- A pool whose index is its state, with two transactions.
abbrev two_sent : BlockchainBackend sample ℕ
two_sent = record {
  World = ℕ;
  name = "sample";
  fetch_latest_transactions = λ w. (ok fetched_two, w);
  validate_tx = λ tx w. (ok [], w);
  send_tx = λ tx w. (ok [], w + 128);
  get_pool_index = λ w. (ok w, w);
  get_merkle_root = λ index w.
      (ok (some (if index == 0 then root_of sample [] else root_of sample (11 ∷ 22 ∷ []))), w);
  parse_calldata = parse;
  extract_ciphertext = whole_memo;
  parse_hash = λ text. ok [];
  format_hash = λ tx_hash. "";
}

abbrev methods : Chosen sample crates → BlockchainBackend sample ℕ
methods _ = two_sent

abbrev key_files : Groth16Crates
key_files = record {
  Parameters = List ℕ;
  Vk = String;
  read_to_string = ok;
  read_file = λ path. ok [];
  from_json = some;
  read_parameters = some;
}

abbrev keys : Outcome (Groth16Params key_files)
keys = groth16_params key_files

abbrev params : Groth16Params key_files
params = record {
  tree_params = [];
  tree_vk = "params/tree_verification_key.json";
  transfer_vk = "params/transfer_verification_key.json";
}

abbrev machine_with :
    Files sample sample_redis payload_codec two_sent
    → Machine sample sample_redis payload_codec crates methods keys
machine_with files = record {
  environment = environment;
  client_open = λ _. ok tt;
  can_bind = λ _. true;
  files = λ _. files;
}

ready :
    (files : Files sample sample_redis payload_codec two_sent)
    → IsReady sample sample_redis payload_codec crates methods keys
        (machine_with files)
        config
        chosen_mock
        params
unfolding Config.init backend_of new_backend groth16_params
ready files = record { settings = refl; backend = refl; client = refl; read = refl; free = refl }

abbrev willing :
    IsWilling sample sample_redis payload_codec two_sent tools config (opened sample) sample_rules
willing = record {
  validates = λ tx w. refl;
  proves = λ payload. (0, refl);
  sends = λ full w. (_, _, refl);
}

no_errors :
    (validate_tx sample_rules 5 0 (with_proof 1) ≡ ok [])
    × (validate_tx sample_rules 5 256 (with_proof 1) ≡ ok [])
unfolding validate_tx has_invalid_values
no_errors = (refl, refl)

abbrev accepted :
    (index : ℕ)
    → validate_tx sample_rules 5 index (with_proof 1) ≡ ok []
    → IsAccepted sample sample_redis payload_codec two_sent tools config
        (opened sample)
        sample_rules
        index
        (with_proof 1)
        (parsed_tx 1)
accepted index valid = record {
  valid = valid;
  parsed = with_proof_parsed 1;
  text = (with_proof 1).memo;
  extracted = refl;
}

abbrev single :
    (index : ℕ)
    → validate_tx sample_rules 5 index (with_proof 1) ≡ ok []
    → Accepted sample sample_redis payload_codec two_sent tools config
        (opened sample)
        sample_rules
        index
        (with_proof 1 ∷ [])
        (22 ∷ [])
single index valid = request (with_proof 1) [] (parsed_tx 1) [] (accepted index valid) no_request

abbrev serving :
    Tables sample
    → TxTables sample
    → Memory
    → ℕ
    → List ℕ
    → Serving sample sample_redis payload_codec crates methods keys
serving t x sv w all =
    serving_at sample sample_redis payload_codec crates methods keys chosen_mock tools config params
      sample_rules t x sv w all

abbrev behind : Files sample sample_redis payload_codec two_sent
behind =
    files_of sample sample_redis payload_codec two_sent one.tree_after one.transactions_after server
      256

abbrev Served :
    ℕ
    → List ℕ
    → List (TxDataRequest ℕ ℕ)
    → List ℕ
    → Files sample sample_redis payload_codec two_sent
    → Type 0
Served w now all new_commits files =
    Session sample sample_redis payload_codec crates methods keys chosen_mock tools
      (machine_with files) config params sample_rules server no_jobs w now all new_commits

main-submit_all_example : Served 256 (11 ∷ 22 ∷ []) (with_proof 1 ∷ []) (22 ∷ []) behind
main-submit_all_example =
    main-submit_all sample sample_redis payload_codec crates methods keys chosen_mock tools
      (machine_with behind) config params sample_rules (ready behind) small (omega arith)
      (omega arith) willing one.tree_after one.transactions_after server no_jobs 256 256 256
      (11 ∷ []) (22 ∷ []) (22 ∷ []) (tx_of 11 ∷ []) (tx_of 22 ∷ []) (with_proof 1 ∷ []) refl
      one.in_step no_jobs_Shows refl (record { w1 = 256; index = refl; root = refl }) refl refl
      one_left (omega arith) (single 256 no_errors.1) (omega arith)

abbrev absent : Files sample sample_redis payload_codec two_sent
absent = no_files sample sample_redis payload_codec two_sent server 256

main-no_files_example : Served 256 (11 ∷ 22 ∷ []) (with_proof 1 ∷ []) (22 ∷ []) absent
main-no_files_example =
    main-no_files sample sample_redis payload_codec crates methods keys chosen_mock tools
      (machine_with absent) config params sample_rules (ready absent) small (omega arith)
      (omega arith) willing server no_jobs 256 256 256 (11 ∷ 22 ∷ []) (22 ∷ []) fetched_two
      (with_proof 1 ∷ []) refl no_jobs_Shows refl (record { w1 = 256; index = refl; root = refl })
      (fetched (tx_of 11) (tx_of 22 ∷ []) 256 refl) fetched_two_Parses (single 256 no_errors.1)
      (omega arith)

-- A deposit that is submitted, but not sent before the program stops.
abbrev bounded : 2 ^ tree_height sample * stride sample + stride sample < 2 ^ 64
bounded = omega arith

submitted :
    (t : Tables sample) × (x : TxTables sample) × (sv : Memory) × (q : Queue (Payload sample ℕ))
    × (submit_all sample sample_redis payload_codec two_sent tools config
          (opened sample)
          sample_rules
          (with_proof 1 ∷ [])
          (relayer sample sample_redis payload_codec two_sent
            (initial sample)
            (fresh sample)
            server
            0
            0
            0)
        ≡ (ok tt, relayer sample sample_redis payload_codec two_sent t x sv 0 0 0))
    × IsLined sample sample_redis payload_codec two_sent tools config
        (opened sample)
        sample_rules
        (opened-HasDefaults sample)
        small
        bounded
        willing
        t
        x
        sv
        q
        []
        (22 ∷ [])
        1
submitted =
    submit_all-IsLined sample sample_redis payload_codec two_sent tools config (opened sample)
      sample_rules (opened-HasDefaults sample) small bounded willing 0 (with_proof 1 ∷ []) (22 ∷ [])
      [] [] 1 (initial sample) (fresh sample) server no_jobs 0 0 (single 0 no_errors.0)
      (idle-IsLined sample sample_redis payload_codec two_sent tools config (opened sample)
        sample_rules (opened-HasDefaults sample) small bounded willing [] (initial sample)
        (fresh sample) server no_jobs start no_jobs_Shows refl)
      (omega arith)

abbrev stopped : Files sample sample_redis payload_codec two_sent
stopped = files_of sample sample_redis payload_codec two_sent submitted.0 submitted.1 submitted.2 0
